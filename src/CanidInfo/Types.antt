-- ===== src/CanidInfo/Types.antt =====
-- src/canid_info.h: the types. A pointer to the owner (`mycanid`) is containment: a property
-- stands in the list of its CAN-ID. The list `next` of a property hangs on its head, and
-- `applyinfo` is a position in that list, 0 for the head itself. The union `curValue` is its first
-- eight bytes, little-endian; the bytes above are written by `memset` alone. A string pointer is
-- an address: 0 is NULL, and address a is entry a - 1 of the strings that `strdup` stored, which
-- are never changed. `property_type`, which no code reads, is left out, and so is `nData`, the
-- length of `property`.
use agl_can_binder.Base.{ℕ, ◌-◌, Option, List, CString, get_or, ℤ, []}

-- enum var_type_t
pub data VarType : Type 0 where
  void_t int8_t int16_t int_t int32_t int64_t uint8_t uint16_t uint_t uint32_t uint64_t : VarType
  string_t bool_t array_t enable1_t : VarType

-- update_stat_t
pub data UpdateStat : Type 0 where
  upstat_error upstat_no_updated upstat_updated : UpdateStat

-- CAN_KIND_SEND of enum can_property_kind_t
abbrev pub can_kind_send : ℕ
can_kind_send = 2

-- The strings that the process keeps, by address.
abbrev pub Strings : Type 0
Strings = List CString

unfoldable pub text_at : Strings → ℕ → CString
text_at strings a = get_or strings (a - 1) []

-- struct timeval, at or after the epoch.
pub record Timeval : Type 0 where
  pub tv_sec : ℕ
  pub tv_usec : ℕ

-- The eight bytes of a frame.
pub record FrameData : Type 0 where
  pub d0 : ℕ
  pub d1 : ℕ
  pub d2 : ℕ
  pub d3 : ℕ
  pub d4 : ℕ
  pub d5 : ℕ
  pub d6 : ℕ
  pub d7 : ℕ

-- struct can_frame (of the kernel's headers)
pub record CanFrame : Type 0 where
  pub can_id : ℕ
  pub can_dlc : ℕ
  pub bytes : FrameData

-- struct can_bit_t, without its links. An entry of `dataconv` is the 32-bit pattern of an int, or
-- the address of a string where `var_type` is `string_t`.
pub record CanBit : Type 0 where
  pub name : CString
  pub property_kind : ℕ
  pub byte_pos : ℕ
  pub bit_pos : ℕ
  pub bit_len : ℕ
  pub var_type : VarType
  pub dataconv : Option (List ℕ)
  pub nconv : ℕ
  pub updatetime : Timeval
  pub cur_value : ℕ

-- A property of a CAN-ID with the entries that hang on its `next`.
pub record Property : Type 0 where
  pub head : CanBit
  pub next : List CanBit
  pub applyinfo : Option ℕ

-- struct canid_info_t, with the timer's descriptor.
pub record CanidInfo : Type 0 where
  pub canid : ℕ
  pub dlc : ℕ
  pub mode : ℕ
  pub cycle : ℕ
  pub canraw_frame : CanFrame
  pub timerfd : ℤ
  pub kind : ℕ
  pub property : List Property
