-- ===== src/CanidInfo/Update/Laws.antt =====
-- What `_updatePropertyValue` does on every branch: when it refuses, what it stores, and that it
-- touches nothing but the value.
use agl_can_binder.Base.{
  ℕ, ◌^◌, ◌≤◌, ◌<◌, ◌≡◌, refl, ◌≢◌, ◌↔◌, inl, inr, Bool, true, false, none, some, get_or, leb, u8,
  u16, u32, promote_i8, promote_i16, ℤ, pos, signed32, arith, Option-cases,
}
use agl_can_binder.CanidInfo.Types.{
  VarType, void_t, int8_t, int16_t, int64_t, uint8_t, uint16_t, uint64_t, string_t, bool_t, array_t,
  enable1_t, UpdateStat, upstat_error, Strings, CanBit, Timeval,
}
use agl_can_binder.CanidInfo.Value.{read_int, property_value_int}
use agl_can_binder.CanidInfo.Update.{
  assign, update_plain, update_converted, update_property_value, truth,
}

-- The types that have no value without a conversion table.
abbrev pub needs_table : VarType → Bool
needs_table string_t = true
needs_table enable1_t = true
needs_table _ = false

-- The inputs that are refused: past the table, or a type that wants a table and has none.
abbrev pub rejects : CanBit → ℕ → Bool
rejects p v = elim p.dataconv [ none ↦ needs_table p.var_type | some _ ↦ leb p.nconv v ]

assign-layout :
    (p : CanBit) (b : Bool) (w : ℕ) (s : UpdateStat)
    → (assign p b w s).0 ≡ record p { cur_value = (assign p b w s).0.cur_value }
unfolding assign
assign-layout p true w s = refl
assign-layout p false w s = refl

update_plain-layout :
    (p : CanBit) (t : VarType) (x : ℕ)
    → (update_plain p t x).0 ≡ record p { cur_value = (update_plain p t x).0.cur_value }
unfolding update_plain
update_plain-layout p void_t x = assign-layout p _ _ _
update_plain-layout p _ x = ground arith

update_converted-layout :
    (mem : Strings) (p : CanBit) (t : VarType) (c x : ℕ)
    → (update_converted mem p t c x).0
      ≡ record p { cur_value = (update_converted mem p t c x).0.cur_value }
unfolding update_converted
update_converted-layout mem p void_t c x = assign-layout p _ _ _
update_converted-layout mem p _ c x = ground arith

-- An update changes the current value of the property and no other field.
pub update_property_value-layout :
    (mem : Strings) (p : CanBit) (v : ℕ)
    → (update_property_value mem p v).0
      ≡ record p { cur_value = (update_property_value mem p v).0.cur_value }
unfolding update_property_value
update_property_value-layout mem p v = elim (Option-cases p.dataconv) [
  | inl e ↦ ground (arith, update_plain-layout p p.var_type v)
  | inr (conv, e) ↦ ground (arith, update_converted-layout mem p p.var_type (get_or conv v 0) v)
]

update_plain-error :
    (p : CanBit) (t : VarType) (x : ℕ)
    → ((update_plain p t x).1 ≡ upstat_error) ↔ (needs_table t ≡ true)
unfolding update_plain
update_plain-error p void_t x = ground arith
update_plain-error p _ x = ground arith

update_converted-ne-error :
    (mem : Strings) (p : CanBit) (t : VarType) (c x : ℕ)
    → (update_converted mem p t c x).1 ≢ upstat_error
unfolding update_converted
update_converted-ne-error mem p void_t c x = ground arith
update_converted-ne-error mem p _ c x = ground arith

-- An update is refused exactly at the inputs of `rejects`.
pub update_property_value-error :
    (mem : Strings) (p : CanBit) (v : ℕ)
    → ((update_property_value mem p v).1 ≡ upstat_error) ↔ (rejects p v ≡ true)
unfolding update_property_value
update_property_value-error mem p v = elim (Option-cases p.dataconv) [
  | inl e ↦ ground (arith, update_plain-error p p.var_type v)
  | inr (conv, e) ↦ ground (arith, update_converted-ne-error mem p p.var_type (get_or conv v 0) v)
]

-- A refused update changes nothing.
pub update_property_value-rejected :
    (mem : Strings) (p : CanBit) (v : ℕ)
    → rejects p v ≡ true
    → update_property_value mem p v ≡ (p, upstat_error)
unfolding update_property_value update_plain
update_property_value-rejected mem p v h = ground arith

-- A property of type bool holds 0 or 1.
abbrev pub HoldsTruth : VarType → ℕ → Type 0
HoldsTruth bool_t w = u8 w ≤ 1
HoldsTruth _ w = Unit {0}

-- The integer that a raw value, or an entry of the table, stands for under a type.
unfoldable pub int_of : VarType → ℕ → ℤ
int_of bool_t c = pos (truth (u32 c))
int_of uint8_t c = pos (u8 c)
int_of uint16_t c = pos (u16 c)
int_of int8_t c = signed32 (promote_i8 c)
int_of int16_t c = signed32 (promote_i16 c)
int_of _ c = signed32 (u32 c)

-- The types whose value is kept as an integer of 32 bits or fewer.
abbrev pub has_int : VarType → Bool
has_int string_t = false
has_int array_t = false
has_int uint64_t = false
has_int int64_t = false
has_int _ = true

update_plain-value :
    (p : CanBit) (t : VarType) (x : ℕ)
    → has_int t ≡ true
    → needs_table t ≡ false
    → x < 2 ^ 32
    → HoldsTruth t p.cur_value
    → (read_int t (update_plain p t x).0.cur_value ≡ int_of t x)
      × HoldsTruth t (update_plain p t x).0.cur_value
unfolding update_plain read_int int_of
update_plain-value p void_t x i n b h = ground arith
update_plain-value p _ x i n b h = ground arith

update_converted-value :
    (mem : Strings) (p : CanBit) (t : VarType) (c x : ℕ)
    → has_int t ≡ true
    → HoldsTruth t p.cur_value
    → (read_int t (update_converted mem p t c x).0.cur_value ≡ int_of t c)
      × HoldsTruth t (update_converted mem p t c x).0.cur_value
unfolding update_converted read_int int_of
update_converted-value mem p void_t c x i h = ground arith
update_converted-value mem p _ c x i h = ground arith

-- The value that an update stores: the raw value, or the entry of the table that it selects.
abbrev pub input : CanBit → ℕ → ℕ
input p v = elim p.dataconv [ none ↦ v | some conv ↦ get_or conv v 0 ]

pub property_value_int-update :
    (mem : Strings) (p : CanBit) (v : ℕ)
    → has_int p.var_type ≡ true
    → v < 2 ^ 32
    → HoldsTruth p.var_type p.cur_value
    → rejects p v ≡ false
    → (property_value_int (update_property_value mem p v).0 ≡ int_of p.var_type (input p v))
      × HoldsTruth p.var_type (update_property_value mem p v).0.cur_value
unfolding property_value_int update_property_value
property_value_int-update mem p v i b h r = elim (Option-cases p.dataconv) [
  | inl e ↦ ground (arith, update_plain-value p p.var_type v i, update_plain-layout p p.var_type v)
  | inr (conv, e) ↦ ground (
    arith,
    update_converted-value mem p p.var_type (get_or conv v 0) v i,
    update_converted-layout mem p p.var_type (get_or conv v 0) v,
  )
]

-- The time stamp plays no part.
abbrev timed : Timeval → CanBit × UpdateStat → CanBit × UpdateStat
timed t (p, s) = (record p { updatetime = t }, s)

update_plain-time :
    (p : CanBit) (t : VarType) (x : ℕ) (time : Timeval)
    → update_plain (record p { updatetime = time }) t x ≡ timed time (update_plain p t x)
unfolding update_plain
update_plain-time p void_t x time = ground arith
update_plain-time p _ x time = ground arith

update_converted-time :
    (mem : Strings) (p : CanBit) (t : VarType) (c x : ℕ) (time : Timeval)
    → update_converted mem (record p { updatetime = time }) t c x
      ≡ timed time (update_converted mem p t c x)
unfolding update_converted
update_converted-time mem p void_t c x time = ground arith
update_converted-time mem p _ c x time = ground arith

pub update_property_value-time :
    (mem : Strings) (p : CanBit) (v : ℕ) (time : Timeval)
    → update_property_value mem (record p { updatetime = time }) v ≡ (
      record (update_property_value mem p v).0 { updatetime = time },
      (update_property_value mem p v).1,
    )
unfolding update_property_value
update_property_value-time mem p v time = elim (Option-cases p.dataconv) [
  | inl e ↦ ground (arith, update_plain-time p p.var_type v time)
  | inr (conv, e) ↦ ground (arith, update_converted-time mem p p.var_type (get_or conv v 0) v time)
]
