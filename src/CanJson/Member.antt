-- ===== src/CanJson/Member.antt =====
-- src/can_json.c: `add_propertyMember`. `none` is undefined behaviour: a list that is read through
-- NULL, or a name that `sprintf` writes past the end of its buffer. `strdup` is taken to succeed.
pub mod Laws
pub mod Defined
pub mod Typed
use agl_can_binder.Base.{
  ℕ, ◌+◌, ◌%◌, ◌^◌, Bool, not, ◌&&◌, Option, none, some, List, [], ◌∷◌, ◌++◌, length, leb, ltb,
  ◌==◌, u8, CString, codes, str_eq, if◌then◌else◌, ◌>>=◌, ℤ, pos, negsuc,
}
use agl_can_binder.CanidInfo.Types.{
  VarType, void_t, Strings, Timeval, CanBit, Property, can_kind_send,
}
use agl_can_binder.CanidInfo.VarTypes.{string2vartype, vartype_of}
use agl_can_binder.CanJson.JsonC.{JsonC, members}
use agl_can_binder.CanJson.Zone.{get_zone_name}
use agl_can_binder.CanJson.Tables.{create_convert_tables}

-- The local variables, with the strings that are kept.
pub record Fields : Type 0 where
  pub byte_pos : ℕ
  pub bit_pos : ℕ
  pub bit_len : ℕ
  pub var_type : VarType
  pub name : Option CString
  pub zone : Option CString
  pub dataconv : Option (List ℕ)
  pub nconv : ℕ
  pub strings : Strings

abbrev pub no_fields : Strings → Fields
no_fields strings = record {
  byte_pos = 0;
  bit_pos = 0;
  bit_len = 0;
  var_type = void_t;
  name = none;
  zone = none;
  dataconv = none;
  nconv = 0;
  strings = strings;
}

-- A value that is cut to a byte, and set to 0 above a limit.
abbrev pub byte_up_to : ℕ → ℕ → ℕ
byte_up_to limit v = if ltb limit (u8 v) then 0 else u8 v

-- An unknown type is VOID_T.
abbrev pub type_or_void : Option VarType → VarType
type_or_void none = void_t
type_or_void (some t) = t

unfoldable pub type_named : ℤ → VarType
type_named (negsuc n) = void_t
type_named (pos n) = type_or_void (vartype_of n)

-- The table of `SET-DATA`; `nconv` is written where there is a table.
abbrev pub with_table : Strings × Option (List ℕ) → Fields → Fields
with_table (strings, none) f = record f { dataconv = none; strings = strings }
with_table (strings, some table) f = record f {
  dataconv = some table;
  nconv = length table;
  strings = strings;
}

-- The keys that the loop tells apart.
pub data Key : Type 0 where
  pos_key offs_key len_key property_key zone_key type_key set_data_key other_key : Key

-- The chain of comparisons.
unfoldable pub key_of : CString → Key
key_of key =
    if str_eq (codes "POS") key
    then pos_key
    else if str_eq (codes "OFFS") key
    then offs_key
    else if str_eq (codes "LEN") key
    then len_key
    else if str_eq (codes "PROPERTY") key
    then property_key
    else if str_eq (codes "ZONE") key
    then zone_key
    else if str_eq (codes "TYPE") key
    then type_key
    else if str_eq (codes "SET-DATA") key
    then set_data_key
    else other_key

-- The size of `buf`.
abbrev pub buf_size : ℕ
buf_size = 256

abbrev pub name_or_unknown : Option CString → CString
name_or_unknown none = codes "Unknown"
name_or_unknown (some name) = name

-- `sprintf(buf, "%s@%s", name, zone)`
unfoldable pub full_name : Option CString → Option CString → Option CString
full_name name none = some (name_or_unknown name)
full_name name (some zone) =
    let text = name_or_unknown name ++ codes "@" ++ zone in
    if ltb (length text) buf_size then some text else none

-- The entry that is written into the cleared array.
abbrev pub property_of : ℕ → CString → Fields → Property
property_of property_kind name f = record {
  head = record {
    name = name;
    property_kind = property_kind;
    byte_pos = f.byte_pos;
    bit_pos = f.bit_pos;
    bit_len = f.bit_len;
    var_type = f.var_type;
    dataconv = f.dataconv;
    nconv = f.nconv;
    updatetime = record { tv_sec = 0; tv_usec = 0 };
    cur_value = 0;
  };
  next = [];
  applyinfo = none;
}

module _ {J : Type 0} (json : JsonC J) (property_kind : ℕ) where
  -- The branch of a key. The keys that are ignored, and unknown ones, change nothing.
  unfoldable pub member_branch : Key → Option J → Fields → Option Fields
  unfolding type_named
  member_branch pos_key val f = some (record f { byte_pos = byte_up_to 8 (json.get_int val) })
  member_branch offs_key val f = some (record f { bit_pos = byte_up_to 8 (json.get_int val) })
  member_branch len_key val f = some (record f { bit_len = byte_up_to 32 (json.get_int val) })
  member_branch property_key val f = some (record f { name = json.get_string val })
  member_branch zone_key val f = do zone ← get_zone_name json val; some (record f { zone = zone })
  member_branch type_key val f =
      some (record f { var_type = type_named (string2vartype (json.get_string val)) })
  member_branch set_data_key val f =
      if property_kind == can_kind_send
      then some f
      else some (with_table (create_convert_tables json val f.var_type f.strings) f)
  member_branch other_key val f = some f

  abbrev pub member_field : CString → Option J → Fields → Option Fields
  member_field key val f = member_branch (key_of key) val f

  unfoldable pub member_fields : List (CString × Option J) → Fields → Option Fields
  member_fields [] f = some f
  member_fields ((key, val) ∷ rest) f = do f' ← member_field key val f; member_fields rest f'

  unfoldable pub add_property_member : Option J → Strings → Option (Property × Strings)
  unfolding member_fields full_name
  add_property_member obj strings = do
    l ← members json obj
    f ← member_fields l (no_fields strings)
    name ← full_name f.name f.zone
    some (property_of property_kind name f, f.strings)
