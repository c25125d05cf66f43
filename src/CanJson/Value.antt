-- ===== src/CanJson/Value.antt =====
-- src/can_json.c: `property2json`. The answer is the object {"value": v}, given here by v; `none` is
-- NULL. The library's constructors of JSON values are assumed to succeed.
use agl_can_binder.Base.{
  ℕ, zero, suc, ◌/◌, ◌^◌, Bool, not, Option, none, some, List, [], ◌∷◌, get_elem?, ◌==◌,
  if◌then◌else◌, u8, u32, u64, ℤ, pos, negsuc, signed32, CString, codes,
}
use agl_can_binder.CanidInfo.Types.{
  VarType, uint64_t, string_t, bool_t, array_t, Strings, text_at, CanBit, Property,
}
use agl_can_binder.CanidInfo.Value.{property_value_int}
use agl_can_binder.CanSignalEvent.Ivi.{chain}

pub data Json : Type 0 where
  json_int : ℤ → Json
  json_string : CString → Json
  json_boolean : Bool → Json
  json_array : List ℤ → Json

-- array_values.array[i]: the first entry is the upper half of the eight bytes, and the bytes above
-- are 0.
abbrev array_entry : ℕ → ℕ → ℤ
array_entry w zero = signed32 (u32 (w / 2 ^ 32))
array_entry w (suc i) = pos 0

-- The loop over number_of_entry.
array_entries : ℕ → ℕ → ℕ → List ℤ
array_entries w i zero = []
array_entries w i (suc n) = array_entry w i ∷ array_entries w (suc i) n

array_of : ℕ → ℤ → List ℤ
unfolding array_entries
array_of w (pos n) = array_entries w 0 n
array_of w (negsuc n) = []

-- The `switch` over the type of one entry.
unfoldable pub value_object : Strings → CanBit → VarType → Option Json
unfolding array_of
value_object strings p string_t =
    some (
      json_string
        (if u64 p.cur_value == 0 then codes "null" else text_at strings (u64 p.cur_value)))
value_object strings p bool_t = some (json_boolean (not (u8 p.cur_value == 0)))
value_object strings p array_t =
    some (json_array (array_of p.cur_value (signed32 (u32 p.cur_value))))
value_object strings p uint64_t = none
value_object strings p _ = some (json_int (property_value_int p))

unfoldable pub entry2json : Strings → CanBit → Option Json
unfolding value_object
entry2json strings p = value_object strings p p.var_type

-- The applied entry answers for the property; the entries of the list have no `applyinfo` of their
-- own. An `applyinfo` outside the list is no pointer.
unfoldable pub property2json : Strings → Property → Option Json
unfolding entry2json
property2json strings p = elim p.applyinfo [
  | none ↦ entry2json strings p.head
  | some m ↦ elim (get_elem? (chain p) m) [ none ↦ none | some entry ↦ entry2json strings entry ]
]
