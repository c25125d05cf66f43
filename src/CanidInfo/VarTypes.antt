-- ===== src/CanidInfo/VarTypes.antt =====
-- src/canid_info.c: `vartype_strings`, `vartype2string` and `string2vartype`.
pub mod Laws
use agl_can_binder.Base.{
  ℕ, zero, suc, Bool, Option, none, some, List, [], ◌∷◌, CString, codes, str_eq, ltb, leb, length,
  get_elem?, if◌then◌else◌, ℤ, pos, negsuc,
}
use agl_can_binder.CanidInfo.Types.{
  VarType, void_t, int8_t, int16_t, int_t, int32_t, int64_t, uint8_t, uint16_t, uint_t, uint32_t,
  uint64_t, string_t, bool_t, array_t, enable1_t,
}

unfoldable pub vartype_strings : List CString
vartype_strings =
    codes "void"
    ∷ codes "int8_t"
    ∷ codes "int16_t"
    ∷ codes "int"
    ∷ codes "int32_t"
    ∷ codes "int64_t"
    ∷ codes "uint8_t"
    ∷ codes "uint16_t"
    ∷ codes "uint"
    ∷ codes "uint32_t"
    ∷ codes "uint64_t"
    ∷ codes "string"
    ∷ codes "bool"
    ∷ codes "LIST"
    ∷ codes "ENABLE-1"
    ∷ []

-- What `vartype2string` returns: NULL, a string of the table, or what a read past the table's end
-- gives, which C leaves undefined.
pub data TypeName : Type 0 where
  null : TypeName
  name : CString → TypeName
  past_the_end : TypeName

table_read : Option CString → TypeName
table_read none = past_the_end
table_read (some s) = name s

pub vartype2string : ℕ → TypeName
unfolding table_read
vartype2string t =
    if ltb (length vartype_strings) t then null else table_read (get_elem? vartype_strings t)

-- The loop of `string2vartype` from index i on.
search_from : CString → List CString → ℕ → ℤ
search_from varname [] i = negsuc 0
search_from varname (s ∷ rest) i =
    let next = search_from varname rest (suc i) in if str_eq varname s then pos i else next

-- A NULL name gives -1, as an unknown one.
unfoldable pub string2vartype : Option CString → ℤ
unfolding search_from
string2vartype none = negsuc 0
string2vartype (some varname) = search_from varname vartype_strings 0

-- The member of the enumeration with a given number, as `var_type` stores it.
unfoldable pub vartype_of : ℕ → Option VarType
vartype_of = get_elem? members
  where
    members : List VarType
    members =
        void_t ∷ int8_t ∷ int16_t ∷ int_t ∷ int32_t ∷ int64_t ∷ uint8_t ∷ uint16_t ∷ uint_t
        ∷ uint32_t ∷ uint64_t ∷ string_t ∷ bool_t ∷ array_t ∷ enable1_t ∷ []

-- The number of a member.
unfoldable pub vartype_number : VarType → ℕ
vartype_number void_t = 0
vartype_number int8_t = 1
vartype_number int16_t = 2
vartype_number int_t = 3
vartype_number int32_t = 4
vartype_number int64_t = 5
vartype_number uint8_t = 6
vartype_number uint16_t = 7
vartype_number uint_t = 8
vartype_number uint32_t = 9
vartype_number uint64_t = 10
vartype_number string_t = 11
vartype_number bool_t = 12
vartype_number array_t = 13
vartype_number enable1_t = 14
