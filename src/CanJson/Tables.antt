-- ===== src/CanJson/Tables.antt =====
-- src/can_json.c: `create_convert_tables`. A string that is kept gets the next address. `calloc` and
-- `strdup`, whose results the code does not look at, are taken to succeed.
pub mod Laws
use mathlib.Core.Option
use agl_can_binder.Base.{
  ℕ, suc, ◌==◌, Bool, true, false, Option, none, some, List, [], ◌∷◌, ◌++◌, length, u32, CString,
  if◌then◌else◌,
}
use agl_can_binder.CanidInfo.Types.{
  VarType, void_t, int8_t, int16_t, int_t, int32_t, int64_t, uint8_t, uint16_t, uint_t, uint32_t,
  uint64_t, string_t, bool_t, array_t, enable1_t, Strings,
}
use agl_can_binder.CanJson.JsonC.{JsonC, text_of, is_int, elements}

-- The `switch` over the type: a table of strings, a table of ints, or none.
pub data TableKind : Type 0 where
  of_strings of_ints no_table : TableKind

unfoldable pub table_kind : VarType → TableKind
table_kind string_t = of_strings
table_kind void_t = no_table
table_kind int64_t = no_table
table_kind uint64_t = no_table
table_kind array_t = no_table
table_kind int8_t = of_ints
table_kind int16_t = of_ints
table_kind int_t = of_ints
table_kind int32_t = of_ints
table_kind uint8_t = of_ints
table_kind uint16_t = of_ints
table_kind uint_t = of_ints
table_kind uint32_t = of_ints
table_kind bool_t = of_ints
table_kind enable1_t = of_ints

module _ {J : Type 0} (json : JsonC J) where
  -- The loop over an array of strings; the strings in front of a wrong entry stay allocated.
  pub string_entries : List (Option J) → Strings → Strings × Option (List ℕ)
  string_entries [] strings = (strings, some [])
  string_entries (eobj ∷ rest) strings = elim (text_of (json.view eobj)) [
    | none ↦ (strings, none)
    | some name ↦
        let (strings', later) = string_entries rest (strings ++ name ∷ []) in
        (strings', Option.map (◌∷◌ (suc (length strings))) later)
  ]

  -- The loop over an array of ints.
  unfoldable pub int_entries : List (Option J) → Option (List ℕ)
  int_entries [] = some []
  int_entries (eobj ∷ rest) =
      let later = int_entries rest in
      if is_int (json.view eobj) then Option.map (◌∷◌ (u32 (json.get_int eobj))) later else none

  -- An array that is not empty, by the kind of table.
  unfoldable pub fill_table : TableKind → List (Option J) → Strings → Strings × Option (List ℕ)
  fill_table no_table l strings = (strings, none)
  fill_table kind [] strings = (strings, none)
  fill_table of_strings (e ∷ rest) strings = string_entries (e ∷ rest) strings
  fill_table of_ints (e ∷ rest) strings = (strings, int_entries (e ∷ rest))

  -- The table; `*nEntry`, its length, is written where there is one.
  unfoldable pub create_convert_tables : Option J → VarType → Strings → Strings × Option (List ℕ)
  unfolding fill_table
  create_convert_tables none var_type strings = (strings, none)
  create_convert_tables (some v) var_type strings = elim (elements json (some v)) [
    | none ↦ (strings, none)
    | some convlist ↦ fill_table (table_kind var_type) convlist strings
  ]
