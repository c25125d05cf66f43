-- ===== src/CanJson/JsonC.antt =====
-- The interface of the JSON library <json-c/json.h>, as the code uses it. A `json_object *` is an
-- `Option J`, with `none` for NULL, which is also how the library represents the value null.
use agl_can_binder.Base.{ℕ, Bool, true, false, Option, none, some, List, CString}

-- `json_object_get_type` with the content: what `json_object_get_array` and `json_object_get_object`
-- return for an array and an object, in the order of `json_object_object_foreach`.
pub data Node (J : Type 0) : Type 0 where
  null : Node J
  boolean : Node J
  double : Node J
  int : Node J
  string : CString → Node J
  array : List (Option J) → Node J
  object : List (CString × Option J) → Node J

-- `json_object_is_type` for a string, with the string, and for an int.
abbrev pub text_of : {J : Type 0} → Node J → Option CString
text_of (string s) = some s
text_of _ = none

abbrev pub is_int : {J : Type 0} → Node J → Bool
is_int int = true
is_int _ = false

abbrev pub entries_of : {J : Type 0} → Node J → Option (List (Option J))
entries_of (array l) = some l
entries_of _ = none

abbrev pub fields_of : {J : Type 0} → Node J → Option (List (CString × Option J))
fields_of (object l) = some l
fields_of _ = none

-- `json_object_get_int` is the 32-bit pattern of its result; `json_object_get_string` is `none` for
-- NULL; `json_object_object_get_ex` is the value that it stores, NULL where there is none.
pub record JsonC (J : Type 0) : Type 0 where
  pub view : Option J → Node J
  pub get_int : Option J → ℕ
  pub get_string : Option J → Option CString
  pub get_ex : Option J → CString → Option J
  pub from_file : Option CString → Option J
  pub tokener_parse : CString → Option J

module _ {J : Type 0} (json : JsonC J) where
  -- The list that `json_object_object_foreach` runs over; NULL is read for anything but an object.
  unfoldable pub members : Option J → Option (List (CString × Option J))
  members v = fields_of (json.view v)

  -- The list of `json_object_get_array`, NULL for anything but an array.
  unfoldable pub elements : Option J → Option (List (Option J))
  elements v = entries_of (json.view v)
