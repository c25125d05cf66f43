-- ===== src/CanJson/Member/Typed.antt =====
-- A conversion table belongs to the type that the member ends with, if the keys of an object differ.
use mathlib.Core.List.{append_assoc, append-nil}
use mathlib.Core.Path.{sym}
use agl_can_binder.Base.{
  ℕ, ◌≡◌, ◌≢◌, refl, ◌∙◌, Option, none, some, List, [], ◌∷◌, ◌++◌, CString, codes, All, arith,
  Option-cases, Bool-cases, inl, inr, ◌⊎◌, eq_of_strcmp, ◌==◌,
}
use agl_can_binder.CanidInfo.Types.{VarType, void_t, string_t, Strings, can_kind_send}
use agl_can_binder.CanJson.JsonC.{JsonC}
use agl_can_binder.CanJson.Zone.{get_zone_name}
use agl_can_binder.CanJson.Tables.{create_convert_tables, fill_table, table_kind}
use agl_can_binder.CanJson.Tables.Laws.{
  TableOf, All-IsAddress-append, create_convert_tables-TableOf,
}
use agl_can_binder.CanJson.Member.{
  Fields, Key, zone_key, type_key, set_data_key, key_of, member_branch, member_fields, with_table,
}

-- A longer heap keeps a table.
pub TableOf-append :
    (t : VarType) (strings more : Strings) (r : Option (List ℕ))
    → TableOf t strings r
    → TableOf t (strings ++ more) r
TableOf-append t strings more none h = tt
TableOf-append string_t strings more (some p) h = (h.0, All-IsAddress-append strings more p h.1)
TableOf-append _ strings more (some p) h = h

-- No key of the list is `TYPE`.
abbrev pub NoType : {J : Type 0} → List (CString × Option J) → Type 0
NoType = All λ e. key_of e.0 ≢ type_key

-- No key of an object stands twice.
abbrev pub KeysDiffer : {J : Type 0} → List (CString × Option J) → Type 0
KeysDiffer [] = Unit {0}
KeysDiffer (e ∷ rest) = All (λ other. e.0 ≢ other.0) rest × KeysDiffer rest

key_of-type : (key : CString) → key_of key ≡ type_key → codes "TYPE" ≡ key
unfolding key_of
key_of-type key h = eq_of_strcmp (codes "TYPE") key (ground arith)

NoType-differ :
    {J : Type 0} (key : CString) (rest : List (CString × Option J))
    → key_of key ≡ type_key
    → All (λ other. key ≢ other.0) rest
    → NoType rest
NoType-differ key [] h d = tt
NoType-differ key ((k, v) ∷ rest) h d =
    (λ same. d.0 (sym (key_of-type key h) ∙ key_of-type k same), NoType-differ key rest h d.1)

-- What holds in front of the keys that are left: the table fits the type, and if the type is still to
-- come there is no table.
abbrev pub Typed : {J : Type 0} → List (CString × Option J) → Fields → Type 0
Typed rest f =
    TableOf f.var_type f.strings f.dataconv
    × (NoType rest ⊎ ((f.var_type ≡ void_t) × (f.dataconv ≡ none)))

-- The heap only grows.
abbrev pub Grows : Strings → Strings → Type 0
Grows strings strings' = (more : Strings) × (strings' ≡ strings ++ more)

pub Grows-refl : (strings : Strings) → Grows strings strings
Grows-refl strings = ([], sym (append-nil strings))

pub Grows-trans : (r s t : Strings) → Grows r s → Grows s t → Grows r t
Grows-trans r s t (more, h) (more', k) =
    (more ++ more', ground (arith, h, k, append_assoc r more more'))

module _ {J : Type 0} (json : JsonC J) (kind : ℕ) where
  no_table_void :
      (val : Option J) (strings : Strings)
      → (create_convert_tables json val void_t strings).1 ≡ none
  unfolding create_convert_tables fill_table table_kind
  no_table_void none strings = refl
  no_table_void (some v) strings = ground arith

  -- The table of `SET-DATA`, for the type read so far.
  with_table-fits :
      (r : Strings × Option (List ℕ)) (f : Fields)
      → Grows f.strings r.0
      → TableOf f.var_type r.0 r.1
      → let f' = with_table r f in
        Grows f.strings f'.strings
        × TableOf f'.var_type f'.strings f'.dataconv
        × (f'.var_type ≡ f.var_type)
        × (f'.dataconv ≡ r.1)
  with_table-fits (strings, none) f g t = (g, t, refl, refl)
  with_table-fits (strings, some table) f g t = (g, t, refl, refl)

  with_table-Typed :
      (val : Option J) (f : Fields) (rest : List (CString × Option J))
      → Typed rest f
      → let f' = with_table (create_convert_tables json val f.var_type f.strings) f in
        Grows f.strings f'.strings × Typed rest f'
  with_table-Typed val f rest typed =
      let r = create_convert_tables json val f.var_type f.strings in
      let (more, grown, fits) = create_convert_tables-TableOf json val f.var_type f.strings in
      let (grows, table, type, same) = with_table-fits r f (more, grown) (rw grown fits) in
      elim typed.1 [
        | inl done ↦ (grows, (table, inl done))
        | inr (void, empty) ↦
            let nothing : r.1 ≡ none = rw void (no_table_void val f.strings) in
            (grows, (table, inr (type ∙ void, same ∙ nothing)))
      ]

  Typed-tail :
      (e : CString × Option J) (rest : List (CString × Option J)) (f : Fields)
      → Typed (e ∷ rest) f
      → Typed rest f
  Typed-tail e rest f (table, inl done) = (table, inl done.1)
  Typed-tail e rest f (table, inr open_type) = (table, inr open_type)

  -- A branch that leaves the type, the table and the heap.
  abbrev Leaves : Fields → Fields → Type 0
  Leaves f f' = (f'.var_type ≡ f.var_type) × (f'.dataconv ≡ f.dataconv) × (f'.strings ≡ f.strings)

  Typed-Leaves :
      (rest : List (CString × Option J)) (f f' : Fields)
      → Leaves f f'
      → Typed rest f
      → Grows f.strings f'.strings × Typed rest f'
  Typed-Leaves rest f f' (t, d, s) typed = rw t (rw d (rw s (Grows-refl f.strings, typed)))

  branch-Typed :
      (k : Key) (key : CString) (val : Option J) (rest : List (CString × Option J)) (f f' : Fields)
      → key_of key ≡ k
      → KeysDiffer ((key, val) ∷ rest)
      → Typed ((key, val) ∷ rest) f
      → member_branch json kind k val f ≡ some f'
      → Grows f.strings f'.strings × Typed rest f'
  unfolding member_branch
  branch-Typed type_key key val rest f f' is differ typed h = elim typed.1 [
    | inl none_left ↦ absurd (none_left.0 is)
    | inr (void, empty) ↦
        let same : f'.strings ≡ f.strings = ground arith in
        let bare : f'.dataconv ≡ none = ground (arith, empty) in
        rw same (Grows-refl f.strings, (rw bare tt, inl (NoType-differ key rest is differ.0)))
  ]
  branch-Typed set_data_key key val rest f f' is differ typed h =
      let tail = Typed-tail (key, val) rest f typed in
      elim (Bool-cases (kind == can_kind_send)) [
        | inl sent ↦
            let same : f' ≡ f = ground (arith, sent) in rw same (Grows-refl f.strings, tail)
        | inr read ↦
            let same : f' ≡ with_table (create_convert_tables json val f.var_type f.strings) f =
              ground (arith, read) in
            rw same (with_table-Typed val f rest tail)
      ]
  branch-Typed zone_key key val rest f f' is differ typed h =
      let leaves : Leaves f f' = elim (Option-cases (get_zone_name json val)) [
        | inl e ↦ absurd (ground (arith, e))
        | inr (z, e) ↦ ground (arith, e)
      ] in
      Typed-Leaves rest f f' leaves (Typed-tail (key, val) rest f typed)
  branch-Typed _ key val rest f f' is differ typed h =
      Typed-Leaves rest f f' (ground arith) (Typed-tail (key, val) rest f typed)

  -- The loop keeps the heap growing and ends with a table of the type that it ends with.
  pub member_fields-Typed :
      (l : List (CString × Option J)) (f f' : Fields)
      → KeysDiffer l
      → Typed l f
      → member_fields json kind l f ≡ some f'
      → Grows f.strings f'.strings × TableOf f'.var_type f'.strings f'.dataconv
  unfolding member_fields
  member_fields-Typed [] f f' differ typed h =
      let same : f' ≡ f = ground arith in rw same (Grows-refl f.strings, typed.0)
  member_fields-Typed ((key, val) ∷ rest) f f' differ typed h =
      elim (Option-cases (member_branch json kind (key_of key) val f)) [
        | inl e ↦ absurd (ground (arith, e))
        | inr (g, e) ↦
            let (grows, typed') = branch-Typed (key_of key) key val rest f g refl differ typed e in
            let (grows', table) =
              member_fields-Typed rest g f' differ.1 typed' (ground (arith, e)) in
            (Grows-trans f.strings g.strings f'.strings grows grows', table)
      ]
