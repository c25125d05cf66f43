-- ===== src/CanJson/Tables/Laws.antt =====
-- Conversion tables hold one entry for each value of the array, and their strings are kept.
use mathlib.Core.Option
use mathlib.Core.Path.{sym}
use mathlib.Core.List.{append_assoc, append-nil}
use agl_can_binder.Base.{
  ℕ, zero, suc, ◌<◌, ◌≤◌, ◌≡◌, refl, ap, Option, none, some, List, [], ◌∷◌, ◌++◌, length,
  length-append, get_or, All, CString, ◌^◌, u32, Bool-cases, arith, Option-cases, inl, inr, map,
}
use agl_can_binder.CanidInfo.Types.{
  VarType, void_t, int64_t, uint64_t, string_t, array_t, Strings, text_at,
}
use agl_can_binder.CanJson.JsonC.{JsonC, text_of, is_int, elements}
use agl_can_binder.CanJson.Tables.{
  table_kind, string_entries, int_entries, fill_table, create_convert_tables,
}

-- One heap of strings holds another at its addresses.
abbrev pub Extends : Strings → Strings → Type 0
Extends strings strings' = (more : Strings) × (strings' ≡ strings ++ more)

pub get_or-append :
    (l k : List CString) (i : ℕ) → i < length l → get_or (l ++ k) i [] ≡ get_or l i []
get_or-append [] k i h = absurd (omega (arith, h))
get_or-append (x ∷ l) k zero h = refl
get_or-append (x ∷ l) k (suc i) h = get_or-append l k i (omega (arith, h))

get_or-middle : (l k : List CString) (s : CString) → get_or (l ++ s ∷ k) (length l) [] ≡ s
get_or-middle [] k s = refl
get_or-middle (x ∷ l) k s = get_or-middle l k s

-- The texts that the entries of an array are.
abbrev pub TextsOf : {J : Type 0} → JsonC J → List (Option J) → List CString → Type 0
TextsOf json [] [] = Unit {0}
TextsOf json (e ∷ l) (s ∷ texts) = (text_of (json.view e) ≡ some s) × TextsOf json l texts
TextsOf json [] (s ∷ texts) = ⊥
TextsOf json (e ∷ l) [] = ⊥

-- An address of the heap.
abbrev pub IsAddress : Strings → ℕ → Type 0
IsAddress strings a = (0 < a) × (a ≤ length strings)

IsAddress-append :
    (strings more : Strings) (a : ℕ) → IsAddress strings a → IsAddress (strings ++ more) a
IsAddress-append strings more a h = omega (arith, h, length-append strings more)

pub All-IsAddress-append :
    (strings more : Strings) (p : List ℕ)
    → All (IsAddress strings) p
    → All (IsAddress (strings ++ more)) p
All-IsAddress-append strings more [] h = tt
All-IsAddress-append strings more (a ∷ p) h =
    (IsAddress-append strings more a h.0, All-IsAddress-append strings more p h.1)

-- A table of n entries that satisfy a predicate.
abbrev pub TableFits : ℕ → (ℕ → Type 0) → Option (List ℕ) → Type 0
TableFits n P none = Unit {0}
TableFits n P (some p) = (length p ≡ n) × All P p

-- What an entry of a table is for a type: an address of a string, or the pattern of an int.
abbrev pub EntryFits : VarType → Strings → ℕ → Type 0
EntryFits string_t strings a = IsAddress strings a
EntryFits _ strings a = a < 2 ^ 32

-- A table that the code may read: it is not empty, and its entries are those of the type.
abbrev pub TableOf : VarType → Strings → Option (List ℕ) → Type 0
TableOf t strings none = Unit {0}
TableOf t strings (some p) = (0 < length p) × All (EntryFits t strings) p

TableFits-map :
    (n : ℕ) (P : ℕ → Type 0) (a : ℕ) (r : Option (List ℕ))
    → P a
    → TableFits n P r
    → TableFits (suc n) P (Option.map (◌∷◌ a) r)
TableFits-map n P a none h f = tt
TableFits-map n P a (some p) h f = (ap suc f.0, (h, f.1))

module _ {J : Type 0} (json : JsonC J) where
  -- An array of strings gives a table; the strings are kept in order after those that are there, and
  -- the addresses of the table lead to them.
  pub string_entries_lem :
      (l : List (Option J)) (texts : List CString) (strings : Strings)
      → TextsOf json l texts
      → (p : List ℕ) × (string_entries json l strings ≡ (strings ++ texts, some p))
        × (map (text_at (strings ++ texts)) p ≡ texts)
  unfolding string_entries text_at
  string_entries_lem [] [] strings h = ([], ground (arith, append-nil strings), refl)
  string_entries_lem [] (s ∷ texts) strings h = absurd h
  string_entries_lem (e ∷ l) [] strings h = absurd h
  string_entries_lem (e ∷ l) (s ∷ texts) strings h =
      let (p, done, read) = string_entries_lem l texts (strings ++ s ∷ []) h.1 in
      let joined : (strings ++ s ∷ []) ++ texts ≡ strings ++ (s ∷ texts) =
        append_assoc strings (s ∷ []) texts in
      (
        suc (length strings) ∷ p,
        ground (arith, h.0, done, joined),
        ground (arith, read, joined, get_or-middle strings texts s),
      )

  -- Whatever the array holds, the heap only grows, a table has one entry for each value, and its
  -- entries are addresses of the heap.
  string_entries-TableFits :
      (l : List (Option J)) (strings : Strings)
      → (more : List CString) × ((string_entries json l strings).0 ≡ strings ++ more)
        × TableFits (length l) (IsAddress (strings ++ more)) (string_entries json l strings).1
  unfolding string_entries
  string_entries-TableFits [] strings = ([], ground (arith, append-nil strings), (refl, tt))
  string_entries-TableFits (e ∷ l) strings = elim (Option-cases (text_of (json.view e))) [
    | inl other ↦ ([], ground (arith, other, append-nil strings), ground (arith, other))
    | inr (s, text) ↦
        let (more, grown, fits) = string_entries-TableFits l (strings ++ s ∷ []) in
        let joined = append_assoc strings (s ∷ []) more in
        let step : (string_entries json (e ∷ l) strings).1
            ≡ Option.map (◌∷◌ (suc (length strings)))
                (string_entries json l (strings ++ s ∷ [])).1 =
          ground (arith, text) in
        (
          s ∷ more,
          ground (arith, text, grown, joined),
          rw step (
              TableFits-map (length l) (IsAddress (strings ++ s ∷ more)) (suc (length strings)) _
                (omega (arith, length-append strings (s ∷ more))) (rw joined at fits)),
        )
  ]

  -- A table of ints has one entry for each value.
  int_entries-TableFits :
      (l : List (Option J)) → TableFits (length l) (λ c. c < 2 ^ 32) (int_entries json l)
  unfolding int_entries
  int_entries-TableFits [] = (refl, tt)
  int_entries-TableFits (e ∷ l) = elim (Bool-cases (is_int (json.view e))) [
    | inr other ↦ ground (arith, other)
    | inl entry ↦
        let step : int_entries json (e ∷ l)
            ≡ Option.map (◌∷◌ (u32 (json.get_int e))) (int_entries json l) =
          ground (arith, entry) in
        rw step
          (TableFits-map (length l) (λ c. c < 2 ^ 32) _ _ (omega arith) (int_entries-TableFits l))
  ]

  TableFits-TableOf :
      (e : Option J) (l : List (Option J)) (t : VarType) (strings : Strings) (r : Option (List ℕ))
      → TableFits (length (e ∷ l)) (EntryFits t strings) r
      → TableOf t strings r
  TableFits-TableOf e l t strings none h = tt
  TableFits-TableOf e l t strings (some p) h = (omega (arith, h.0), h.1)

  unchanged :
      (t : VarType) (strings : Strings)
      → (more : List CString) × (strings ≡ strings ++ more) × TableOf t (strings ++ more) none
  unchanged t strings = ([], sym (append-nil strings), tt)

  ints-TableOf :
      (t : VarType) (e : Option J) (l : List (Option J)) (strings : Strings)
      → EntryFits t ≡ (λ strings a. a < 2 ^ 32)
      → (more : List CString) × (strings ≡ strings ++ more)
        × TableOf t (strings ++ more) (int_entries json (e ∷ l))
  ints-TableOf t e l strings h = (
    [],
    sym (append-nil strings),
    TableFits-TableOf e l t (strings ++ []) (int_entries json (e ∷ l))
        (rw h (int_entries-TableFits (e ∷ l))),
  )

  fill_table-TableOf :
      (t : VarType) (l : List (Option J)) (strings : Strings)
      → let (strings', r) = fill_table json (table_kind t) l strings in
        (more : List CString) × (strings' ≡ strings ++ more) × TableOf t (strings ++ more) r
  unfolding fill_table table_kind
  fill_table-TableOf void_t l strings = unchanged void_t strings
  fill_table-TableOf int64_t l strings = unchanged int64_t strings
  fill_table-TableOf uint64_t l strings = unchanged uint64_t strings
  fill_table-TableOf array_t l strings = unchanged array_t strings
  fill_table-TableOf t [] strings = unchanged t strings
  fill_table-TableOf string_t (e ∷ l) strings =
      let (more, grown, fits) = string_entries-TableFits (e ∷ l) strings in
      (more, grown, TableFits-TableOf e l string_t (strings ++ more) _ fits)
  fill_table-TableOf t (e ∷ l) strings = ints-TableOf t e l strings refl

  -- Whatever the value is, the heap only grows, and a table that is returned is not empty and has
  -- entries of the type: the addresses of strings that are kept, or ints.
  pub create_convert_tables-TableOf :
      (v : Option J) (t : VarType) (strings : Strings)
      → let (strings', r) = create_convert_tables json v t strings in
        (more : List CString) × (strings' ≡ strings ++ more) × TableOf t (strings ++ more) r
  unfolding create_convert_tables
  create_convert_tables-TableOf none t strings = unchanged t strings
  create_convert_tables-TableOf (some v) t strings = elim (Option-cases (elements json (some v))) [
    | inl e ↦ rw (e, create_convert_tables) (unchanged t strings)
    | inr (l, e) ↦ rw (e, create_convert_tables) (fill_table-TableOf t l strings)
  ]
