-- ===== src/Tests/Document.antt =====
-- A configuration and a CAN definition file with one property, as a JSON library hands them out.
use agl_can_binder.Base.{
  ℕ, zero, suc, ap, sym, ◌∙◌, ◌&&◌, not, ◌≡◌, ◌≢◌, refl, Bool, true, false, Option, none, some,
  List, [], ◌∷◌, All, CString, codes, str_eq, strcmp, strcmp_refl, get_elem?, get_or, arith,
}
use agl_can_binder.CanJson.JsonC.{
  JsonC, Node, null, int, string, array, object, text_of, fields_of, members,
}
use agl_can_binder.CanJson.Member.Typed.{KeysDiffer}
use agl_can_binder.CanJson.Member.Laws.{HasKeys}

-- The values by number.
abbrev pub nodes : List (Node ℕ)
nodes =
    object ((codes "dev_name", some 1) ∷ (codes "can_map", some 2) ∷ [])
    ∷ string (codes "can0")
    ∷ string (codes "map.json")
    ∷ object ((codes "RECEPTION", some 4) ∷ [])
    ∷ object ((codes "STANDARD", some 5) ∷ [])
    ∷ object ((codes "123", some 6) ∷ [])
    ∷ object ((codes "MODE", some 7) ∷ (codes "DATA", some 8) ∷ (codes "DLC", some 9) ∷ [])
    ∷ string (codes "CAN_THINOUT_CHG")
    ∷ array (some 10 ∷ [])
    ∷ int
    ∷ object (
        (codes "POS", some 11)
        ∷ (codes "LEN", some 9)
        ∷ (codes "TYPE", some 12)
        ∷ (codes "PROPERTY", some 13)
        ∷ (codes "SET-DATA", some 14)
        ∷ (codes "ZONE", some 15)
        ∷ [])
    ∷ int
    ∷ string (codes "uint8_t")
    ∷ string (codes "gear")
    ∷ array (some 9 ∷ some 11 ∷ [])
    ∷ array (some 16 ∷ [])
    ∷ string (codes "Zone::Front")
    ∷ []

-- The ints, at the numbers of their values.
abbrev pub ints : List ℕ
ints = 0 ∷ 0 ∷ 0 ∷ 0 ∷ 0 ∷ 0 ∷ 0 ∷ 0 ∷ 0 ∷ 8 ∷ 0 ∷ 7 ∷ []

abbrev pub node_or_null : Option (Node ℕ) → Node ℕ
node_or_null none = null
node_or_null (some n) = n

abbrev view : Option ℕ → Node ℕ
view none = null
view (some i) = node_or_null (get_elem? nodes i)

abbrev find : CString → List (CString × Option ℕ) → Option ℕ
find key [] = none
find key ((k, v) ∷ rest) = elim (str_eq key k) [ true ↦ v | false ↦ find key rest ]

abbrev pub get_ex : Option (List (CString × Option ℕ)) → CString → Option ℕ
get_ex none key = none
get_ex (some l) key = find key l

abbrev get_int : Option ℕ → ℕ
get_int none = 0
get_int (some i) = get_or ints i 0

abbrev pub document : JsonC ℕ
document = record {
  view = view;
  get_int = get_int;
  get_string = λ v. text_of (view v);
  get_ex = λ v. get_ex (fields_of (view v));
  from_file = λ fname. some 3;
  tokener_parse = λ text. some 0;
}

-- The test of `KeysDiffer`.
abbrev absent : CString → List (CString × Option ℕ) → Bool
absent key [] = true
absent key ((k, v) ∷ rest) = not (str_eq key k) && absent key rest

abbrev differ : List (CString × Option ℕ) → Bool
differ [] = true
differ ((k, v) ∷ rest) = absent k rest && differ rest

absent-All :
    (key : CString) (l : List (CString × Option ℕ))
    → absent key l ≡ true
    → All (λ (other : CString × Option ℕ). key ≢ other.0) l
absent-All key [] h = tt
absent-All key ((k, v) ∷ rest) h =
    (λ e. ground (arith, strcmp_refl k, h, e), absent-All key rest (ground (arith, h)))

differ-KeysDiffer : (l : List (CString × Option ℕ)) → differ l ≡ true → KeysDiffer l
differ-KeysDiffer [] h = tt
differ-KeysDiffer ((k, v) ∷ rest) h =
    (absent-All k rest (ground (arith, h)), differ-KeysDiffer rest (ground (arith, h)))

abbrev fields_or_none : Option (List (CString × Option ℕ)) → List (CString × Option ℕ)
fields_or_none none = []
fields_or_none (some l) = l

abbrev node_differs : Node ℕ → Bool
node_differs n = differ (fields_or_none (fields_of n))

abbrev nodes_differ : List (Node ℕ) → Bool
nodes_differ [] = true
nodes_differ (n ∷ rest) = node_differs n && nodes_differ rest

found-differs :
    (l : List (Node ℕ)) (i : ℕ)
    → nodes_differ l ≡ true
    → node_differs (node_or_null (get_elem? l i)) ≡ true
found-differs [] i h = refl
found-differs (n ∷ l) zero h = ground (arith, h)
found-differs (n ∷ l) (suc i) h = found-differs l i (ground (arith, h))

view-differs : (v : Option ℕ) → node_differs (view v) ≡ true
unfolding strcmp
view-differs none = refl
view-differs (some i) = found-differs nodes i refl

-- No object has a key twice.
pub document-HasKeys : HasKeys document
unfolding members
document-HasKeys v l h =
    differ-KeysDiffer l (ap (λ o. differ (fields_or_none o)) (sym h) ∙ view-differs v)
