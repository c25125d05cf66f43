-- ===== src/CanidSearch/Dict/Resolves.antt =====
-- What makes the dictionary of properties whole: every entry points to a property of its name, every
-- listed name is in the dictionary, and the list keeps its limit.
use agl_can_binder.Base.{
  ℕ, ◌≡◌, true, none, some, List, [], ◌∷◌, ◌++◌, length, arith, CString, All, ◌==◌, if◌then◌else◌,
  ◌≤◌, Bool-cases, inl, inr, strcmp, eq_of_strcmp, is_eq, strcmp_refl,
}
use agl_can_binder.CanidInfo.Types.{Property}
use agl_can_binder.CanidSearch.Tree.{tfind, insert}
use agl_can_binder.CanidSearch.Tree.Laws.{IsSorted, strcmp-IsOrder, tfind-insert}
use agl_can_binder.CanidSearch.Dict.{PropertyRef, Dict, support_property_limit}
use agl_can_binder.CanidSearch.Dict.Refs.{HasName}

-- The arrays by CAN-ID.
abbrev pub Arrays : Type 0
Arrays = ℕ → List Property

abbrev pub override : ℕ → List Property → Arrays → Arrays
override canid done old c = if c == canid then done else old c

-- Every entry of the dictionary points to a property of its name.
abbrev pub Resolves : Arrays → List (CString × PropertyRef) → Type 0
Resolves arrays = All λ e. HasName (arrays e.1.canid) e.1.index e.0

pub Resolves-mono :
    (f g : Arrays) (l : List (CString × PropertyRef))
    → ((c i : ℕ) (n : CString) → HasName (f c) i n → HasName (g c) i n)
    → Resolves f l
    → Resolves g l
Resolves-mono f g [] h r = tt
Resolves-mono f g ((n, e) ∷ l) h r = (h e.canid e.index n r.0, Resolves-mono f g l h r.1)

pub Resolves-insert :
    (f : Arrays) (n : CString) (e : PropertyRef) (l : List (CString × PropertyRef))
    → HasName (f e.canid) e.index n
    → Resolves f l
    → Resolves f (insert strcmp n e l)
unfolding insert
Resolves-insert f n e [] h r = (h, tt)
Resolves-insert f n e ((m, k) ∷ l) h r = ground (arith, Resolves-insert f n e l h r.1)

pub Resolves-tfind :
    (f : Arrays) (n : CString) (e : PropertyRef) (l : List (CString × PropertyRef))
    → Resolves f l
    → tfind strcmp n l ≡ some e
    → HasName (f e.canid) e.index n
unfolding tfind
Resolves-tfind f n e [] r h = absurd (cc)
Resolves-tfind f n e ((m, k) ∷ l) r h = ground (arith, eq_of_strcmp n m, Resolves-tfind f n e l r.1)

-- A longer array, or a longer list at a position, keeps what resolves.
pub override_mono :
    (canid : ℕ) (old : Arrays) (l k : List Property) (c i : ℕ) (n : CString)
    → (HasName l i n → HasName k i n)
    → HasName (override canid l old c) i n
    → HasName (override canid k old c) i n
override_mono canid old l k c i n h r = elim (Bool-cases (c == canid)) [
  | inl e ↦ rw e (h (rw e at r))
  | inr e ↦ rw e (rw e at r)
]

pub override_self : (canid : ℕ) (l : List Property) (old : Arrays) → override canid l old canid ≡ l
override_self canid l old = ground arith

-- The names of the list are in the tree, and the list keeps its limit.
abbrev pub IsListed : List (CString × PropertyRef) → CString → Type 0
IsListed l n = (r : PropertyRef) × (tfind strcmp n l ≡ some r)

abbrev pub Listed : Dict → Type 0
Listed d =
    All (IsListed d.property_root) d.support_property_list
    × (length d.support_property_list ≤ support_property_limit)

pub IsListed-insert :
    (n : CString) (e : PropertyRef) (l : List (CString × PropertyRef)) (m : CString)
    → IsSorted strcmp-IsOrder l
    → tfind strcmp n l ≡ none
    → IsListed l m
    → IsListed (insert strcmp n e l) m
IsListed-insert n e l m s h (r, f) = elim (Bool-cases (is_eq (strcmp m n))) [
  | inl same ↦ (e, rw (tfind-insert strcmp-IsOrder n m e l s h, same))
  | inr other ↦ (r, rw (tfind-insert strcmp-IsOrder n m e l s h, other) f)
]

pub All-IsListed-insert :
    (n : CString) (e : PropertyRef) (l : List (CString × PropertyRef)) (names : List CString)
    → IsSorted strcmp-IsOrder l
    → tfind strcmp n l ≡ none
    → All (IsListed l) names
    → All (IsListed (insert strcmp n e l)) names
All-IsListed-insert n e l [] s h a = tt
All-IsListed-insert n e l (m ∷ names) s h a =
    (IsListed-insert n e l m s h a.0, All-IsListed-insert n e l names s h a.1)

pub All-append-one :
    (l : List (CString × PropertyRef)) (names : List CString) (n : CString)
    → All (IsListed l) names
    → IsListed l n
    → All (IsListed l) (names ++ n ∷ [])
All-append-one l [] n a b = (b, tt)
All-append-one l (m ∷ names) n a b = (a.0, All-append-one l names n a.1 b)

pub IsListed-insert_self :
    (n : CString) (e : PropertyRef) (l : List (CString × PropertyRef))
    → IsSorted strcmp-IsOrder l
    → tfind strcmp n l ≡ none
    → IsListed (insert strcmp n e l) n
IsListed-insert_self n e l s h = (e, rw (tfind-insert strcmp-IsOrder n n e l s h, strcmp_refl n))

pub override-eq :
    (canid c : ℕ) (l : List Property) (old : Arrays)
    → (canid == c) ≡ true
    → override canid l old c ≡ l
override-eq canid c l old e = ground arith
