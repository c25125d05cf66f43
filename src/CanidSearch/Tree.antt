-- ===== src/CanidSearch/Tree.antt =====
-- The binary trees of <search.h> as the code uses them (`tfind`, `tsearch`, `tdelete`, `twalk`): a
-- list in the order of the comparison function, with keys that differ. A pointer that is stored
-- under a key is the value. `tsearch` finds the entry or inserts one, for which it needs memory.
pub mod Laws
pub mod Same
use Prim.Native.Nat.{Ordering}
use Prim.Native.Nat.Ordering.{lt, eq, gt}
use agl_can_binder.Base.{Option, none, some, List, [], ◌∷◌, map}

module _ {ℓ κ} {K : Type ℓ} {V : Type κ} (cmp : K → K → Ordering) where
  -- Both `tfind` and the search of `tsearch`.
  unfoldable pub tfind : K → List (K × V) → Option V
  tfind k [] = none
  tfind k ((j, v) ∷ rest) = elim (cmp k j) [ lt ↦ none | eq ↦ some v | gt ↦ tfind k rest ]

  -- The insertion of `tsearch`, for a key that is not there.
  unfoldable pub insert : K → V → List (K × V) → List (K × V)
  insert k v [] = (k, v) ∷ []
  insert k v ((j, w) ∷ rest) = elim (cmp k j) [
    | lt ↦ (k, v) ∷ (j, w) ∷ rest
    | eq ↦ (j, w) ∷ rest
    | gt ↦ (j, w) ∷ insert k v rest
  ]

  -- `tdelete`
  pub tdelete : K → List (K × V) → List (K × V)
  tdelete k [] = []
  tdelete k ((j, w) ∷ rest) = elim (cmp k j) [
    | lt ↦ (j, w) ∷ rest
    | eq ↦ rest
    | gt ↦ (j, w) ∷ tdelete k rest
  ]

  -- A write through the pointer that is stored under a key.
  unfoldable pub modify : K → (V → V) → List (K × V) → List (K × V)
  modify k f [] = []
  modify k f ((j, w) ∷ rest) = elim (cmp k j) [
    | lt ↦ (j, w) ∷ rest
    | eq ↦ (j, f w) ∷ rest
    | gt ↦ (j, w) ∷ modify k f rest
  ]

-- The entries in the order of `twalk`, whose actions visit each entry once, at `postorder` or
-- `leaf`.
abbrev pub walk {ℓ κ} : {K : Type ℓ} {V : Type κ} → List (K × V) → List V
walk = map λ e. e.1
