-- ===== src/CanidSearch/Dict/Refs.antt =====
-- Positions of named properties in the arrays of the CAN-IDs.

use agl_can_binder.Base.{
  ℕ, zero, suc, ◌≡◌, refl, some, List, [], ◌∷◌, ◌++◌, length, get_elem?, arith, CString,
}
use agl_can_binder.CanidInfo.Types.{CanBit, Property}
use agl_can_binder.CanidSearch.Dict.{append_next}

-- The property at a position of the array has the name.
unfoldable pub HasName : List Property → ℕ → CString → Type 0
HasName l i name = (p : Property) × (get_elem? l i ≡ some p) × (p.head.name ≡ name)

pub HasName-append :
    (l k : List Property) (i : ℕ) (name : CString) → HasName l i name → HasName (l ++ k) i name
unfolding HasName
HasName-append [] k i name (p, e, n) = absurd (cc)
HasName-append (x ∷ l) k zero name h = h
HasName-append (x ∷ l) k (suc i) name h = HasName-append l k i name h

pub HasName-end : (l : List Property) (p : Property) → HasName (l ++ p ∷ []) (length l) p.head.name
unfolding HasName
HasName-end [] p = (p, refl, refl)
HasName-end (x ∷ l) p = HasName-end l p

pub HasName-append_next :
    (j : ℕ) (entry : CanBit) (l : List Property) (i : ℕ) (name : CString)
    → HasName l i name
    → HasName (append_next j entry l) i name
unfolding HasName append_next
HasName-append_next j entry [] i name h = h
HasName-append_next zero entry (x ∷ l) zero name (p, e, n) =
    (record x { next = x.next ++ entry ∷ [] }, refl, ground arith)
HasName-append_next zero entry (x ∷ l) (suc i) name h = h
HasName-append_next (suc j) entry (x ∷ l) zero name h = h
HasName-append_next (suc j) entry (x ∷ l) (suc i) name h = HasName-append_next j entry l i name h
