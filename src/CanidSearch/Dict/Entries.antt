-- ===== src/CanidSearch/Dict/Entries.antt =====
-- The entries of a CAN-ID, those that hang on a list included.
use mathlib.Core.List.{Perm, perm_middle, append_assoc, append-nil}
use mathlib.Core.List.Perm
use agl_can_binder.Base.{
  ℕ, zero, suc, ◌≡◌, List, [], ◌∷◌, ◌++◌, All, CString, refl, ap, sym, subst, arith,
}
use agl_can_binder.CanidInfo.Types.{CanBit, Property}
use agl_can_binder.CanidSearch.Dict.{append_next}
use agl_can_binder.CanidSearch.Dict.Refs.{HasName}

unfoldable pub entries : List Property → List CanBit
entries [] = []
entries (p ∷ l) = p.head ∷ p.next ++ entries l

-- What hangs on a list has the name of the entry that it hangs on.
abbrev pub IsGrouped : Property → Type 0
IsGrouped p = All (λ (q : CanBit). q.name ≡ p.head.name) p.next

entries-append : (l k : List Property) → entries (l ++ k) ≡ entries l ++ entries k
unfolding entries
entries-append [] k = refl
entries-append (p ∷ l) k =
    rw (entries-append l k) (ap (◌∷◌ p.head) (sym (append_assoc p.next (entries l) (entries k))))

-- An entry without a list at the end of the array.
pub entries-end :
    (l : List Property) (p : Property)
    → p.next ≡ []
    → Perm (entries (l ++ p ∷ [])) (p.head ∷ entries l)
unfolding entries
entries-end l p alone = rw (entries-append l (p ∷ [])) (
    rw alone (
      subst (λ k. Perm (entries l ++ p.head ∷ []) (p.head ∷ k)) (append-nil (entries l))
        (perm_middle (entries l) [])))

pub entries-append_next :
    (i : ℕ) (entry : CanBit) (l : List Property) (name : CString)
    → HasName l i name
    → Perm (entries (append_next i entry l)) (entry ∷ entries l)
unfolding entries append_next HasName
entries-append_next i entry [] name (p, e, n) = absurd (cc)
entries-append_next zero entry (x ∷ l) name h =
    subst (λ k. Perm (x.head ∷ k) (entry ∷ x.head ∷ x.next ++ entries l))
      (sym (append_assoc x.next (entry ∷ []) (entries l)))
      (perm_middle (x.head ∷ x.next) (entries l))
entries-append_next (suc i) entry (x ∷ l) name h =
    Perm.trans (Perm.append_left (x.head ∷ x.next) (entries-append_next i entry l name h))
      (perm_middle (x.head ∷ x.next) (entries l))

All-end :
    (l : List CanBit) (q : CanBit) (n : CString)
    → All (λ (r : CanBit). r.name ≡ n) l
    → q.name ≡ n
    → All (λ (r : CanBit). r.name ≡ n) (l ++ q ∷ [])
All-end [] q n h e = (e, tt)
All-end (x ∷ l) q n h e = (h.0, All-end l q n h.1 e)

pub IsGrouped-end :
    (l : List Property) (p : Property) → All IsGrouped l → p.next ≡ [] → All IsGrouped (l ++ p ∷ [])
IsGrouped-end [] p h alone = (rw alone tt, tt)
IsGrouped-end (x ∷ l) p h alone = (h.0, IsGrouped-end l p h.1 alone)

pub IsGrouped-append_next :
    (i : ℕ) (entry : CanBit) (l : List Property)
    → HasName l i entry.name
    → All IsGrouped l
    → All IsGrouped (append_next i entry l)
unfolding append_next HasName
IsGrouped-append_next i entry [] (p, e, n) h = absurd (cc)
IsGrouped-append_next zero entry (x ∷ l) (p, e, n) h =
    (All-end x.next entry x.head.name h.0 (ground arith), h.1)
IsGrouped-append_next (suc i) entry (x ∷ l) here h = (h.0, IsGrouped-append_next i entry l here h.1)
