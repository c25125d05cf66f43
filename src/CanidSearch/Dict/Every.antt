-- ===== src/CanidSearch/Dict/Every.antt =====
-- A predicate on the properties of every CAN-ID, kept when a CAN-ID is added.
use Prim.Native.Nat.{compare}
use agl_can_binder.Base.{
  ℕ, Bool, zero, suc, ◌≡◌, ◌++◌, none, some, List, [], ◌∷◌, All, arith, inl, inr, is_eq,
  Option-cases, Bool-cases, strcmp,
}
use agl_can_binder.CanidInfo.Types.{Property, CanidInfo}
use agl_can_binder.CanidSearch.Tree.{tfind, insert}
use agl_can_binder.CanidSearch.Tree.Laws.{compare-IsOrder, tfind-insert}
use agl_can_binder.CanidSearch.Dict.{
  Dict, Added, chained, listed, failed, keep, append_next, get_canid_dict, add_new, add_multi,
  add_property_dict, add_properties, add_canid_dict, requested,
}
use agl_can_binder.CanidSearch.Dict.WellFormed.{IsWellFormed}
use agl_can_binder.CanidSearch.Dict.AddCanid.{
  add_canid_dict-known, add_canid_dict-refused, add_canid_dict-granted, after, added, root_same,
}

-- Every property of every CAN-ID satisfies the predicate.
abbrev pub Every : (Property → Type 0) → Dict → Type 0
Every Q d = (c : ℕ) (info : CanidInfo) → get_canid_dict c d ≡ some info → All Q info.property

-- An entry may be hung on a list: the predicate holds of the property that it extends.
abbrev pub Extends : (Property → Type 0) → Type 0
Extends Q = (x p : Property) → Q x → Q p → Q (record x { next = x.next ++ p.head ∷ [] })

All-map :
    (P Q : Property → Type 0) (l : List Property) → ((p : Property) → P p → Q p) → All P l → All Q l
All-map P Q [] f h = tt
All-map P Q (p ∷ l) f h = (f p h.0, All-map P Q l f h.1)

pub Every-map :
    (P Q : Property → Type 0) (d : Dict) → ((p : Property) → P p → Q p) → Every P d → Every Q d
Every-map P Q d f h c info there = All-map P Q info.property f (h c info there)

module _ (Q : Property → Type 0) (extends : Extends Q) where
  All-end : (l : List Property) (p : Property) → All Q l → Q p → All Q (l ++ p ∷ [])
  All-end [] p h w = (w, tt)
  All-end (x ∷ l) p h w = (h.0, All-end l p h.1 w)

  All-append_next :
      (i : ℕ) (p : Property) (l : List Property) → All Q l → Q p → All Q (append_next i p.head l)
  unfolding append_next
  All-append_next i p [] h w = tt
  All-append_next zero p (x ∷ l) h w = (extends x p h.0 w, h.1)
  All-append_next (suc i) p (x ∷ l) h w = (h.0, All-append_next i p l h.1 w)

  All-keep : (p : Property) (l : List Property) (a : Added) → All Q l → Q p → All Q (keep p l a)
  All-keep p l chained h w = h
  All-keep p l listed h w = All-end l p h w
  All-keep p l failed h w = All-end l p h w

  module _ (memory : ℕ → Bool) (canid : ℕ) where
    All-add_property_dict :
        (p : Property) (done : List Property) (d : Dict)
        → All Q done
        → Q p
        → All Q (add_property_dict memory canid p.head done d).1
    unfolding add_property_dict add_new add_multi
    All-add_property_dict p done d h w =
        elim (Option-cases (tfind strcmp p.head.name d.property_root)) [
          | inl fresh ↦ ground (arith, fresh, h)
          | inr (r, known) ↦ ground (arith, known, h, All-append_next r.index p done h w)
        ]

    All-add_properties :
        (todo done : List Property) (d : Dict)
        → All Q todo
        → All Q done
        → All Q (add_properties memory canid todo done d).1
    unfolding add_properties
    All-add_properties [] done d t h = h
    All-add_properties (p ∷ rest) done d t h =
        let (d', done', a) = add_property_dict memory canid p.head done d in
        All-add_properties rest (keep p done' a) d' t.1
          (All-keep p done' a (All-add_property_dict p done d h t.0) t.0)

  module _ (memory : ℕ → Bool) (info : CanidInfo) (d : Dict) where
    after-Every :
        IsWellFormed d
        → Every Q d
        → All Q info.property
        → tfind compare info.canid d.canid_root ≡ none
        → Every Q (after memory info d)
    unfolding get_canid_dict
    after-Every wf every good unknown c i h =
        let stored : CanidInfo = record info { property = (added memory info d).1 } in
        let same = root_same memory info d wf unknown in
        let found =
          tfind-insert compare-IsOrder info.canid c stored d.canid_root wf.canids_in_order
            unknown in
        let all_good =
          All-add_properties memory info.canid info.property [] (requested d) good tt in
        let there : tfind compare c (insert compare info.canid stored d.canid_root) ≡ some i =
          rw same at h in
        elim (Bool-cases (is_eq (compare c info.canid))) [
          | inl e ↦ let new : i ≡ stored = ground (arith, found, there, e) in rw new all_good
          | inr e ↦ every c i (ground (arith, found, there, e))
        ]

    -- Whatever a call returns, the predicate still holds of every property.
    pub add_canid_dict-Every :
        IsWellFormed d → Every Q d → All Q info.property → Every Q (add_canid_dict memory info d).0
    unfolding get_canid_dict
    add_canid_dict-Every wf every good =
        elim (Option-cases (tfind compare info.canid d.canid_root)) [
          | inl unknown ↦ elim (Bool-cases (memory d.requests)) [
            | inl granted ↦
                rw (add_canid_dict-granted memory info d unknown granted)
                  (after-Every wf every good unknown)
            | inr refused ↦ rw (add_canid_dict-refused memory info d unknown refused) every
          ]
          | inr (other, known) ↦ rw (add_canid_dict-known memory info d other known) every
        ]
