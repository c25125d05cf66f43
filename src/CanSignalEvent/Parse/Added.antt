-- ===== src/CanSignalEvent/Parse/Added.antt =====
-- The dictionaries stay sound when a CAN-ID is added, and a predicate on all properties when one is
-- written.
use agl_can_binder.Base.{
  ◌≡◌, Bool-cases, Option-cases, inl, inr, ◌==◌, ℕ, suc, ◌≤◌, ◌++◌, Bool, Option, none, some, [],
  ◌∷◌, length, length-append, All, arith,
}
use agl_can_binder.CanidInfo.Types.{Property, CanidInfo}
use agl_can_binder.CanidSearch.Dict.{Dict, add_canid_dict, get_canid_dict, update_canid}
use agl_can_binder.CanidSearch.Tree.Laws.{IsSorted, compare-IsOrder}
use agl_can_binder.CanidSearch.Dict.AddCanid.{add_canid_dict-IsWellFormed}
use agl_can_binder.CanidSearch.Dict.Every.{Every, Extends, add_canid_dict-Every}
use agl_can_binder.CanSignalEvent.Ivi.Shape.{InRange, IsWellFormed}
use agl_can_binder.CanSignalEvent.Parse.Laws.{get_canid_dict-update_canid}
use agl_can_binder.CanSignalEvent.Parse.Sound.{IsSound}

InRange-mono : (n m : ℕ) (o : Option ℕ) → n ≤ m → InRange n o → InRange m o
InRange-mono n m none le h = tt
InRange-mono n m (some i) le h = omega (arith, le, h)

IsWellFormed-Extends : Extends IsWellFormed
IsWellFormed-Extends x p h w =
    InRange-mono (suc (length x.next)) (suc (length (x.next ++ p.head ∷ []))) x.applyinfo
      (omega (arith, length-append x.next (p.head ∷ []))) h

-- Whatever a call returns, it leaves sound dictionaries sound, if every entry of the CAN-ID has its
-- applied entry, if any, in its list.
pub add_canid_dict-IsSound :
    (memory : ℕ → Bool) (info : CanidInfo) (d : Dict)
    → IsSound d
    → All IsWellFormed info.property
    → IsSound (add_canid_dict memory info d).0
add_canid_dict-IsSound memory info d s good = record {
  well_formed = add_canid_dict-IsWellFormed memory info d s.well_formed;
  applied =
      add_canid_dict-Every IsWellFormed IsWellFormed-Extends memory info d s.well_formed s.applied
        good;
}

-- A write to a CAN-ID that keeps a predicate on its properties keeps it everywhere.
pub update_canid-Every :
    (Q : Property → Type 0) (k : ℕ) (f : CanidInfo → CanidInfo) (d : Dict)
    → IsSorted compare-IsOrder d.canid_root
    → Every Q d
    → ((info : CanidInfo) → get_canid_dict k d ≡ some info → All Q (f info).property)
    → Every Q (update_canid k f d)
update_canid-Every Q k f d sorted every keeps c info there =
    let found = get_canid_dict-update_canid c k f d sorted in
    elim (Bool-cases (c == k)) [
      | inr other ↦ every c info (ground (arith, found, other))
      | inl e ↦ elim (Option-cases (get_canid_dict c d)) [
        | inl gone ↦ absurd (ground (arith, found, e, gone))
        | inr (old, known) ↦
            let same : c ≡ k = ground arith in
            let new : info ≡ f old = ground (arith, found, e, known) in
            rw new (keeps old (rw same at known))
      ]
    ]
