-- ===== src/CanidSearch/Dict/AddCanid.antt =====
-- What adding a CAN-ID to well-formed dictionaries comes to.
use Prim.Native.Nat.{compare}
use agl_can_binder.Base.{
  ℕ, ◌≡◌, refl, Bool, true, false, none, some, List, [], map, All, arith, CString, Bool-cases,
  Option-cases, ◌≢◌, inl, inr, pos, negsuc,
}
use agl_can_binder.CanidInfo.Types.{Property, CanidInfo}
use agl_can_binder.CanidSearch.Tree.{tfind, insert}
use agl_can_binder.CanidSearch.Tree.Laws.{IsSorted, compare-IsOrder, insert-IsSorted, tfind-insert}
use agl_can_binder.CanidSearch.Dict.{
  Dict, add_properties, add_canid_dict, requested, get_canid_dict,
}
use mathlib.Core.List.{Perm}
use agl_can_binder.CanidSearch.Dict.Entries.{entries, IsGrouped}
use agl_can_binder.CanidSearch.Dict.Refs.{HasName}
use agl_can_binder.CanidSearch.Dict.Resolves.{override, Resolves-mono}
use agl_can_binder.CanidSearch.Dict.WellFormed.{arrays, IsWellFormed}
use agl_can_binder.CanidSearch.Dict.Loop.{
  Alone, Between, add_properties-Between, add_properties-canid_root, add_properties-entries,
}

-- Putting an array in the place of an unknown CAN-ID's.
arrays-insert :
    (canid : ℕ) (info : CanidInfo) (root : List (ℕ × CanidInfo)) (c : ℕ)
    → IsSorted compare-IsOrder root
    → tfind compare canid root ≡ none
    → override canid info.property (arrays root) c ≡ arrays (insert compare canid info root) c
arrays-insert canid info root c s h =
    ground (arith, tfind-insert compare-IsOrder canid c info root s h)

arrays-unknown :
    (canid : ℕ) (root : List (ℕ × CanidInfo)) (c : ℕ)
    → tfind compare canid root ≡ none
    → arrays root c ≡ override canid [] (arrays root) c
arrays-unknown canid root c h = ground arith

HasName-along : {l k : List Property} (i : ℕ) (n : CString) → l ≡ k → HasName l i n → HasName k i n
HasName-along i n e h = rw e at h

module _ (memory : ℕ → Bool) (info : CanidInfo) (d : Dict) where
  -- What the loop makes of the entries of a CAN-ID that is not known yet.
  abbrev pub added : Dict × List Property
  added = add_properties memory info.canid info.property [] (requested d)

  module _ (wf : IsWellFormed d) (unknown : get_canid_dict info.canid d ≡ none) where
    first : Between memory info.canid (arrays d.canid_root) [] (requested d)
    unfolding get_canid_dict
    first = record {
      sorted = wf.names_in_order;
      resolves =
          Resolves-mono (arrays d.canid_root) (override info.canid [] (arrays d.canid_root))
            d.property_root
            (λ c i n. HasName-along i n (arrays-unknown info.canid d.canid_root c unknown))
            wf.resolves;
      listed = wf.listed;
    }

    last : Between memory info.canid (arrays d.canid_root) added.1 added.0
    last =
        add_properties-Between memory info.canid (arrays d.canid_root) info.property []
          (requested d) first

    pub root_same : added.0.canid_root ≡ d.canid_root
    root_same =
        add_properties-canid_root memory info.canid (arrays d.canid_root) info.property []
          (requested d)

    abbrev stored : CanidInfo
    stored = record info { property = added.1 }

    inserted-IsWellFormed :
        IsWellFormed
          (record added.0 { canid_root = insert compare info.canid stored added.0.canid_root })
    unfolding get_canid_dict
    inserted-IsWellFormed = rw root_same (record {
      canids_in_order =
          insert-IsSorted compare-IsOrder info.canid stored d.canid_root wf.canids_in_order;
      names_in_order = last.sorted;
      resolves =
          Resolves-mono (override info.canid added.1 (arrays d.canid_root))
            (arrays (insert compare info.canid stored d.canid_root)) added.0.property_root
            (λ c i n.
              HasName-along i n
                (arrays-insert info.canid stored d.canid_root c wf.canids_in_order unknown))
            last.resolves;
      listed = last.listed;
    })

  abbrev pub after : Dict
  after = record added.0 {
    canid_root = insert compare info.canid (record info { property = added.1 }) added.0.canid_root;
  }

  pub add_canid_dict-known :
      (other : CanidInfo)
      → tfind compare info.canid d.canid_root ≡ some other
      → add_canid_dict memory info d ≡ (d, negsuc 0)
  unfolding add_canid_dict
  add_canid_dict-known other e = rw (e, add_canid_dict)

  pub add_canid_dict-refused :
      tfind compare info.canid d.canid_root ≡ none
      → memory d.requests ≡ false
      → add_canid_dict memory info d ≡ (requested d, negsuc 0)
  unfolding add_canid_dict
  add_canid_dict-refused e r = rw (e, add_canid_dict) (rw r)

  pub add_canid_dict-granted :
      tfind compare info.canid d.canid_root ≡ none
      → memory d.requests ≡ true
      → add_canid_dict memory info d ≡ (after, pos 0)
  unfolding add_canid_dict
  add_canid_dict-granted e r = rw (e, add_canid_dict) (rw r)

  -- Whatever a call returns, it leaves the dictionaries well formed.
  pub add_canid_dict-IsWellFormed : IsWellFormed d → IsWellFormed (add_canid_dict memory info d).0
  unfolding get_canid_dict
  add_canid_dict-IsWellFormed wf = elim (Option-cases (tfind compare info.canid d.canid_root)) [
    | inl e ↦ elim (Bool-cases (memory d.requests)) [
      | inl granted ↦ rw (add_canid_dict-granted e granted) (inserted-IsWellFormed wf e)
      | inr refused ↦ rw (add_canid_dict-refused e refused) (record {
        canids_in_order = wf.canids_in_order;
        names_in_order = wf.names_in_order;
        resolves = wf.resolves;
        listed = wf.listed;
      })
    ]
    | inr (other, e) ↦ rw (add_canid_dict-known other e) wf
  ]

  -- With well-formed dictionaries, memory granted for the CAN-ID, and entries without a list: a new
  -- CAN-ID returns 0. It is found with an array whose entries, with those on the lists, are the
  -- entries of the CAN-ID in some order; on a list are entries of the name of the one that it
  -- hangs on; and every other CAN-ID is found as before.
  pub add_canid_dict_accepted :
      IsWellFormed d
      → get_canid_dict info.canid d ≡ none
      → memory d.requests ≡ true
      → Alone info.property
      → let (d', result) = add_canid_dict memory info d in
        (l : List Property) × (result ≡ pos 0)
        × (get_canid_dict info.canid d' ≡ some (record info { property = l }))
        × Perm (entries l) (map (λ (p : Property). p.head) info.property)
        × All IsGrouped l
        × ((c : ℕ) → c ≢ info.canid → get_canid_dict c d' ≡ get_canid_dict c d)
  unfolding get_canid_dict
  add_canid_dict_accepted wf unknown granted alone =
      let found = λ (c : ℕ).
        tfind-insert compare-IsOrder info.canid c (stored wf unknown) d.canid_root
          wf.canids_in_order unknown in
      rw (add_canid_dict-granted unknown granted) (
        rw (root_same wf unknown) (
          added.1,
          refl,
          ground (arith, found info.canid),
          kept.0,
          kept.1,
          λ c other. ground (arith, found c),
        ))
    where
      kept :
          Perm (entries added.1) (map (λ (p : Property). p.head) info.property)
          × All IsGrouped added.1
      kept =
          unfold entries in
          add_properties-entries memory info.canid (arrays d.canid_root) info.property []
            (requested d) (first wf unknown) alone tt
