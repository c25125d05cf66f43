-- ===== src/CanidSearch/Dict/Add.antt =====
-- What `addProperty_dict` and `addCANID_dict` keep: the trees stay in order, every entry of the
-- property dictionary points to a property of its name, every listed name is in the dictionary, the
-- list keeps its limit, and no entry of a CAN-ID is lost.

use agl_can_binder.Base.{
  ℕ, ◌⊎◌, ◌≡◌, Bool, List, [], ◌∷◌, ◌++◌, length, arith, ◌==◌, length-append, Bool-cases,
  Option-cases, inl, inr, strcmp,
}
use agl_can_binder.CanidInfo.Types.{Property}
use agl_can_binder.CanidSearch.Tree.{tfind, insert}
use agl_can_binder.CanidSearch.Tree.Laws.{IsSorted, strcmp-IsOrder, insert-IsSorted}
use agl_can_binder.CanidSearch.Dict.{
  PropertyRef, Dict, append_next, add_new, add_multi, add_property_dict, keep,
}
use agl_can_binder.CanidSearch.Dict.Refs.{HasName, HasName-append, HasName-end, HasName-append_next}
use agl_can_binder.CanidSearch.Dict.Resolves.{
  Arrays, override, Resolves, Resolves-mono, Resolves-insert, Resolves-tfind, override_mono,
  override_self, Listed, All-IsListed-insert, All-append-one, IsListed-insert_self, override-eq,
}

module _ (memory : ℕ → Bool) (canid : ℕ) (old : Arrays) where
  module _ (p : Property) (done : List Property) (d : Dict) where
    abbrev longer : Arrays
    longer = override canid (done ++ p ∷ []) old

    stays-Resolves :
        Resolves (override canid done old) d.property_root → Resolves longer d.property_root
    stays-Resolves r =
        Resolves-mono (override canid done old) longer d.property_root
          (λ c i n.
            override_mono canid old done (done ++ p ∷ []) c i n (HasName-append done (p ∷ []) i n))
          r

    add_new-Resolves :
        Resolves (override canid done old) d.property_root
        → let (d', done', added) = add_new memory canid p.head done d in
          Resolves (override canid (keep p done' added) old) d'.property_root
    unfolding add_new
    add_new-Resolves r =
        let e : PropertyRef = record { canid = canid; index = length done } in
        let last : HasName (longer canid) (length done) p.head.name =
          rw (override_self canid (done ++ p ∷ []) old) (HasName-end done p) in
        ground (
          arith,
          stays-Resolves r,
          Resolves-insert longer p.head.name e d.property_root last (stays-Resolves r),
        )

    add_multi-Resolves :
        (e : PropertyRef)
        → Resolves (override canid done old) d.property_root
        → let (d', done', added) = add_multi memory canid p.head e done d in
          Resolves (override canid (keep p done' added) old) d'.property_root
    unfolding add_multi
    add_multi-Resolves e r = ground (
      arith,
      stays-Resolves r,
      Resolves-mono (override canid done old) (override canid (append_next e.index p.head done) old)
          d.property_root
          (λ c i n.
            override_mono canid old done (append_next e.index p.head done) c i n
              (HasName-append_next e.index p.head done i n))
          r,
    )

    pub add_property_dict-Resolves :
        Resolves (override canid done old) d.property_root
        → let (d', done', added) = add_property_dict memory canid p.head done d in
          Resolves (override canid (keep p done' added) old) d'.property_root
    unfolding add_property_dict
    add_property_dict-Resolves r = elim (Option-cases (tfind strcmp p.head.name d.property_root)) [
      | inl e ↦ rw (e, add_property_dict) (add_new-Resolves r)
      | inr (k, e) ↦ rw (e, add_property_dict) (add_multi-Resolves k r)
    ]

    pub add_property_dict-IsSorted :
        IsSorted strcmp-IsOrder d.property_root
        → IsSorted strcmp-IsOrder (add_property_dict memory canid p.head done d).0.property_root
    unfolding add_property_dict add_new add_multi
    add_property_dict-IsSorted s =
        let e : PropertyRef = record { canid = canid; index = length done } in
        ground (arith, insert-IsSorted strcmp-IsOrder p.head.name e d.property_root s)

    pub add_property_dict-Listed :
        IsSorted strcmp-IsOrder d.property_root
        → Listed d
        → Listed (add_property_dict memory canid p.head done d).0
    unfolding add_property_dict add_new add_multi
    add_property_dict-Listed s l =
        let e : PropertyRef = record { canid = canid; index = length done } in
        elim (Option-cases (tfind strcmp p.head.name d.property_root)) [
          | inl none_there ↦
              let kept =
                All-IsListed-insert p.head.name e d.property_root d.support_property_list s
                  none_there l.0 in
              let own = IsListed-insert_self p.head.name e d.property_root s none_there in
              let longer_list =
                All-append-one (insert strcmp p.head.name e d.property_root) d.support_property_list
                  p.head.name kept own in
              ground
                (arith, kept, longer_list, length-append d.support_property_list (p.head.name ∷ []))
          | inr (k, there) ↦ ground arith
        ]

    pub add_property_dict-canid_root :
        (add_property_dict memory canid p.head done d).0.canid_root ≡ d.canid_root
    unfolding add_property_dict add_new add_multi
    add_property_dict-canid_root = ground arith

    -- The entry stays in the array, or goes to the end of the list of one of its name.
    pub add_property_dict_cases :
        Resolves (override canid done old) d.property_root
        → let (d', done', added) = add_property_dict memory canid p.head done d in
          (keep p done' added ≡ done ++ p ∷ [])
          ⊎ ((i : ℕ) × HasName done i p.head.name
              × (keep p done' added ≡ append_next i p.head done))
    unfolding add_property_dict add_new add_multi
    add_property_dict_cases r = elim (Option-cases (tfind strcmp p.head.name d.property_root)) [
      | inl e ↦ inl (ground (arith, e))
      | inr (k, e) ↦
          let there = Resolves-tfind (override canid done old) p.head.name k d.property_root r e in
          elim (Bool-cases (canid == k.canid)) [
            | inr other ↦ inl (ground (arith, e, other))
            | inl same ↦
                let here : HasName done k.index p.head.name =
                  rw (override-eq canid k.canid done old same) at there in
                elim (Bool-cases (memory d.requests)) [
                  | inl granted ↦ inr (k.index, here, ground (arith, e, same, granted))
                  | inr refused ↦ inl (ground (arith, e, same, refused))
                ]
          ]
    ]
