-- ===== src/CanidSearch/Dict/Loop.antt =====
-- What the loop of `addCANID_dict` over the entries of a CAN-ID keeps.

use agl_can_binder.Base.{ℕ, ◌≡◌, refl, ◌∙◌, Bool, List, [], ◌∷◌, ◌++◌, map, inl, inr, All}
use agl_can_binder.CanidInfo.Types.{Property}
use agl_can_binder.CanidSearch.Tree.Laws.{IsSorted, strcmp-IsOrder}
use agl_can_binder.CanidSearch.Dict.{Dict, add_property_dict, add_properties, keep}
use mathlib.Core.List.{Perm, perm_middle, append-nil}
use mathlib.Core.List.Perm
use agl_can_binder.CanidSearch.Dict.Entries.{
  entries, IsGrouped, entries-end, entries-append_next, IsGrouped-end, IsGrouped-append_next,
}
use agl_can_binder.CanidSearch.Dict.Add.{
  add_property_dict-Resolves, add_property_dict-IsSorted, add_property_dict-Listed,
  add_property_dict-canid_root, add_property_dict_cases,
}
use agl_can_binder.CanidSearch.Dict.Resolves.{Arrays, override, Resolves, Listed}

-- Entries that have not been added yet have no list.
abbrev pub Alone : List Property → Type 0
Alone = All λ (p : Property). p.next ≡ []

module _ (memory : ℕ → Bool) (canid : ℕ) (old : Arrays) where
  -- What holds between two rounds of the loop.
  pub record Between (done : List Property) (d : Dict) : Type 0 where
    pub sorted : IsSorted strcmp-IsOrder d.property_root
    pub resolves : Resolves (override canid done old) d.property_root
    pub listed : Listed d

  add_property_dict-Between :
      (p : Property) (done : List Property) (d : Dict)
      → Between done d
      → let (d', done', status) = add_property_dict memory canid p.head done d in
        Between (keep p done' status) d'
  add_property_dict-Between p done d b = record {
    sorted = add_property_dict-IsSorted memory canid old p done d b.sorted;
    resolves = add_property_dict-Resolves memory canid old p done d b.resolves;
    listed = add_property_dict-Listed memory canid old p done d b.sorted b.listed;
  }

  pub add_properties-Between :
      (todo done : List Property) (d : Dict)
      → Between done d
      → let (d', property) = add_properties memory canid todo done d in Between property d'
  unfolding add_properties
  add_properties-Between [] done d b = b
  add_properties-Between (p ∷ rest) done d b =
      add_properties-Between rest _ (add_property_dict memory canid p.head done d).0
        (add_property_dict-Between p done d b)

  pub add_properties-canid_root :
      (todo done : List Property) (d : Dict)
      → (add_properties memory canid todo done d).0.canid_root ≡ d.canid_root
  unfolding add_properties
  add_properties-canid_root [] done d = refl
  add_properties-canid_root (p ∷ rest) done d =
      add_properties-canid_root rest _ (add_property_dict memory canid p.head done d).0
      ∙ add_property_dict-canid_root memory canid old p done d

  -- One round keeps the entries and the groups.
  add_property_dict-entries :
      (p : Property) (done : List Property) (d : Dict)
      → Resolves (override canid done old) d.property_root
      → p.next ≡ []
      → All IsGrouped done
      → let (d', done', added) = add_property_dict memory canid p.head done d in
        Perm (entries (keep p done' added)) (p.head ∷ entries done)
        × All IsGrouped (keep p done' added)
  add_property_dict-entries p done d r alone groups =
      elim (add_property_dict_cases memory canid old p done d r) [
        | inl same ↦ rw same (entries-end done p alone, IsGrouped-end done p groups alone)
        | inr (i, here, same) ↦ rw same (
          entries-append_next i p.head done p.head.name here,
          IsGrouped-append_next i p.head done here groups,
        )
      ]

  pub add_properties-entries :
      (todo done : List Property) (d : Dict)
      → Between done d
      → Alone todo
      → All IsGrouped done
      → let l = (add_properties memory canid todo done d).1 in
        Perm (entries l) (entries done ++ map (λ (p : Property). p.head) todo) × All IsGrouped l
  unfolding add_properties
  add_properties-entries [] done d b alone groups =
      (rw (append-nil (entries done)) Perm.rfl, groups)
  add_properties-entries (p ∷ rest) done d b alone groups =
      let heads = map (λ (p : Property). p.head) rest in
      let (one, groups') = add_property_dict-entries p done d b.resolves alone.0 groups in
      let (later, groups'') =
        add_properties-entries rest _ (add_property_dict memory canid p.head done d).0
          (add_property_dict-Between p done d b) alone.1 groups' in
      (
        Perm.trans later (
            Perm.trans (Perm.append_right heads one)
              (Perm.symm (perm_middle (entries done) heads))),
        groups'',
      )
