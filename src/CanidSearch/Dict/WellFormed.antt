-- ===== src/CanidSearch/Dict/WellFormed.antt =====
-- The dictionaries between two calls, and `addCANID_dict` as a whole.
use Prim.Native.Nat.{compare}
use agl_can_binder.Base.{ℕ, ◌≡◌, none, some, List, [], arith, CString}
use agl_can_binder.CanidInfo.Types.{Property, CanidInfo}
use agl_can_binder.CanidSearch.Tree.{tfind}
use agl_can_binder.CanidSearch.Tree.Laws.{IsSorted, compare-IsOrder, strcmp-IsOrder}
use agl_can_binder.CanidSearch.Dict.{PropertyRef, Dict, deref, get_property_dict}
use agl_can_binder.CanidSearch.Dict.Refs.{HasName}
use agl_can_binder.CanidSearch.Dict.Resolves.{Arrays, Resolves, Resolves-tfind, Listed}

-- The array of a CAN-ID, empty where it is not known.
abbrev pub arrays : List (ℕ × CanidInfo) → Arrays
arrays root c = elim (tfind compare c root) [ none ↦ [] | some info ↦ info.property ]

pub record IsWellFormed (d : Dict) : Type 0 where
  pub canids_in_order : IsSorted compare-IsOrder d.canid_root
  pub names_in_order : IsSorted strcmp-IsOrder d.property_root
  pub resolves : Resolves (arrays d.canid_root) d.property_root
  pub listed : Listed d

-- In well-formed dictionaries no pointer dangles: a name of the dictionary leads to a property of
-- that name.
pub deref-get_property_dict :
    (name : CString) (d : Dict) (r : PropertyRef)
    → IsWellFormed d
    → get_property_dict name d ≡ some r
    → (p : Property) × (deref r d ≡ some p) × (p.head.name ≡ name)
unfolding get_property_dict deref HasName
deref-get_property_dict name d r wf h =
    let (p, there, named) =
      Resolves-tfind (arrays d.canid_root) name r d.property_root wf.resolves h in
    (p, ground (arith, there), named)
