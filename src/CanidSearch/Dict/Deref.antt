-- ===== src/CanidSearch/Dict/Deref.antt =====
-- What a write to one CAN-ID does to the properties that are found.

use agl_can_binder.Base.{ℕ, ◌≡◌, ◌≢◌, some, get_elem?, arith}
use agl_can_binder.CanidInfo.Types.{CanidInfo}
use agl_can_binder.CanidSearch.Tree.Laws.{IsSorted, compare-IsOrder, tfind-modify}
use agl_can_binder.CanidSearch.Dict.{Dict, PropertyRef, get_canid_dict, deref, update_canid}

-- A pointer leads into the array of its CAN-ID.
pub deref_known :
    (r : PropertyRef) (d : Dict) (info : CanidInfo)
    → get_canid_dict r.canid d ≡ some info
    → deref r d ≡ get_elem? info.property r.index
unfolding deref get_canid_dict
deref_known r d info h = ground (arith, h)

module _ (k : ℕ) (f : CanidInfo → CanidInfo) (d : Dict)
    (sorted : IsSorted compare-IsOrder d.canid_root) where
  pub deref-update_canid :
      (r : PropertyRef) (info : CanidInfo)
      → r.canid ≡ k
      → get_canid_dict k d ≡ some info
      → deref r (update_canid k f d) ≡ get_elem? (f info).property r.index
  unfolding deref update_canid get_canid_dict
  deref-update_canid r info same h =
      ground (arith, tfind-modify compare-IsOrder k r.canid f d.canid_root sorted, h)

  pub deref-update_canid_other :
      (r : PropertyRef) → r.canid ≢ k → deref r (update_canid k f d) ≡ deref r d
  unfolding deref update_canid
  deref-update_canid_other r other =
      ground (arith, tfind-modify compare-IsOrder k r.canid f d.canid_root sorted)
