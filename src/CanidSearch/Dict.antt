-- ===== src/CanidSearch/Dict.antt =====
-- src/canid_search.c: the dictionaries. A pointer into the `property` array of a CAN-ID is the CAN-ID
-- with a position; the code moves only entries of the array that no dictionary points to. `memory`
-- says of each request for memory, counted from the start, whether it is granted.
pub mod Refs
pub mod Entries
pub mod Add
pub mod WellFormed
pub mod AddCanid
pub mod Loop
pub mod Resolves
pub mod Every
pub mod Deref
use Prim.Native.Nat.{compare}
use agl_can_binder.Base.{
  ℕ, zero, suc, Bool, not, Option, none, some, List, [], ◌∷◌, ◌++◌, map, length, get_elem?, leb,
  ◌==◌, if◌then◌else◌, ◌>>=◌, CString, strcmp, ℤ, pos, negsuc,
}
use agl_can_binder.CanidInfo.Types.{CanBit, Property, CanidInfo}
use agl_can_binder.CanidSearch.Tree.{tfind, insert, modify, walk}

-- A `struct can_bit_t *` into the array of a CAN-ID.
pub record PropertyRef : Type 0 where
  pub canid : ℕ
  pub index : ℕ

-- `canid_root`, `property_root`, the first `nProperties` entries of `support_property_list`, and the
-- number of requests for memory.
pub record Dict : Type 0 where
  pub canid_root : List (ℕ × CanidInfo)
  pub property_root : List (CString × PropertyRef)
  pub support_property_list : List CString
  pub requests : ℕ

abbrev pub support_property_limit : ℕ
support_property_limit = 512

abbrev pub empty : Dict
empty = record { canid_root = []; property_root = []; support_property_list = []; requests = 0 }

unfoldable pub get_canid_dict : ℕ → Dict → Option CanidInfo
get_canid_dict canid d = tfind compare canid d.canid_root

unfoldable pub get_property_dict : CString → Dict → Option PropertyRef
get_property_dict name d = tfind strcmp name d.property_root

-- The property that a pointer of the dictionary points to.
unfoldable pub deref : PropertyRef → Dict → Option Property
deref r d = do info ← tfind compare r.canid d.canid_root; get_elem? info.property r.index

-- The return value of `addProperty_dict`: -1, 0 and 1.
pub data Added : Type 0 where
  failed listed chained : Added

-- `last->next = cpEntry` for the property at a position.
pub append_next : ℕ → CanBit → List Property → List Property
append_next i entry [] = []
append_next zero entry (p ∷ rest) = record p { next = p.next ++ entry ∷ [] } ∷ rest
append_next (suc i) entry (p ∷ rest) = p ∷ append_next i entry rest

-- What the loop does with the entry: an entry that was chained leaves the array, any other stays.
abbrev pub keep : Property → List Property → Added → List Property
keep p done chained = done
keep p done _ = done ++ p ∷ []

-- The state after a request for memory.
abbrev pub requested : Dict → Dict
requested d = record d { requests = suc d.requests }

module _ (memory : ℕ → Bool) where
  -- The name is new. The entry stays in the tree when the list of names is full.
  unfoldable pub add_new : ℕ → CanBit → List Property → Dict → Dict × List Property × Added
  add_new canid p done d =
      let entry : PropertyRef = record { canid = canid; index = length done } in
      let inserted = record (requested d) {
        property_root = insert strcmp p.name entry d.property_root;
      } in
      if not (memory d.requests)
      then (requested d, done, failed)
      else if leb support_property_limit (length d.support_property_list)
      then (inserted, done, failed)
      else (
        record inserted { support_property_list = d.support_property_list ++ p.name ∷ [] },
        done,
        listed,
      )

  -- The name is there. A copy goes to the end of its list, if the CAN-ID is the same.
  pub add_multi : ℕ → CanBit → PropertyRef → List Property → Dict → Dict × List Property × Added
  add_multi canid p r done d =
      if not (canid == r.canid)
      then (d, done, failed)
      else if not (memory d.requests)
      then (requested d, done, failed)
      else (requested d, append_next r.index p done, chained)

  -- `done` is the part of the array in front of the entry.
  unfoldable pub add_property_dict :
      ℕ → CanBit → List Property → Dict → Dict × List Property × Added
  add_property_dict canid p done d = elim (tfind strcmp p.name d.property_root) [
    | none ↦ add_new canid p done d
    | some r ↦ add_multi canid p r done d
  ]

  -- The loop of `addCANID_dict` over the entries not yet seen. Their `next` is NULL.
  unfoldable pub add_properties : ℕ → List Property → List Property → Dict → Dict × List Property
  add_properties canid [] done d = (d, done)
  add_properties canid (p ∷ rest) done d =
      let (d', done', added) = add_property_dict canid p.head done d in
      add_properties canid rest (keep p done' added) d'

  unfoldable pub add_canid_dict : CanidInfo → Dict → Dict × ℤ
  add_canid_dict canid_info d = elim (tfind compare canid_info.canid d.canid_root) [
    | some other ↦ (d, negsuc 0)
    | none ↦
        let (d', property) = add_properties canid_info.canid canid_info.property [] (requested d) in
        if not (memory d.requests) then (requested d, negsuc 0) else (
          record d' {
            canid_root =
                insert compare canid_info.canid (record canid_info { property = property })
                  d'.canid_root;
          },
          pos 0,
        )
  ]

-- The CAN-IDs in the order in which `canid_walker` hands them to its action.
unfoldable pub canid_walker : Dict → List CanidInfo
canid_walker d = walk d.canid_root

unfoldable pub get_support_properties_list : Dict → List CString
get_support_properties_list d = d.support_property_list

-- The list of names, and its count, stay.
unfoldable pub destroy_dict : Dict → Dict
destroy_dict d = record d { canid_root = []; property_root = [] }

-- A write through a pointer to a CAN-ID of the dictionary.
unfoldable pub update_canid : ℕ → (CanidInfo → CanidInfo) → Dict → Dict
update_canid canid f d = record d { canid_root = modify compare canid f d.canid_root }
