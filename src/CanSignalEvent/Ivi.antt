-- ===== src/CanSignalEvent/Ivi.antt =====
-- src/can_signal_event.c: `update_iviproperty`. The call of `notify_property_changed` at its end is
-- an answer here, and `parse_candata` makes the call. `none` is an undefined shift in
-- `canframe2property`. Logging is left out.
pub mod Single
pub mod Entries
pub mod Multi
pub mod Shape
pub mod Total
use agl_can_binder.Base.{
  ℕ, zero, suc, Bool, true, false, not, ◌&&◌, ◌||◌, Option, none, some, List, [], ◌∷◌, map,
  get_elem?, leb, ltb, ◌==◌, if◌then◌else◌, ◌>>=◌,
}
use agl_can_binder.CanidInfo.Types.{
  UpdateStat, upstat_error, upstat_no_updated, upstat_updated, Strings, Timeval, CanBit, Property,
}
use agl_can_binder.CanidInfo.Frame.{canframe2property}
use agl_can_binder.CanSignalEvent.Elapsed.{elaps_ms}

-- The list that starts at the head.
abbrev pub chain : Property → List CanBit
chain p = p.head ∷ p.next

-- The property with the entries of the list changed; no loop changes the list's length.
abbrev pub with_chain : Property → List CanBit → Property
with_chain p [] = p
with_chain p (head ∷ next) = record p { head = head; next = next }

-- memset(&n->curValue, 0, …)
abbrev pub reset : CanBit → CanBit
reset p = record p { cur_value = 0 }

abbrev pub stamp : Timeval → CanBit → CanBit
stamp t p = record p { updatetime = t }

-- p->updatetime = *timestamp, for entry i of the list.
pub stamp_at : ℕ → Timeval → List CanBit → List CanBit
stamp_at i t [] = []
stamp_at zero t (p ∷ rest) = stamp t p ∷ rest
stamp_at (suc i) t (p ∷ rest) = p ∷ stamp_at i t rest

-- The variables of the loop: the entries behind it, `mark`, `update`, and whether an entry failed.
pub record Scan : Type 0 where
  pub entries : List CanBit
  pub mark : Option ℕ
  pub update : ℕ
  pub failed : Bool

-- The loop's parameters.
pub record Arrival : Type 0 where
  pub strings : Strings
  pub value : ℕ
  pub timestamp : Timeval
  pub elaps : ℕ
  pub cycle : ℕ
  pub is_multi : Bool

abbrev behind : CanBit → Scan → Scan
behind p s = record s { entries = p ∷ s.entries }

-- The loop from entry i on. An error leaves it, with the entries after it untouched.
unfoldable pub scan : Arrival → ℕ → Option ℕ → ℕ → List CanBit → Option Scan
scan a i mark update [] =
    some (record { entries = []; mark = mark; update = update; failed = false })
scan a i mark update (p ∷ rest) = do
  (p', ret) ← canframe2property a.strings a.value p
  elim ret [
    | upstat_updated ↦ do
      s ← scan a (suc i) (some i) (suc update) rest
      some (behind (if a.is_multi then p' else stamp a.timestamp p') s)
    | upstat_no_updated ↦ elim (not a.is_multi && leb a.cycle a.elaps) [
      | true ↦ do s ← scan a (suc i) mark (suc update) rest; some (behind (stamp a.timestamp p') s)
      | false ↦ do s ← scan a (suc i) mark update rest; some (behind p' s)
    ]
    | upstat_error ↦
        some (record { entries = p' ∷ rest; mark = mark; update = update; failed = true })
  ]

-- Whether two positions, or NULLs, are the same.
abbrev pub same_entry : Option ℕ → Option ℕ → Bool
same_entry none none = true
same_entry (some i) (some j) = i == j
same_entry _ _ = false

-- The value of an entry, 0 where there is none: `pre_apValue`.
abbrev pub value_at : Option ℕ → List CanBit → ℕ
value_at none l = 0
value_at (some i) l = elim (get_elem? l i) [ none ↦ 0 | some p ↦ p.cur_value ]

-- What follows the loop where the property has several entries: the new property and `update`.
pub settle : Arrival → Property → ℕ → Scan → Property × ℕ
unfolding stamp_at
settle a p pre_ap_value s = elim s.mark [
  | none ↦
      if leb a.cycle a.elaps
      then (with_chain p (stamp_at 0 a.timestamp s.entries), suc s.update)
      else (with_chain p s.entries, s.update)
  | some m ↦
      if same_entry p.applyinfo (some m)
      then (if not (value_at (some m) s.entries == pre_ap_value) || leb a.cycle a.elaps
          then (with_chain p (stamp_at 0 a.timestamp s.entries), suc s.update)
          else (with_chain p s.entries, 0))
      else (
        with_chain (record p { applyinfo = some m })
            (stamp_at m a.timestamp (stamp_at 0 a.timestamp s.entries)),
        suc s.update,
      )
]

-- The property after the call, whether its clients are notified, and the return value.
pub record Outcome : Type 0 where
  pub property : Property
  pub notifies : Bool
  pub status : ℕ

abbrev finish : Property × ℕ → Outcome
finish (p, update) = record { property = p; notifies = ltb 0 update; status = 0 }

-- From the loop's end to the call of `notify_property_changed`.
unfoldable pub conclude : Arrival → Property → ℕ → Scan → Outcome
unfolding settle
conclude a p pre_ap_value s =
    if s.failed
    then record { property = with_chain p s.entries; notifies = false; status = 1 }
    else if a.is_multi
    then finish (settle a p pre_ap_value s)
    else finish (with_chain p s.entries, s.update)

abbrev pub is_nil : List CanBit → Bool
is_nil [] = true
is_nil (_ ∷ _) = false

abbrev pub arrival : Strings → ℕ → ℕ → Property → Timeval → Arrival
arrival strings cycle can_v64 property_info timestamp = record {
  strings = strings;
  value = can_v64;
  timestamp = timestamp;
  elaps = elaps_ms property_info.head.updatetime timestamp;
  cycle = cycle;
  is_multi = not (is_nil property_info.next);
}

-- The entries that the loop starts from: with several, their values are cleared.
unfoldable pub start : Bool → Property → List CanBit
start is_multi p = if is_multi then map reset (chain p) else chain p

unfoldable pub update_iviproperty : Strings → ℕ → ℕ → Property → Timeval → Option Outcome
unfolding scan conclude start
update_iviproperty strings cycle can_v64 property_info timestamp = do
  let a = arrival strings cycle can_v64 property_info timestamp
  let pre_ap_value = value_at property_info.applyinfo (chain property_info)
  s ← scan a 0 none 0 (start a.is_multi property_info)
  some (conclude a property_info pre_ap_value s)
