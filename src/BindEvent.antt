-- ===== src/BindEvent.antt =====
-- src/bind_event.c and src/bind_event.h: the events that clients have subscribed to. An event of the
-- daemon is a number; `make_event` is the answer of `afb_daemon_make_event`, none where it fails, and
-- `memory` says of each request for memory whether it is granted.
pub mod Laws
pub mod Canids
pub mod Tied
pub mod Same
use agl_can_binder.Base.{
  ℕ, zero, suc, Bool, not, ◌||◌, Option, none, some, List, [], ◌∷◌, ◌++◌, length, leb, ◌==◌,
  if◌then◌else◌, ◌>>=◌, CString, strcmp, ℤ, pos,
}
use agl_can_binder.CanidSearch.Tree.{tfind, insert, tdelete, walk}
use agl_can_binder.CanidInfo.Types.{Property}
use agl_can_binder.CanidSearch.Dict.{Dict, PropertyRef, get_property_dict, deref}

-- struct bind_event_t
pub record BindEvent : Type 0 where
  pub name : CString
  pub event : ℕ
  pub raw_info : PropertyRef

-- `bind_event_root`, the first `nSubscribed_canid` entries of `subscribed_canids`, the events that
-- were dropped, and the number of requests for memory.
pub record Events : Type 0 where
  pub bind_event_root : List (CString × BindEvent)
  pub subscribed_canids : List ℕ
  pub dropped : List ℕ
  pub requests : ℕ

abbrev pub support_canid_max : ℕ
support_canid_max = 512

-- The test of the loop in `_addSubscribedCanid`.
unfoldable pub contains : ℕ → List ℕ → Bool
contains canid [] = Bool.false
contains canid (c ∷ rest) = canid == c || contains canid rest

-- `_addSubscribedCanid`
unfoldable pub add_subscribed_canid : ℕ → List ℕ → List ℕ
unfolding contains
add_subscribed_canid canid subscribed =
    if contains canid subscribed
    then subscribed
    else if leb support_canid_max (length subscribed)
    then subscribed
    else subscribed ++ canid ∷ []

-- `bind_event_walker` with `_addSubscribedCanid` as its handler.
unfoldable pub walk_canids : List BindEvent → List ℕ → List ℕ
unfolding add_subscribed_canid
walk_canids [] subscribed = subscribed
walk_canids (b ∷ rest) subscribed =
    walk_canids rest (add_subscribed_canid b.raw_info.canid subscribed)

-- The list is cleared first.
unfoldable pub get_subscribed_canids : Events → Events × List ℕ
unfolding walk_canids
get_subscribed_canids e =
    let canids = walk_canids (walk e.bind_event_root) [] in
    (record e { subscribed_canids = canids }, canids)

unfoldable pub get_event : CString → Events → Option BindEvent
get_event name e = tfind strcmp name e.bind_event_root

-- `tsearch` leaves an entry of the same name in the tree.
abbrev enter : BindEvent → Events → Events
enter b e = record e {
  bind_event_root = elim (tfind strcmp b.name e.bind_event_root) [
    | none ↦ insert strcmp b.name b e.bind_event_root
    | some other ↦ e.bind_event_root
  ];
}

abbrev requested : Events → Events
requested e = record e { requests = suc e.requests }

-- `calloc`, the event, `tsearch`.
unfoldable pub register_found :
    (ℕ → Bool) → (CString → Option ℕ) → PropertyRef → Property → Events → Events × Option BindEvent
register_found memory make_event property_info p e =
    if not (memory e.requests) then (requested e, none) else elim (make_event p.head.name) [
      | none ↦ (requested e, none)
      | some event ↦
          let b : BindEvent = record {
            name = p.head.name;
            event = event;
            raw_info = property_info;
          } in
          if not (memory (suc e.requests))
          then (requested (requested e), none)
          else (enter b (requested (requested e)), some b)
    ]

-- A name that the dictionary does not know gives NULL.
unfoldable pub register_event :
    (ℕ → Bool) → (CString → Option ℕ) → CString → Dict → Events → Events × Option BindEvent
unfolding register_found
register_event memory make_event name d e = elim (get_property_dict name d) [
  | none ↦ (e, none)
  | some property_info ↦ elim (deref property_info d) [
    | none ↦ (e, none)
    | some p ↦ register_found memory make_event property_info p e
  ]
]

pub remove_event : CString → Events → Events × ℤ
remove_event name e = elim (tfind strcmp name e.bind_event_root) [
  | none ↦ (e, pos 1)
  | some dnode ↦ (
    record e {
      bind_event_root = tdelete strcmp name e.bind_event_root;
      dropped = dnode.event ∷ e.dropped;
    },
    pos 0,
  )
]
