-- ===== src/BindEvent/Tied.antt =====
-- The events and the dictionary of names.
use Prim.Native.Nat.{Ordering}
use Prim.Native.Nat.Ordering.{lt, eq, gt}
use agl_can_binder.Base.{
  ℕ, ◌≡◌, refl, inl, inr, Bool, true, Option, none, some, CString, strcmp, eq_of_strcmp, is_eq,
  arith, Bool-cases,
}
use agl_can_binder.CanidSearch.Dict.{Dict, get_property_dict}
use agl_can_binder.CanidSearch.Dict.WellFormed.{IsWellFormed}
use agl_can_binder.BindEvent.{BindEvent, Events, get_event, register_event, remove_event}
use agl_can_binder.BindEvent.Laws.{InOrder, Registers, register_event_lem, remove_event_lem}

-- The events are in order, and each points to the property that the dictionary has for its name.
pub record IsTied (d : Dict) (e : Events) : Type 0 where
  pub in_order : InOrder e
  pub tied :
      (n : CString) (b : BindEvent)
      → get_event n e ≡ some b
      → (b.name ≡ n) × (get_property_dict n d ≡ some b.raw_info)

-- Removing events, and nothing else.
abbrev pub Shrinks : Events → Events → Type 0
Shrinks e e' =
    (InOrder e → InOrder e')
    × ((n : CString) (b : BindEvent) → InOrder e → get_event n e' ≡ some b → get_event n e ≡ some b)
    × (e'.subscribed_canids ≡ e.subscribed_canids)

pub Shrinks-IsTied : (d : Dict) (e e' : Events) → Shrinks e e' → IsTied d e → IsTied d e'
Shrinks-IsTied d e e' (order, fewer, same) t = record {
  in_order = order t.in_order;
  tied = λ n b h. t.tied n b (fewer n b t.in_order h);
}

remove_event-subscribed :
    (name : CString) (e : Events) → (remove_event name e).0.subscribed_canids ≡ e.subscribed_canids
unfolding remove_event
remove_event-subscribed name e = ground arith

pub remove_event-Shrinks : (name : CString) (e : Events) → Shrinks e (remove_event name e).0
remove_event-Shrinks name e = (
  λ s. (remove_event_lem name e s).0,
  λ n b s h. elim (remove_event_lem name e s).1 [
    | inl (gone, same) ↦ rw same at h
    | inr (old, there, status, drops, found) ↦ ground (arith, found n)
  ],
  remove_event-subscribed name e,
)

pub eq_of_is_eq : (o : Ordering) → is_eq o ≡ true → o ≡ eq
eq_of_is_eq eq h = refl
eq_of_is_eq lt h = cc
eq_of_is_eq gt h = cc

Registers-IsTied :
    (name : CString) (d : Dict) (e : Events) (r : Events × Option BindEvent)
    → IsTied d e
    → Registers name d e r
    → IsTied d r.0
unfolding get_event
Registers-IsTied name d e (e', result) t (inl (failed, same)) = record {
  in_order = rw same t.in_order;
  tied = λ n b h. t.tied n b (rw same at h);
}
Registers-IsTied name d e (e', result) t (inr (b, made, named, known, order, found)) = record {
  in_order = order;
  tied = λ n x h. elim (Bool-cases (is_eq (strcmp n name))) [
    | inl equal ↦
        let same : n ≡ name = eq_of_strcmp n name (eq_of_is_eq (strcmp n name) equal) in
        let new : x ≡ b = ground (arith, found n, equal, h) in rw (same, new) (named, known)
    | inr other ↦ t.tied n x (ground (arith, found n, other))
  ];
}

-- A registration under a new name.
pub register_event-IsTied :
    (memory : ℕ → Bool) (make_event : CString → Option ℕ) (name : CString) (d : Dict) (e : Events)
    → IsWellFormed d
    → get_event name e ≡ none
    → IsTied d e
    → IsTied d (register_event memory make_event name d e).0
register_event-IsTied memory make_event name d e wf fresh t =
    Registers-IsTied name d e (register_event memory make_event name d e) t
      (register_event_lem memory make_event name d e wf t.in_order fresh)
