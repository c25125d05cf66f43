-- ===== src/Binding/Subscribe/Filter.antt =====
-- The filter that an answer to a request to subscribe sets, and forgets.

use agl_can_binder.Base.{
  ℕ, ◌≡◌, ◌⊎◌, ◌∙◌, refl, sym, inl, inr, Option, List, [], ◌∷◌, CString, arith,
}
use agl_can_binder.CanJson.Value.{Json}
use agl_can_binder.SocketcanRaw.{Socket, socketcan_update_filter}
use agl_can_binder.BindEvent.{Events, get_subscribed_canids}
use agl_can_binder.Binding.Verbs.{Process}
use agl_can_binder.Binding.Subscribe.{answer_subscription}

-- A filter that is set for some CAN-ID forgets the one before.
update_filter_again :
    (c : ℕ) (l k : List ℕ) (sock : Socket)
    → socketcan_update_filter (c ∷ l) (socketcan_update_filter k sock)
      ≡ socketcan_update_filter (c ∷ l) sock
unfolding socketcan_update_filter
update_filter_again c l [] sock = refl
update_filter_again c l (x ∷ k) sock = ground arith

pub update_filter_forgets :
    (l k k' : List ℕ) (sock : Socket)
    → (l ≡ [])
      ⊎ (socketcan_update_filter l (socketcan_update_filter k sock)
          ≡ socketcan_update_filter l (socketcan_update_filter k' sock))
update_filter_forgets [] k k' sock = inl refl
update_filter_forgets (c ∷ l) k k' sock =
    inr (update_filter_again c l k sock ∙ sym (update_filter_again c l k' sock))

-- A process after an answer, from the tree that the request led to.
abbrev pub FollowsTree : Events → Process → Process → Type 0
FollowsTree e s s' =
    (s'.dict ≡ s.dict)
    × (s'.events.bind_event_root ≡ e.bind_event_root)
    × (s'.socket ≡ socketcan_update_filter (get_subscribed_canids s'.events).1 s.socket)

pub answer_subscription-tree :
    (r : Events × List (CString × Option Json) × ℕ) (s : Process)
    → FollowsTree r.0 s (answer_subscription r s).0
unfolding answer_subscription get_subscribed_canids
answer_subscription-tree (e, apply, err) s = (refl, refl, refl)
