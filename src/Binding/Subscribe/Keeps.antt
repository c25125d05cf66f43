-- ===== src/Binding/Subscribe/Keeps.antt =====
-- What every request to subscribe keeps, from what one name keeps.
use agl_can_binder.Base.{
  ℕ, zero, suc, ◌+◌, ◌≡◌, ◌⊎◌, Bool, inl, inr, Option, none, some, List, [], ◌∷◌, CString, codes,
  str_eq, arith, Option-cases, Bool-cases,
}
use agl_can_binder.CanidInfo.Types.{Strings}
use agl_can_binder.CanidSearch.Dict.{Dict, get_support_properties_list}
use agl_can_binder.CanJson.Value.{Json}
use agl_can_binder.BindEvent.{Events}
use agl_can_binder.Binding.Verbs.{Process, Reply}
use agl_can_binder.Binding.Subscribe.{
  Client, Signalled, subscribe_name, subscribe_all, subscribe_signal, answer_subscription,
  subscribe,
}

module _ (memory : ℕ → Bool) (make_event : CString → Option ℕ) (client : Client) (strings : Strings)
    (d : Dict) where
  subscribe_all_keeps :
      (P : Events → Type 0)
      (signal : CString → Events → List (CString × Option Json) → Option Signalled)
      → ((name : CString) (e : Events) (apply : List (CString × Option Json)) (r : Signalled)
          → signal name e apply ≡ some r
          → P e
          → P r.0)
      → (l : List CString) (e : Events) (apply : List (CString × Option Json)) (err : ℕ)
        (r : Signalled)
      → subscribe_all memory make_event client strings d signal l e apply err ≡ some r
      → P e
      → P r.0
  unfolding subscribe_all
  subscribe_all_keeps P signal keep [] e apply err r h p =
      let same : r.0 ≡ e = ground arith in rw same p
  subscribe_all_keeps P signal keep (name ∷ rest) e apply err r h p =
      elim (Option-cases (signal name e apply)) [
        | inl undefined ↦ absurd (ground (arith, undefined))
        | inr ((e', apply', n), first) ↦
            subscribe_all_keeps P signal keep rest e' apply' (err + n) r (ground (arith, first))
              (keep name e apply (e', apply', n) first p)
      ]

  -- What one name keeps, a request keeps, on a stack of any size.
  pub subscribe_signal_keeps :
      (P : Events → Type 0)
      → ((name : CString) (e : Events) (apply : List (CString × Option Json))
          → P e
          → P (subscribe_name memory make_event client strings d name e apply).0)
      → (stack : ℕ) (name : CString) (e : Events) (apply : List (CString × Option Json))
        (r : Signalled)
      → subscribe_signal memory make_event client strings d stack name e apply ≡ some r
      → P e
      → P r.0
  unfolding subscribe_signal
  subscribe_signal_keeps P keep zero name e apply r h p = absurd (cc)
  subscribe_signal_keeps P keep (suc stack) name e apply r h p =
      elim (Bool-cases (str_eq name (codes "*"))) [
        | inl every ↦
            subscribe_all_keeps P (subscribe_signal memory make_event client strings d stack)
              (subscribe_signal_keeps P keep stack) (get_support_properties_list d) e apply 0 r
              (rw (every, subscribe_signal) at h) p
        | inr single ↦
            let same : r.0 ≡ (subscribe_name memory make_event client strings d name e apply).0 =
              ground (arith, single) in
            rw same (keep name e apply p)
      ]

-- A request that returns changes nothing, or answers what `subscribe_signal` has made.
pub subscribe-cases :
    (stack : ℕ) (memory : ℕ → Bool) (make_event : CString → Option ℕ) (client : Client)
    (strings : Strings) (event : Option CString) (s s' : Process) (reply : Reply)
    → subscribe stack memory make_event client strings event s ≡ some (s', reply)
    → (s' ≡ s)
      ⊎ ((name : CString) × (r : Signalled) × (subscribe_signal memory make_event client strings
              s.dict stack name s.events []
            ≡ some r)
          × (s' ≡ (answer_subscription r s).0))
unfolding subscribe
subscribe-cases stack memory make_event client strings none s s' reply h = inl (ground arith)
subscribe-cases stack memory make_event client strings (some name) s s' reply h =
    elim (Option-cases
      (subscribe_signal memory make_event client strings s.dict stack name s.events [])) [
        | inl undefined ↦ absurd (ground (arith, undefined))
        | inr (r, there) ↦ inr (name, r, there, ground (arith, there))
      ]
