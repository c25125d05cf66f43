-- ===== src/Binding/Subscribe/Endless.antt =====
-- A property called "*".
use agl_can_binder.Base.{
  ℕ, zero, suc, ◌+◌, ◌≡◌, refl, Bool, inl, inr, Option, none, some, List, [], ◌∷◌, CString, codes,
  get_elem?, arith, Option-cases, strcmp,
}
use agl_can_binder.CanidInfo.Types.{Strings}
use agl_can_binder.CanidSearch.Dict.{Dict, get_support_properties_list}
use agl_can_binder.CanJson.Value.{Json}
use agl_can_binder.BindEvent.{Events}
use agl_can_binder.Binding.Verbs.{Process}
use agl_can_binder.Binding.Subscribe.{Client, Signalled, subscribe_all, subscribe_signal, subscribe}

module _ (memory : ℕ → Bool) (make_event : CString → Option ℕ) (client : Client) (strings : Strings)
    (d : Dict) where
  subscribe_all_endless :
      (signal : CString → Events → List (CString × Option Json) → Option Signalled)
      → ((e : Events) (apply : List (CString × Option Json)) → signal (codes "*") e apply ≡ none)
      → (l : List CString) (i : ℕ) → get_elem? l i ≡ some (codes "*")
      → (e : Events) (apply : List (CString × Option Json)) (err : ℕ)
      → subscribe_all memory make_event client strings d signal l e apply err ≡ none
  unfolding subscribe_all
  subscribe_all_endless signal h [] i there e apply err = absurd (cc)
  subscribe_all_endless signal h (n ∷ l) zero there e apply err =
      let star : n ≡ codes "*" = ground arith in rw star (rw (h e apply) refl)
  subscribe_all_endless signal h (n ∷ l) (suc i) there e apply err =
      elim (Option-cases (signal n e apply)) [
        | inl undefined ↦ rw undefined refl
        | inr ((e', apply', k), first) ↦
            rw first (subscribe_all_endless signal h l i there e' apply' (err + k))
      ]

  subscribe_signal_endless :
      (i : ℕ)
      → get_elem? (get_support_properties_list d) i ≡ some (codes "*")
      → (stack : ℕ) (e : Events) (apply : List (CString × Option Json))
      → subscribe_signal memory make_event client strings d stack (codes "*") e apply ≡ none
  unfolding subscribe_signal strcmp
  subscribe_signal_endless i there zero e apply = refl
  subscribe_signal_endless i there (suc stack) e apply =
      subscribe_all_endless (subscribe_signal memory make_event client strings d stack)
        (subscribe_signal_endless i there stack) (get_support_properties_list d) i there e apply 0

-- If a supported property is called "*", a request to subscribe to "*" does not return, however many
-- calls the stack has room for.
pub subscribe_endless :
    (stack : ℕ) (memory : ℕ → Bool) (make_event : CString → Option ℕ) (client : Client)
    (strings : Strings) (s : Process) (i : ℕ)
    → get_elem? (get_support_properties_list s.dict) i ≡ some (codes "*")
    → subscribe stack memory make_event client strings (some (codes "*")) s ≡ none
unfolding subscribe
subscribe_endless stack memory make_event client strings s i there =
    rw (subscribe_signal_endless memory make_event client strings s.dict i there stack s.events [])
      refl
