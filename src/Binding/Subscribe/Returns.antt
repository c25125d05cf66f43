-- ===== src/Binding/Subscribe/Returns.antt =====
-- When requests to subscribe and to unsubscribe return.
use agl_can_binder.Base.{
  ℕ, suc, ◌+◌, ◌≡◌, ◌≢◌, refl, false, Bool, inl, inr, Option, none, some, List, [], ◌∷◌, All,
  CString, codes, map, str_eq, arith, Bool-cases, strcmp, eq_of_strcmp, ◌==◌, if◌then◌else◌,
}
use agl_can_binder.CanidInfo.Types.{Strings}
use agl_can_binder.CanidSearch.Tree.{tfind}
use agl_can_binder.CanidSearch.Dict.{
  Dict, PropertyRef, get_property_dict, get_support_properties_list,
}
use agl_can_binder.CanidSearch.Dict.Resolves.{IsListed}
use agl_can_binder.CanidSearch.Dict.WellFormed.{IsWellFormed}
use agl_can_binder.CanJson.Value.{Json}
use agl_can_binder.BindEvent.{Events}
use agl_can_binder.Binding.Verbs.{Process, Reply, fail, success}
use agl_can_binder.Binding.Subscribe.{
  Client, Signalled, subscribe_name, subscribe_all, subscribe_signal, answer_subscription,
  subscribe, Wanted, everything, one, many, unsubscribe_name, unsubscribe_each, unsubscribe_all,
  unsubscribe_signal, count_failures, unsubscribe,
}

-- A name that stands for itself.
abbrev pub IsSingle : CString → Type 0
IsSingle name = str_eq name (codes "*") ≡ false

All-IsSingle :
    (root : List (CString × PropertyRef)) (l : List CString)
    → tfind strcmp (codes "*") root ≡ none
    → All (IsListed root) l
    → All IsSingle l
All-IsSingle root [] h all = tt
All-IsSingle root (n ∷ l) h ((r, there), all) = (single, All-IsSingle root l h all)
  where
    single : IsSingle n
    single = elim (Bool-cases (str_eq n (codes "*"))) [
      | inr other ↦ other
      | inl same ↦
          let star : n ≡ codes "*" = eq_of_strcmp n (codes "*") (ground (arith, same)) in
          absurd (cc (star, h, there))
    ]

-- In well-formed dictionaries without a property called "*", no supported property is called so.
pub supported-IsSingle :
    (d : Dict)
    → IsWellFormed d
    → get_property_dict (codes "*") d ≡ none
    → All IsSingle (get_support_properties_list d)
unfolding get_property_dict get_support_properties_list
supported-IsSingle d wf h = All-IsSingle d.property_root d.support_property_list h wf.listed.0

module _ (memory : ℕ → Bool) (make_event : CString → Option ℕ) (client : Client) (strings : Strings)
    (d : Dict) where
  pub subscribe_signal_single :
      (stack : ℕ) (name : CString) (e : Events) (apply : List (CString × Option Json))
      → IsSingle name
      → subscribe_signal memory make_event client strings d (suc stack) name e apply
        ≡ some (subscribe_name memory make_event client strings d name e apply)
  unfolding subscribe_signal
  subscribe_signal_single stack name e apply single = rw (single, subscribe_signal) refl

  subscribe_all_total :
      (stack : ℕ) (l : List CString) (e : Events) (apply : List (CString × Option Json)) (err : ℕ)
      → All IsSingle l
      → (r : Signalled) × (subscribe_all memory make_event client strings d
            (subscribe_signal memory make_event client strings d (suc stack))
            l
            e
            apply
            err
          ≡ some r)
  unfolding subscribe_all
  subscribe_all_total stack [] e apply err all = (_, refl)
  subscribe_all_total stack (name ∷ rest) e apply err all =
      let (e', apply', n) = subscribe_name memory make_event client strings d name e apply in
      let (r, later) = subscribe_all_total stack rest e' apply' (err + n) all.1 in
      (r, rw (subscribe_signal_single stack name e apply all.0) later)

  -- Two calls of `subscribe_signal` are enough.
  subscribe_signal_total :
      (stack : ℕ) (name : CString) (e : Events) (apply : List (CString × Option Json))
      → All IsSingle (get_support_properties_list d)
      → (r : Signalled) × (subscribe_signal memory make_event client strings d
            (suc (suc stack))
            name
            e
            apply
          ≡ some r)
  unfolding subscribe_signal
  subscribe_signal_total stack name e apply all = elim (Bool-cases (str_eq name (codes "*"))) [
    | inl every ↦
        let (r, h) = subscribe_all_total stack (get_support_properties_list d) e apply 0 all in
        (r, rw (every, subscribe_signal) h)
    | inr single ↦ (_, subscribe_signal_single (suc stack) name e apply single)
  ]

pub subscribe_total :
    (stack : ℕ) (memory : ℕ → Bool) (make_event : CString → Option ℕ) (client : Client)
    (strings : Strings) (event : Option CString) (s : Process)
    → All IsSingle (get_support_properties_list s.dict)
    → (s' : Process) × (reply : Reply) × (subscribe
          (suc (suc stack))
          memory
          make_event
          client
          strings
          event
          s
        ≡ some (s', reply))
unfolding subscribe
subscribe_total stack memory make_event client strings none s all = (_, _, refl)
subscribe_total stack memory make_event client strings (some name) s all =
    let (r, there) =
      subscribe_signal_total memory make_event client strings s.dict stack name s.events [] all in
    let (s', reply) = answer_subscription r s in (s', reply, rw there refl)

-- The names of a request to unsubscribe are no NULL.
abbrev IsGiven : Option CString → Type 0
IsGiven name = name ≢ none

abbrev pub HasNames : Wanted → Type 0
HasNames everything = Unit {0}
HasNames (one name) = IsGiven name
HasNames (many names) = All IsGiven names

module _ (client : Client) (e : Events) (supported : List CString)
    (all : All IsSingle supported) where
  unsubscribe_each_total :
      (signal : Option CString → Option ℕ)
      → ((name : CString) → (n : ℕ) × (signal (some name) ≡ some n))
      → (l : List (Option CString)) → All IsGiven l
      → (n : ℕ) × (unsubscribe_each client e signal l ≡ some n)
  unfolding unsubscribe_each
  unsubscribe_each_total signal h [] given = (0, refl)
  unsubscribe_each_total signal h (none ∷ rest) given = absurd (given.0 refl)
  unsubscribe_each_total signal h (some name ∷ rest) given =
      let (n, first) = h name in
      let (k, later) = unsubscribe_each_total signal h rest given.1 in
      (n + k, rw first (rw later refl))

  unsubscribe_each_single :
      (stack : ℕ) (l : List CString)
      → All IsSingle l
      → (n : ℕ) × (unsubscribe_each client e
            (unsubscribe_signal client e (suc stack) supported)
            (map some l)
          ≡ some n)
  unfolding unsubscribe_each unsubscribe_signal
  unsubscribe_each_single stack [] single = (0, refl)
  unsubscribe_each_single stack (name ∷ rest) single =
      let (k, later) = unsubscribe_each_single stack rest single.1 in
      (unsubscribe_name client e name + k, rw (single.0, unsubscribe_signal) (rw later refl))

  unsubscribe_signal_total :
      (stack : ℕ) (name : CString)
      → (n : ℕ) × (unsubscribe_signal client e (suc (suc stack)) supported (some name) ≡ some n)
  unfolding unsubscribe_signal unsubscribe_all
  unsubscribe_signal_total stack name = elim (Bool-cases (str_eq name (codes "*"))) [
    | inl every ↦
        let (n, h) = unsubscribe_each_single stack supported all in
        (n, rw (every, unsubscribe_signal) h)
    | inr single ↦ (unsubscribe_name client e name, rw (single, unsubscribe_signal) refl)
  ]

  count_total :
      (stack : ℕ) (wanted : Wanted) (s : Process)
      → s.events ≡ e
      → get_support_properties_list s.dict ≡ supported
      → HasNames wanted
      → (n : ℕ) × (count_failures (suc (suc stack)) client wanted s ≡ some n)
  unfolding count_failures unsubscribe_all
  count_total stack everything s es ls given =
      let (n, h) = unsubscribe_each_single (suc stack) supported all in (n, rw (es, ls) h)
  count_total stack (one none) s es ls given = absurd (given refl)
  count_total stack (one (some name)) s es ls given =
      let (n, h) = unsubscribe_signal_total stack name in (n, rw (es, ls) h)
  count_total stack (many names) s es ls given =
      let (n, h) =
        unsubscribe_each_total (unsubscribe_signal client e (suc (suc stack)) supported)
          (unsubscribe_signal_total stack) names given in
      (n, rw (es, ls) h)

pub unsubscribe_total :
    (stack : ℕ) (client : Client) (wanted : Wanted) (s : Process)
    → All IsSingle (get_support_properties_list s.dict)
    → HasNames wanted
    → (reply : Reply) × (unsubscribe (suc (suc stack)) client wanted s ≡ some reply)
unfolding unsubscribe
unsubscribe_total stack client wanted s all given =
    let (n, h) =
      count_total client s.events (get_support_properties_list s.dict) all stack wanted s refl refl
        given in
    (if n == 0 then success else fail (codes "error"), rw h refl)
