-- ===== src/BindEvent/Same.antt =====
-- Registrations and removals told apart by what is found afterwards.

use mathlib.Core.Path.{ap₂}
use agl_can_binder.Base.{
  ℕ, suc, [], ◌≡◌, ◌≢◌, ◌∙◌, refl, sym, ap, inl, inr, Bool, true, false, Option, none, some,
  CString, strcmp, eq_of_strcmp, strcmp_refl, is_eq, if◌then◌else◌, pos, arith, Option-cases,
  Bool-cases,
}
use agl_can_binder.CanidInfo.Types.{Property}
use agl_can_binder.CanidSearch.Tree.{walk}
use agl_can_binder.CanidSearch.Tree.Same.{tfind_ext}
use agl_can_binder.CanidSearch.Tree.Laws.{strcmp-IsOrder}
use agl_can_binder.CanidSearch.Dict.{Dict, PropertyRef, get_property_dict, deref}
use agl_can_binder.CanidSearch.Dict.WellFormed.{IsWellFormed}
use agl_can_binder.BindEvent.{
  BindEvent, Events, get_event, register_found, register_event, remove_event, get_subscribed_canids,
  walk_canids,
}
use agl_can_binder.BindEvent.Tied.{eq_of_is_eq}
use agl_can_binder.BindEvent.Laws.{InOrder, register_event_lem, remove_event_lem}

-- Two trees find the same event, or none, under every name.
abbrev pub Alike : Events → Events → Type 0
Alike e e' = (n : CString) → get_event n e ≡ get_event n e'

-- Trees in order that find the same are the same.
pub root-Alike :
    (e e' : Events) → InOrder e → InOrder e' → Alike e e' → e.bind_event_root ≡ e'.bind_event_root
unfolding get_event
root-Alike e e' s s' alike =
    tfind_ext strcmp-IsOrder e.bind_event_root e'.bind_event_root s s' alike

-- What is found under n once an outcome has been entered under the name.
abbrev pub found_after : CString → Option BindEvent → CString → Option BindEvent → Option BindEvent
found_after name none n before = before
found_after name (some b) n before = if is_eq (strcmp n name) then some b else before

differs : (n name : CString) → n ≢ name → is_eq (strcmp n name) ≡ false
differs n name h = elim (Bool-cases (is_eq (strcmp n name))) [
  | inl same ↦ absurd (h (eq_of_strcmp n name (eq_of_is_eq (strcmp n name) same)))
  | inr other ↦ other
]

pub found_after-other :
    (name n : CString) (o before : Option BindEvent)
    → n ≢ name
    → found_after name o n before ≡ before
found_after-other name n none before h = refl
found_after-other name n (some b) before h = rw (differs n name h) refl

pub found_after_comm :
    (a b n : CString) (x y before : Option BindEvent)
    → a ≢ b
    → found_after b y n (found_after a x n before) ≡ found_after a x n (found_after b y n before)
found_after_comm a b n none y before h = refl
found_after_comm a b n (some x) none before h = refl
found_after_comm a b n (some x) (some y) before h = elim (Bool-cases (is_eq (strcmp n a))) [
  | inr other ↦ rw other refl
  | inl same ↦
      let here = eq_of_strcmp n a (eq_of_is_eq (strcmp n a) same) in
      rw (same, differs n b (λ e. h (sym here ∙ e))) refl
]

module _ (memory : ℕ → Bool) (make_event : CString → Option ℕ) (d : Dict)
    (wf : IsWellFormed d) where
  abbrev pub registered : CString → Events → Events
  registered name e = (register_event memory make_event name d e).0

  abbrev pub outcome : CString → Events → Option BindEvent
  outcome name e = (register_event memory make_event name d e).1

  pub get_event-registered :
      (name : CString) (e : Events)
      → InOrder e
      → get_event name e ≡ none
      → InOrder (registered name e)
        × ((n : CString)
            → get_event n (registered name e) ≡ found_after name (outcome name e) n (get_event n e))
  unfolding get_event
  get_event-registered name e s fresh =
      elim (register_event_lem memory make_event name d e wf s fresh) [
        | inl (failed, same) ↦ (rw same s, λ n. ground (arith, failed, same))
        | inr (b, made, named, known, order, found) ↦ (order, λ n. ground (arith, made, found n))
      ]

  module _ (granted : (i : ℕ) → memory i ≡ true) where
    register_found_same :
        (r : PropertyRef) (p : Property) (e e' : Events)
        → (register_found memory make_event r p e).1 ≡ (register_found memory make_event r p e').1
    unfolding register_found
    register_found_same r p e e' = elim (Option-cases (make_event p.head.name)) [
      | inl failed ↦ ground (arith, failed, granted e.requests, granted e'.requests)
      | inr (event, made) ↦ ground (
        arith,
        made,
        granted e.requests,
        granted e'.requests,
        granted (suc e.requests),
        granted (suc e'.requests),
      )
    ]

    -- The outcome of a registration does not hang on the tree.
    pub outcome_same : (name : CString) (e e' : Events) → outcome name e ≡ outcome name e'
    unfolding register_event
    outcome_same name e e' = elim (Option-cases (get_property_dict name d)) [
      | inl unknown ↦
          let fails : (e : Events) → register_event memory make_event name d e ≡ (e, none) =
            λ e. rw (unknown, register_event) in
          ap (λ r. r.1) (fails e) ∙ sym (ap (λ r. r.1) (fails e'))
      | inr (r, known) ↦ elim (Option-cases (deref r d)) [
        | inl gone ↦
            let fails : (e : Events) → register_event memory make_event name d e ≡ (e, none) =
              λ e. rw (known, register_event) (rw gone) in
            ap (λ r. r.1) (fails e) ∙ sym (ap (λ r. r.1) (fails e'))
        | inr (p, there) ↦
            let enters : (e : Events)
                → register_event memory make_event name d e
                  ≡ register_found memory make_event r p e =
              λ e. rw (known, register_event) (rw there) in
            ap (λ r. r.1) (enters e)
            ∙ register_found_same r p e e'
            ∙ sym (ap (λ r. r.1) (enters e'))
      ]
    ]

    -- With well-formed dictionaries, the tree in order, memory for everything and two names without
    -- events, the registrations of the two lead to the same tree in either order, whether they
    -- succeed or fail.
    pub register_event_comm :
        (a b : CString) (e : Events)
        → InOrder e
        → a ≢ b
        → get_event a e ≡ none
        → get_event b e ≡ none
        → (registered b (registered a e)).bind_event_root
          ≡ (registered a (registered b e)).bind_event_root
    register_event_comm a b e s differ fresh_a fresh_b =
        let (s_a, found_a) = get_event-registered a e s fresh_a in
        let (s_b, found_b) = get_event-registered b e s fresh_b in
        let (s_ab, found_ab) =
          get_event-registered b (registered a e) s_a
            (found_a b ∙ found_after-other a b (outcome a e) _ (λ x. differ (sym x)) ∙ fresh_b) in
        let (s_ba, found_ba) =
          get_event-registered a (registered b e) s_b
            (found_b a ∙ found_after-other b a (outcome b e) _ differ ∙ fresh_a) in
        root-Alike (registered b (registered a e)) (registered a (registered b e)) s_ab s_ba λ n.
          found_ab n
          ∙ ap₂ (λ o before. found_after b o n before) (outcome_same b (registered a e) e)
              (found_a n)
          ∙ found_after_comm a b n (outcome a e) (outcome b e) (get_event n e) differ
          ∙ sym (
              found_ba n
              ∙ ap₂ (λ o before. found_after a o n before) (outcome_same a (registered b e) e)
                  (found_b n))

-- With well-formed dictionaries, the tree in order and no event under the name, removing an event
-- that has been registered succeeds and leads back to the tree from before.
pub remove_event-register_event :
    (memory : ℕ → Bool) (make_event : CString → Option ℕ) (name : CString) (d : Dict) (e : Events)
    (b : BindEvent)
    → IsWellFormed d
    → InOrder e
    → get_event name e ≡ none
    → (register_event memory make_event name d e).1 ≡ some b
    → let (e', status) = remove_event name (register_event memory make_event name d e).0 in
      (status ≡ pos 0) × (e'.bind_event_root ≡ e.bind_event_root)
unfolding get_event
remove_event-register_event memory make_event name d e b wf s fresh ok =
    let r = register_event memory make_event name d e in
    let (s', found) = get_event-registered memory make_event d wf name e s fresh in
    let (order, cases) = remove_event_lem name r.0 s' in
    elim cases [
      | inl (gone, same) ↦ absurd (ground (arith, gone, found name, ok, strcmp_refl name))
      | inr (b', there, status, drops, left) ↦ (
        status,
        root-Alike (remove_event name r.0).0 e order s λ n.
            elim (Bool-cases (is_eq (strcmp n name))) [
              | inl same ↦
                  let here = eq_of_strcmp n name (eq_of_is_eq (strcmp n name) same) in
                  let gone : get_event n e ≡ none = rw here fresh in
                  ground (arith, left n, same, gone)
              | inr other ↦ ground (arith, left n, found n, ok, other)
            ],
      )
    ]

-- The CAN-IDs that the filter is set to hang on nothing but what is found in the tree.
pub get_subscribed_canids-Alike :
    (e e' : Events)
    → InOrder e
    → InOrder e'
    → Alike e e'
    → (get_subscribed_canids e).1 ≡ (get_subscribed_canids e').1
unfolding get_subscribed_canids
get_subscribed_canids-Alike e e' s s' alike =
    ap (λ l. walk_canids (walk l) []) (root-Alike e e' s s' alike)
