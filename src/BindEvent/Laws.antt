-- ===== src/BindEvent/Laws.antt =====
-- The subscribed events: registering and removing.
use agl_can_binder.Base.{
  ℕ, suc, ◌≡◌, refl, subst, Bool, ◌⊎◌, inl, inr, Option, none, some, ◌∷◌, arith, CString, strcmp,
  is_eq, if◌then◌else◌, pos, Option-cases, Bool-cases,
}
use agl_can_binder.CanidSearch.Tree.{tfind, insert, tdelete}
use agl_can_binder.CanidSearch.Tree.Laws.{
  strcmp-IsOrder, IsSorted, insert-IsSorted, tdelete-IsSorted, tfind-insert, tfind-tdelete,
}
use agl_can_binder.CanidInfo.Types.{Property}
use agl_can_binder.CanidSearch.Dict.{Dict, PropertyRef, get_property_dict}
use agl_can_binder.CanidSearch.Dict.WellFormed.{IsWellFormed, deref-get_property_dict}
use agl_can_binder.BindEvent.{
  BindEvent, Events, get_event, register_found, register_event, remove_event,
}

abbrev pub InOrder : Events → Type 0
InOrder e = IsSorted strcmp-IsOrder e.bind_event_root

module _ (name : CString) (e : Events) where
  remove_event-missing :
      tfind strcmp name e.bind_event_root ≡ none → remove_event name e ≡ (e, pos 1)
  unfolding remove_event
  remove_event-missing h = rw (h, remove_event)

  remove_event-there :
      (b : BindEvent)
      → tfind strcmp name e.bind_event_root ≡ some b
      → remove_event name e ≡ (
        record e {
          bind_event_root = tdelete strcmp name e.bind_event_root;
          dropped = b.event ∷ e.dropped;
        },
        pos 0,
      )
  unfolding remove_event
  remove_event-there b h = rw (h, remove_event)

  -- With the tree in order, removing an event that is there returns 0, drops it, and takes that
  -- name out and no other; removing one that is not there returns 1 and changes nothing. The tree
  -- stays in order.
  pub remove_event_lem :
      InOrder e
      → InOrder (remove_event name e).0
        × (((get_event name e ≡ none) × (remove_event name e ≡ (e, pos 1)))
            ⊎ ((b : BindEvent) × (get_event name e ≡ some b)
                × ((remove_event name e).1 ≡ pos 0)
                × ((remove_event name e).0.dropped ≡ b.event ∷ e.dropped)
                × ((n : CString)
                    → get_event n (remove_event name e).0
                      ≡ (if is_eq (strcmp n name) then none else get_event n e))))
  unfolding get_event
  remove_event_lem s = elim (Option-cases (tfind strcmp name e.bind_event_root)) [
    | inl gone ↦ rw (remove_event-missing gone) (s, inl (gone, refl))
    | inr (b, there) ↦ rw (remove_event-there b there) (
      tdelete-IsSorted strcmp-IsOrder name e.bind_event_root s,
      inr (b, there, refl, refl, λ n. tfind-tdelete strcmp-IsOrder name n e.bind_event_root s),
    )
  ]

-- The outcome of a registration under a name that has no event.
abbrev pub Registers : CString → Dict → Events → Events × Option BindEvent → Type 0
Registers name d e (e', result) =
    ((result ≡ none) × (e'.bind_event_root ≡ e.bind_event_root))
    ⊎ ((b : BindEvent) × (result ≡ some b)
        × (b.name ≡ name)
        × (get_property_dict name d ≡ some b.raw_info)
        × InOrder e'
        × ((n : CString)
            → get_event n e' ≡ (if is_eq (strcmp n name) then some b else get_event n e)))

register_found-Registers :
    (memory : ℕ → Bool) (make_event : CString → Option ℕ) (r : PropertyRef) (p : Property)
    (d : Dict) (e : Events)
    → InOrder e
    → get_event p.head.name e ≡ none
    → get_property_dict p.head.name d ≡ some r
    → Registers p.head.name d e (register_found memory make_event r p e)
unfolding register_found get_event
register_found-Registers memory make_event r p d e s fresh known =
    elim (Option-cases (make_event p.head.name)) [
      | inl none_made ↦ inl (ground arith, ground arith)
      | inr (event, made) ↦
          let b : BindEvent = record { name = p.head.name; event = event; raw_info = r } in
          elim (Bool-cases (memory e.requests)) [
            | inr refused ↦ inl (ground arith, ground arith)
            | inl granted ↦ elim (Bool-cases (memory (suc e.requests))) [
              | inr refused ↦ inl (ground arith, ground arith)
              | inl granted' ↦
                  let root : (register_found memory make_event r p e).0.bind_event_root
                      ≡ insert strcmp p.head.name b e.bind_event_root =
                    ground arith in
                  inr (
                    b,
                    ground arith,
                    refl,
                    known,
                    rw root (insert-IsSorted strcmp-IsOrder p.head.name b e.bind_event_root s),
                    λ n.
                        rw root
                          (tfind-insert strcmp-IsOrder p.head.name n b e.bind_event_root s fresh),
                  )
            ]
          ]
    ]

-- With well-formed dictionaries, the tree of events in order and no event of the name, a
-- registration that succeeds returns an event for the property of that name, which is then found
-- under it, and every other name is found as before; one that fails leaves the tree of events as it
-- was.
pub register_event_lem :
    (memory : ℕ → Bool) (make_event : CString → Option ℕ) (name : CString) (d : Dict) (e : Events)
    → IsWellFormed d
    → InOrder e
    → get_event name e ≡ none
    → Registers name d e (register_event memory make_event name d e)
unfolding register_event
register_event_lem memory make_event name d e wf s fresh =
    elim (Option-cases (get_property_dict name d)) [
      | inl unknown ↦
          let same : register_event memory make_event name d e ≡ (e, none) =
            rw (unknown, register_event) in
          rw same (inl (refl, refl))
      | inr (r, known) ↦
          let (p, there, named) = deref-get_property_dict name d r wf known in
          let same : register_event memory make_event name d e
              ≡ register_found memory make_event r p e =
            rw (known, register_event) (rw there) in
          rw same (
            subst (λ n. Registers n d e (register_found memory make_event r p e)) named
              (register_found-Registers memory make_event r p d e s (rw named fresh)
                (rw named known)))
    ]
