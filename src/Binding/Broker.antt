-- ===== src/Binding/Broker.antt =====
-- The abstract view of the binding as a broker: what its clients can tell of it. A finite map from
-- names to events and the log of the pushes made, with what may happen to them.
pub mod Laws
pub mod Kept
use agl_can_binder.Base.{
  ℕ, true, get_elem?, ◌≡◌, refl, inl, inr, Bool, Option, none, some, List, [], ◌∷◌, ◌++◌, CString,
  strcmp, is_eq, if◌then◌else◌,
}
use agl_can_binder.CanidInfo.Types.{Strings, Timeval, Property, CanidInfo}
use agl_can_binder.CanidSearch.Dict.{Dict, PropertyRef, get_property_dict, get_canid_dict}
use agl_can_binder.CanidSearch.Dict.WellFormed.{IsWellFormed}
use agl_can_binder.CanSignalEvent.Ivi.{Outcome, update_iviproperty}
use agl_can_binder.CanJson.Value.{Json, property2json}
use agl_can_binder.BindEvent.{BindEvent, Events, get_event, register_event, remove_event}
use agl_can_binder.BindEvent.Laws.{InOrder, register_event_lem, remove_event_lem}
use agl_can_binder.Binding.Notify.{Clients}

abbrev pub Registry : Type 0
Registry = CString → Option BindEvent

pub record Broker : Type 0 where
  pub registry : Registry
  pub pushes : List (ℕ × Option Json)

-- The broker that the tree of events and the pushes stand for.
abbrev pub view : Clients → Broker
view c = record { registry = λ n. get_event n c.events; pushes = c.pushes }

-- What the dictionaries have under a name.
abbrev pub Names : Type 0
Names = CString → Option PropertyRef

abbrev pub names_of : Dict → Names
names_of d n = get_property_dict n d

abbrev enter : CString → BindEvent → Registry → Registry
enter name b m n = if is_eq (strcmp n name) then some b else m n

abbrev leave : CString → Registry → Registry
leave name m n = if is_eq (strcmp n name) then none else m n

-- The log after a push of a property to an event.
abbrev push : Strings → BindEvent → Property → List (ℕ × Option Json) → List (ℕ × Option Json)
push strings b p log = log ++ (b.event, property2json strings p) ∷ []

-- What frames and requests to set make of the properties of dictionaries.
pub data Known (strings : Strings) (d : Dict) : Property → Type 0 where
  own :
      (c : ℕ) (info : CanidInfo) (i : ℕ) (q : Property)
      → get_canid_dict c d ≡ some info
      → get_elem? info.property i ≡ some q
      → Known strings d q
  written :
      (p : Property) (x : ℕ)
      → Known strings d p
      → Known strings d (record p { head = record p.head { cur_value = x } })
  decoded :
      (p : Property) (cycle v : ℕ) (t : Timeval) (o : Outcome)
      → Known strings d p
      → update_iviproperty strings cycle v p t ≡ some o
      → Known strings d o.property

-- What a frame has just made of such a property, with a cause to tell clients.
pub data Due (strings : Strings) (d : Dict) : Property → Type 0 where
  due :
      (p : Property) (cycle v : ℕ) (t : Timeval) (o : Outcome)
      → Known strings d p
      → update_iviproperty strings cycle v p t ≡ some o
      → o.notifies ≡ true
      → Due strings d o.property

-- One change: a name gets an event for the property that the dictionaries have under it; a property
-- of those in Q is pushed to the event of its name; or it is pushed to nobody, and its name loses the
-- event.
pub data Change (names : Names) (Q : Property → Type 0) (strings : Strings) (r : Broker)
    : Broker → Type 0 where
  added :
      (name : CString) (b : BindEvent)
      → b.name ≡ name
      → r.registry name ≡ none
      → names name ≡ some b.raw_info
      → Change names Q strings r (record r { registry = enter name b r.registry })
  told :
      (p : Property) (b : BindEvent)
      → Q p
      → r.registry p.head.name ≡ some b
      → Change names Q strings r (record r { pushes = push strings b p r.pushes })
  dropped :
      (p : Property) (b : BindEvent)
      → Q p
      → r.registry p.head.name ≡ some b
      → Change names Q strings r
          (record { registry = leave p.head.name r.registry; pushes = push strings b p r.pushes })

pub data Changes (names : Names) (Q : Property → Type 0) (strings : Strings) (r : Broker)
    : Broker → Type 0 where
  no_change : Changes names Q strings r r
  followed :
      {r' r'' : Broker}
      → Changes names Q strings r r'
      → Change names Q strings r' r''
      → Changes names Q strings r r''

module _ (names : Names) (Q : Property → Type 0) (strings : Strings) where
  pub Changes-trans :
      (r r' r'' : Broker)
      → Changes names Q strings r r'
      → Changes names Q strings r' r''
      → Changes names Q strings r r''
  Changes-trans r r' r'' s no_change = s
  Changes-trans r r' r'' s (followed {r' = t} before c) = followed (Changes-trans r r' t s before) c

  -- The tree stays in order, and what it stands for changes step by step.
  abbrev pub Refines : Clients → Clients → Type 0
  Refines c c' = InOrder c.events → InOrder c'.events × Changes names Q strings (view c) (view c')

  pub Refines-refl : (c : Clients) → Refines c c
  Refines-refl c s = (s, no_change)

  pub Refines-trans : (c c' c'' : Clients) → Refines c c' → Refines c' c'' → Refines c c''
  Refines-trans c c' c'' r r' s =
      let (s', a) = r s in
      let (s'', b) = r' s' in (s'', Changes-trans (view c) (view c') (view c'') a b)
