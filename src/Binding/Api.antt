-- ===== src/Binding/Api.antt =====
-- src/af-canivi-binding.c: the table of verbs that the binding registers with the daemon, and a call of a
-- verb. What the daemon reads from a request is the record `Arguments`.
pub mod Total
use agl_can_binder.Base.{ℕ, Bool, Option, some, List, [], ◌∷◌, CString, codes, ℤ, ◌>>=◌}
use agl_can_binder.CanidInfo.Types.{Strings, CanFrame}
use agl_can_binder.Binding.Verbs.{Process, Reply, get, set, list}
use agl_can_binder.Binding.Subscribe.{Client, Wanted, subscribe, unsubscribe}

-- The functions of the table.
pub data Verb : Type 0 where
  get_verb set_verb list_verb subscribe_verb unsubscribe_verb : Verb

-- `binding_verbs`, up to the marker at its end. No verb asks for a session.
binding_verbs : List (CString × Verb)
binding_verbs =
    (codes "get", get_verb)
    ∷ (codes "set", set_verb)
    ∷ (codes "list", list_verb)
    ∷ (codes "subscribe", subscribe_verb)
    ∷ (codes "unsubscribe", unsubscribe_verb)
    ∷ []

-- The values "event" and "value" as strings, and "event" as `unsubscribe` takes it.
pub record Arguments : Type 0 where
  pub event : Option CString
  pub value : Option CString
  pub wanted : Wanted
  -- Whether there is memory for the array of `list`.
  pub array : Bool

module _ (strings : Strings) (sends : CanFrame → Bool) (strtol : CString → ℤ) (stack : ℕ)
    (memory : ℕ → Bool) (make_event : CString → Option ℕ) (client : Client) where
  -- The call of a callback with a request.
  pub callback : Verb → Arguments → Process → Option (Process × Reply)
  callback get_verb args s = do reply ← get strings args.event s.dict; some (s, reply)
  callback set_verb args s = set strings sends strtol args.event args.value s
  callback list_verb args s = list args.array s
  callback subscribe_verb args s = subscribe stack memory make_event client strings args.event s
  callback unsubscribe_verb args s = do
    reply ← unsubscribe stack client args.wanted s
    some (s, reply)
