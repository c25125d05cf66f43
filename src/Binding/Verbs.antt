-- ===== src/Binding/Verbs.antt =====
-- src/af-canivi-binding.c: the verbs `get`, `set` and `list`. A request is
-- the values of its arguments; a reply is one of `afb_req_success` and `afb_req_fail`.
pub mod Laws
pub mod Sends
pub mod Written
pub mod Kept
pub mod Sent
pub mod Listed
use agl_can_binder.Base.{
  ℕ, ◌+◌, Bool, true, false, Option, none, some, List, [], ◌∷◌, ◌++◌, map, CString, codes, str_eq,
  if◌then◌else◌, ◌>>=◌, ℤ, to_u32,
}
use agl_can_binder.CanidInfo.Types.{Strings, CanFrame, Property, CanidInfo}
use agl_can_binder.CanidSearch.Dict.{
  Dict, PropertyRef, get_property_dict, get_canid_dict, deref, canid_walker,
  get_support_properties_list,
}
use agl_can_binder.CanJson.Value.{Json, property2json}
use agl_can_binder.BindEvent.{BindEvent, Events, get_event, register_event}
use agl_can_binder.SocketcanRaw.{Socket}
use agl_can_binder.CanSignalEvent.Send.{can_signal_send, update_send_timer, Timers}

-- The answer to a request; the texts of failures, and the name that `get` adds, are kept.
pub data Reply : Type 0 where
  fail : CString → Reply
  value : CString → Json → Reply
  names : List CString → Reply
  applied : List (CString × Option Json) → Reply
  success : Reply

-- `get`. A pointer that is not in the dictionary has no reply.
unfoldable pub get : Strings → Option CString → Dict → Option Reply
get strings none d = some (fail (codes "request error"))
get strings (some prop_name) d = elim (get_property_dict prop_name d) [
  | none ↦ some (fail (codes "Unknown property"))
  | some r ↦ do
    p ← deref r d
    elim (property2json strings p) [
      | none ↦ some (fail (codes "Unsupported property"))
      | some v ↦ some (value prop_name v)
    ]
]

-- The state that the verbs share.
pub record Process : Type 0 where
  pub dict : Dict
  pub events : Events
  pub socket : Socket
  pub timers : Timers
  -- Whether the array `tmplists` of the verb `list` is not NULL.
  pub tmplists : Bool

module _ (strings : Strings) (sends : CanFrame → Bool) (strtol : CString → ℤ) where
  -- The call of `can_signal_send` and of `updateSendTimer`.
  unfoldable pub set_value : PropertyRef → ℤ → Process → Option (Process × Reply)
  set_value prop v s = do
    (d', sock') ← can_signal_send strings sends prop (to_u32 v) s.dict s.socket
    info ← get_canid_dict prop.canid d'
    let timers' = update_send_timer info s.timers
    some (record s { dict = d'; socket = sock'; timers = timers' }, success)

  -- `set`. `strtol` is the library's function, with base 0.
  unfoldable pub set : Option CString → Option CString → Process → Option (Process × Reply)
  unfolding set_value
  set none value_str s = some (s, fail (codes "request error"))
  set (some prop_name) none s = some (s, fail (codes "request error"))
  set (some prop_name) (some value_str) s = elim (get_property_dict prop_name s.dict) [
    | none ↦ some (s, fail (codes "Unknown property"))
    | some prop ↦ set_value prop (strtol value_str) s
  ]

-- `_listup_properties`; every property has a name.
abbrev listup_properties : CanidInfo → List CString
listup_properties can = map (λ (p : Property). p.head.name) can.property

concat_names : List CanidInfo → List CString
concat_names [] = []
concat_names (can ∷ rest) = listup_properties can ++ concat_names rest

-- `list`; the argument says whether there is memory for the array, and there is for the names. The
-- reply of `afb_req_success` releases the array, to which `tmplists` still points: a later call
-- releases it again, which is undefined.
unfoldable pub list : Bool → Process → Option (Process × Reply)
unfolding concat_names
list granted s = elim s.tmplists [
  | true ↦ none
  | false ↦
      if granted
      then some (record s { tmplists = true }, names (concat_names (canid_walker s.dict)))
      else some (s, fail (codes "not enogh memory"))
]
