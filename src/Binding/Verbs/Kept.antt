-- ===== src/Binding/Verbs/Kept.antt =====
-- What `get` answers for the properties that a request to set, or a frame, is not about.
use mathlib.Core.Path.{ap₂}
use agl_can_binder.Base.{
  ℕ, ◌==◌, ◌≡◌, ◌≢◌, ◌∙◌, refl, sym, ap, Bool, Option, none, some, inl, inr, CString, ℤ, to_u32,
  get_elem?-set_other, arith, Option-cases, Bool-cases,
}
use agl_can_binder.CanidInfo.Types.{Strings, CanFrame, FrameData, CanBit, Property, CanidInfo}
use agl_can_binder.CanidSearch.Tree.Laws.{IsSorted, compare-IsOrder}
use agl_can_binder.CanidSearch.Dict.{
  Dict, PropertyRef, get_property_dict, get_canid_dict, deref, update_canid,
}
use agl_can_binder.CanidSearch.Dict.Deref.{
  deref_known, deref-update_canid, deref-update_canid_other,
}
use agl_can_binder.CanidSearch.Dict.WellFormed.{IsWellFormed, deref-get_property_dict}
use agl_can_binder.CanSignalEvent.Send.{with_value}
use agl_can_binder.CanSignalEvent.Send.Sound.{can_signal_send-writes}
use agl_can_binder.CanidInfo.Types.{Timeval}
use agl_can_binder.CanSignalEvent.Parse.{can_sff, parse_frame}
use agl_can_binder.CanSignalEvent.Parse.Cases.{stored, parse_frame_cases}
use agl_can_binder.CanSignalEvent.Parse.Total.{update_canid-IsSorted}
use agl_can_binder.CanSignalEvent.Parse.Follows.{
  Anything, Every-Anything, IsRelated, parse_frame-Follows,
}
use agl_can_binder.Binding.Verbs.{Process, Reply, get, set, set_value}
use agl_can_binder.Binding.Verbs.Sends.{set_value-sends}

-- The answer under a name hangs on the name's pointer and on the property that it leads to.
pub get-kept :
    (strings : Strings) (name : CString) (d d' : Dict)
    → d'.property_root ≡ d.property_root
    → ((r : PropertyRef) → get_property_dict name d ≡ some r → deref r d' ≡ deref r d)
    → get strings (some name) d' ≡ get strings (some name) d
unfolding get get_property_dict
get-kept strings name d d' names same = elim (Option-cases (get_property_dict name d)) [
  | inl unknown ↦ ground (arith, unknown, names)
  | inr (r, known) ↦ ground (arith, known, names, same r known)
]

-- Two names of well-formed dictionaries that lead to one place are the same.
pub named_alike :
    (name other : CString) (d : Dict) (r q : PropertyRef)
    → IsWellFormed d
    → get_property_dict name d ≡ some r
    → get_property_dict other d ≡ some q
    → r ≡ q
    → name ≡ other
named_alike name other d r q wf h k same =
    let (p, there, named) = deref-get_property_dict name d r wf h in
    let (p', there', named') = deref-get_property_dict other d q wf k in ground arith

module _ (prop : PropertyRef) (p : Property) (head : CanBit) (bytes : FrameData) (d : Dict)
    (sorted : IsSorted compare-IsOrder d.canid_root) where
  -- A write to one property leaves the others.
  deref-with_value_other :
      (r : PropertyRef) (info : CanidInfo)
      → get_canid_dict prop.canid d ≡ some info
      → r ≢ prop
      → deref r (update_canid prop.canid (with_value prop.index p head bytes) d) ≡ deref r d
  deref-with_value_other r info known other = elim (Bool-cases (r.canid == prop.canid)) [
    | inr elsewhere ↦
        deref-update_canid_other prop.canid (with_value prop.index p head bytes) d sorted r
          (ground arith)
    | inl here ↦
        let same : r.canid ≡ prop.canid = ground arith in
        deref-update_canid prop.canid (with_value prop.index p head bytes) d sorted r info same
          known
        ∙ get_elem?-set_other info.property prop.index r.index (record p { head = head })
            (λ e. other (ap₂ (λ c i. record { canid = c; index = i }) same e))
        ∙ sym (deref_known r d info (rw same known))
  ]

-- A request that is defined writes no property but the one of its pointer.
set_value-kept :
    (strings : Strings) (sends : CanFrame → Bool) (strtol : CString → ℤ) (prop : PropertyRef)
    (v : ℤ) (s s' : Process) (reply : Reply)
    → IsWellFormed s.dict
    → set_value strings sends strtol prop v s ≡ some (s', reply)
    → (s'.dict.property_root ≡ s.dict.property_root)
      × ((r : PropertyRef) → r ≢ prop → deref r s'.dict ≡ deref r s.dict)
unfolding update_canid
set_value-kept strings sends strtol prop v s s' reply wf h =
    let (sock', after, (sent, timers)) = set_value-sends strings sends strtol s s' reply prop v h in
    let (info, p, x, bytes, known, there, writes, fd, filters) =
      can_signal_send-writes strings sends prop (to_u32 v) s.dict s'.dict s.socket sock' sent in
    (
      ap (λ (d : Dict). d.property_root) writes,
      λ r other.
          ap (deref r) writes
          ∙ deref-with_value_other prop p (record p.head { cur_value = x }) bytes s.dict
              wf.canids_in_order r info known other,
    )

-- Under a name other than that of the property that is set, a request to get is answered as before,
-- in well-formed dictionaries, whatever became of the request to set.
pub get-set_other :
    (strings : Strings) (sends : CanFrame → Bool) (strtol : CString → ℤ) (name other : CString)
    (text : Option CString) (s s' : Process) (reply : Reply)
    → IsWellFormed s.dict
    → other ≢ name
    → set strings sends strtol (some name) text s ≡ some (s', reply)
    → get strings (some other) s'.dict ≡ get strings (some other) s.dict
unfolding set
get-set_other strings sends strtol name other none s s' reply wf differ h =
    let same : s' ≡ s = ground arith in rw same refl
get-set_other strings sends strtol name other (some text) s s' reply wf differ h =
    elim (Option-cases (get_property_dict name s.dict)) [
      | inl unknown ↦ let same : s' ≡ s = ground (arith, unknown) in rw same refl
      | inr (prop, found) ↦
          let (named, derefs) =
            set_value-kept strings sends strtol prop (strtol text) s s' reply wf
              (ground (arith, found)) in
          get-kept strings other s.dict s'.dict named λ r there.
            derefs r λ same. differ (named_alike other name s.dict r prop wf there found same)
    ]

module _ {E : Type 0} (notify : Property → E → E) (strings : Strings) where
  pub nothing_told : IsRelated notify strings Anything Anything (λ _ _. Unit {0})
  nothing_told = record {
    none_made = λ e. tt;
    one_more = λ e e' e'' r r'. tt;
    made = λ p e q. tt;
    grows = λ p cycle v t o k h. tt;
    tells = λ p cycle v t o k h n. tt;
  }

  -- A frame that is parsed writes to no other CAN-ID.
  parse_frame-kept :
      (frame : CanFrame) (t : Timeval) (d d' : Dict) (e e' : E) (status : ℕ)
      → IsSorted compare-IsOrder d.canid_root
      → parse_frame notify strings frame t d e ≡ some (status, d', e')
      → (r : PropertyRef) → r.canid ≢ can_sff frame.can_id
      → deref r d' ≡ deref r d
  parse_frame-kept frame t d d' e e' status sorted h r other =
      let key = can_sff frame.can_id in
      let keep : CanidInfo → CanidInfo = λ i. record i { canraw_frame = frame } in
      let first : deref r (stored frame d) ≡ deref r d =
        deref-update_canid_other key keep d sorted r other in
      elim (parse_frame_cases notify strings frame t d d' e e' status h) [
        | inl (same, told) ↦ rw same refl
        | inr (info, known, inl (same, told)) ↦ rw same first
        | inr (info, known, inr (k, parsed, same)) ↦ rw same (
            deref-update_canid_other key (λ i. record i { property = k }) (stored frame d)
              (update_canid-IsSorted key keep d sorted) r other
            ∙ first)
      ]

  -- With the CAN-IDs in order, a frame of one CAN-ID, whatever it holds, leaves the answer to a request
  -- to get a property of another as it was.
  pub get-parse_frame_other :
      (frame : CanFrame) (t : Timeval) (d d' : Dict) (e e' : E) (status : ℕ) (name : CString)
      (r : PropertyRef)
      → IsSorted compare-IsOrder d.canid_root
      → get_property_dict name d ≡ some r
      → r.canid ≢ can_sff frame.can_id
      → parse_frame notify strings frame t d e ≡ some (status, d', e')
      → get strings (some name) d' ≡ get strings (some name) d
  get-parse_frame_other frame t d d' e e' status name r sorted known other h =
      let (names, related, every) =
        parse_frame-Follows notify strings Anything Anything (λ _ _. Unit {0}) nothing_told frame t
          status d d' e e' sorted (Every-Anything d) h in
      get-kept strings name d d' names λ q there.
        let same : q ≡ r = ground arith in
        rw same (parse_frame-kept frame t d d' e e' status sorted h r other)
