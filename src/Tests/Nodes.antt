-- ===== src/Tests/Nodes.antt =====
-- Requests and frames on dictionaries with several CAN-IDs and properties.
use agl_can_binder.Base.{
  ℕ, ◌≡◌, ◌⊎◌, inl, inr, refl, ◌≢◌, ap, is_eq, strcmp_refl, true, false, some, none, List, [], ◌∷◌,
  codes, CString, ℤ, pos, arith, strcmp,
}
use agl_can_binder.CanidInfo.Types.{Property, CanidInfo}
use agl_can_binder.CanidInfo.Endian.{canvalue2host}
use agl_can_binder.CanidInfo.Frame.{bit_shift}
use agl_can_binder.CanidInfo.Update.Laws.{int_of}
use agl_can_binder.CanidSearch.Tree.{tfind, insert}
use agl_can_binder.CanidSearch.Dict.{Dict, PropertyRef, get_property_dict, get_canid_dict, deref}
use agl_can_binder.CanidSearch.Dict.Refs.{HasName}
use agl_can_binder.CanidSearch.Dict.WellFormed.{IsWellFormed}
use agl_can_binder.CanJson.Value.{json_int}
use agl_can_binder.BindEvent.{BindEvent, get_event, register_event, register_found, remove_event}
use agl_can_binder.BindEvent.Same.{remove_event-register_event}
use agl_can_binder.CanSignalEvent.Ivi.{Outcome}
use agl_can_binder.CanSignalEvent.Parse.{parse_frame}
use agl_can_binder.CanSignalEvent.Parse.Total.{IsReadable}
use agl_can_binder.Binding.Notify.{Clients}
use agl_can_binder.Binding.Delivery.{notifier}
use agl_can_binder.Binding.Delivery.Many.{
  outcomes, pushes_of, new_properties, parse_frame_pushes_all,
}
use agl_can_binder.Binding.Verbs.{Process, success, value, get, set}
use agl_can_binder.Binding.Verbs.Written.{get-set}
use agl_can_binder.Binding.Verbs.Kept.{get-set_other, get-parse_frame_other}
use agl_can_binder.Tests.Data.{
  strings, gear, gear_property, lamp_property, later, frame, info, gear_ref, granted, socket,
  gear_event, no_events,
}
use agl_can_binder.Tests.Values.{gear-Fits}
use agl_can_binder.Tests.Dictionary.{zeros-IsBytes, granted_frame}
use agl_can_binder.Tests.Clients.{one_client}

apart : (a b : CString) → is_eq (strcmp a b) ≡ false → a ≢ b
apart a b h e =
    let same : is_eq (strcmp a b) ≡ true = rw e (ap is_eq (strcmp_refl b)) in absurd (cc)

flag-ne-gear : codes "flag" ≢ codes "gear"
unfolding strcmp
flag-ne-gear = apart (codes "flag") (codes "gear") refl

pub gear-ne-lamp : codes "gear" ≢ codes "lamp"
unfolding strcmp
gear-ne-lamp = apart (codes "gear") (codes "lamp") refl

-- Byte 6 of the frame.
abbrev flag_property : Property
flag_property = record {
  head = record gear { name = codes "flag"; byte_pos = 6 };
  next = [];
  applyinfo = none;
}

abbrev gears : CanidInfo
gears = record info { property = gear_property ∷ flag_property ∷ [] }

abbrev lamps : CanidInfo
lamps = record info { canid = 0x130; property = lamp_property ∷ [] }

abbrev flag_ref : PropertyRef
flag_ref = record { canid = 0x120; index = 1 }

abbrev lamp_ref : PropertyRef
lamp_ref = record { canid = 0x130; index = 0 }

abbrev pub wide : Dict
wide = record {
  canid_root = (0x120, gears) ∷ (0x130, lamps) ∷ [];
  property_root =
      (codes "flag", flag_ref) ∷ (codes "gear", gear_ref) ∷ (codes "lamp", lamp_ref) ∷ [];
  support_property_list = codes "gear" ∷ codes "flag" ∷ codes "lamp" ∷ [];
  requests = 5;
}

pub wide-IsWellFormed : IsWellFormed wide
unfolding HasName tfind strcmp
wide-IsWellFormed = record {
  canids_in_order = ((refl, tt), (tt, tt));
  names_in_order = ((refl, (refl, tt)), ((refl, tt), (tt, tt)));
  resolves = (
    (flag_property, refl, refl),
    ((gear_property, refl, refl), ((lamp_property, refl, refl), tt)),
  );
  listed = (((gear_ref, refl), ((flag_ref, refl), ((lamp_ref, refl), tt))), omega arith);
}

wide-cases : (c : ℕ) (i : CanidInfo) → get_canid_dict c wide ≡ some i → (i ≡ gears) ⊎ (i ≡ lamps)
unfolding get_canid_dict tfind
wide-cases c i h = ground arith

wide-IsReadable : IsReadable wide
unfolding bit_shift
wide-IsReadable = record {
  sound = record {
    well_formed = wide-IsWellFormed;
    applied = λ c i h. elim (wide-cases c i h) [
      | inl same ↦ rw same (tt, (tt, tt))
      | inr same ↦ rw same (tt, tt)
    ];
  };
  defined = λ c i h. elim (wide-cases c i h) [
    | inl same ↦ rw same ((omega arith, tt), ((omega arith, tt), tt))
    | inr same ↦ rw same ((omega arith, tt), tt)
  ];
}

abbrev pub wide_process : Process
wide_process = record {
  dict = wide;
  events = no_events;
  socket = socket;
  timers = λ fd. none;
  tmplists = false;
}

abbrev five : CString → ℤ
five text = pos 5

get-set_example :
    (s' : Process) × (set strings granted_frame five
        (some (codes "gear"))
        (some (codes "5"))
        wide_process
      ≡ some (s', success))
    × (get strings (some (codes "gear")) s'.dict ≡ some (value (codes "gear") (json_int (pos 5))))
unfolding get_property_dict get_canid_dict tfind strcmp int_of
get-set_example =
    get-set strings granted_frame five (codes "gear") (codes "5") wide_process gear_ref gears
      gear_property wide-IsWellFormed refl refl refl gear-Fits zeros-IsBytes refl refl (λ f. refl)
      refl refl tt

get-set_other_example :
    get strings (some (codes "flag")) get-set_example.0.dict
    ≡ get strings (some (codes "flag")) wide
get-set_other_example =
    get-set_other strings granted_frame five (codes "gear") (codes "flag") (some (codes "5"))
      wide_process get-set_example.0 success wide-IsWellFormed flag-ne-gear get-set_example.1

-- Events for both properties of the first CAN-ID.
abbrev flag_event : BindEvent
flag_event = record { name = codes "flag"; event = 8; raw_info = flag_ref }

abbrev both_events : Clients
both_events = record {
  events = record no_events {
    bind_event_root = (codes "flag", flag_event) ∷ (codes "gear", gear_event) ∷ [];
  };
  pushes = [];
}

parse_frame_pushes_all_example :
    (os : List Outcome) × (d' : Dict) × (outcomes strings 2000
        (canvalue2host frame.bytes)
        later
        (gear_property ∷ flag_property ∷ [])
      ≡ some os)
    × (parse_frame (notifier one_client strings) strings frame later wide both_events
        ≡ some (0, d', record both_events { pushes = pushes_of strings both_events.events os }))
    × (get_canid_dict 0x120 d'
        ≡ some (record gears { canraw_frame = frame; property = new_properties os }))
unfolding get_canid_dict tfind
parse_frame_pushes_all_example =
    parse_frame_pushes_all one_client strings frame later wide gears both_events wide-IsReadable
      (λ n b h. (refl, λ e. absurd (cc))) (omega arith) refl (omega arith)

get-parse_frame_other_example :
    get strings (some (codes "lamp")) parse_frame_pushes_all_example.1
    ≡ get strings (some (codes "lamp")) wide
unfolding get_property_dict tfind strcmp
get-parse_frame_other_example =
    get-parse_frame_other (notifier one_client strings) strings frame later wide
      parse_frame_pushes_all_example.1 both_events _ 0 (codes "lamp") lamp_ref
      wide-IsWellFormed.canids_in_order refl (omega arith) parse_frame_pushes_all_example.3

remove_event-register_event_example :
    let (e', status) =
      remove_event
        (codes "gear")
        (register_event granted (λ n. some 7) (codes "gear") wide no_events).0 in
    (status ≡ pos 0) × (e'.bind_event_root ≡ [])
unfolding get_event register_event register_found get_property_dict deref tfind insert strcmp
remove_event-register_event_example =
    remove_event-register_event granted (λ n. some 7) (codes "gear") wide no_events gear_event
      wide-IsWellFormed tt refl refl
