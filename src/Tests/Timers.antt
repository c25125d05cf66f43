-- ===== src/Tests/Timers.antt =====
-- A start with a CAN definition file that has the one CAN-ID among those that are sent, and a start
-- that fails.
use agl_can_binder.Base.{
  ℕ, ◌≡◌, ◌⊎◌, refl, Option, none, some, List, [], ◌∷◌, codes, get_elem?, ℤ, pos, negsuc, ◌==◌,
  if◌then◌else◌, strcmp,
}
use agl_can_binder.CanidInfo.Types.{CanBit, CanidInfo}
use agl_can_binder.CanidSearch.Tree.{modify}
use agl_can_binder.CanidSearch.Dict.{update_canid}
use agl_can_binder.CanSignalEvent.Send.{
  Timers, created, update_send_timer, add_send_timer, on_timer_event,
}
use agl_can_binder.CanJson.JsonC.{JsonC, Node, null, object, text_of, fields_of, members, elements}
use agl_can_binder.CanJson.Run.{done}
use agl_can_binder.CanidInfo.VarTypes.{vartype_strings, string2vartype, vartype_of}
use agl_can_binder.CanidSearch.Tree.{tfind, insert}
use agl_can_binder.CanidSearch.Dict.{
  Dict, get_canid_dict, add_canid_dict, add_properties, add_property_dict, add_new,
}
use agl_can_binder.SocketcanRaw.{socketcan_open}
use agl_can_binder.CanJson.Zone.{
  zone_flags, add_flag, zone_step, zone_texts, zone_text, zone_name_of, zone_value, get_zone_name,
}
use agl_can_binder.CanJson.Tables.{table_kind, int_entries, fill_table, create_convert_tables}
use agl_can_binder.CanJson.Member.{
  type_named, key_of, full_name, member_branch, member_fields, add_property_member,
}
use agl_can_binder.CanJson.Load.{
  Loader, mode_of, cycle_of, dlc_of, property_members, add_property_mapping, start_timer,
  add_caninfo, grow_caninfo, data_of, read_caninfo, parse_caninfo,
}
use agl_can_binder.CanJson.Load.File.{
  each, canid_def, parse_canid_def, standard_or_extended, parse_recept_and_transmission,
  reception_or_transmission, parse_json, can_define_init,
}
use agl_can_binder.Binding.Service.{
  ServiceAnswers, Setup, c_string, watch_socket, connection, conf_field, conf_fields, conf_object,
  init_conf, connect_if, service_init,
}
use agl_can_binder.CanJson.Load.Ready.{IsReady}
use agl_can_binder.CanJson.Load.Ticking.{Armed, Ticks}
use agl_can_binder.Binding.Service.Failed.{Reclosed, service_init_failed}
use agl_can_binder.Binding.System.{System, Reach, here, next, repeating, system_of}
use agl_can_binder.Binding.System.Reachable.{fresh}
use agl_can_binder.Binding.System.Timers.{reached_timers}
use agl_can_binder.Tests.Data.{granted}
use agl_can_binder.Tests.Dictionary.{granted_frame}
use agl_can_binder.Tests.Document.{nodes, node_or_null, get_ex, document, document-HasKeys}
use agl_can_binder.Tests.Loading.{
  answers, no_timers, timer_answers, base_16, closed_socket, loaded, file_loaded, loaded_dict,
  front_info, front_gear, started,
}

-- The file of `document`, under TRANSMISSION.
abbrev sent_view : Option ℕ → Node ℕ
sent_view none = null
sent_view (some i) =
    if i == 3
    then object ((codes "TRANSMISSION", some 4) ∷ [])
    else node_or_null (get_elem? nodes i)

abbrev sending : JsonC ℕ
sending = record document {
  view = sent_view;
  get_string = λ v. text_of (sent_view v);
  get_ex = λ v. get_ex (fields_of (sent_view v));
}

abbrev sent_gear : CanBit
sent_gear = record front_gear { property_kind = 2; dataconv = none; nconv = 0 }

-- The CAN-ID, with the descriptor of its timer.
abbrev sent_front : CanidInfo
sent_front = record front_info {
  kind = 2;
  timerfd = pos 9;
  property = record { head = sent_gear; next = []; applyinfo = none } ∷ [];
}

abbrev one_timer : Timers
one_timer = update_send_timer sent_front (created (pos 9) no_timers)

abbrev sent_dict : Dict
sent_dict = record loaded_dict { canid_root = (0x123, sent_front) ∷ [] }

abbrev sent_loaded : Loader
sent_loaded = record { dict = sent_dict; strings = []; timers = one_timer; watched = pos 9 ∷ [] }

sent_member :
    add_property_member sending 2 (some 10) []
    ≡ some (record { head = sent_gear; next = []; applyinfo = none }, [])
unfolding add_property_member member_fields member_branch key_of full_name type_named string2vartype
    vartype_of vartype_strings create_convert_tables fill_table table_kind int_entries elements
    members strcmp get_zone_name zone_value zone_step add_flag zone_flags zone_name_of zone_text
    zone_texts
sent_member = refl

sending_loads :
    can_define_init sending granted timer_answers base_16
      (some (codes "map.json"))
      (fresh no_timers closed_socket).loader
    ≡ done (sent_loaded, 0)
unfolding add_property_member member_fields member_branch key_of full_name type_named string2vartype
    vartype_of vartype_strings create_convert_tables fill_table table_kind int_entries elements
    members strcmp get_zone_name zone_value zone_step add_flag zone_flags zone_name_of zone_text
    zone_texts can_define_init parse_json reception_or_transmission parse_recept_and_transmission
    standard_or_extended parse_canid_def canid_def each parse_caninfo read_caninfo data_of
    grow_caninfo add_caninfo start_timer add_property_mapping property_members mode_of cycle_of
    dlc_of get_canid_dict add_canid_dict add_properties add_property_dict add_new tfind insert
    modify update_canid add_send_timer
sending_loads = refl

abbrev sending_started : Setup
sending_started = record started { loader = record sent_loaded { watched = pos 7 ∷ pos 9 ∷ [] } }

sending_starts :
    service_init sending granted timer_answers base_16 answers (fresh no_timers closed_socket)
    ≡ done (sending_started, pos 0)
unfolding service_init init_conf c_string conf_object conf_fields conf_field connect_if connection
    watch_socket socketcan_open members strcmp
sending_starts = rw sending_loads refl

-- The timer sends the frame of the CAN-ID.
abbrev repeated : System
repeated = record (system_of sending_started) {
  process = record (system_of sending_started).process {
    socket = on_timer_event [] granted_frame sent_front (system_of sending_started).process.socket;
  };
}

repeated-Reach : Reach [] (system_of sending_started) repeated
unfolding get_canid_dict tfind
repeated-Reach = next here (repeating granted_frame 0x123 sent_front refl)

reached_timers_example :
    Armed repeated.process.timers
    × ((l : List ℤ) × (pos 7 ∷ pos 9 ∷ [] ≡ pos 7 ∷ l) × Ticks repeated.process.timers l)
    × (repeated.process.timers ≡ one_timer)
reached_timers_example =
    reached_timers sending granted timer_answers base_16 answers closed_socket sending_started
      sending_starts repeated repeated-Reach

-- The interface of the CAN bus cannot be bound.
abbrev unbound : ServiceAnswers
unbound = record answers { can_open = record { socket = pos 7; ioctl = pos 0; bind = negsuc 0 } }

abbrev reclosed : Setup
reclosed = record { loader = file_loaded; socket = record started.socket { closed = pos 7 ∷ [] } }

unbound_fails :
    service_init document granted timer_answers base_16 unbound (fresh no_timers closed_socket)
    ≡ done (reclosed, negsuc 0)
unfolding service_init init_conf c_string conf_object conf_fields conf_field connect_if connection
    watch_socket socketcan_open members strcmp
unbound_fails = rw loaded refl

service_init_failed_example :
    (negsuc 0 ≡ negsuc 0)
    × (IsReady (fresh no_timers closed_socket).loader → IsReady file_loaded)
    × ((reclosed.socket ≡ closed_socket) ⊎ Reclosed unbound.can_open closed_socket reclosed.socket)
service_init_failed_example =
    service_init_failed document document-HasKeys granted timer_answers base_16 unbound
      (fresh no_timers closed_socket) reclosed (negsuc 0) unbound_fails (λ h. absurd (cc))
