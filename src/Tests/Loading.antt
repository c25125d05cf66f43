-- ===== src/Tests/Loading.antt =====
-- The start of the service with the configuration of `document`.
use agl_can_binder.Base.{
  ℕ, ◌≡◌, refl, true, some, none, [], ◌∷◌, codes, CString, pos, negsuc, ℤ, strcmp,
}
use agl_can_binder.CanidInfo.Types.{CanBit, CanidInfo, uint8_t}
use agl_can_binder.CanidInfo.VarTypes.{vartype_strings, string2vartype, vartype_of}
use agl_can_binder.CanidSearch.Tree.{tfind, insert}
use agl_can_binder.CanidSearch.Dict.{
  Dict, get_canid_dict, add_canid_dict, add_properties, add_property_dict, add_new,
}
use agl_can_binder.SocketcanRaw.{Socket, socketcan_open}
use agl_can_binder.CanSignalEvent.Send.{TimerAnswers, Timers}
use agl_can_binder.CanJson.JsonC.{members, elements}
use agl_can_binder.CanJson.Run.{done}
use agl_can_binder.CanJson.Zone.{
  zone_flags, add_flag, zone_step, zone_texts, zone_text, zone_name_of, zone_value, get_zone_name,
}
use agl_can_binder.CanJson.Tables.{table_kind, int_entries, fill_table, create_convert_tables}
use agl_can_binder.CanJson.Member.{
  type_named, key_of, full_name, member_branch, member_fields, add_property_member,
}
use agl_can_binder.CanJson.Load.{
  Loader, empty_frame, mode_of, cycle_of, dlc_of, property_members, add_property_mapping,
  start_timer, add_caninfo, grow_caninfo, data_of, read_caninfo, parse_caninfo,
}
use agl_can_binder.CanJson.Load.File.{
  each, canid_def, parse_canid_def, standard_or_extended, parse_recept_and_transmission,
  reception_or_transmission, parse_json, can_define_init,
}
use agl_can_binder.Binding.Service.{
  ServiceAnswers, Setup, c_string, watch_socket, connection, conf_field, conf_fields, conf_object,
  init_conf, connect_if, service_init,
}
use agl_can_binder.Binding.System.Reachable.{fresh}
use agl_can_binder.Tests.Data.{granted, epoch}
use agl_can_binder.Tests.Document.{document}

-- The answers of the system: a socket with the descriptor 7.
abbrev pub answers : ServiceAnswers
answers = record {
  fd_conf = pos 3;
  stream = true;
  content = codes "{}";
  can_open = record { socket = pos 7; ioctl = pos 0; bind = pos 0 };
  add_io = pos 0;
}

abbrev pub no_timers : Timers
no_timers = λ fd. none

abbrev pub timer_answers : ℕ → TimerAnswers
timer_answers canid = record { timerfd = pos 9; add_io = pos 0 }

-- `strtol` of any text.
abbrev pub base_16 : CString → ℤ
base_16 text = pos 0x123

abbrev pub closed_socket : Socket
closed_socket = record {
  canfd = negsuc 0;
  can_sendfd = negsuc 0;
  filters = [];
  sent = [];
  closed = [];
}

-- The entry of the file.
abbrev pub front_gear : CanBit
front_gear = record {
  name = codes "gear@Front";
  property_kind = 1;
  byte_pos = 7;
  bit_pos = 0;
  bit_len = 8;
  var_type = uint8_t;
  dataconv = some (8 ∷ 7 ∷ []);
  nconv = 2;
  updatetime = epoch;
  cur_value = 0;
}

abbrev pub front_info : CanidInfo
front_info = record {
  canid = 0x123;
  dlc = 8;
  mode = 1;
  cycle = 0;
  canraw_frame = empty_frame 0x123;
  timerfd = pos 0;
  kind = 1;
  property = record { head = front_gear; next = []; applyinfo = none } ∷ [];
}

abbrev pub loaded_dict : Dict
loaded_dict = record {
  canid_root = (0x123, front_info) ∷ [];
  property_root = (codes "gear@Front", record { canid = 0x123; index = 0 }) ∷ [];
  support_property_list = codes "gear@Front" ∷ [];
  requests = 3;
}

abbrev pub started : Setup
started = record {
  loader = record { dict = loaded_dict; strings = []; timers = no_timers; watched = pos 7 ∷ [] };
  socket = record closed_socket {
    canfd = pos 7;
    can_sendfd = pos 7;
    filters = record { can_id = 0x7ff; can_mask = 0x7ff } ∷ [];
  };
}

-- The entry as it is read.
pub member_read :
    add_property_member document 1 (some 10) []
    ≡ some (record { head = front_gear; next = []; applyinfo = none }, [])
unfolding add_property_member member_fields member_branch key_of full_name type_named string2vartype
    vartype_of vartype_strings create_convert_tables fill_table table_kind int_entries elements
    members strcmp get_zone_name zone_value zone_step add_flag zone_flags zone_name_of zone_text
    zone_texts
member_read = refl

-- The file as it is loaded.
abbrev pub file_loaded : Loader
file_loaded = record { dict = loaded_dict; strings = []; timers = no_timers; watched = [] }

pub loaded :
    can_define_init document granted timer_answers base_16
      (some (codes "map.json"))
      (fresh no_timers closed_socket).loader
    ≡ done (file_loaded, 0)
unfolding add_property_member member_fields member_branch key_of full_name type_named string2vartype
    vartype_of vartype_strings create_convert_tables fill_table table_kind int_entries elements
    members strcmp get_zone_name zone_value zone_step add_flag zone_flags zone_name_of zone_text
    zone_texts can_define_init parse_json reception_or_transmission parse_recept_and_transmission
    standard_or_extended parse_canid_def canid_def each parse_caninfo read_caninfo data_of
    grow_caninfo add_caninfo start_timer add_property_mapping property_members mode_of cycle_of
    dlc_of get_canid_dict add_canid_dict add_properties add_property_dict add_new tfind insert
loaded = refl

-- The same file again.
pub loaded_again :
    can_define_init document granted timer_answers base_16 (some (codes "map.json")) file_loaded
    ≡ done (file_loaded, 0)
unfolding can_define_init parse_json reception_or_transmission parse_recept_and_transmission
    standard_or_extended parse_canid_def canid_def each parse_caninfo get_canid_dict members tfind
    strcmp
loaded_again = refl

pub service_starts :
    service_init document granted timer_answers base_16 answers (fresh no_timers closed_socket)
    ≡ done (started, pos 0)
unfolding service_init init_conf c_string conf_object conf_fields conf_field connect_if connection
    watch_socket socketcan_open members strcmp
service_starts = rw loaded refl
