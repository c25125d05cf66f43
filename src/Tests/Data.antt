-- ===== src/Tests/Data.antt =====
-- The inputs.
use agl_can_binder.Base.{ℕ, true, none, some, [], ◌∷◌, codes, pos, negsuc, Bool}
use agl_can_binder.CanidInfo.Types.{
  uint8_t, uint16_t, Strings, Timeval, FrameData, CanFrame, CanBit, Property, CanidInfo,
}
use agl_can_binder.CanidSearch.Dict.{PropertyRef, Dict}
use agl_can_binder.SocketcanRaw.{Socket}
use agl_can_binder.BindEvent.{BindEvent, Events}

abbrev pub strings : Strings
strings = codes "NOTSET" ∷ []

abbrev pub epoch : Timeval
epoch = record { tv_sec = 0; tv_usec = 0 }

abbrev pub later : Timeval
later = record { tv_sec = 1; tv_usec = 500000 }

-- Byte 7 of the frame.
abbrev pub gear : CanBit
gear = record {
  name = codes "gear";
  property_kind = 1;
  byte_pos = 7;
  bit_pos = 0;
  bit_len = 8;
  var_type = uint8_t;
  dataconv = none;
  nconv = 0;
  updatetime = epoch;
  cur_value = 0;
}

-- Two bits of byte 8, through a table of three entries.
abbrev pub lamp : CanBit
lamp = record {
  name = codes "lamp";
  property_kind = 1;
  byte_pos = 8;
  bit_pos = 4;
  bit_len = 2;
  var_type = uint16_t;
  dataconv = some (0 ∷ 10 ∷ 40000 ∷ []);
  nconv = 3;
  updatetime = epoch;
  cur_value = 0;
}

abbrev pub gear_property : Property
gear_property = record { head = gear; next = []; applyinfo = none }

abbrev pub lamp_property : Property
lamp_property = record { head = lamp; next = []; applyinfo = none }

-- The table of `gear` and then of `lamp`.
abbrev pub both : Property
both = record { head = gear; next = lamp ∷ []; applyinfo = some 0 }

abbrev pub zeros : FrameData
zeros = record { d0 = 0; d1 = 0; d2 = 0; d3 = 0; d4 = 0; d5 = 0; d6 = 0; d7 = 0 }

abbrev pub bytes : FrameData
bytes = record { d0 = 1; d1 = 2; d2 = 3; d3 = 4; d4 = 5; d5 = 6; d6 = 130; d7 = 0x1f }

abbrev pub frame : CanFrame
frame = record { can_id = 0x120; can_dlc = 8; bytes = bytes }

abbrev pub info : CanidInfo
info = record {
  canid = 0x120;
  dlc = 8;
  mode = 1;
  cycle = 2000;
  canraw_frame = record { can_id = 0x120; can_dlc = 8; bytes = zeros };
  timerfd = negsuc 0;
  kind = 1;
  property = gear_property ∷ [];
}

-- A CAN-ID that the service sends.
abbrev pub sent_info : CanidInfo
sent_info = record info { kind = 2 }

abbrev pub gear_ref : PropertyRef
gear_ref = record { canid = 0x120; index = 0 }

abbrev pub dict_of : CanidInfo → Dict
dict_of i = record {
  canid_root = (0x120, i) ∷ [];
  property_root = (codes "gear", gear_ref) ∷ [];
  support_property_list = codes "gear" ∷ [];
  requests = 2;
}

abbrev pub dict : Dict
dict = dict_of info

abbrev pub granted : ℕ → Bool
granted _ = true

abbrev pub socket : Socket
socket = record { canfd = pos 3; can_sendfd = pos 3; filters = []; sent = []; closed = [] }

abbrev pub gear_event : BindEvent
gear_event = record { name = codes "gear"; event = 7; raw_info = gear_ref }

abbrev pub no_events : Events
no_events = record { bind_event_root = []; subscribed_canids = []; dropped = []; requests = 0 }

abbrev pub events : Events
events = record no_events { bind_event_root = (codes "gear", gear_event) ∷ [] }
