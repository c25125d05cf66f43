-- ===== src/Tests/System.antt =====
-- Calls after the start of the service: a subscription, a frame, a request.
use agl_can_binder.Base.{
  ℕ, ◌≤◌, ◌≡◌, ◌⊎◌, refl, true, false, Option, some, none, List, [], ◌∷◌, length, codes, CString,
  pos, strcmp, arith,
}
use agl_can_binder.CanidInfo.Types.{CanFrame, Property}
use agl_can_binder.CanidInfo.Value.{property_value_int}
use agl_can_binder.CanidInfo.Endian.{canvalue2host}
use agl_can_binder.CanidInfo.Update.{assign, update_plain, update_converted, update_property_value}
use agl_can_binder.CanidInfo.Frame.{
  bit_shift, shift_left, shift_right, can_mask64, extract_field, canframe2property,
}
use agl_can_binder.CanidSearch.Tree.{tfind, insert, modify}
use agl_can_binder.CanidSearch.Dict.{get_canid_dict, get_property_dict, deref, update_canid}
use agl_can_binder.CanidSearch.Dict.Every.{Every}
use agl_can_binder.SocketcanRaw.{Received, is_negative, socketcan_read}
use agl_can_binder.SocketcanRaw.Laws.{passes}
use agl_can_binder.BindEvent.{
  BindEvent, Events, support_canid_max, get_event, get_subscribed_canids, register_event,
  register_found,
}
use agl_can_binder.CanSignalEvent.Ivi.{start, scan, conclude, update_iviproperty}
use agl_can_binder.CanSignalEvent.Elapsed.{elaps_ms}
use agl_can_binder.CanSignalEvent.Ivi.Total.{PropertyDefined}
use agl_can_binder.CanSignalEvent.Parse.{
  parse_candata, parse_known, parse_frame, read_loop, can_signal_read,
}
use agl_can_binder.CanSignalEvent.Parse.Sound.{IsSound}
use agl_can_binder.CanJson.Value.{json_int, property2json}
use agl_can_binder.Binding.Notify.{after_push, push_event, notify_property_changed}
use agl_can_binder.Binding.Delivery.{notifier}
use agl_can_binder.Binding.Verbs.{Process, Reply, set}
use agl_can_binder.Binding.Subscribe.{
  subscribe, subscribe_signal, subscribe_name, subscribe_to, answer_subscription,
}
use agl_can_binder.Binding.System.{
  System, on_event, Reach, here, next, subscribing, arriving, system_of,
}
use agl_can_binder.Binding.System.Reachable.{reached_event}
use agl_can_binder.Binding.System.Total.{reached_total}
use agl_can_binder.Binding.Subscribe.{everything}
use agl_can_binder.Binding.Api.{set_verb, callback}
use agl_can_binder.Binding.Api.Total.{callback_total}
use agl_can_binder.Tests.Data.{epoch, later, granted}
use agl_can_binder.Tests.Dictionary.{delivered, granted_frame}
use agl_can_binder.Tests.Clients.{one_client}
use agl_can_binder.Tests.Document.{document, document-HasKeys}
use agl_can_binder.Tests.Loading.{
  answers, no_timers, timer_answers, base_16, closed_socket, front_gear, front_info, loaded_dict,
  started, service_starts,
}
use agl_can_binder.Tests.Verbs.{client}

-- After a subscription to the property of the file.
abbrev make_event : CString → Option ℕ
make_event name = some 7

abbrev front : CString
front = codes "gear@Front"

abbrev front_event : BindEvent
front_event = record { name = front; event = 7; raw_info = record { canid = 0x123; index = 0 } }

abbrev no_events_yet : Events
no_events_yet = (system_of started).process.events

abbrev subscribed : System
subscribed = record (system_of started) {
  process =
      (answer_subscription
        (subscribe_name granted make_event client [] loaded_dict front no_events_yet [])
        (system_of started).process).0;
}

subscription_returns :
    subscribe 1 granted make_event client [] (some front) (system_of started).process
    ≡ some (
        answer_subscription
          (subscribe_name granted make_event client [] loaded_dict front no_events_yet [])
          (system_of started).process)
unfolding subscribe subscribe_signal strcmp
subscription_returns = refl

subscribed-Reach : Reach [] (system_of started) subscribed
subscribed-Reach =
    next here (subscribing 1 granted make_event client (some front) _ _ subscription_returns)

front_there : get_event front subscribed.process.events ≡ some front_event
unfolding get_event subscribe subscribe_signal subscribe_name subscribe_to answer_subscription
    get_subscribed_canids register_event register_found get_property_dict deref tfind insert strcmp
front_there = refl

reached_event_example :
    IsSound subscribed.process.dict
    × (is_negative subscribed.process.socket.canfd ≡ false)
    × ((p : Property) × (deref front_event.raw_info subscribed.process.dict ≡ some p)
        × (p.head.name ≡ front))
    × ((support_canid_max ≤ length subscribed.process.events.subscribed_canids)
        ⊎ (passes 0x123 subscribed.process.socket.filters ≡ true))
reached_event_example =
    reached_event document document-HasKeys granted timer_answers base_16 answers no_timers
      closed_socket started service_starts subscribed front front_event subscribed-Reach front_there

front_layouts : Every PropertyDefined started.loader.dict
unfolding get_canid_dict tfind bit_shift
front_layouts = λ c i h. let same : i ≡ front_info = ground arith in rw same ((omega arith, tt), tt)

reached_total_example :
    ((left : List Received) × (s'' : System) × (on_event [] one_client 1 epoch
          (delivered ∷ [])
          subscribed
        ≡ some (left, s'')))
    × ((p' : Process) × (reply : Reply) × (set [] granted_frame base_16
            (some front)
            (some (codes "5"))
            subscribed.process
          ≡ some (p', reply)))
reached_total_example =
    reached_total document document-HasKeys granted timer_answers base_16 answers no_timers
      closed_socket started service_starts front_layouts subscribed subscribed-Reach one_client 1
      epoch (delivered ∷ []) granted_frame base_16 (some front) (some (codes "5"))

-- The first frame of the property, with the second entry of its table.
abbrev front_frame : CanFrame
front_frame = record {
  can_id = 0x123;
  can_dlc = 8;
  bytes = record { d0 = 1; d1 = 1; d2 = 1; d3 = 1; d4 = 1; d5 = 1; d6 = 1; d7 = 1 };
}

abbrev front_delivered : Received
front_delivered = record { nbyte = pos 16; again = false; frame = front_frame; stamp = some later }

abbrev front_moved : Property
front_moved = record {
  head = record front_gear { cur_value = 7; updatetime = later };
  next = [];
  applyinfo = none;
}

-- The subscriber has been told of the frame.
abbrev pushed : System
pushed = record {
  process = record subscribed.process {
    dict = record loaded_dict {
      canid_root =
          (0x123, record front_info { canraw_frame = front_frame; property = front_moved ∷ [] })
          ∷ [];
    };
  };
  pushes = (7, some (json_int (pos 7))) ∷ [];
}

arrives : on_event [] one_client 1 epoch (front_delivered ∷ []) subscribed ≡ some ([], pushed)
unfolding on_event can_signal_read read_loop socketcan_read parse_frame parse_known parse_candata
    update_iviproperty scan conclude start canframe2property extract_field can_mask64 shift_left
    shift_right bit_shift update_property_value update_plain update_converted assign canvalue2host
    elaps_ms notifier notify_property_changed push_event after_push property2json get_event
    subscribe subscribe_signal subscribe_name subscribe_to answer_subscription get_subscribed_canids
    register_event register_found get_property_dict get_canid_dict update_canid deref tfind modify
    insert strcmp property_value_int
arrives = refl

pushed-Reach : Reach [] (system_of started) pushed
pushed-Reach = next subscribed-Reach (arriving one_client 1 epoch (front_delivered ∷ []) [] arrives)

callback_total_example :
    (p' : Process) × (reply : Reply) × (callback [] granted_frame base_16 2 granted make_event
        client set_verb
        (record { event = some front; value = some (codes "5"); wanted = everything; array = true })
        pushed.process
      ≡ some (p', reply))
    × Reach [] (system_of started) (record pushed { process = p' })
unfolding get_property_dict tfind strcmp
callback_total_example =
    callback_total document document-HasKeys granted timer_answers base_16 answers no_timers
      closed_socket started service_starts front_layouts refl pushed pushed-Reach granted_frame
      base_16 0 granted make_event client set_verb
      (record { event = some front; value = some (codes "5"); wanted = everything; array = true })
      tt
