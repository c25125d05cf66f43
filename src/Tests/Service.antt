-- ===== src/Tests/Service.antt =====
-- The CAN definition file, the start of the service, and calls after it.
use agl_can_binder.Base.{
  ℕ, ◌≤◌, ◌<◌, ◌≡◌, ◌⊎◌, ◌↔◌, ◌++◌, refl, false, some, none, List, [], ◌∷◌, length, map, codes,
  CString, ℤ, strcmp, arith,
}
use agl_can_binder.CanidInfo.Types.{Property, text_at, uint8_t}
use agl_can_binder.CanidInfo.Frame.{canframe2property, bit_shift}
use agl_can_binder.CanidInfo.Frame.{bit_shift}
use agl_can_binder.CanidSearch.Tree.{tfind}
use agl_can_binder.CanidSearch.Dict.{Dict, get_canid_dict}
use agl_can_binder.SocketcanRaw.{Received, is_negative, can_sff_mask}
use agl_can_binder.CanSignalEvent.Parse.{can_signal_read}
use agl_can_binder.CanSignalEvent.Parse.Total.{IsReadable, can_signal_read_total}
use agl_can_binder.CanSignalEvent.Parse.Drained.{Calls, can_signal_read_drains}
use agl_can_binder.CanJson.JsonC.{elements}
use agl_can_binder.CanJson.Zone.{
  zone_flags, add_flag, zone_step, zone_texts, zone_text, zone_name_of, zone_value, get_zone_name,
}
use agl_can_binder.CanJson.Zone.Laws.{zone_name_size, length-get_zone_name}
use agl_can_binder.CanJson.Tables.{string_entries, create_convert_tables}
use agl_can_binder.CanJson.Tables.Laws.{TableOf, create_convert_tables-TableOf, string_entries_lem}
use agl_can_binder.CanJson.Member.Typed.{Grows}
use agl_can_binder.CanJson.Member.Laws.{IsLoaded, add_property_member-IsLoaded}
use agl_can_binder.CanJson.Member.Defined.{canframe2property-undefined_iff}
use agl_can_binder.CanJson.Load.Ready.{IsReady}
use agl_can_binder.CanJson.Load.Known.{can_define_init_keeps}
use agl_can_binder.CanJson.Load.Laws.{can_define_init-IsReady}
use agl_can_binder.Binding.Service.Laws.{service_init_started}
use agl_can_binder.Binding.System.Reachable.{fresh}
use agl_can_binder.Tests.Data.{strings, info, epoch, dict, granted}
use agl_can_binder.Tests.Dictionary.{empty-IsSound, dict-IsSound, log, delivered}
use agl_can_binder.Tests.Document.{document, document-HasKeys}
use agl_can_binder.Tests.Loading.{
  answers, no_timers, timer_answers, base_16, closed_socket, front_gear, started, member_read,
  file_loaded, loaded, loaded_again, front_info, service_starts,
}

abbrev front_property : Property
front_property = record { head = front_gear; next = []; applyinfo = none }

front_gear-IsLoaded : IsLoaded [] front_gear
front_gear-IsLoaded =
    (add_property_member-IsLoaded document 1 (some 10) [] [] front_property document-HasKeys
      member_read).1

add_property_member-IsLoaded_example :
    Grows [] []
    × IsLoaded [] front_gear
    × (front_property.next ≡ [])
    × (front_property.applyinfo ≡ none)
add_property_member-IsLoaded_example =
    add_property_member-IsLoaded document 1 (some 10) [] [] front_property document-HasKeys
      member_read

create_convert_tables-TableOf_example :
    let (strings', r) = create_convert_tables document (some 14) uint8_t strings in
    (more : List CString) × (strings' ≡ strings ++ more) × TableOf uint8_t (strings ++ more) r
create_convert_tables-TableOf_example =
    create_convert_tables-TableOf document (some 14) uint8_t strings

string_entries_lem_example :
    (p : List ℕ) × (string_entries document (some 12 ∷ some 13 ∷ []) strings
      ≡ (strings ++ codes "uint8_t" ∷ codes "gear" ∷ [], some p))
    × (map (text_at (strings ++ codes "uint8_t" ∷ codes "gear" ∷ [])) p
        ≡ codes "uint8_t" ∷ codes "gear" ∷ [])
string_entries_lem_example =
    string_entries_lem document (some 12 ∷ some 13 ∷ []) (codes "uint8_t" ∷ codes "gear" ∷ [])
      strings (refl, (refl, tt))

length-get_zone_name_example : length (codes "Front") < zone_name_size
unfolding get_zone_name elements zone_value zone_step add_flag zone_flags zone_name_of zone_text
    zone_texts strcmp
length-get_zone_name_example = length-get_zone_name document (some 15) (codes "Front") refl

canframe2property-undefined_iff_example :
    (canframe2property strings 5 front_gear ≡ none)
    ↔ ((front_gear.byte_pos ≡ 0) ⊎ ((front_gear.byte_pos ≡ 1) × (front_gear.bit_pos ≡ 8)))
canframe2property-undefined_iff_example =
    canframe2property-undefined_iff strings [] 5 front_gear front_gear-IsLoaded

fresh-IsReady : IsReady (fresh no_timers closed_socket).loader
unfolding get_canid_dict tfind
fresh-IsReady = record { sound = empty-IsSound; loaded = λ c i h. absurd (cc) }

can_define_init-IsReady_example : IsReady file_loaded
can_define_init-IsReady_example =
    can_define_init-IsReady document document-HasKeys granted timer_answers base_16
      (some (codes "map.json")) (fresh no_timers closed_socket).loader file_loaded 0 fresh-IsReady
      loaded

file_loaded-IsReady : IsReady file_loaded
file_loaded-IsReady =
    can_define_init-IsReady document document-HasKeys granted timer_answers base_16
      (some (codes "map.json")) (fresh no_timers closed_socket).loader file_loaded 0 fresh-IsReady
      loaded

can_define_init_keeps_example : get_canid_dict 0x123 file_loaded.dict ≡ some front_info
unfolding get_canid_dict tfind
can_define_init_keeps_example =
    can_define_init_keeps document document-HasKeys granted timer_answers 0x123 front_info base_16
      (some (codes "map.json")) file_loaded file_loaded 0 file_loaded-IsReady refl loaded_again

service_init_started_example :
    IsReady started.loader
    × ((l : List ℤ) × (started.loader.watched ≡ started.socket.canfd ∷ l))
    × (is_negative started.socket.canfd ≡ false)
    × (started.socket.can_sendfd ≡ started.socket.canfd)
    × (started.socket.filters ≡ record { can_id = can_sff_mask; can_mask = can_sff_mask } ∷ [])
    × (started.socket.closed ≡ [])
service_init_started_example =
    service_init_started document document-HasKeys granted timer_answers base_16 answers
      (fresh no_timers closed_socket) started fresh-IsReady service_starts

dict-IsReadable : IsReadable dict
unfolding get_canid_dict tfind bit_shift
dict-IsReadable = record {
  sound = dict-IsSound;
  defined = λ c i h. let same : i ≡ info = ground arith in rw same ((omega arith, tt), tt);
}

can_signal_read_total_example :
    (left : List Received) × (d' : Dict) × (e' : List Property) × (can_signal_read log strings epoch
        (delivered ∷ [])
        dict
        []
      ≡ some (left, d', e'))
    × IsReadable d'
can_signal_read_total_example =
    can_signal_read_total log strings epoch (delivered ∷ []) dict [] dict-IsReadable

can_signal_read_drains_example :
    (n : ℕ) × (d' : Dict) × (e' : List Property) × (n ≤ 2)
    × Calls log strings n (delivered ∷ delivered ∷ []) dict [] [] d' e'
can_signal_read_drains_example =
    can_signal_read_drains log strings epoch (delivered ∷ delivered ∷ []) dict [] dict-IsReadable
