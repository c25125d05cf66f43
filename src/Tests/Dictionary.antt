-- ===== src/Tests/Dictionary.antt =====
-- The dictionaries, received frames and sent frames.

use agl_can_binder.Base.{
  All, ℕ, ◌≤◌, ◌+◌, ◌≡◌, refl, Bool, ◌≢◌, true, false, some, List, [], ◌∷◌, length, strcmp, pos,
  arith,
}
use agl_can_binder.CanidInfo.Types.{CanFrame, Property, CanidInfo}
use agl_can_binder.CanidInfo.Endian.{canvalue2host}
use agl_can_binder.CanidInfo.Endian.Laws.{IsBytes}
use agl_can_binder.CanidInfo.Update.{assign, update_plain, update_property_value}
use agl_can_binder.CanSignalEvent.Elapsed.{elaps_ms}
use agl_can_binder.CanSignalEvent.Ivi.{scan, conclude, start, update_iviproperty}
use agl_can_binder.CanidInfo.Frame.{
  bit_shift, shift_left, shift_right, can_mask64, extract_field, canframe2property,
}
use agl_can_binder.CanidSearch.Tree.{tfind, modify}
use agl_can_binder.CanidSearch.Dict.{Dict, update_canid, add_canid_dict, get_canid_dict, empty}
use mathlib.Core.List.{Perm}
use agl_can_binder.CanidSearch.Dict.Entries.{entries, IsGrouped}
use agl_can_binder.CanidSearch.Dict.Refs.{HasName}
use agl_can_binder.CanidSearch.Dict.WellFormed.{IsWellFormed}
use agl_can_binder.CanidSearch.Dict.AddCanid.{add_canid_dict_accepted}
use agl_can_binder.SocketcanRaw.{Received, socketcan_read}
use agl_can_binder.CanSignalEvent.Parse.{
  parse_candata, parse_known, parse_frame, read_loop, can_signal_read,
}
use agl_can_binder.CanSignalEvent.Parse.Laws.{can_signal_read-bound}
use agl_can_binder.CanSignalEvent.Parse.Added.{add_canid_dict-IsSound}
use agl_can_binder.CanSignalEvent.Parse.Sound.{IsSound, parse_frame-IsSound}
use agl_can_binder.Tests.Data.{
  strings, gear, gear_property, lamp_property, epoch, later, zeros, bytes, frame, info, gear_ref,
  dict_of, dict, granted,
}

abbrev pub granted_frame : CanFrame → Bool
granted_frame _ = true

-- A CAN-ID whose one property has a conversion table.
abbrev lamp_info : CanidInfo
lamp_info = record info { property = lamp_property ∷ [] }

abbrev lamp_dict : Dict
lamp_dict = record dict { canid_root = (0x120, lamp_info) ∷ [] }

pub empty-IsWellFormed : IsWellFormed empty
empty-IsWellFormed = record {
  canids_in_order = tt;
  names_in_order = tt;
  resolves = tt;
  listed = (tt, omega arith);
}

pub dict-IsWellFormed : IsWellFormed dict
unfolding HasName tfind strcmp
dict-IsWellFormed = record {
  canids_in_order = (tt, tt);
  names_in_order = (tt, tt);
  resolves = ((gear_property, refl, refl), tt);
  listed = (((gear_ref, refl), tt), omega arith);
}

pub dict-IsSound : IsSound dict
unfolding get_canid_dict tfind
dict-IsSound = record {
  well_formed = dict-IsWellFormed;
  applied = λ c i h. let same : i ≡ info = ground arith in rw same (tt, tt);
}

pub empty-IsSound : IsSound empty
unfolding get_canid_dict tfind
empty-IsSound = record { well_formed = empty-IsWellFormed; applied = λ c i h. absurd (cc) }

add_canid_dict-IsSound_example : IsSound (add_canid_dict granted info empty).0
add_canid_dict-IsSound_example = add_canid_dict-IsSound granted info empty empty-IsSound (tt, tt)

add_canid_dict_accepted_example :
    (l : List Property) × ((add_canid_dict granted info empty).1 ≡ pos 0)
    × (get_canid_dict 0x120 (add_canid_dict granted info empty).0
        ≡ some (record info { property = l }))
    × Perm (entries l) (gear ∷ [])
    × All IsGrouped l
    × ((c : ℕ)
        → c ≢ 0x120
        → get_canid_dict c (add_canid_dict granted info empty).0 ≡ get_canid_dict c empty)
unfolding get_canid_dict tfind
add_canid_dict_accepted_example =
    add_canid_dict_accepted granted info empty empty-IsWellFormed refl refl (refl, tt)

-- What the frame leaves behind.
abbrev new_gear : Property
new_gear = record gear_property { head = record gear { cur_value = 130; updatetime = later } }

abbrev new_dict : Dict
new_dict = dict_of (record info { canraw_frame = frame; property = new_gear ∷ [] })

-- The properties that clients are told of.
abbrev pub log : Property → List Property → List Property
log p e = p ∷ e

decoded :
    parse_candata log strings 2000 (canvalue2host bytes) later (gear_property ∷ []) []
    ≡ some (new_gear ∷ [], new_gear ∷ [])
unfolding parse_candata update_iviproperty scan conclude start canframe2property extract_field
    can_mask64 shift_left shift_right bit_shift update_property_value update_plain assign
    canvalue2host elaps_ms
decoded = refl

parsed : parse_frame log strings frame later dict [] ≡ some (0, new_dict, new_gear ∷ [])
unfolding parse_frame parse_known get_canid_dict update_canid tfind modify
parsed = rw decoded refl

parse_frame-IsSound_example : IsSound new_dict
parse_frame-IsSound_example =
    parse_frame-IsSound log strings frame later dict dict-IsSound 0 new_dict [] (new_gear ∷ [])
      parsed

-- The frame as the socket delivers it.
abbrev pub delivered : Received
delivered = record { nbyte = pos 16; again = false; frame = frame; stamp = some later }

read :
    can_signal_read log strings epoch (delivered ∷ []) dict [] ≡ some ([], new_dict, new_gear ∷ [])
unfolding can_signal_read read_loop socketcan_read
read = rw parsed refl

can_signal_read-bound_example : length (delivered ∷ []) ≤ length {A = Received} [] + 6
can_signal_read-bound_example =
    can_signal_read-bound log strings epoch (delivered ∷ []) [] dict new_dict [] (new_gear ∷ [])
      read

pub zeros-IsBytes : IsBytes zeros
zeros-IsBytes = omega arith
