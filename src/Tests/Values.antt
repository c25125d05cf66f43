-- ===== src/Tests/Values.antt =====
-- Types, values and frames.
use agl_can_binder.Base.{ℕ, ◌%◌, ◌^◌, ◌<◌, ◌≡◌, refl, ◌↔◌, false, some, arith, test_bit}
use agl_can_binder.CanidInfo.Types.{FrameData}
use agl_can_binder.CanidInfo.VarTypes.{past_the_end, vartype2string}
use agl_can_binder.CanidInfo.VarTypes.Laws.{vartype2string_past}
use agl_can_binder.CanidInfo.Endian.{canvalue2host}
use agl_can_binder.CanidInfo.Endian.Laws.{IsBytes}
use agl_can_binder.CanidInfo.Update.{update_property_value}
use agl_can_binder.CanidInfo.Update.Quiet.{quirk, repeated, update_property_value_again}
use agl_can_binder.CanidInfo.Frame.{property2canframe, extract_field, bit_shift}
use agl_can_binder.CanidInfo.Frame.Laws.{Fits, in_field}
use agl_can_binder.CanidInfo.Frame.RoundTrip.{property2canframe_lem}
use agl_can_binder.Tests.Data.{strings, gear, lamp, bytes}

abbrev last : ℕ
last = 15

vartype2string_past_example : (vartype2string last ≡ past_the_end) ↔ (last ≡ 15)
vartype2string_past_example = vartype2string_past last

pub bytes-IsBytes : IsBytes bytes
bytes-IsBytes = omega arith

update_property_value_again_example :
    (update_property_value strings (update_property_value strings gear 130).0 130).1
    ≡ repeated (quirk gear 130)
update_property_value_again_example = update_property_value_again strings gear 130 tt refl

pub gear-Fits : Fits gear
unfolding bit_shift
gear-Fits = omega arith

pub lamp-Fits : Fits lamp
unfolding bit_shift
lamp-Fits = omega arith

property2canframe_lem_example :
    (d' : FrameData) × (property2canframe strings lamp bytes 2
      ≡ some
          ((update_property_value strings lamp 2).0, d', (update_property_value strings lamp 2).1))
    × IsBytes d'
    × (extract_field (canvalue2host d') lamp ≡ some (2 % 2 ^ 2))
    × ((i : ℕ)
        → i < 64
        → in_field lamp i ≡ false
        → test_bit (canvalue2host d') i ≡ test_bit (canvalue2host bytes) i)
property2canframe_lem_example = property2canframe_lem strings lamp bytes 2 lamp-Fits refl
