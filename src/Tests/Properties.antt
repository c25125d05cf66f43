-- ===== src/Tests/Properties.antt =====
-- Times, and the decoding of frames into properties.
use mathlib.Core.Option
use agl_can_binder.Base.{◌≡◌, refl, false, some, none, arith}
use agl_can_binder.CanSignalEvent.Elapsed.{elaps_ms}
use agl_can_binder.CanidInfo.Frame.{bit_shift}
use agl_can_binder.CanidInfo.Update.{update_plain, update_property_value}
use agl_can_binder.CanidInfo.Update.Quiet.{quirk}
use agl_can_binder.CanSignalEvent.Ivi.{Outcome, update_iviproperty, chain, value_at}
use agl_can_binder.CanSignalEvent.Ivi.Single.{
  thinned, field_of, update_iviproperty_single, update_iviproperty_again,
}
use agl_can_binder.CanSignalEvent.Ivi.Entries.{values, decoded_entries, last_updated}
use agl_can_binder.CanSignalEvent.Ivi.Multi.{applied_after, due_multi, update_iviproperty_multi}
use agl_can_binder.Tests.Data.{strings, gear, gear_property, lamp_property, both, later}
use agl_can_binder.Tests.Values.{gear-Fits, lamp-Fits}

-- The outcome of the value 130, and the same frame once more.
abbrev first : Outcome
first = thinned 2000 later gear_property (update_property_value strings gear (field_of 0x8200 gear))

update_iviproperty_again_example :
    Option.map
      (λ (r : Outcome). r.notifies)
      (update_iviproperty strings 2000 0x8233 first.property later)
    ≡ some (quirk gear (field_of 0x8200 gear))
unfolding bit_shift elaps_ms update_property_value update_plain
update_iviproperty_again_example =
    update_iviproperty_again strings 2000 0x8200 0x8233 later later gear_property first refl
      gear-Fits tt refl refl
      (update_iviproperty_single strings 2000 0x8200 later gear_property refl gear-Fits refl)
      (omega arith)

update_iviproperty_multi_example :
    let entries = decoded_entries strings 0x8220 (chain both) in
    let mark = last_updated strings 0x8220 0 none (chain both) in
    (o : Outcome) × (update_iviproperty strings 2000 0x8220 both later ≡ some o)
    × (o.status ≡ 0)
    × (values (chain o.property) ≡ values entries)
    × (o.property.applyinfo ≡ applied_after mark both.applyinfo)
    × (o.notifies
        ≡ due_multi 2000
            (elaps_ms gear.updatetime later)
            both.applyinfo
            (value_at both.applyinfo (chain both))
            mark
            entries)
unfolding bit_shift
update_iviproperty_multi_example =
    update_iviproperty_multi strings 2000 0x8220 both later refl
      ((gear-Fits, refl), ((lamp-Fits, refl), tt))

-- The outcome of a frame that the table of `lamp` does not know.
abbrev refused : Outcome
refused = record { property = lamp_property; notifies = false; status = 1 }
