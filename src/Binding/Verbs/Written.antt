-- ===== src/Binding/Verbs/Written.antt =====
-- What `get` answers after `set`.

use agl_can_binder.Base.{
  ℕ, ◌<◌, ◌^◌, ◌==◌, not, u32, ◌≡◌, ◌∙◌, refl, sym, ap, Bool, true, false, none, some, CString, ℤ,
  to_u32, to_u32-lt, get_elem?, get_elem?-set, arith,
}
use agl_can_binder.CanidInfo.Types.{
  VarType, void_t, bool_t, Strings, CanFrame, CanBit, Property, CanidInfo,
}
use agl_can_binder.CanidInfo.Value.{read_int, property_value_int}
use agl_can_binder.CanidInfo.Endian.Laws.{IsBytes}
use agl_can_binder.CanidInfo.Update.{truth, update_property_value}
use agl_can_binder.CanidInfo.Update.Laws.{
  rejects, HoldsTruth, has_int, int_of, input, property_value_int-update,
  update_property_value-layout,
}
use agl_can_binder.CanidInfo.Frame.Laws.{Fits}
use agl_can_binder.CanidSearch.Dict.{
  PropertyRef, get_property_dict, get_canid_dict, deref, update_canid,
}
use agl_can_binder.CanidSearch.Dict.Deref.{deref-update_canid}
use agl_can_binder.CanidSearch.Dict.WellFormed.{IsWellFormed}
use agl_can_binder.CanJson.Value.{
  Json, json_int, json_boolean, property2json, entry2json, value_object,
}
use agl_can_binder.SocketcanRaw.{is_negative}
use agl_can_binder.CanSignalEvent.Send.{with_value}
use agl_can_binder.CanSignalEvent.Send.Laws.{stored}
use agl_can_binder.Binding.Verbs.{Process, success, value, get, set}
use agl_can_binder.Binding.Verbs.Laws.{after_set, set-after_set}

-- The answer for a raw value, or an entry of the table, under a type.
abbrev pub json_of : VarType → ℕ → Json
json_of bool_t c = json_boolean (not (u32 c == 0))
json_of t c = json_int (int_of t c)

value_object-plain :
    (strings : Strings) (p : CanBit) (t : VarType) (c : ℕ)
    → has_int t ≡ true
    → t ≡ p.var_type
    → property_value_int p ≡ int_of t c
    → value_object strings p t ≡ some (json_of t c)
unfolding value_object property_value_int read_int int_of
value_object-plain strings p bool_t c h e k = ground (arith, truth)
value_object-plain strings p void_t c h e k = ground arith
value_object-plain strings p _ c h e k = ground arith

-- The answer for a property of one entry after an update.
pub property2json-update :
    (strings : Strings) (p : Property) (v : ℕ) (head : CanBit)
    → has_int p.head.var_type ≡ true
    → p.applyinfo ≡ none
    → HoldsTruth p.head.var_type p.head.cur_value
    → rejects p.head v ≡ false
    → v < 2 ^ 32
    → head.var_type ≡ p.head.var_type
    → head.cur_value ≡ (update_property_value strings p.head v).0.cur_value
    → property2json strings (record p { head = head })
      ≡ some (json_of p.head.var_type (input p.head v))
unfolding property2json entry2json property_value_int
property2json-update strings p v head plain alone holds ok small kind stored_value =
    let layout = update_property_value-layout strings p.head v in
    let reads = (property_value_int-update strings p.head v plain small holds ok).0 in
    let same_kind = ap (λ (q : CanBit). q.var_type) layout in
    rw alone (
      ap (value_object strings head) kind
      ∙ value_object-plain strings head p.head.var_type (input p.head v) plain (sym kind)
          (ground (arith, kind, stored_value, same_kind, reads)))

module _ (strings : Strings) (sends : CanFrame → Bool) (strtol : CString → ℤ) (name text : CString)
    (s : Process) (prop : PropertyRef) (info : CanidInfo) (p : Property) (wf : IsWellFormed s.dict)
    (found : get_property_dict name s.dict ≡ some prop)
    (known : get_canid_dict prop.canid s.dict ≡ some info)
    (there : get_elem? info.property prop.index ≡ some p) where
  pub get-set :
      Fits p.head
      → IsBytes info.canraw_frame.bytes
      → rejects p.head (to_u32 (strtol text)) ≡ false
      → is_negative s.socket.can_sendfd ≡ false
      → ((f : CanFrame) → sends f ≡ true)
      → has_int p.head.var_type ≡ true
      → p.applyinfo ≡ none
      → HoldsTruth p.head.var_type p.head.cur_value
      → (s' : Process) × (set strings sends strtol (some name) (some text) s ≡ some (s', success))
        × (get strings (some name) s'.dict
            ≡ some (value name (json_of p.head.var_type (input p.head (to_u32 (strtol text))))))
  unfolding get get_property_dict update_canid
  get-set fits whole ok open_socket takes plain alone holds =
      let v = to_u32 (strtol text) in
      let (bytes, info', accepted, field, valid) =
        set-after_set strings sends strtol name text s prop info p wf found known there fits whole
          ok open_socket takes in
      let head = (update_property_value strings p.head v).0 in
      let written : deref prop (stored strings prop p v bytes s.dict)
          ≡ some (record p { head = head }) =
        deref-update_canid prop.canid (with_value prop.index p head bytes) s.dict wf.canids_in_order
          prop info refl known
        ∙ get_elem?-set info.property prop.index (record p { head = head }) there in
      let answers =
        property2json-update strings p v head plain alone holds ok (to_u32-lt (strtol text))
          (ap (λ (q : CanBit). q.var_type) (update_property_value-layout strings p.head v)) refl in
      (
        after_set strings sends strtol name text s prop info p wf found known there bytes info',
        accepted,
        ground (arith, found, written, answers),
      )
