-- ===== src/CanSignalEvent/Parse/Each.antt =====
-- What a frame does to each property of its CAN-ID.
use agl_can_binder.Base.{
  ℕ, zero, suc, ◌≤◌, ◌≡◌, ◌≢◌, refl, ◌∙◌, inl, inr, some, List, [], ◌∷◌, get_elem?, if◌then◌else◌,
  arith, Option-cases,
}
use agl_can_binder.CanidInfo.Types.{Strings, Timeval, CanFrame, Property, CanidInfo, can_kind_send}
use agl_can_binder.CanidInfo.Endian.{canvalue2host}
use agl_can_binder.CanidSearch.Dict.{Dict, get_canid_dict, deref}
use agl_can_binder.CanidSearch.Dict.Deref.{deref_known}
use agl_can_binder.CanSignalEvent.Ivi.{Outcome, update_iviproperty}
use agl_can_binder.CanSignalEvent.Parse.{can_sff, parse_candata, parse_frame}
use agl_can_binder.CanSignalEvent.Parse.Laws.{parse_frame_received}
use agl_can_binder.CanSignalEvent.Parse.Total.{IsReadable, parse_candata_total}

module _ {E : Type 0} (notify : Property → E → E) (strings : Strings) where
  -- Every property of the one list is, in the other, what its own update makes of it.
  abbrev Updated : ℕ → ℕ → Timeval → List Property → List Property → Type 0
  Updated cycle v t l k =
      (i : ℕ) (p : Property)
      → get_elem? l i ≡ some p
      → (o : Outcome) × (update_iviproperty strings cycle v p t ≡ some o)
        × (get_elem? k i ≡ some o.property)

  Updated-cons :
      (cycle v : ℕ) (t : Timeval) (q : Property) (o : Outcome) (l k : List Property)
      → update_iviproperty strings cycle v q t ≡ some o
      → Updated cycle v t l k
      → Updated cycle v t (q ∷ l) (o.property ∷ k)
  Updated-cons cycle v t q o l k first rest zero p there =
      let same : p ≡ q = ground arith in (o, rw same first, refl)
  Updated-cons cycle v t q o l k first rest (suc i) p there = rest i p there

  parse_candata_each :
      (cycle v : ℕ) (t : Timeval) (l k : List Property) (e e' : E)
      → parse_candata notify strings cycle v t l e ≡ some (k, e')
      → Updated cycle v t l k
  unfolding parse_candata
  parse_candata_each cycle v t [] k e e' h = λ i p there. absurd (cc)
  parse_candata_each cycle v t (q ∷ rest) k e e' h =
      elim (Option-cases (update_iviproperty strings cycle v q t)) [
        | inl undefined ↦ absurd (ground arith)
        | inr (o, first) ↦
            let e1 = if o.notifies then notify o.property e else e in
            elim (Option-cases (parse_candata notify strings cycle v t rest e1)) [
              | inl undefined ↦ absurd (ground arith)
              | inr ((k', e2), later) ↦
                  let same : k ≡ o.property ∷ k' = ground arith in
                  rw same (
                    Updated-cons cycle v t q o rest k' first
                      (parse_candata_each cycle v t rest k' e1 e2 later))
            ]
      ]

  -- In readable dictionaries, a frame of eight bytes at most, of a CAN-ID that is not only sent, is
  -- parsed, and every property of the CAN-ID becomes what its own update makes of it.
  pub parse_frame_each :
      (frame : CanFrame) (t : Timeval) (d : Dict) (info : CanidInfo) (e : E)
      → IsReadable d
      → frame.can_dlc ≤ 8
      → get_canid_dict (can_sff frame.can_id) d ≡ some info
      → info.kind ≢ can_kind_send
      → (d' : Dict) × (e' : E) × (parse_frame notify strings frame t d e ≡ some (0, d', e'))
        × ((i : ℕ) (p : Property)
            → get_elem? info.property i ≡ some p
            → (o : Outcome) × (update_iviproperty strings info.cycle (canvalue2host frame.bytes) p t
                ≡ some o)
              × (deref (record { canid = can_sff frame.can_id; index = i }) d' ≡ some o.property))
  parse_frame_each frame t d info e readable short known receives =
      let v = canvalue2host frame.bytes in
      let (k, e', parsed, fine) =
        parse_candata_total notify strings info.cycle v t info.property e
          (readable.defined (can_sff frame.can_id) info known) in
      let (d', whole, stored) =
        parse_frame_received notify strings frame t d info
          readable.sound.well_formed.canids_in_order short known e e' k receives parsed in
      (
        d',
        e',
        whole,
        λ i p there.
            let (o, updated, put) =
              parse_candata_each info.cycle v t info.property k e e' parsed i p there in
            (
              o,
              updated,
              deref_known (record { canid = can_sff frame.can_id; index = i }) d' _ stored.0 ∙ put,
            ),
      )
