-- ===== src/CanSignalEvent/Parse/Total.antt =====
-- A reading of the socket always returns where no layout asks for a shift that is too long.
use agl_can_binder.Base.{
  ℕ, ◌+◌, ◌≡◌, refl, inl, inr, some, List, [], ◌∷◌, All, arith, ltb, ◌==◌, if◌then◌else◌,
  Option-cases, Bool-cases,
}
use agl_can_binder.CanidInfo.Types.{Strings, Timeval, CanFrame, Property, CanidInfo, can_kind_send}
use agl_can_binder.CanidInfo.Endian.{canvalue2host}
use agl_can_binder.CanidSearch.Tree.Laws.{IsSorted, compare-IsOrder, modify-IsSorted}
use agl_can_binder.CanidSearch.Dict.{Dict, get_canid_dict, update_canid}
use agl_can_binder.CanidSearch.Dict.Every.{Every}
use agl_can_binder.SocketcanRaw.{Received, socketcan_read}
use agl_can_binder.CanSignalEvent.Ivi.Total.{PropertyDefined, update_iviproperty_total}
use agl_can_binder.CanSignalEvent.Parse.{
  can_sff, parse_candata, parse_known, parse_frame, read_loop, can_signal_read,
}
use agl_can_binder.CanSignalEvent.Parse.Added.{update_canid-Every}
use agl_can_binder.CanSignalEvent.Parse.Laws.{Reading-cases}
use agl_can_binder.CanSignalEvent.Parse.Sound.{IsSound, parse_frame-IsSound}

-- Sound dictionaries without a layout whose shift is too long.
pub record IsReadable (d : Dict) : Type 0 where
  pub sound : IsSound d
  pub defined : Every PropertyDefined d

pub update_canid-IsSorted :
    (k : ℕ) (f : CanidInfo → CanidInfo) (d : Dict)
    → IsSorted compare-IsOrder d.canid_root
    → IsSorted compare-IsOrder (update_canid k f d).canid_root
unfolding update_canid
update_canid-IsSorted k f d sorted = modify-IsSorted compare-IsOrder k f d.canid_root sorted

module _ {E : Type 0} (notify : Property → E → E) (strings : Strings) where
  pub parse_candata_total :
      (cycle v : ℕ) (t : Timeval) (l : List Property) (e : E)
      → All PropertyDefined l
      → (k : List Property) × (e' : E) × (parse_candata notify strings cycle v t l e ≡ some (k, e'))
        × All PropertyDefined k
  unfolding parse_candata
  parse_candata_total cycle v t [] e h = ([], e, refl, tt)
  parse_candata_total cycle v t (p ∷ rest) e h =
      let (o, first, good) = update_iviproperty_total strings cycle v p t h.0 in
      let (k, e', later, fine) =
        parse_candata_total cycle v t rest (if o.notifies then notify o.property e else e) h.1 in
      (o.property ∷ k, e', rw first (rw later refl), (good, fine))

  parse_frame_total :
      (frame : CanFrame) (t : Timeval) (d : Dict) (e : E)
      → IsReadable d
      → (status : ℕ) × (d' : Dict) × (e' : E) × (parse_frame notify strings frame t d e
          ≡ some (status, d', e'))
        × Every PropertyDefined d'
  unfolding parse_frame parse_known
  parse_frame_total frame t d e h = elim (Bool-cases (ltb 8 frame.can_dlc)) [
    | inl long ↦ (1, d, e, ground (arith, long), h.defined)
    | inr short ↦ elim (Option-cases (get_canid_dict (can_sff frame.can_id) d)) [
      | inl unknown ↦ (1, d, e, ground (arith, short, unknown), h.defined)
      | inr (info, known) ↦
          let key = can_sff frame.can_id in
          let f = λ (i : CanidInfo). record i { canraw_frame = frame } in
          let sorted = h.sound.well_formed.canids_in_order in
          let kept = update_canid-Every PropertyDefined key f d sorted h.defined (h.defined key) in
          elim (Bool-cases (info.kind == can_kind_send)) [
            | inl send ↦ (0, update_canid key f d, e, ground (arith, short, known, send), kept)
            | inr receive ↦
                let (k, e', parsed, good) =
                  parse_candata_total info.cycle (canvalue2host frame.bytes) t info.property e
                    (h.defined key info known) in
                let g = λ (i : CanidInfo). record i { property = k } in
                (
                  0,
                  update_canid key g (update_canid key f d),
                  e',
                  ground (arith, short, known, receive, parsed),
                  update_canid-Every PropertyDefined key g (update_canid key f d)
                      (update_canid-IsSorted key f d sorted) kept (λ i there. good),
                )
          ]
    ]
  ]

  abbrev Reads : ℕ → Timeval → List Received → Dict → E → Type 0
  Reads n tm readings d e =
      (left : List Received) × (d' : Dict) × (e' : E) × (read_loop notify strings n tm readings d e
        ≡ some (left, d', e'))
      × IsReadable d'

  read_loop_total :
      (n : ℕ) (tm : Timeval) (readings : List Received) (d : Dict) (e : E)
      → IsReadable d
      → Reads n tm readings d e
  unfolding read_loop
  read_loop_total n tm [] d e h = ([], d, e, refl, h)
  read_loop_total n tm (r ∷ later) d e h = elim (Reading-cases (socketcan_read r tm)) [
    | inr stopped ↦ (later, d, e, ground (arith, stopped), h)
    | inl (frame, t, got) ↦
        let (status, d1, e1, parsed, good) = parse_frame_total frame t d e h in
        let h1 : IsReadable d1 = record {
          sound = parse_frame-IsSound notify strings frame t d h.sound status d1 e e1 parsed;
          defined = good;
        } in
        elim (Bool-cases (ltb 5 (n + 1))) [
          | inl stop ↦ (later, d1, e1, ground (arith, got, parsed, stop), h1)
          | inr go ↦
              let (left, d2, e2, rest, h2) = read_loop_total (n + 1) t later d1 e1 h1 in
              (left, d2, e2, ground (arith, got, parsed, go, rest), h2)
        ]
  ]

  -- With sound dictionaries, in which no layout asks for a shift by 64 bits or more, a reading of the
  -- socket returns, whatever it delivers and whatever the clients do, and leaves dictionaries for
  -- which that is so again.
  pub can_signal_read_total :
      (tm : Timeval) (readings : List Received) (d : Dict) (e : E)
      → IsReadable d
      → (left : List Received) × (d' : Dict) × (e' : E) × (can_signal_read notify strings tm
            readings d e
          ≡ some (left, d', e'))
        × IsReadable d'
  unfolding can_signal_read
  can_signal_read_total tm readings d e h = read_loop_total 0 tm readings d e h
