-- ===== src/CanSignalEvent/Parse/Laws.antt =====
-- A received frame and the dictionaries: what is refused, what is stored, what stays.
use mathlib.Core.Option
use agl_can_binder.Base.{
  ℕ, ◌+◌, ◌≤◌, ◌<◌, ◌≡◌, refl, ◌∙◌, ◌≢◌, ◌⊎◌, inl, inr, none, some, List, [], ◌∷◌, length, arith,
  ◌==◌, if◌then◌else◌, Option-cases,
}
use agl_can_binder.CanidInfo.Types.{Strings, Timeval, CanFrame, Property, CanidInfo, can_kind_send}
use agl_can_binder.CanidInfo.Endian.{canvalue2host}
use agl_can_binder.CanidSearch.Tree.Laws.{compare-IsOrder, IsSorted, tfind-modify, modify-IsSorted}
use agl_can_binder.CanidSearch.Dict.{Dict, get_canid_dict, update_canid}
use agl_can_binder.SocketcanRaw.{Received, Reading, received, timed_out, failed, socketcan_read}
use agl_can_binder.CanSignalEvent.Parse.{
  can_sff, parse_candata, parse_known, parse_frame, can_signal_read, read_loop,
}

-- A write through a pointer of the dictionary is seen at its CAN-ID, and at no other.
pub get_canid_dict-update_canid :
    (c k : ℕ) (f : CanidInfo → CanidInfo) (d : Dict)
    → IsSorted compare-IsOrder d.canid_root
    → get_canid_dict c (update_canid k f d)
      ≡ (if c == k then Option.map f (get_canid_dict c d) else get_canid_dict c d)
unfolding get_canid_dict update_canid
get_canid_dict-update_canid c k f d s = tfind-modify compare-IsOrder k c f d.canid_root s

pub Reading-cases :
    (r : Reading)
    → ((frame : CanFrame) × (t : Timeval) × (r ≡ received frame t))
      ⊎ ((r ≡ timed_out) ⊎ (r ≡ failed))
Reading-cases (received frame t) = inl (frame, t, refl)
Reading-cases timed_out = inr (inl refl)
Reading-cases failed = inr (inr refl)

module _ {ℓ} {E : Type ℓ} (notify : Property → E → E) (strings : Strings) where
  -- The loop reads six frames at most.
  read_loop-bound :
      (n : ℕ) (tm : Timeval) (readings rest : List Received) (d d' : Dict) (e e' : E)
      → n ≤ 5
      → read_loop notify strings n tm readings d e ≡ some (rest, d', e')
      → length readings + n ≤ length rest + 6
  unfolding read_loop
  read_loop-bound n tm [] rest d d' e e' b h = ground arith
  read_loop-bound n tm (r ∷ later) rest d d' e e' b h = elim (Reading-cases (socketcan_read r tm)) [
    | inl (frame, t, got) ↦ elim (Option-cases (parse_frame notify strings frame t d e)) [
      | inl undefined ↦ absurd (ground arith)
      | inr ((status, d1, e1), ok) ↦
          ground (arith, read_loop-bound (n + 1) t later rest d1 d' e1 e')
    ]
    | inr stopped ↦ ground arith
  ]

  -- One call takes at most six frames from the socket, however many are waiting.
  pub can_signal_read-bound :
      (tm : Timeval) (readings rest : List Received) (d d' : Dict) (e e' : E)
      → can_signal_read notify strings tm readings d e ≡ some (rest, d', e')
      → length readings ≤ length rest + 6
  unfolding can_signal_read
  can_signal_read-bound tm readings rest d d' e e' h =
      omega (arith, read_loop-bound 0 tm readings rest d d' e e' (omega arith) h)

  -- A frame that is too long, or of a CAN-ID that is not known, is refused and changes nothing.
  pub parse_frame_refused :
      (frame : CanFrame) (t : Timeval) (d : Dict) (e : E)
      → (8 < frame.can_dlc) ⊎ (get_canid_dict (can_sff frame.can_id) d ≡ none)
      → parse_frame notify strings frame t d e ≡ some (1, d, e)
  unfolding parse_frame
  parse_frame_refused frame t d e h = ground arith

  module _ (frame : CanFrame) (t : Timeval) (d : Dict) (info : CanidInfo)
      (sorted : IsSorted compare-IsOrder d.canid_root) (short : frame.can_dlc ≤ 8)
      (known : get_canid_dict (can_sff frame.can_id) d ≡ some info) where
    abbrev key : ℕ
    key = can_sff frame.can_id

    -- The dictionary with the frame and the array stored.
    abbrev Stored : List Property → Dict → Type 0
    Stored l d' =
        (get_canid_dict key d' ≡ some (record info { canraw_frame = frame; property = l }))
        × ((c : ℕ) → c ≢ key → get_canid_dict c d' ≡ get_canid_dict c d)

    kept : Dict
    kept = update_canid key (λ i. record i { canraw_frame = frame }) d

    get-kept :
        (c : ℕ)
        → get_canid_dict c kept ≡ (
            if c == key
            then Option.map
                (λ (i : CanidInfo). record i { canraw_frame = frame })
                (get_canid_dict c d)
            else get_canid_dict c d)
    unfolding kept
    get-kept c = get_canid_dict-update_canid c key _ d sorted

    kept-IsSorted : IsSorted compare-IsOrder kept.canid_root
    unfolding kept update_canid
    kept-IsSorted = modify-IsSorted compare-IsOrder key _ d.canid_root sorted

    parse_frame-parse_known :
        (e : E)
        → parse_frame notify strings frame t d e ≡ parse_known notify strings key frame t info d e
    unfolding parse_frame
    parse_frame-parse_known e = rw known (ground arith)

    -- With the CAN-IDs in order, a frame of eight bytes at most, of a CAN-ID of the dictionary that
    -- this service sends, is stored; no property and no other CAN-ID changes, and nobody is
    -- notified.
    pub parse_frame_send_only :
        (e : E)
        → info.kind ≡ can_kind_send
        → (d' : Dict) × (parse_frame notify strings frame t d e ≡ some (0, d', e))
          × Stored info.property d'
    unfolding parse_known kept
    parse_frame_send_only e kind = (
      kept,
      parse_frame-parse_known e ∙ ground arith,
      (ground (arith, get-kept key, known), λ c other. ground (arith, get-kept c)),
    )

    -- With the CAN-IDs in order, a frame of eight bytes at most, of a CAN-ID of the dictionary that
    -- is not only sent, is stored with what `parse_candata` makes of its properties, where that is
    -- defined; every other CAN-ID stays.
    pub parse_frame_received :
        (e e' : E) (l : List Property)
        → info.kind ≢ can_kind_send
        → parse_candata notify strings info.cycle (canvalue2host frame.bytes) t info.property e
          ≡ some (l, e')
        → (d' : Dict) × (parse_frame notify strings frame t d e ≡ some (0, d', e')) × Stored l d'
    unfolding parse_known kept
    parse_frame_received e e' l kind parsed =
        let set : CanidInfo → CanidInfo = λ i. record i { property = l } in
        let found = λ (c : ℕ). get_canid_dict-update_canid c key set kept kept-IsSorted in
        (
          update_canid key set kept,
          parse_frame-parse_known e ∙ ground (arith, parsed),
          (
            ground (arith, found key, get-kept key, known),
            λ c other. ground (arith, found c, get-kept c),
          ),
        )
