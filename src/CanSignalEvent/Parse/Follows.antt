-- ===== src/CanSignalEvent/Parse/Follows.antt =====
-- What a frame, and a reading of the socket, do to the state of the notification, from what one
-- notification does; the names and the soundness of the dictionaries.
use agl_can_binder.Base.{
  refl, All, true, ℕ, ◌+◌, ◌≡◌, ◌∙◌, inl, inr, some, List, [], ◌∷◌, arith, ltb, if◌then◌else◌,
  Option-cases, Bool-cases,
}
use agl_can_binder.CanidInfo.Types.{Strings, Timeval, CanFrame, Property, CanidInfo}
use agl_can_binder.CanidInfo.Endian.{canvalue2host}
use agl_can_binder.CanidSearch.Dict.{Dict, update_canid}
use agl_can_binder.SocketcanRaw.{Received, socketcan_read}
use agl_can_binder.CanSignalEvent.Ivi.{Outcome, update_iviproperty}
use agl_can_binder.CanSignalEvent.Parse.{
  can_sff, parse_candata, parse_frame, read_loop, can_signal_read,
}
use agl_can_binder.CanSignalEvent.Parse.Cases.{stored, parse_frame_cases}
use agl_can_binder.CanSignalEvent.Parse.Added.{update_canid-Every}
use agl_can_binder.CanSignalEvent.Parse.Total.{update_canid-IsSorted}
use agl_can_binder.CanidSearch.Dict.Every.{Every}
use agl_can_binder.CanidSearch.Tree.Laws.{IsSorted, compare-IsOrder}
use agl_can_binder.CanSignalEvent.Parse.Laws.{Reading-cases}
use agl_can_binder.CanSignalEvent.Parse.Sound.{IsSound, parse_frame-IsSound}

-- Any property.
abbrev pub Anything : Property → Type 0
Anything p = Unit {0}

All-Anything : (l : List Property) → All Anything l
All-Anything [] = tt
All-Anything (p ∷ l) = (tt, All-Anything l)

pub Every-Anything : (d : Dict) → Every Anything d
Every-Anything d c info there = All-Anything info.property

-- A relation that a notification, and any sequence of them, respects; for the properties in Q, which
-- frames make of the properties in K.
pub record IsRelated {E : Type 0} (notify : Property → E → E) (strings : Strings)
    (K Q : Property → Type 0) (R : E → E → Type 0) : Type 0 where
  pub none_made : (e : E) → R e e
  pub one_more : (e e' e'' : E) → R e e' → R e' e'' → R e e''
  pub made : (p : Property) (e : E) → Q p → R e (notify p e)
  pub grows :
      (p : Property) (cycle v : ℕ) (t : Timeval) (o : Outcome)
      → K p
      → update_iviproperty strings cycle v p t ≡ some o
      → K o.property
  pub tells :
      (p : Property) (cycle v : ℕ) (t : Timeval) (o : Outcome)
      → K p
      → update_iviproperty strings cycle v p t ≡ some o
      → o.notifies ≡ true
      → Q o.property

module _ {E : Type 0} (notify : Property → E → E) (strings : Strings) (K Q : Property → Type 0)
    (R : E → E → Type 0) (rel : IsRelated notify strings K Q R) where
  parse_candata-related :
      (cycle v : ℕ) (t : Timeval) (l k : List Property) (e e' : E)
      → All K l
      → parse_candata notify strings cycle v t l e ≡ some (k, e')
      → R e e' × All K k
  unfolding parse_candata
  parse_candata-related cycle v t [] k e e' all h =
      let same : e' ≡ e = ground arith in
      let none_left : k ≡ [] = ground arith in (rw same (rel.none_made e), rw none_left tt)
  parse_candata-related cycle v t (p ∷ rest) k e e' all h =
      elim (Option-cases (update_iviproperty strings cycle v p t)) [
        | inl undefined ↦ absurd (ground arith)
        | inr (o, first) ↦
            let e1 = if o.notifies then notify o.property e else e in
            let told : R e e1 = elim (Bool-cases o.notifies) [
              | inl tells ↦
                  rw tells (rel.made o.property e (rel.tells p cycle v t o all.0 first tells))
              | inr silent ↦ rw silent (rel.none_made e)
            ] in
            elim (Option-cases (parse_candata notify strings cycle v t rest e1)) [
              | inl undefined ↦ absurd (ground arith)
              | inr ((k', e2), later) ↦
                  let same : e' ≡ e2 = ground arith in
                  let kept : k ≡ o.property ∷ k' = ground arith in
                  let (related, all') = parse_candata-related cycle v t rest k' e1 e2 all.1 later in
                  (
                    rw same (rel.one_more e e1 e2 told related),
                    rw kept (rel.grows p cycle v t o all.0 first, all'),
                  )
            ]
      ]

  -- The names are those from before, the properties are in K again, and the state of the notification
  -- is related.
  abbrev pub Follows : Dict → Dict → E → E → Type 0
  Follows d d' e e' = (d'.property_root ≡ d.property_root) × R e e' × Every K d'

  pub parse_frame-Follows :
      (frame : CanFrame) (t : Timeval) (status : ℕ) (d d' : Dict) (e e' : E)
      → IsSorted compare-IsOrder d.canid_root
      → Every K d
      → parse_frame notify strings frame t d e ≡ some (status, d', e')
      → Follows d d' e e'
  unfolding update_canid
  parse_frame-Follows frame t status d d' e e' sorted every h =
      let key = can_sff frame.can_id in
      let keep : CanidInfo → CanidInfo = λ i. record i { canraw_frame = frame } in
      let kept : Every K (stored frame d) =
        update_canid-Every K key keep d sorted every (every key) in
      elim (parse_frame_cases notify strings frame t d d' e e' status h) [
        | inl (dict, told) ↦ rw (dict, told) (refl, rel.none_made e, every)
        | inr (info, known, inl (dict, told)) ↦ rw (dict, told) (refl, rel.none_made e, kept)
        | inr (info, known, inr (k, parsed, dict)) ↦
            let (related, all) =
              parse_candata-related info.cycle (canvalue2host frame.bytes) t info.property k e e'
                (every key info known) parsed in
            rw dict (
              refl,
              related,
              update_canid-Every K key (λ i. record i { property = k }) (stored frame d)
                  (update_canid-IsSorted key keep d sorted) kept (λ i there. all),
            )
      ]

  read_loop-Follows :
      (n : ℕ) (tm : Timeval) (readings left : List Received) (d d' : Dict) (e e' : E)
      → IsSound d
      → Every K d
      → read_loop notify strings n tm readings d e ≡ some (left, d', e')
      → IsSound d' × Follows d d' e e'
  unfolding read_loop
  read_loop-Follows n tm [] left d d' e e' s every h =
      let dict : d' ≡ d = ground arith in
      let told : e' ≡ e = ground arith in rw (dict, told) (s, (refl, rel.none_made e, every))
  read_loop-Follows n tm (r ∷ later) left d d' e e' s every h =
      elim (Reading-cases (socketcan_read r tm)) [
        | inr stopped ↦
            let dict : d' ≡ d = ground arith in
            let told : e' ≡ e = ground arith in rw (dict, told) (s, (refl, rel.none_made e, every))
        | inl (frame, t, got) ↦ elim (Option-cases (parse_frame notify strings frame t d e)) [
          | inl undefined ↦ absurd (ground arith)
          | inr ((status, d1, e1), ok) ↦
              let sound = parse_frame-IsSound notify strings frame t d s status d1 e e1 ok in
              let (names, told, every1) =
                parse_frame-Follows frame t status d d1 e e1 s.well_formed.canids_in_order every
                  ok in
              elim (Bool-cases (ltb 5 (n + 1))) [
                | inl stop ↦
                    let dict : d' ≡ d1 = ground arith in
                    let same : e' ≡ e1 = ground arith in
                    rw (dict, same) (sound, (names, told, every1))
                | inr go ↦
                    let again : read_loop notify strings (n + 1) t later d1 e1
                        ≡ some (left, d', e') =
                      ground arith in
                    let (sound', (names', told', every')) =
                      read_loop-Follows (n + 1) t later left d1 d' e1 e' sound every1 again in
                    (sound', (names' ∙ names, rel.one_more e e1 e' told told', every'))
              ]
        ]
      ]

  -- A reading keeps sound dictionaries sound and the names as they are, and does to the clients what
  -- a sequence of notifications does.
  pub can_signal_read-Follows :
      (tm : Timeval) (readings left : List Received) (d d' : Dict) (e e' : E)
      → IsSound d
      → Every K d
      → can_signal_read notify strings tm readings d e ≡ some (left, d', e')
      → IsSound d' × Follows d d' e e'
  unfolding can_signal_read
  can_signal_read-Follows tm readings left d d' e e' s every h =
      read_loop-Follows 0 tm readings left d d' e e' s every h
