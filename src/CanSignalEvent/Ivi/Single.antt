-- ===== src/CanSignalEvent/Ivi/Single.antt =====
-- `update_iviproperty` on a property with one entry: the thin-out rule.
use mathlib.Core.Option
use mathlib.Core.Option.{some-injective}
use agl_can_binder.Base.{
  ℕ, ◌/◌, ◌%◌, ◌^◌, ◌<◌, ◌≡◌, ap, ◌∙◌, Bool, true, false, ◌||◌, some, [], leb, if◌then◌else◌, arith,
}
use agl_can_binder.CanidInfo.Types.{UpdateStat, upstat_updated, Strings, Timeval, CanBit, Property}
use agl_can_binder.CanidInfo.Frame.{bit_shift}
use agl_can_binder.CanidInfo.Frame.Laws.{Fits}
use agl_can_binder.CanidInfo.Frame.RoundTrip.{canframe2property_lem}
use agl_can_binder.CanidInfo.Update.{update_property_value}
use agl_can_binder.CanidInfo.Update.Laws.{
  rejects, HoldsTruth, update_property_value-error, update_property_value-rejected,
  update_property_value-layout, update_property_value-time,
}
use agl_can_binder.CanidInfo.Update.Quiet.{quirk, repeated, update_property_value_again}
use agl_can_binder.CanSignalEvent.Elapsed.{elaps_ms}
use agl_can_binder.CanSignalEvent.Ivi.{stamp, Outcome, update_iviproperty}

-- The field of an entry in a 64-bit value.
abbrev pub field_of : ℕ → CanBit → ℕ
field_of v p = v / 2 ^ bit_shift p % 2 ^ p.bit_len

abbrev pub is_updated : UpdateStat → Bool
is_updated upstat_updated = true
is_updated _ = false

-- Clients are told of a change, and of an unchanged value once the cycle has run out.
abbrev pub due : ℕ → ℕ → UpdateStat → Bool
due cycle elaps status = is_updated status || leb cycle elaps

-- The outcome of an accepted value in a property with one entry.
abbrev pub thinned : ℕ → Timeval → Property → CanBit × UpdateStat → Outcome
thinned cycle t p (u, status) =
    let now = due cycle (elaps_ms p.head.updatetime t) status in
    record {
      property = record p { head = if now then stamp t u else u };
      notifies = now;
      status = 0;
    }

module _ (strings : Strings) (cycle v : ℕ) (t : Timeval) where
  -- For a property with one entry whose field fits the frame, an accepted value is stored as an
  -- update of the value stores it; clients are told, and the time is kept, by the rule `due`.
  pub update_iviproperty_single :
      (p : Property)
      → p.next ≡ []
      → Fits p.head
      → rejects p.head (field_of v p.head) ≡ false
      → update_iviproperty strings cycle v p t
        ≡ some (thinned cycle t p (update_property_value strings p.head (field_of v p.head)))
  unfolding update_iviproperty
  update_iviproperty_single p h fits ok =
      let e = update_property_value-error strings p.head (field_of v p.head) in
      rw h (rw (canframe2property_lem strings v p.head fits) (ground (arith, e)))

  -- For a property with one entry whose field fits the frame, a refused value changes nothing,
  -- tells nobody, and the status is 1.
  pub update_iviproperty_rejected :
      (p : Property)
      → p.next ≡ []
      → Fits p.head
      → rejects p.head (field_of v p.head) ≡ true
      → update_iviproperty strings cycle v p t
        ≡ some (record { property = p; notifies = false; status = 1 })
  unfolding update_iviproperty
  update_iviproperty_rejected p h fits bad =
      let e = update_property_value-rejected strings p.head (field_of v p.head) bad in
      rw h (rw (canframe2property_lem strings v p.head fits) (ground (arith, e, h)))

  -- The entry as the first of two equal frames leaves it, stamped or not.
  after_first : CanBit → Bool → CanBit
  after_first p now =
      let u = (update_property_value strings p (field_of v p)).0 in if now then stamp t u else u

  after_first-layout :
      (p : CanBit) (now : Bool)
      → (bit_shift (after_first p now) ≡ bit_shift p)
        × ((after_first p now).bit_len ≡ p.bit_len)
        × (rejects (after_first p now) ≡ rejects p)
  unfolding after_first bit_shift
  after_first-layout p true =
      let same = update_property_value-layout strings p (field_of v p) in
      (
        ap (λ (r : CanBit). bit_shift r) same,
        ap (λ (r : CanBit). r.bit_len) same,
        ap (λ (r : CanBit). rejects r) same,
      )
  after_first-layout p false =
      let same = update_property_value-layout strings p (field_of v p) in
      (
        ap (λ (r : CanBit). bit_shift r) same,
        ap (λ (r : CanBit). r.bit_len) same,
        ap (λ (r : CanBit). rejects r) same,
      )

  after_first-status :
      (p : CanBit) (now : Bool)
      → HoldsTruth p.var_type p.cur_value
      → rejects p (field_of v p) ≡ false
      → (update_property_value strings (after_first p now) (field_of v p)).1
        ≡ repeated (quirk p (field_of v p))
  unfolding after_first
  after_first-status p true truth ok =
      rw update_property_value-time (update_property_value_again strings p (field_of v p) truth ok)
  after_first-status p false truth ok =
      update_property_value_again strings p (field_of v p) truth ok

module _ (strings : Strings) (cycle v v' : ℕ) (t t' : Timeval) (p : Property) where
  abbrev first_due : Bool
  first_due =
      due cycle (elaps_ms p.head.updatetime t)
        (update_property_value strings p.head (field_of v p.head)).1

  -- The entry after the first frame.
  abbrev second : CanBit
  second = after_first strings cycle v t p.head first_due

  module _ (h : p.next ≡ []) (fits : Fits p.head)
      (alike : field_of v' p.head ≡ field_of v p.head) where
    second-field : field_of v' second ≡ field_of v p.head
    second-field =
        let l = after_first-layout strings cycle v t p.head first_due in rw (l.0, l.1) alike

    second-Fits : Fits second
    second-Fits = ground (arith, after_first-layout strings cycle v t p.head first_due)

    second-accepted :
        rejects p.head (field_of v p.head) ≡ false → rejects second (field_of v' second) ≡ false
    second-accepted ok = rw second-field (
        ap (λ f. f (field_of v p.head)) (after_first-layout strings cycle v t p.head first_due).2
        ∙ ok)

    second-notifies :
        HoldsTruth p.head.var_type p.head.cur_value
        → rejects p.head (field_of v p.head) ≡ false
        → elaps_ms second.updatetime t' < cycle
        → Option.map
            (λ (r : Outcome). r.notifies)
            (update_iviproperty strings cycle v' (record p { head = second }) t')
          ≡ some (quirk p.head (field_of v p.head))
    second-notifies truth ok early =
        rw
          (update_iviproperty_single strings cycle v' t' (record p { head = second }) h second-Fits
            (second-accepted ok))
          (rw (second-field, after_first-status strings cycle v t p.head first_due truth ok)
            (ground arith))

  -- For a property with one entry whose field fits the frame, and a bool that holds 0 or 1, a frame
  -- that repeats an accepted field of the one before it, whatever else it holds, within the cycle, is
  -- not passed on, but at the inputs of `quirk` it always is.
  pub update_iviproperty_again :
      (o : Outcome)
      → p.next ≡ []
      → Fits p.head
      → HoldsTruth p.head.var_type p.head.cur_value
      → rejects p.head (field_of v p.head) ≡ false
      → field_of v' p.head ≡ field_of v p.head
      → update_iviproperty strings cycle v p t ≡ some o
      → elaps_ms o.property.head.updatetime t' < cycle
      → Option.map (λ (r : Outcome). r.notifies) (update_iviproperty strings cycle v' o.property t')
        ≡ some (quirk p.head (field_of v p.head))
  unfolding after_first
  update_iviproperty_again o h fits truth ok alike first early =
      let u = update_property_value strings p.head (field_of v p.head) in
      let o_eq : o ≡ thinned cycle t p u =
        cc (first, update_iviproperty_single strings cycle v t p h fits ok) in
      rw o_eq (second-notifies h fits alike truth ok (rw o_eq at early))
