-- ===== src/CanSignalEvent/Ivi/Total.antt =====
-- `update_iviproperty` is defined where no layout in the list asks for a shift that is too long.
use agl_can_binder.Base.{
  ℕ, zero, suc, ◌-◌, ◌/◌, ◌^◌, not, ◌&&◌, if◌then◌else◌, ◌≤◌, ◌<◌, ◌≡◌, refl, Bool, true, false,
  Option, none, some, List, [], ◌∷◌, All, map, arith, leb, bit_and, Option-cases, Bool-cases, inl,
  inr, u32,
}
use agl_can_binder.CanidInfo.Types.{
  UpdateStat, upstat_error, upstat_no_updated, upstat_updated, Strings, Timeval, CanBit, Property,
}
use agl_can_binder.CanidInfo.Frame.{bit_shift, shift_right, extract_field, canframe2property}
use agl_can_binder.CanidInfo.Frame.Laws.{can_mask64_lem}
use agl_can_binder.CanidInfo.Update.{update_property_value}
use agl_can_binder.CanidInfo.Update.Laws.{update_property_value-layout}
use agl_can_binder.CanSignalEvent.Ivi.{
  chain, with_chain, reset, stamp, behind, stamp_at, Scan, Arrival, scan, settle, conclude, Outcome,
  update_iviproperty, arrival, start, value_at,
}

-- No shift of 64 bits or more.
abbrev pub IsDefined : CanBit → Type 0
IsDefined p = (p.bit_len ≤ 32) × (bit_shift p < 64)

-- So for every entry of a property.
abbrev pub PropertyDefined : Property → Type 0
PropertyDefined p = All IsDefined (chain p)

extract_field_total : (v : ℕ) (p : CanBit) → IsDefined p → (x : ℕ) × (extract_field v p ≡ some x)
unfolding extract_field shift_right
extract_field_total v p h =
    let x = bit_and (v / 2 ^ bit_shift p) (2 ^ p.bit_len - 1) in
    (x, rw (can_mask64_lem p h.0) (ground arith))

pub canframe2property-IsDefined :
    (mem : Strings) (v : ℕ) (p : CanBit)
    → IsDefined p
    → (q : CanBit) × (r : UpdateStat) × (canframe2property mem v p ≡ some (q, r)) × IsDefined q
unfolding canframe2property bit_shift
canframe2property-IsDefined mem v p h =
    let (x, there) = extract_field_total v p h in
    let u = update_property_value mem p (u32 x) in
    let layout = update_property_value-layout mem p (u32 x) in
    (u.0, u.1, ground (arith, there), rw layout h)

stamped-IsDefined :
    (b : Bool) (t : Timeval) (q : CanBit) → IsDefined q → IsDefined (if b then q else stamp t q)
unfolding bit_shift
stamped-IsDefined true t q h = h
stamped-IsDefined false t q h = h

-- The loop returns, with entries that are defined.
abbrev Scans : Arrival → ℕ → Option ℕ → ℕ → List CanBit → Type 0
Scans a i mark n l = (s : Scan) × (scan a i mark n l ≡ some s) × All IsDefined s.entries

-- One round, with the rounds after it.
scan-round :
    (a : Arrival) (i : ℕ) (mark : Option ℕ) (n : ℕ) (p : CanBit) (rest : List CanBit) (q : CanBit)
    (r : UpdateStat)
    → canframe2property a.strings a.value p ≡ some (q, r)
    → IsDefined q
    → All IsDefined rest
    → ((mark' : Option ℕ) (n' : ℕ) → Scans a (suc i) mark' n' rest)
    → Scans a i mark n (p ∷ rest)
unfolding scan
scan-round a i mark n p rest q upstat_error there good h rounds = (
  record { entries = q ∷ rest; mark = mark; update = n; failed = true },
  rw there refl,
  (good, h),
)
scan-round a i mark n p rest q upstat_updated there good h rounds =
    let (s, later, fine) = rounds (some i) (suc n) in
    (
      behind (if a.is_multi then q else stamp a.timestamp q) s,
      rw (there, later) refl,
      (stamped-IsDefined a.is_multi a.timestamp q good, fine),
    )
scan-round a i mark n p rest q upstat_no_updated there good h rounds =
    let (s, later, fine) = rounds mark (suc n) in
    let (s', later', fine') = rounds mark n in
    elim (Bool-cases (not a.is_multi && leb a.cycle a.elaps)) [
      | inl e ↦ (
        behind (stamp a.timestamp q) s,
        ground (arith, there, e, later),
        (stamped-IsDefined false a.timestamp q good, fine),
      )
      | inr e ↦ (behind q s', ground (arith, there, e, later'), (good, fine'))
    ]

scan_total :
    (a : Arrival) (i : ℕ) (mark : Option ℕ) (n : ℕ) (l : List CanBit)
    → All IsDefined l
    → Scans a i mark n l
unfolding scan
scan_total a i mark n [] h =
    (record { entries = []; mark = mark; update = n; failed = false }, refl, tt)
scan_total a i mark n (p ∷ rest) h =
    let (q, r, there, good) = canframe2property-IsDefined a.strings a.value p h.0 in
    scan-round a i mark n p rest q r there good h.1
      λ mark' n'. scan_total a (suc i) mark' n' rest h.1

reset-IsDefined : (l : List CanBit) → All IsDefined l → All IsDefined (map reset l)
unfolding bit_shift
reset-IsDefined [] h = tt
reset-IsDefined (p ∷ l) h = (h.0, reset-IsDefined l h.1)

stamp_at-IsDefined :
    (i : ℕ) (t : Timeval) (l : List CanBit) → All IsDefined l → All IsDefined (stamp_at i t l)
unfolding stamp_at bit_shift
stamp_at-IsDefined i t [] h = tt
stamp_at-IsDefined zero t (p ∷ l) h = (h.0, h.1)
stamp_at-IsDefined (suc i) t (p ∷ l) h = (h.0, stamp_at-IsDefined i t l h.1)

with_chain-PropertyDefined :
    (p : Property) (l : List CanBit)
    → PropertyDefined p
    → All IsDefined l
    → PropertyDefined (with_chain p l)
with_chain-PropertyDefined p [] h w = h
with_chain-PropertyDefined p (q ∷ l) h w = w

settle-PropertyDefined :
    (a : Arrival) (p : Property) (pre : ℕ) (s : Scan)
    → PropertyDefined p
    → All IsDefined s.entries
    → PropertyDefined (settle a p pre s).0
unfolding settle
settle-PropertyDefined a p pre s h w =
    let t = a.timestamp in
    let once = stamp_at-IsDefined 0 t s.entries w in
    elim (Option-cases s.mark) [
      | inl unmarked ↦ ground (
        arith,
        with_chain-PropertyDefined p s.entries h w,
        with_chain-PropertyDefined p (stamp_at 0 t s.entries) h once,
      )
      | inr (m, marked) ↦
          let q : Property = record p { applyinfo = some m } in
          ground (
            arith,
            with_chain-PropertyDefined p s.entries h w,
            with_chain-PropertyDefined p (stamp_at 0 t s.entries) h once,
            with_chain-PropertyDefined q (stamp_at m t (stamp_at 0 t s.entries)) h
                (stamp_at-IsDefined m t (stamp_at 0 t s.entries) once),
          )
    ]

conclude-PropertyDefined :
    (a : Arrival) (p : Property) (pre : ℕ) (s : Scan)
    → PropertyDefined p
    → All IsDefined s.entries
    → PropertyDefined (conclude a p pre s).property
unfolding conclude
conclude-PropertyDefined a p pre s h w =
    ground (arith, settle-PropertyDefined a p pre s h w, with_chain-PropertyDefined p s.entries h w)

start-IsDefined : (b : Bool) (p : Property) → PropertyDefined p → All IsDefined (start b p)
unfolding start
start-IsDefined true p h = reset-IsDefined (chain p) h
start-IsDefined false p h = h

-- The call is defined, and what it leaves can be updated again.
pub update_iviproperty_total :
    (strings : Strings) (cycle v : ℕ) (p : Property) (t : Timeval)
    → PropertyDefined p
    → (o : Outcome) × (update_iviproperty strings cycle v p t ≡ some o) × PropertyDefined o.property
unfolding update_iviproperty
update_iviproperty_total strings cycle v p t h =
    let a = arrival strings cycle v p t in
    let (s, there, good) =
      scan_total a 0 none 0 (start a.is_multi p) (start-IsDefined a.is_multi p h) in
    let pre = value_at p.applyinfo (chain p) in
    (conclude a p pre s, rw there refl, conclude-PropertyDefined a p pre s h good)
