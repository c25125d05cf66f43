-- ===== src/CanSignalEvent/Ivi/Shape.antt =====
-- What `update_iviproperty` leaves as it is on every path, the error paths included: the names of
-- the entries, and that `applyinfo` points into the list.
use agl_can_binder.Base.{
  ℕ, zero, suc, ◌+◌, ◌<◌, ◌≡◌, refl, ap, sym, ◌∙◌, Bool, true, false, Option, none, some, List, [],
  ◌∷◌, map, arith, Option-cases, inl, inr, length, CString, u32,
}
use agl_can_binder.CanidInfo.Types.{
  UpdateStat, upstat_error, upstat_no_updated, upstat_updated, Strings, Timeval, CanBit, Property,
}
use agl_can_binder.CanidInfo.Frame.{canframe2property, extract_field}
use agl_can_binder.CanidInfo.Update.Laws.{update_property_value-layout}
use agl_can_binder.CanSignalEvent.Ivi.{
  chain, with_chain, reset, stamp_at, Scan, Arrival, scan, settle, conclude, Outcome,
  update_iviproperty, arrival, start, value_at,
}

abbrev pub names : List CanBit → List CString
names = map (λ (p : CanBit). p.name)

-- A position in a list of the given length, or NULL.
abbrev pub InRange : ℕ → Option ℕ → Type 0
InRange n none = Unit {0}
InRange n (some m) = m < n

-- A property whose applied entry, if any, is in its list.
abbrev pub IsWellFormed : Property → Type 0
IsWellFormed p = InRange (length (chain p)) p.applyinfo

canframe2property-name :
    (mem : Strings) (v : ℕ) (p q : CanBit) (r : UpdateStat)
    → canframe2property mem v p ≡ some (q, r)
    → q.name ≡ p.name
unfolding canframe2property
canframe2property-name mem v p q r h = elim (Option-cases (extract_field v p)) [
  | inl e ↦ absurd (ground arith)
  | inr (x, e) ↦
      let same = ap (λ (c : CanBit). c.name) (update_property_value-layout mem p (u32 x)) in
      ground (arith, same)
]

length-names : (l k : List CanBit) → names l ≡ names k → length l ≡ length k
length-names [] [] h = refl
length-names [] (y ∷ k) h = absurd (cc)
length-names (x ∷ l) [] h = absurd (cc)
length-names (x ∷ l) (y ∷ k) h = ap suc (length-names l k (ground arith))

names-stamp_at : (i : ℕ) (t : Timeval) (l : List CanBit) → names (stamp_at i t l) ≡ names l
unfolding stamp_at
names-stamp_at i t [] = refl
names-stamp_at zero t (p ∷ rest) = refl
names-stamp_at (suc i) t (p ∷ rest) = ap (◌∷◌ p.name) (names-stamp_at i t rest)

names-reset : (l : List CanBit) → names (map reset l) ≡ names l
names-reset [] = refl
names-reset (p ∷ rest) = ap (◌∷◌ p.name) (names-reset rest)

InRange-suc : (i : ℕ) (mark : Option ℕ) → InRange i mark → InRange (suc i) mark
InRange-suc i none h = tt
InRange-suc i (some m) h = omega arith

-- The loop keeps the names, and a mark lies among the entries that it has seen.
scan_shape :
    (a : Arrival) (l : List CanBit) (i : ℕ) (mark : Option ℕ) (n : ℕ) (s : Scan)
    → InRange i mark
    → scan a i mark n l ≡ some s
    → (names s.entries ≡ names l) × InRange (i + length l) s.mark
unfolding scan
scan_shape a [] i mark n s m h = ground arith
scan_shape a (p ∷ rest) i mark n s m h =
    elim (Option-cases (canframe2property a.strings a.value p)) [
      | inl e ↦ absurd (ground arith)
      | inr ((q, upstat_error), e) ↦
          ground (arith, canframe2property-name a.strings a.value p q upstat_error e)
      | inr ((q, upstat_updated), e) ↦
          let same = canframe2property-name a.strings a.value p q upstat_updated e in
          elim (Option-cases (scan a (suc i) (some i) (suc n) rest)) [
            | inl none_left ↦ absurd (ground arith)
            | inr (s', e') ↦
                ground (arith, same, scan_shape a rest (suc i) (some i) (suc n) s' (omega arith) e')
          ]
      | inr ((q, upstat_no_updated), e) ↦
          let same = canframe2property-name a.strings a.value p q upstat_no_updated e in
          let wider : InRange (suc i) mark = InRange-suc i mark m in
          elim (Option-cases (scan a (suc i) mark (suc n) rest)) [
            | inl none_left ↦ elim (Option-cases (scan a (suc i) mark n rest)) [
              | inl none_right ↦ absurd (ground arith)
              | inr (s'', e'') ↦
                  ground (arith, same, scan_shape a rest (suc i) mark n s'' wider e'')
            ]
            | inr (s', e') ↦ elim (Option-cases (scan a (suc i) mark n rest)) [
              | inl none_right ↦
                  ground (arith, same, scan_shape a rest (suc i) mark (suc n) s' wider e')
              | inr (s'', e'') ↦ ground (
                arith,
                same,
                scan_shape a rest (suc i) mark (suc n) s' wider e',
                scan_shape a rest (suc i) mark n s'' wider e'',
              )
            ]
          ]
    ]

names-with_chain :
    (p : Property) (l : List CanBit)
    → names l ≡ names (chain p)
    → (names (chain (with_chain p l)) ≡ names (chain p))
      × ((with_chain p l).applyinfo ≡ p.applyinfo)
names-with_chain p [] h = absurd (cc)
names-with_chain p (x ∷ rest) h = (h, refl)

-- The list has the same names, and the applied entry lies in it.
abbrev Keeps : Property → Property → Type 0
Keeps p q = (names (chain q) ≡ names (chain p)) × InRange (length (chain p)) q.applyinfo

with_chain-Keeps :
    (p r : Property) (l : List CanBit)
    → names (chain r) ≡ names (chain p)
    → InRange (length (chain p)) r.applyinfo
    → names l ≡ names (chain p)
    → Keeps p (with_chain r l)
with_chain-Keeps p r l base range same =
    let w = names-with_chain r l (same ∙ sym base) in (w.0 ∙ base, rw w.1 range)

settle-Keeps :
    (a : Arrival) (p : Property) (pre : ℕ) (s : Scan)
    → names s.entries ≡ names (chain p)
    → InRange (length (chain p)) s.mark
    → IsWellFormed p
    → Keeps p (settle a p pre s).0
unfolding settle
settle-Keeps a p pre s same range ok =
    let t = a.timestamp in
    let once : names (stamp_at 0 t s.entries) ≡ names (chain p) =
      names-stamp_at 0 t s.entries ∙ same in
    elim (Option-cases s.mark) [
      | inl none_set ↦ ground (
        arith,
        with_chain-Keeps p p s.entries refl ok same,
        with_chain-Keeps p p (stamp_at 0 t s.entries) refl ok once,
      )
      | inr (m, set) ↦
          let below : m < length (chain p) = rw set at range in
          let twice : names (stamp_at m t (stamp_at 0 t s.entries)) ≡ names (chain p) =
            names-stamp_at m t (stamp_at 0 t s.entries) ∙ once in
          let q : Property = record p { applyinfo = some m } in
          ground (
            arith,
            with_chain-Keeps p p s.entries refl ok same,
            with_chain-Keeps p p (stamp_at 0 t s.entries) refl ok once,
            with_chain-Keeps p q (stamp_at m t (stamp_at 0 t s.entries)) refl below twice,
          )
    ]

conclude-Keeps :
    (a : Arrival) (p : Property) (pre : ℕ) (s : Scan)
    → names s.entries ≡ names (chain p)
    → InRange (length (chain p)) s.mark
    → IsWellFormed p
    → Keeps p (conclude a p pre s).property
unfolding conclude
conclude-Keeps a p pre s same range ok =
    ground
      (arith, settle-Keeps a p pre s same range ok, with_chain-Keeps p p s.entries refl ok same)

names-start : (b : Bool) (p : Property) → names (start b p) ≡ names (chain p)
unfolding start
names-start true p = names-reset (chain p)
names-start false p = refl

-- Where the call is defined, it keeps the names of the entries, and a well-formed property stays
-- well formed, whatever status is returned.
pub update_iviproperty_shape :
    (strings : Strings) (cycle v : ℕ) (p : Property) (t : Timeval) (o : Outcome)
    → IsWellFormed p
    → update_iviproperty strings cycle v p t ≡ some o
    → (names (chain o.property) ≡ names (chain p)) × IsWellFormed o.property
unfolding update_iviproperty
update_iviproperty_shape strings cycle v p t o ok h =
    let a = arrival strings cycle v p t in
    let l = start a.is_multi p in
    elim (Option-cases (scan a 0 none 0 l)) [
      | inl e ↦ absurd (ground arith)
      | inr (s, e) ↦
          let shape = scan_shape a l 0 none 0 s tt e in
          let same = shape.0 ∙ names-start a.is_multi p in
          let size : 0 + length l ≡ length (chain p) =
            omega (arith, length-names l (chain p) (names-start a.is_multi p)) in
          let keeps =
            conclude-Keeps a p (value_at p.applyinfo (chain p)) s same (rw size at shape.1) ok in
          let done : o ≡ conclude a p (value_at p.applyinfo (chain p)) s = ground arith in
          rw done (
            keeps.0,
            rw (length-names (chain (conclude a p _ s).property) (chain p) keeps.0) keeps.1,
          )
    ]
