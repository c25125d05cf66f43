-- ===== src/CanSignalEvent/Ivi/Multi.antt =====
-- `update_iviproperty` on a property with several entries, of which the last one that the frame sets
-- is applied.
use agl_can_binder.Base.{
  ℕ, zero, suc, ◌≡◌, refl, ap, ◌∙◌, Bool, true, false, not, ◌||◌, Option, none, some, List, [], ◌∷◌,
  leb, ltb, ◌==◌, arith, Option-cases, inl, inr, All,
}
use agl_can_binder.CanidInfo.Types.{Strings, Timeval, CanBit, Property}
use agl_can_binder.CanSignalEvent.Elapsed.{elaps_ms}
use agl_can_binder.CanSignalEvent.Ivi.{
  finish, chain, with_chain, stamp_at, Scan, Arrival, settle, Outcome, update_iviproperty, arrival,
  same_entry, value_at, is_nil,
}
use agl_can_binder.CanSignalEvent.Ivi.Entries.{
  values, IsGood, decoded, decoded_entries, last_updated, count_updated, count-last_updated,
  scan_good,
}

values-stamp_at : (i : ℕ) (t : Timeval) (l : List CanBit) → values (stamp_at i t l) ≡ values l
unfolding stamp_at
values-stamp_at i t [] = refl
values-stamp_at zero t (p ∷ rest) = refl
values-stamp_at (suc i) t (p ∷ rest) = ap (◌∷◌ p.cur_value) (values-stamp_at i t rest)

-- The rule for a property with several entries: clients are told when another entry is applied,
-- when the applied entry's value changed, and once the cycle has run out.
abbrev pub due_multi : ℕ → ℕ → Option ℕ → ℕ → Option ℕ → List CanBit → Bool
due_multi cycle elaps applied pre none entries = leb cycle elaps
due_multi cycle elaps applied pre (some m) entries =
    not (same_entry applied (some m)) || not (value_at (some m) entries == pre) || leb cycle elaps

-- The entry that is applied after the frame.
abbrev pub applied_after : Option ℕ → Option ℕ → Option ℕ
applied_after none old = old
applied_after (some m) old = some m

same_entry-eq : (x : Option ℕ) (m : ℕ) → same_entry x (some m) ≡ true → x ≡ some m
same_entry-eq none m h = absurd (cc)
same_entry-eq (some k) m h = ground arith

chain-with_chain :
    (p : Property) (l : List CanBit) (c : ℕ) (cs : List ℕ)
    → values l ≡ c ∷ cs
    → values (chain (with_chain p l)) ≡ c ∷ cs
chain-with_chain p [] c cs h = absurd (cc)
chain-with_chain p (x ∷ rest) c cs h = h

applyinfo-with_chain : (p : Property) (l : List CanBit) → (with_chain p l).applyinfo ≡ p.applyinfo
applyinfo-with_chain p [] = refl
applyinfo-with_chain p (x ∷ rest) = refl

-- What `settle` makes of a nonempty list.
settle_lem :
    (a : Arrival) (p : Property) (pre : ℕ) (s : Scan) (head : CanBit) (next : List CanBit)
    → s.entries ≡ head ∷ next
    → (s.mark ≡ none → s.update ≡ 0)
    → (values (chain (settle a p pre s).0) ≡ values s.entries)
      × ((settle a p pre s).0.applyinfo ≡ applied_after s.mark p.applyinfo)
      × (ltb 0 (settle a p pre s).1 ≡ due_multi a.cycle a.elaps p.applyinfo pre s.mark s.entries)
unfolding settle
settle_lem a p pre s head next e zero_if =
    let c = head.cur_value in
    let cs = values next in
    let t = a.timestamp in
    let plain : values s.entries ≡ c ∷ cs = ap values e in
    let once : values (stamp_at 0 t s.entries) ≡ c ∷ cs = values-stamp_at 0 t s.entries ∙ plain in
    elim (Option-cases s.mark) [
      | inl none_set ↦ ground (
        arith,
        plain,
        chain-with_chain p s.entries c cs plain,
        chain-with_chain p (stamp_at 0 t s.entries) c cs once,
        applyinfo-with_chain p s.entries,
        applyinfo-with_chain p (stamp_at 0 t s.entries),
      )
      | inr (m, set) ↦
          let twice : values (stamp_at m t (stamp_at 0 t s.entries)) ≡ c ∷ cs =
            values-stamp_at m t (stamp_at 0 t s.entries) ∙ once in
          let q : Property = record p { applyinfo = some m } in
          ground (
            arith,
            plain,
            same_entry-eq p.applyinfo m,
            chain-with_chain p s.entries c cs plain,
            chain-with_chain p (stamp_at 0 t s.entries) c cs once,
            chain-with_chain q (stamp_at m t (stamp_at 0 t s.entries)) c cs twice,
            applyinfo-with_chain p s.entries,
            applyinfo-with_chain p (stamp_at 0 t s.entries),
            applyinfo-with_chain q (stamp_at m t (stamp_at 0 t s.entries)),
          )
    ]

-- The loop's result.
abbrev multi_scan : Strings → ℕ → Property → Scan
multi_scan strings v p = record {
  entries = decoded_entries strings v (chain p);
  mark = last_updated strings v 0 none (chain p);
  update = count_updated strings v (chain p);
  failed = false;
}

update_iviproperty_settles :
    (strings : Strings) (cycle v : ℕ) (p : Property) (t : Timeval)
    → is_nil p.next ≡ false
    → All (IsGood v) (chain p)
    → update_iviproperty strings cycle v p t
      ≡ some (
          finish (
            settle
              (arrival strings cycle v p t)
              p
              (value_at p.applyinfo (chain p))
              (multi_scan strings v p)))
unfolding update_iviproperty
update_iviproperty_settles strings cycle v p t several good =
    let a = arrival strings cycle v p t in
    ground (arith, scan_good strings v a (chain p) 0 none 0 refl refl (ap not several) good)

-- A property with several entries, whose fields all fit the frame and are accepted, is decoded
-- entry by entry from cleared values; the last entry that the frame sets is applied, or else the
-- one before stays applied; and clients are told by the rule `due_multi`.
pub update_iviproperty_multi :
    (strings : Strings) (cycle v : ℕ) (p : Property) (t : Timeval)
    → is_nil p.next ≡ false
    → All (IsGood v) (chain p)
    → let entries = decoded_entries strings v (chain p) in
      let mark = last_updated strings v 0 none (chain p) in
      (o : Outcome) × (update_iviproperty strings cycle v p t ≡ some o)
      × (o.status ≡ 0)
      × (values (chain o.property) ≡ values entries)
      × (o.property.applyinfo ≡ applied_after mark p.applyinfo)
      × (o.notifies
          ≡ due_multi cycle
              (elaps_ms p.head.updatetime t)
              p.applyinfo
              (value_at p.applyinfo (chain p))
              mark
              entries)
update_iviproperty_multi strings cycle v p t several good =
    let settled =
      settle_lem a p pre s (decoded strings v p.head).0 (decoded_entries strings v p.next) refl
        (λ e. (count-last_updated strings v 0 (chain p) none e).1) in
    (finish (settle a p pre s), computes, refl, settled.0, settled.1, settled.2)
  where
    a : Arrival
    a = arrival strings cycle v p t

    pre : ℕ
    pre = value_at p.applyinfo (chain p)

    s : Scan
    s = multi_scan strings v p

    computes : update_iviproperty strings cycle v p t ≡ some (finish (settle a p pre s))
    computes = update_iviproperty_settles strings cycle v p t several good
