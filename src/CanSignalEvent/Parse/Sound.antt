-- ===== src/CanSignalEvent/Parse/Sound.antt =====
-- The dictionaries stay sound under every frame, whatever it is.
use Prim.Native.Nat.{compare}
use mathlib.Core.Option
use agl_can_binder.Base.{
  ℕ, zero, suc, ◌≡◌, refl, inl, inr, some, List, [], ◌∷◌, All, arith, ◌==◌, if◌then◌else◌,
  Option-cases, Bool-cases, CString,
}
use agl_can_binder.CanidInfo.Types.{Strings, Timeval, CanFrame, Property, CanidInfo}
use agl_can_binder.CanidInfo.Endian.{canvalue2host}
use agl_can_binder.CanidSearch.Tree.{tfind}
use agl_can_binder.CanidSearch.Tree.Laws.{compare-IsOrder, modify-IsSorted}
use agl_can_binder.CanidSearch.Dict.{Dict, get_canid_dict, update_canid}
use agl_can_binder.CanidSearch.Dict.Refs.{HasName}
use agl_can_binder.CanidSearch.Dict.Resolves.{Resolves-mono}
use agl_can_binder.CanidSearch.Dict.WellFormed.{arrays}
use agl_can_binder.CanidSearch.Dict.WellFormed
use agl_can_binder.CanSignalEvent.Ivi.{update_iviproperty}
use agl_can_binder.CanSignalEvent.Ivi.Shape.{IsWellFormed, update_iviproperty_shape}
use agl_can_binder.CanSignalEvent.Parse.Cases.{stored, parse_frame_cases}
use agl_can_binder.CanSignalEvent.Parse.{can_sff, parse_candata, parse_frame}
use agl_can_binder.CanSignalEvent.Parse.Laws.{get_canid_dict-update_canid}

-- The dictionaries are well formed, and so is every property of every CAN-ID.
pub record IsSound (d : Dict) : Type 0 where
  pub well_formed : WellFormed.IsWellFormed d
  pub applied :
      (c : ℕ) (info : CanidInfo) → get_canid_dict c d ≡ some info → All IsWellFormed info.property

-- One array has the names of another at their positions.
abbrev pub Names : List Property → List Property → Type 0
Names l k = (i : ℕ) (n : CString) → HasName l i n → HasName k i n

Names-cons :
    (p q : Property) (l k : List Property)
    → q.head.name ≡ p.head.name
    → Names l k
    → Names (p ∷ l) (q ∷ k)
unfolding HasName
Names-cons p q l k same rest zero n (x, e, named) = (q, refl, ground arith)
Names-cons p q l k same rest (suc i) n h = rest i n h

module _ {ℓ} {E : Type ℓ} (notify : Property → E → E) (strings : Strings) where
  parse_candata_keeps :
      (cycle v : ℕ) (t : Timeval) (l k : List Property) (e e' : E)
      → All IsWellFormed l
      → parse_candata notify strings cycle v t l e ≡ some (k, e')
      → Names l k × All IsWellFormed k
  unfolding parse_candata
  parse_candata_keeps cycle v t [] k e e' ok h =
      let same : k ≡ [] = ground arith in rw same ((λ i n x. x), tt)
  parse_candata_keeps cycle v t (p ∷ rest) k e e' ok h =
      elim (Option-cases (update_iviproperty strings cycle v p t)) [
        | inl undefined ↦ absurd (ground arith)
        | inr (o, first) ↦
            let e1 = if o.notifies then notify o.property e else e in
            elim (Option-cases (parse_candata notify strings cycle v t rest e1)) [
              | inl undefined ↦ absurd (ground arith)
              | inr ((k', e2), later) ↦
                  let same : k ≡ o.property ∷ k' = ground arith in
                  let shape = update_iviproperty_shape strings cycle v p t o ok.0 first in
                  let (named, good) = parse_candata_keeps cycle v t rest k' e1 e2 ok.1 later in
                  rw same (Names-cons p o.property rest k' (ground arith) named, (shape.1, good))
            ]
      ]

-- A write that keeps the names, and the properties well formed, keeps the dictionaries sound.
module _ (k : ℕ) (f : CanidInfo → CanidInfo) (d : Dict) (s : IsSound d)
    (keeps : (info : CanidInfo)
      → get_canid_dict k d ≡ some info
      → Names info.property (f info).property × All IsWellFormed (f info).property) where
  abbrev written : Dict
  written = update_canid k f d

  get-written :
      (c : ℕ)
      → get_canid_dict c written
        ≡ (if c == k then Option.map f (get_canid_dict c d) else get_canid_dict c d)
  get-written c = get_canid_dict-update_canid c k f d s.well_formed.canids_in_order

  arrays-written : (c : ℕ) → Names (arrays d.canid_root c) (arrays written.canid_root c)
  unfolding get_canid_dict update_canid
  arrays-written c i n h = elim (Bool-cases (c == k)) [
    | inl e ↦
        let same : c ≡ k = ground arith in
        elim (Option-cases (tfind compare c d.canid_root)) [
          | inl gone ↦
              let still : arrays d.canid_root c ≡ arrays written.canid_root c =
                ground (arith, get-written c) in
              rw (← still) h
          | inr (info, there) ↦
              let at_k : tfind compare k d.canid_root ≡ some info = rw same at there in
              let old : arrays d.canid_root c ≡ info.property = ground arith in
              let new : arrays written.canid_root c ≡ (f info).property =
                ground (arith, get-written c) in
              rw new ((keeps info at_k).0 i n (rw old at h))
        ]
    | inr e ↦
        let still : arrays d.canid_root c ≡ arrays written.canid_root c =
          ground (arith, get-written c) in
        rw (← still) h
  ]

  applied-written :
      (c : ℕ) (info : CanidInfo)
      → get_canid_dict c written ≡ some info
      → All IsWellFormed info.property
  applied-written c info h = elim (Bool-cases (c == k)) [
    | inl e ↦
        let same : c ≡ k = ground arith in
        elim (Option-cases (get_canid_dict c d)) [
          | inl gone ↦ absurd (ground (arith, get-written c))
          | inr (old, there) ↦
              let new : info ≡ f old = ground (arith, get-written c) in
              rw new (keeps old (rw same at there)).1
        ]
    | inr e ↦ s.applied c info (ground (arith, get-written c))
  ]

  pub update_canid-IsSound : IsSound written
  unfolding update_canid
  update_canid-IsSound = record {
    well_formed = record {
      canids_in_order =
          modify-IsSorted compare-IsOrder k f d.canid_root s.well_formed.canids_in_order;
      names_in_order = s.well_formed.names_in_order;
      resolves =
          Resolves-mono (arrays d.canid_root) (arrays written.canid_root) d.property_root
            arrays-written s.well_formed.resolves;
      listed = s.well_formed.listed;
    };
    applied = applied-written;
  }

module _ {ℓ} {E : Type ℓ} (notify : Property → E → E) (strings : Strings) (frame : CanFrame)
    (t : Timeval) (d : Dict) (s : IsSound d) where
  abbrev key : ℕ
  key = can_sff frame.can_id

  abbrev kept : Dict
  kept = stored frame d

  kept-IsSound : IsSound kept
  kept-IsSound =
      update_canid-IsSound key (λ i. record i { canraw_frame = frame }) d s
        (λ info known. ((λ i n h. h), s.applied key info known))

  parsed-IsSound :
      (info : CanidInfo) (l : List Property) (e e' : E)
      → get_canid_dict key d ≡ some info
      → parse_candata notify strings info.cycle (canvalue2host frame.bytes) t info.property e
        ≡ some (l, e')
      → IsSound (update_canid key (λ i. record i { property = l }) kept)
  parsed-IsSound info l e e' known parsed =
      let (named, good) =
        parse_candata_keeps notify strings info.cycle (canvalue2host frame.bytes) t info.property l
          e e' (s.applied key info known) parsed in
      update_canid-IsSound key (λ i. record i { property = l }) kept kept-IsSound
        λ i there.
          let same : i ≡ record info { canraw_frame = frame } = ground (
            arith,
            get_canid_dict-update_canid key key (λ j. record j { canraw_frame = frame }) d
                s.well_formed.canids_in_order,
          ) in
          (rw same named, good)

  -- Where the call is defined, every frame leaves sound dictionaries sound: in order, every name
  -- still leading to a property of that name, and every applied entry in the list of its property.
  pub parse_frame-IsSound :
      (status : ℕ) (d' : Dict) (e e' : E)
      → parse_frame notify strings frame t d e ≡ some (status, d', e')
      → IsSound d'
  parse_frame-IsSound status d' e e' h =
      elim (parse_frame_cases notify strings frame t d d' e e' status h) [
        | inl (same, told) ↦ rw same s
        | inr (info, known, inl (same, told)) ↦ rw same kept-IsSound
        | inr (info, known, inr (k, parsed, same)) ↦
            rw same (parsed-IsSound info k e e' known parsed)
      ]
