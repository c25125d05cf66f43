-- ===== src/CanSignalEvent/Ivi/Entries.antt =====
-- The loop of `update_iviproperty` over the entries of a property, when every field is accepted.
use agl_can_binder.Base.{
  ℕ, suc, ◌+◌, ◌≡◌, refl, true, false, Option, none, some, List, [], ◌∷◌, map, if◌then◌else◌, arith,
  All,
}
use agl_can_binder.CanidInfo.Types.{UpdateStat, Strings, CanBit}
use agl_can_binder.CanidInfo.Frame.{bit_shift}
use agl_can_binder.CanidInfo.Frame.Laws.{Fits}
use agl_can_binder.CanidInfo.Frame.RoundTrip.{canframe2property_lem}
use agl_can_binder.CanidInfo.Update.{update_property_value}
use agl_can_binder.CanidInfo.Update.Laws.{rejects, update_property_value-error}
use agl_can_binder.CanSignalEvent.Ivi.{reset, Arrival, scan}
use agl_can_binder.CanSignalEvent.Ivi.Single.{field_of, is_updated}

abbrev pub values : List CanBit → List ℕ
values = map (λ (p : CanBit). p.cur_value)

-- Every entry's field fits the frame, and its value is accepted.
abbrev pub IsGood : ℕ → CanBit → Type 0
IsGood v p = Fits p × (rejects p (field_of v p) ≡ false)

module _ (strings : Strings) (v : ℕ) where
  -- An entry after the frame, starting from a cleared value.
  abbrev pub decoded : CanBit → CanBit × UpdateStat
  decoded p = update_property_value strings (reset p) (field_of v p)

  abbrev pub decoded_entries : List CanBit → List CanBit
  decoded_entries = map (λ p. (decoded p).0)

  -- The last entry that the frame sets, from position i on; `mark` if there is none.
  pub last_updated : ℕ → Option ℕ → List CanBit → Option ℕ
  last_updated i mark [] = mark
  last_updated i mark (p ∷ rest) =
      last_updated (suc i) (if is_updated (decoded p).1 then some i else mark) rest

  pub count_updated : List CanBit → ℕ
  count_updated [] = 0
  count_updated (p ∷ rest) = (if is_updated (decoded p).1 then 1 else 0) + count_updated rest

  -- With nothing set there is nothing to count, and with a mark there is.
  pub count-last_updated :
      (i : ℕ) (l : List CanBit) (mark : Option ℕ)
      → last_updated i mark l ≡ none
      → (mark ≡ none) × (count_updated l ≡ 0)
  unfolding last_updated count_updated
  count-last_updated i [] mark h = (h, refl)
  count-last_updated i (p ∷ rest) mark h =
      ground (
        arith,
        count-last_updated (suc i) rest (if is_updated (decoded p).1 then some i else mark) h,
      )

  pub scan_good :
      (a : Arrival) (l : List CanBit) (i : ℕ) (mark : Option ℕ) (n : ℕ)
      → a.strings ≡ strings
      → a.value ≡ v
      → a.is_multi ≡ true
      → All (IsGood v) l
      → scan a i mark n (map reset l)
        ≡ some (record {
          entries = decoded_entries l;
          mark = last_updated i mark l;
          update = n + count_updated l;
          failed = false;
        })
  unfolding scan last_updated count_updated bit_shift
  scan_good a [] i mark n hs hv hm good = ground arith
  scan_good a (p ∷ rest) i mark n hs hv hm good =
      let fits : Fits (reset p) = good.0.0 in
      let ok : rejects (reset p) (field_of v p) ≡ false = good.0.1 in
      ground (
        arith,
        canframe2property_lem strings v (reset p) fits,
        update_property_value-error strings (reset p) (field_of v p),
        ok,
        scan_good a rest (suc i) mark n hs hv hm good.1,
        scan_good a rest (suc i) (some i) (suc n) hs hv hm good.1,
      )
