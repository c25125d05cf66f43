-- ===== src/CanJson/Zone/Laws.antt =====
-- The buffer of the zone's name.
use agl_can_binder.Base.{
  ℕ, ◌+◌, ◌<◌, ◌≤◌, ◌≡◌, ◌==◌, Option, none, some, List, [], ◌∷◌, length, length-append, CString,
  bit_and, arith, Option-cases, inl, inr, if◌then◌else◌,
}
use agl_can_binder.CanJson.JsonC.{JsonC, elements}
use agl_can_binder.CanJson.Zone.{zone_texts, zone_text, zone_name_of, zone_value, get_zone_name}

-- The size of `zone_name`.
abbrev pub zone_name_size : ℕ
zone_name_size = 128

pub all_texts : List (ℕ × CString) → ℕ
all_texts [] = 0
all_texts ((flag, text) ∷ rest) = length text + all_texts rest

length-zone_text : (v : ℕ) (l : List (ℕ × CString)) → length (zone_text v l) ≤ all_texts l
unfolding zone_text all_texts
length-zone_text v [] = omega arith
length-zone_text v ((flag, text) ∷ rest) = ground (
  arith,
  length-zone_text v rest,
  length-append (if bit_and v flag == 0 then [] else text) (zone_text v rest),
)

pub length-zone_name_of :
    (v : ℕ) (name : CString) → zone_name_of v ≡ some name → length name < zone_name_size
unfolding zone_name_of all_texts zone_texts
length-zone_name_of v name h = ground (arith, length-zone_text v zone_texts)

module _ {J : Type 0} (json : JsonC J) where
  -- Whatever zones are listed, and however often, their name with its end fits the buffer.
  pub length-get_zone_name :
      (v : Option J) (name : CString)
      → get_zone_name json v ≡ some (some name)
      → length name < zone_name_size
  unfolding get_zone_name
  length-get_zone_name none name h = cc
  length-get_zone_name (some v) name h = elim (Option-cases (elements json (some v))) [
    | inl e ↦ absurd (ground (arith, e))
    | inr (l, e) ↦ elim (Option-cases (zone_value json l 0)) [
      | inl f ↦ absurd (ground (arith, e, f))
      | inr (z, f) ↦ length-zone_name_of z name (ground (arith, e, f))
    ]
  ]
