-- ===== src/CanJson/Zone.antt =====
-- src/can_json.c: `_getZoneName`. `none` is a NULL pointer read: a value that is no array, or an entry
-- that is null.
pub mod Laws
use agl_can_binder.Base.{
  ℕ, ◌==◌, Bool, not, Option, none, some, List, [], ◌∷◌, ◌++◌, CString, codes, str_eq, bit_and,
  bit_or, if◌then◌else◌, ◌>>=◌,
}
use agl_can_binder.CanJson.JsonC.{JsonC, elements}

-- The chain of comparisons, with the flag of each zone.
unfoldable pub zone_flags : List (CString × ℕ)
zone_flags =
    (codes "Zone::Front", 1)
    ∷ (codes "Zone::Middle", 2)
    ∷ (codes "Zone::Right", 4)
    ∷ (codes "Zone::Left", 8)
    ∷ (codes "Zone::Rear", 16)
    ∷ (codes "Zone::Center", 32)
    ∷ (codes "Zone::LeftSide", 64)
    ∷ (codes "Zone::RightSide", 128)
    ∷ (codes "Zone::FrontSide", 256)
    ∷ (codes "Zone::BackSide", 512)
    ∷ (codes "Zone::Driver", 2048)
    ∷ (codes "Zone::Passenger", 1024)
    ∷ []

-- `zone_val |= ZONE_…`; an unknown zone is only logged.
unfoldable pub add_flag : CString → List (CString × ℕ) → ℕ → ℕ
add_flag zname [] zone_val = zone_val
add_flag zname ((text, flag) ∷ rest) zone_val =
    let later = add_flag zname rest zone_val in
    if str_eq zname text then bit_or zone_val flag else later

unfoldable pub zone_step : CString → ℕ → ℕ
unfolding add_flag zone_flags
zone_step zname zone_val =
    if str_eq zname (codes "Zone::None") then 0 else add_flag zname zone_flags zone_val

-- The `strcat`s, in their order.
unfoldable pub zone_texts : List (ℕ × CString)
zone_texts =
    (1, codes "Front")
    ∷ (2, codes "Middle")
    ∷ (4, codes "Right")
    ∷ (8, codes "Left")
    ∷ (16, codes "Rear")
    ∷ (32, codes "Center")
    ∷ (64, codes "Leftside")
    ∷ (128, codes "Rightside")
    ∷ (256, codes "Frontside")
    ∷ (512, codes "Backside")
    ∷ (2048, codes "Driver")
    ∷ (1024, codes "Passenger")
    ∷ []

unfoldable pub zone_text : ℕ → List (ℕ × CString) → CString
zone_text zone_val [] = []
zone_text zone_val ((flag, text) ∷ rest) =
    (if bit_and zone_val flag == 0 then [] else text) ++ zone_text zone_val rest

-- NULL without a zone.
unfoldable pub zone_name_of : ℕ → Option CString
unfolding zone_text zone_texts
zone_name_of zone_val = if zone_val == 0 then none else some (zone_text zone_val zone_texts)

module _ {J : Type 0} (json : JsonC J) where
  -- The loop over the array.
  unfoldable pub zone_value : List (Option J) → ℕ → Option ℕ
  zone_value [] zone_val = some zone_val
  zone_value (zobj ∷ rest) zone_val = do
    zname ← json.get_string zobj
    zone_value rest (zone_step zname zone_val)

  unfoldable pub get_zone_name : Option J → Option (Option CString)
  unfolding zone_value zone_name_of
  get_zone_name none = some none
  get_zone_name (some v) = do
    zonelist ← elements json (some v)
    zone_val ← zone_value zonelist 0
    some (zone_name_of zone_val)
