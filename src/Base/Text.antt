-- ===== src/Base/Text.antt =====
-- C strings as lists of bytes, and `strcmp`.
use Prim.Native.Nat.{ℕ, compare, Ordering}
use Prim.Native.Nat.Ordering.{lt, eq, gt}
use Prim.Native.Char.{code}
use Prim.Native.String.{String}
use mathlib.Core.Path.{◌≡◌, refl}
use mathlib.Core.Bool.{Bool, true, false}
use mathlib.Core.List.{List, [], ◌∷◌}
use native.Mathlib.Omega.{arith}

abbrev pub CString : Type 0
CString = List ℕ

-- The bytes of an ASCII literal.
abbrev pub codes : String → CString
codes String.[] = []
codes (String.◌∷◌ c s) = code c ∷ codes s

-- The sign of the result of `strcmp`.
unfoldable pub strcmp : CString → CString → Ordering
strcmp [] [] = eq
strcmp [] (b ∷ s) = lt
strcmp (a ∷ r) [] = gt
strcmp (a ∷ r) (b ∷ s) = elim (compare a b) [ lt ↦ lt | eq ↦ strcmp r s | gt ↦ gt ]

-- `strcmp(a, b) == 0`
abbrev pub is_eq : Ordering → Bool
is_eq eq = true
is_eq _ = false

abbrev pub str_eq : CString → CString → Bool
str_eq a b = is_eq (strcmp a b)

pub strcmp_refl : (a : CString) → strcmp a a ≡ eq
unfolding strcmp
strcmp_refl [] = refl
strcmp_refl (a ∷ r) = ground (arith, strcmp_refl r)

pub eq_of_strcmp : (a b : CString) → strcmp a b ≡ eq → a ≡ b
unfolding strcmp
eq_of_strcmp [] [] h = refl
eq_of_strcmp [] (b ∷ s) h = cc
eq_of_strcmp (a ∷ r) [] h = cc
eq_of_strcmp (a ∷ r) (b ∷ s) h = ground (arith, eq_of_strcmp r s)
