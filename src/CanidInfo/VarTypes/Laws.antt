-- ===== src/CanidInfo/VarTypes/Laws.antt =====
-- The names of the variable types, both ways.
use agl_can_binder.Base.{
  sym, ◌↔◌, Option, none, Bool, false, ◌==◌, holds_below, holds_below-true, get_elem?-lt,
  get_elem?-range, ℕ, suc, ◌+◌, ◌<◌, ◌≡◌, refl, ◌⊎◌, inl, inr, List, [], ◌∷◌, CString, strcmp,
  str_eq, eq_of_strcmp, some, ℤ, pos, negsuc, arith, get_elem?, Bool-cases, true, length, ap,
}
use agl_can_binder.CanidInfo.VarTypes.{
  name, past_the_end, vartype2string, string2vartype, search_from, vartype_strings,
}

-- What the search finds has the name that was searched for.
search_from_sound :
    (varname : CString) (table : List CString) (i n : ℕ)
    → search_from varname table i ≡ pos n
    → (k : ℕ) × (n ≡ i + k) × (get_elem? table k ≡ some varname)
unfolding search_from
search_from_sound varname [] i n h = absurd (cc)
search_from_sound varname (s ∷ rest) i n h = elim (Bool-cases (str_eq varname s)) [
  | inl e ↦ (0, ground arith, ap some (sym (eq_of_strcmp varname s (ground arith))))
  | inr e ↦
      let (k, p, q) = search_from_sound varname rest (suc i) n (ground arith) in
      (suc k, omega arith, q)
]

-- The search gives a position or -1.
search_from_range :
    (varname : CString) (table : List CString) (i : ℕ)
    → (search_from varname table i ≡ negsuc 0)
      ⊎ ((n : ℕ) × (search_from varname table i ≡ pos n) × (n < i + length table))
unfolding search_from
search_from_range varname [] i = inl refl
search_from_range varname (s ∷ rest) i = elim (Bool-cases (str_eq varname s)) [
  | inl e ↦ inr (i, rw e, omega arith)
  | inr e ↦ elim (search_from_range varname rest (suc i)) [
    | inl f ↦ inl (rw e f)
    | inr (n, f, b) ↦ inr (n, rw e f, omega arith)
  ]
]

name-injective : {a b : CString} → name a ≡ name b → a ≡ b
name-injective h = cc

-- Each entry of the table reads back as its position.
reads_back : ℕ → Bool
reads_back k = elim (string2vartype (get_elem? vartype_strings k)) [ pos n ↦ n == k | _ ↦ false ]

table_reads_back : holds_below 15 reads_back ≡ true
unfolding holds_below reads_back string2vartype strcmp vartype_strings
table_reads_back = refl

length-vartype_strings : length vartype_strings ≡ 15
unfolding vartype_strings
length-vartype_strings = refl

string2vartype-entry : (k : ℕ) → k < 15 → string2vartype (get_elem? vartype_strings k) ≡ pos k
string2vartype-entry k h =
    read (string2vartype (get_elem? vartype_strings k))
      (unfold reads_back in holds_below-true 15 reads_back k table_reads_back h)
  where
    read : (z : ℤ) → elim z as (λ _. Bool) [ pos n ↦ n == k | _ ↦ false ] ≡ true → z ≡ pos k
    read (pos n) e = ground arith
    read (negsuc n) e = absurd (cc)

-- `vartype2string` gives the entries of the table, and an entry alone is a name.
vartype2string-entry :
    (k : ℕ) (s : CString) → get_elem? vartype_strings k ≡ some s → vartype2string k ≡ name s
unfolding vartype2string
vartype2string-entry k s e = rw e (ground (arith, get_elem?-lt vartype_strings k e))

entry-vartype2string :
    (k : ℕ) (s : CString) → vartype2string k ≡ name s → get_elem? vartype_strings k ≡ some s
unfolding vartype2string
entry-vartype2string k s h = ground arith

entry-string2vartype :
    (n : ℕ) (s : CString) → string2vartype (some s) ≡ pos n → get_elem? vartype_strings n ≡ some s
unfolding string2vartype
entry-string2vartype n s h =
    let (k, p, q) = search_from_sound s vartype_strings 0 n h in
    let same : n ≡ k = omega arith in rw same q

string2vartype-of_entry :
    (n : ℕ) (s : CString) → get_elem? vartype_strings n ≡ some s → string2vartype (some s) ≡ pos n
string2vartype-of_entry n s e =
    let below : n < 15 = omega (arith, get_elem?-lt vartype_strings n e, length-vartype_strings) in
    rw e at (string2vartype-entry n below)

-- The number that a name reads as is exactly the number that prints as the name.
pub string2vartype_iff :
    (n : ℕ) (s : CString) → (string2vartype (some s) ≡ pos n) ↔ (vartype2string n ≡ name s)
string2vartype_iff n s = (
  λ h. vartype2string-entry n s (entry-string2vartype n s h),
  λ h. string2vartype-of_entry n s (entry-vartype2string n s h),
)

-- Any other result is -1.
pub string2vartype_range :
    (s : Option CString)
    → (string2vartype s ≡ negsuc 0) ⊎ ((n : ℕ) × (string2vartype s ≡ pos n) × (n < 15))
unfolding string2vartype
string2vartype_range none = inl refl
string2vartype_range (some s) = elim (search_from_range s vartype_strings 0) [
  | inl e ↦ inl e
  | inr (n, e, b) ↦ inr (n, e, omega (arith, length-vartype_strings))
]

-- The bound check lets one number past the end of the table through.
pub vartype2string_past : (t : ℕ) → (vartype2string t ≡ past_the_end) ↔ (t ≡ 15)
unfolding vartype2string
vartype2string_past t = elim (get_elem?-range vartype_strings t) [
  | inl (e, h) ↦ rw e (ground (arith, length-vartype_strings))
  | inr (v, e, h) ↦ rw e (ground (arith, length-vartype_strings))
]
