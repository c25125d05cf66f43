-- ===== src/CanJson/Member/Laws.antt =====
-- What the loop over the keys of a member keeps, and the entry that it makes.
use agl_can_binder.Base.{
  ℕ, ◌≤◌, ◌≡◌, refl, Option, none, some, List, [], ◌∷◌, ◌++◌, length, CString, arith, Option-cases,
  inl, inr,
}
use agl_can_binder.CanidInfo.Types.{Strings, CanBit, Property}
use agl_can_binder.CanJson.JsonC.{JsonC, members}
use agl_can_binder.CanJson.Zone.{get_zone_name}
use agl_can_binder.CanJson.Tables.{create_convert_tables}
use agl_can_binder.CanJson.Tables.Laws.{TableOf}
use agl_can_binder.CanJson.Member.Typed.{KeysDiffer, Grows, TableOf-append, member_fields-Typed}
use agl_can_binder.CanJson.Member.{
  Fields, Key, zone_key, type_key, set_data_key, key_of, no_fields, member_branch, member_fields,
  full_name, property_of, add_property_member, with_table,
}

abbrev pub Bounded : Fields → Type 0
Bounded f = (f.byte_pos ≤ 8) × (f.bit_pos ≤ 8) × (f.bit_len ≤ 32)

-- The number of entries of a table is that of `nconv`.
abbrev pub Counted : Option (List ℕ) → ℕ → Type 0
Counted none n = Unit {0}
Counted (some table) n = n ≡ length table

with_table-Bounded :
    (r : Strings × Option (List ℕ)) (f : Fields) → Bounded f → Bounded (with_table r f)
with_table-Bounded (strings, none) f b = b
with_table-Bounded (strings, some table) f b = b

with_table-Counted :
    (r : Strings × Option (List ℕ)) (f : Fields)
    → Counted (with_table r f).dataconv (with_table r f).nconv
with_table-Counted (strings, none) f = tt
with_table-Counted (strings, some table) f = refl

module _ {J : Type 0} (json : JsonC J) (kind : ℕ) where
  member_branch-Bounded :
      (key : Key) (val : Option J) (f f' : Fields)
      → Bounded f
      → member_branch json kind key val f ≡ some f'
      → Bounded f'
  unfolding member_branch
  member_branch-Bounded zone_key val f f' b h = elim (Option-cases (get_zone_name json val)) [
    | inl e ↦ absurd (ground (arith, e))
    | inr (z, e) ↦ ground (arith, e)
  ]
  member_branch-Bounded set_data_key val f f' b h =
      let table = with_table-Bounded (create_convert_tables json val f.var_type f.strings) f b in
      ground (arith, table)
  member_branch-Bounded type_key val f f' b h = ground arith
  member_branch-Bounded _ val f f' b h = ground arith

  member_branch-Counted :
      (key : Key) (val : Option J) (f f' : Fields)
      → Counted f.dataconv f.nconv
      → member_branch json kind key val f ≡ some f'
      → Counted f'.dataconv f'.nconv
  unfolding member_branch
  member_branch-Counted zone_key val f f' b h = elim (Option-cases (get_zone_name json val)) [
    | inl e ↦ absurd (ground (arith, e))
    | inr (z, e) ↦ ground (arith, e)
  ]
  member_branch-Counted set_data_key val f f' b h =
      let table = with_table-Counted (create_convert_tables json val f.var_type f.strings) f in
      ground (arith, table)
  member_branch-Counted type_key val f f' b h = ground arith
  member_branch-Counted _ val f f' b h = ground arith

  member_fields-fit :
      (l : List (CString × Option J)) (f f' : Fields)
      → Bounded f
      → Counted f.dataconv f.nconv
      → member_fields json kind l f ≡ some f'
      → Bounded f' × Counted f'.dataconv f'.nconv
  unfolding member_fields
  member_fields-fit [] f f' b c h = let same : f' ≡ f = ground arith in rw same (b, c)
  member_fields-fit ((key, val) ∷ rest) f f' b c h =
      elim (Option-cases (member_branch json kind (key_of key) val f)) [
        | inl e ↦ absurd (ground (arith, e))
        | inr (g, e) ↦
            member_fields-fit rest g f' (member_branch-Bounded (key_of key) val f g b e)
              (member_branch-Counted (key_of key) val f g c e) (ground (arith, e))
      ]

-- An entry as the file may define it: its positions are limited, and its table, whose length `nconv`
-- is, holds entries of its type.
pub record IsLoaded (strings : Strings) (p : CanBit) : Type 0 where
  pub byte_bound : p.byte_pos ≤ 8
  pub bit_bound : p.bit_pos ≤ 8
  pub len_bound : p.bit_len ≤ 32
  pub table : TableOf p.var_type strings p.dataconv
  pub counted : Counted p.dataconv p.nconv

-- A longer heap keeps what was loaded.
pub IsLoaded-append :
    (strings more : Strings) (p : CanBit) → IsLoaded strings p → IsLoaded (strings ++ more) p
IsLoaded-append strings more p h = record {
  byte_bound = h.byte_bound;
  bit_bound = h.bit_bound;
  len_bound = h.len_bound;
  table = TableOf-append p.var_type strings more p.dataconv h.table;
  counted = h.counted;
}

-- The library keeps the keys of an object apart.
abbrev pub HasKeys : {J : Type 0} → JsonC J → Type 0
HasKeys {J} json =
    (v : Option J) (l : List (CString × Option J)) → members json v ≡ some l → KeysDiffer l

-- Where the call is defined, and no object has a key twice, strings are only added to those that are
-- kept, and the entry has a byte position and a bit position of 8 at most, a length of 32 at most, and
-- a table that fits its type, with its number of entries; it is alone, and nothing is applied.
pub add_property_member-IsLoaded :
    {J : Type 0} (json : JsonC J) (kind : ℕ) (obj : Option J) (strings strings' : Strings)
    (q : Property)
    → HasKeys json
    → add_property_member json kind obj strings ≡ some (q, strings')
    → Grows strings strings' × IsLoaded strings' q.head × (q.next ≡ []) × (q.applyinfo ≡ none)
unfolding add_property_member
add_property_member-IsLoaded json kind obj strings strings' q keys h =
    elim (Option-cases (members json obj)) [
      | inl e ↦ absurd (ground (arith, e))
      | inr (l, e) ↦ elim (Option-cases (member_fields json kind l (no_fields strings))) [
        | inl e' ↦ absurd (ground (arith, e, e'))
        | inr (f, e') ↦ elim (Option-cases (full_name f.name f.zone)) [
          | inl e'' ↦ absurd (ground (arith, e, e', e''))
          | inr (name, e'') ↦
              let (bounds, counted) =
                member_fields-fit json kind l (no_fields strings) f (omega arith) tt e' in
              let (grows, table) =
                member_fields-Typed json kind l (no_fields strings) f (keys obj l e)
                  (tt, inr (refl, refl)) e' in
              let made : q ≡ property_of kind name f = ground (arith, e, e', e'') in
              let kept : strings' ≡ f.strings = ground (arith, e, e', e'') in
              rw made (
                rw kept (
                  grows,
                  record {
                    byte_bound = bounds.0;
                    bit_bound = bounds.1;
                    len_bound = bounds.2;
                    table = table;
                    counted = counted;
                  },
                  refl,
                  refl,
                ))
        ]
      ]
    ]
