-- ===== src/CanidInfo/Update/Quiet.antt =====
-- When a repeated value counts as an update. The source means: never; three comparisons differ.
use agl_can_binder.Base.{
  List, ap, ◌∙◌, ℕ, ◌^◌, ◌≡◌, inl, inr, Bool, false, none, some, get_or, leb, ltb, if◌then◌else◌,
  u8, u16, u32, arith, Option-cases,
}
use agl_can_binder.CanidInfo.Types.{
  VarType, void_t, uint8_t, uint16_t, bool_t, UpdateStat, upstat_no_updated, upstat_updated,
  Strings, CanBit,
}
use agl_can_binder.CanidInfo.Update.{update_plain, update_converted, update_property_value}
use agl_can_binder.CanidInfo.Update.Laws.{
  HoldsTruth, rejects, needs_table, update_property_value-layout,
}

-- A raw uint8_t of 128 or more.
pub plain_quirk : VarType → ℕ → Bool
plain_quirk uint8_t x = leb (2 ^ 7) (u8 x)
plain_quirk _ x = false

-- A table entry that is such a uint8_t, a uint16_t of 32768 or more, or a bool neither 0 nor 1.
pub table_quirk : VarType → ℕ → Bool
table_quirk uint8_t c = leb (2 ^ 7) (u8 c)
table_quirk uint16_t c = leb (2 ^ 15) (u16 c)
table_quirk bool_t c = ltb 1 (u32 c)
table_quirk _ c = false

pub quirk : CanBit → ℕ → Bool
quirk p v = elim p.dataconv [
  | none ↦ plain_quirk p.var_type v
  | some conv ↦ table_quirk p.var_type (get_or conv v 0)
]

-- What the second of two equal updates reports.
abbrev pub repeated : Bool → UpdateStat
repeated b = if b then upstat_updated else upstat_no_updated

update_plain_again :
    (p : CanBit) (t : VarType) (x : ℕ)
    → needs_table t ≡ false
    → (update_plain (update_plain p t x).0 t x).1 ≡ repeated (plain_quirk t x)
unfolding update_plain plain_quirk
update_plain_again p void_t x h = ground arith
update_plain_again p _ x h = ground arith

update_converted_again :
    (mem : Strings) (p : CanBit) (t : VarType) (c x : ℕ)
    → HoldsTruth t p.cur_value
    → (update_converted mem (update_converted mem p t c x).0 t c x).1 ≡ repeated (table_quirk t c)
unfolding update_converted table_quirk
update_converted_again mem p void_t c x h = ground arith
update_converted_again mem p _ c x h = ground arith

module _ (mem : Strings) (p : CanBit) (v : ℕ) where
  update_none : p.dataconv ≡ none → update_property_value mem p v ≡ update_plain p p.var_type v
  unfolding update_property_value
  update_none e = rw e

  update_some :
      (conv : List ℕ)
      → p.dataconv ≡ some conv
      → leb p.nconv v ≡ false
      → update_property_value mem p v ≡ update_converted mem p p.var_type (get_or conv v 0) v
  unfolding update_property_value
  update_some conv e below = rw e (rw below)

-- A value that is not refused and is written twice in a row, to a property whose bool holds 0 or 1,
-- is reported as updated the second time exactly at the inputs of `quirk`.
pub update_property_value_again :
    (mem : Strings) (p : CanBit) (v : ℕ)
    → HoldsTruth p.var_type p.cur_value
    → rejects p v ≡ false
    → (update_property_value mem (update_property_value mem p v).0 v).1 ≡ repeated (quirk p v)
unfolding quirk
update_property_value_again mem p v t h =
    let q = (update_property_value mem p v).0 in
    let same = update_property_value-layout mem p v in
    let type_same : q.var_type ≡ p.var_type = ap (λ (r : CanBit). r.var_type) same in
    let conv_same : q.dataconv ≡ p.dataconv = ap (λ (r : CanBit). r.dataconv) same in
    let size_same : q.nconv ≡ p.nconv = ap (λ (r : CanBit). r.nconv) same in
    elim (Option-cases p.dataconv) [
      | inl e ↦ ground (
        arith,
        update_none mem p v e,
        update_none mem q v (conv_same ∙ e),
        update_plain_again p p.var_type v,
      )
      | inr (conv, e) ↦
          let below : leb p.nconv v ≡ false = ground arith in
          ground (
            arith,
            update_some mem p v conv e below,
            update_some mem q v conv (conv_same ∙ e) (rw size_same below),
            update_converted_again mem p p.var_type (get_or conv v 0) v t,
          )
    ]
