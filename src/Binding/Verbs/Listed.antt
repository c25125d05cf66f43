-- ===== src/Binding/Verbs/Listed.antt =====
-- What `list` answers.
use mathlib.Core.List.{Mem, mem-cons_self, mem-cons_of_mem, mem-append_left, mem-append_right}
use Prim.Native.Nat.{compare}
use agl_can_binder.CanidSearch.Tree.Same.{Ordering-cases}
use agl_can_binder.Base.{
  ℕ, zero, suc, ◌≡◌, refl, inl, inr, some, List, [], ◌∷◌, map, CString, get_elem?, arith,
  Option-cases, Bool-cases, Bool, true, false,
}
use agl_can_binder.CanidInfo.Types.{Property, CanidInfo}
use agl_can_binder.CanidSearch.Tree.{tfind, walk}
use agl_can_binder.CanidSearch.Dict.{PropertyRef, get_property_dict, deref, canid_walker}
use agl_can_binder.CanidSearch.Dict.WellFormed.{IsWellFormed, deref-get_property_dict}
use agl_can_binder.Binding.Verbs.{Process, Reply, names, listup_properties, concat_names, list}

-- A property of an array is listed with it.
listed-Mem :
    (l : List Property) (i : ℕ) (p : Property)
    → get_elem? l i ≡ some p
    → Mem p.head.name (map (λ (p : Property). p.head.name) l)
listed-Mem [] i p h = absurd (cc)
listed-Mem (x ∷ l) zero p h =
    let same : p ≡ x = ground arith in
    rw same (mem-cons_self {l = map (λ (p : Property). p.head.name) l})
listed-Mem (x ∷ l) (suc i) p h = mem-cons_of_mem x.head.name (listed-Mem l i p h)

-- The names of a CAN-ID of the tree are among those of all.
concat_names-Mem :
    (c : ℕ) (info : CanidInfo) (root : List (ℕ × CanidInfo)) (n : CString)
    → tfind compare c root ≡ some info
    → Mem n (map (λ (p : Property). p.head.name) info.property)
    → Mem n (concat_names (walk root))
unfolding concat_names tfind
concat_names-Mem c info [] n h m = absurd (cc)
concat_names-Mem c info ((k, i) ∷ rest) n h m = elim (Ordering-cases (compare c k)) [
  | inl before ↦ absurd (ground arith)
  | inr (inl same) ↦
      let one : info ≡ i = ground arith in mem-append_left (concat_names (walk rest)) (rw one at m)
  | inr (inr after) ↦
      mem-append_right (listup_properties i) (concat_names-Mem c info rest n (ground arith) m)
]

-- A call of `list` that is defined changes `tmplists` and nothing else.
pub list-state :
    (granted : Bool) (s s' : Process) (reply : Reply)
    → list granted s ≡ some (s', reply)
    → (t : Bool) × (s' ≡ record s { tmplists = t })
unfolding list
list-state granted s s' reply h = elim (Bool-cases s.tmplists) [
  | inl set ↦ absurd (ground (arith, set))
  | inr null ↦ elim (Bool-cases granted) [
    | inl room ↦ (true, ground (arith, null, room))
    | inr full ↦ (s.tmplists, ground (arith, null, full))
  ]
]

-- With well-formed dictionaries, the first call of `list`, with memory for its array, answers, and
-- every name that is known to them, and so to `get`, `set` and `subscribe`, stands in the answer.
pub list-Mem :
    (name : CString) (r : PropertyRef) (s : Process)
    → IsWellFormed s.dict
    → get_property_dict name s.dict ≡ some r
    → s.tmplists ≡ false
    → (l : List CString) × (list true s ≡ some (record s { tmplists = true }, names l)) × Mem name l
unfolding list deref canid_walker
list-Mem name r s wf known null =
    let d = s.dict in
    let (p, there, named) = deref-get_property_dict name d r wf known in
    elim (Option-cases (tfind compare r.canid d.canid_root)) [
      | inl gone ↦ absurd (ground (arith, gone, there))
      | inr (info, owns) ↦
          let at_index : get_elem? info.property r.index ≡ some p = ground (arith, owns, there) in
          let listed = listed-Mem info.property r.index p at_index in
          (
            concat_names (canid_walker d),
            rw null refl,
            concat_names-Mem r.canid info d.canid_root name owns (rw named at listed),
          )
    ]
