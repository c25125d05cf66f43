-- ===== src/CanidSearch/Tree/Same.antt =====
-- A tree is known by what is found in it: the order of the insertions and removals that led to it
-- leaves no trace.
use Prim.Native.Nat.{Ordering}
use Prim.Native.Nat.Ordering.{lt, eq, gt}
use mathlib.Core.Path.{ap₂}
use agl_can_binder.Base.{◌≡◌, refl, ap, sym, ◌∙◌, some, List, [], ◌∷◌, inl, inr, ◌⊎◌, arith}
use agl_can_binder.CanidSearch.Tree.{tfind}
use agl_can_binder.CanidSearch.Tree.Laws.{IsOrder, IsSorted, Above, Above-trans, tfind-Above}

pub Ordering-cases : (o : Ordering) → (o ≡ lt) ⊎ ((o ≡ eq) ⊎ (o ≡ gt))
Ordering-cases lt = inl refl
Ordering-cases eq = inr (inl refl)
Ordering-cases gt = inr (inr refl)

module _ {ℓ κ} {K : Type ℓ} {V : Type κ} {cmp : K → K → Ordering} (order : IsOrder cmp) where
  open order use {finds_itself, same_key, turns, turns_back, transitive}

  abbrev Agree : List (K × V) → List (K × V) → Type (ℓ ⊔ κ)
  Agree l k = (j : K) → tfind cmp j l ≡ tfind cmp j k

  tfind-first : (a : K) (v : V) (l : List (K × V)) → tfind cmp a ((a, v) ∷ l) ≡ some v
  unfolding tfind
  tfind-first a v l = ground (arith, finds_itself a)

  -- In order, the lists without their first entries agree as well.
  Agree-rest :
      (a : K) (v : V) (l k : List (K × V))
      → Above order a l
      → Above order a k
      → Agree ((a, v) ∷ l) ((a, v) ∷ k)
      → Agree l k
  unfolding tfind
  Agree-rest a v l k above above' agree j = elim (Ordering-cases (cmp j a)) [
    | inl before ↦
        tfind-Above order j l (Above-trans order j a l before above)
        ∙ sym (tfind-Above order j k (Above-trans order j a k before above'))
    | inr (inl same) ↦
        let here = same_key j a same in
        rw here (tfind-Above order a l above ∙ sym (tfind-Above order a k above'))
    | inr (inr after) ↦ ground (arith, agree j, after)
  ]

  -- Two lists in order that find the same under every key are the same.
  pub tfind_ext : (l k : List (K × V)) → IsSorted order l → IsSorted order k → Agree l k → l ≡ k
  unfolding tfind
  tfind_ext [] [] s t agree = refl
  tfind_ext [] ((b, w) ∷ k) s t agree = absurd (cc (agree b, tfind-first b w k))
  tfind_ext ((a, v) ∷ l) [] s t agree = absurd (cc (agree a, tfind-first a v l))
  tfind_ext ((a, v) ∷ l) ((b, w) ∷ k) s t agree = elim (Ordering-cases (cmp a b)) [
    | inl before ↦ absurd (ground (arith, agree a, tfind-first a v l, before))
    | inr (inr after) ↦ absurd (ground (arith, agree b, tfind-first b w k, turns a b after))
    | inr (inl same) ↦
        let keys = same_key a b same in
        let values : v ≡ w = ground (arith, agree a, tfind-first a v l, same) in
        let k' : Above order a k = rw keys t.0 in
        let entry : (a, v) ≡ (b, w) = ap₂ (λ x y. (x, y)) keys values in
        let agree' : Agree ((a, v) ∷ l) ((a, v) ∷ k) =
          λ j. agree j ∙ ap (λ e. tfind cmp j (e ∷ k)) (sym entry) in
        ap₂ ◌∷◌ entry (tfind_ext l k s.1 t.1 (Agree-rest a v l k s.0 k' agree'))
  ]
