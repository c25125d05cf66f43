-- ===== src/CanidSearch/Tree/Laws.antt =====
-- The laws of the trees, for a comparison function that is a strict order.
use Prim.Native.Nat.{Ordering, compare}
use Prim.Native.Nat.Ordering.{lt, eq, gt}
use mathlib.Core.Option
use agl_can_binder.Base.{
  ◌≡◌, refl, none, some, List, [], ◌∷◌, arith, is_eq, if◌then◌else◌, CString, strcmp, strcmp_refl,
  eq_of_strcmp,
}
use agl_can_binder.CanidSearch.Tree.{tfind, insert, tdelete, modify}

-- What <search.h> asks of a comparison function.
pub record IsOrder {ℓ} {K : Type ℓ} (cmp : K → K → Ordering) : Type ℓ where
  pub transitive : (j k m : K) → cmp j k ≡ lt → cmp k m ≡ lt → cmp j m ≡ lt
  pub turns : (j k : K) → cmp j k ≡ gt → cmp k j ≡ lt
  pub turns_back : (j k : K) → cmp j k ≡ lt → cmp k j ≡ gt
  pub same_key : (j k : K) → cmp j k ≡ eq → j ≡ k
  pub finds_itself : (j : K) → cmp j j ≡ eq

pub compare-IsOrder : IsOrder compare
compare-IsOrder = ground arith

strcmp_turns : (a b : CString) → strcmp a b ≡ gt → strcmp b a ≡ lt
unfolding strcmp
strcmp_turns [] [] h = cc
strcmp_turns [] (y ∷ s) h = cc
strcmp_turns (x ∷ r) [] h = refl
strcmp_turns (x ∷ r) (y ∷ s) h = ground (arith, strcmp_turns r s)

strcmp_turns_back : (a b : CString) → strcmp a b ≡ lt → strcmp b a ≡ gt
unfolding strcmp
strcmp_turns_back [] [] h = cc
strcmp_turns_back [] (y ∷ s) h = refl
strcmp_turns_back (x ∷ r) [] h = cc
strcmp_turns_back (x ∷ r) (y ∷ s) h = ground (arith, strcmp_turns_back r s)

strcmp_trans : (a b c : CString) → strcmp a b ≡ lt → strcmp b c ≡ lt → strcmp a c ≡ lt
unfolding strcmp
strcmp_trans [] [] c h k = cc
strcmp_trans [] (y ∷ s) [] h k = cc
strcmp_trans [] (y ∷ s) (z ∷ t) h k = refl
strcmp_trans (x ∷ r) [] c h k = absurd (cc)
strcmp_trans (x ∷ r) (y ∷ s) [] h k = absurd (cc)
strcmp_trans (x ∷ r) (y ∷ s) (z ∷ t) h k = ground (arith, strcmp_trans r s t)

pub strcmp-IsOrder : IsOrder strcmp
strcmp-IsOrder = record {
  transitive = strcmp_trans;
  turns = strcmp_turns;
  turns_back = strcmp_turns_back;
  same_key = eq_of_strcmp;
  finds_itself = strcmp_refl;
}

module _ {ℓ κ} {K : Type ℓ} {V : Type κ} {cmp : K → K → Ordering} (order : IsOrder cmp) where
  open order use {finds_itself, same_key, turns, turns_back, transitive}

  -- Every key of the list comes after k.
  abbrev pub Above : K → List (K × V) → Type 0
  Above k [] = Unit {0}
  Above k ((j, v) ∷ rest) = (cmp k j ≡ lt) × Above k rest

  -- The keys stand in order, and so differ.
  abbrev pub IsSorted : List (K × V) → Type 0
  IsSorted [] = Unit {0}
  IsSorted ((j, v) ∷ rest) = Above j rest × IsSorted rest

  pub Above-trans : (a b : K) (l : List (K × V)) → cmp a b ≡ lt → Above b l → Above a l
  Above-trans a b [] h above = tt
  Above-trans a b ((j, v) ∷ rest) h above =
      (transitive a b j h above.0, Above-trans a b rest h above.1)

  insert-Above :
      (k a : K) (v : V) (l : List (K × V)) → cmp a k ≡ lt → Above a l → Above a (insert cmp k v l)
  unfolding insert
  insert-Above k a v [] h above = (h, tt)
  insert-Above k a v ((j, w) ∷ rest) h above = ground (arith, insert-Above k a v rest h above.1)

  pub insert-IsSorted :
      (k : K) (v : V) (l : List (K × V)) → IsSorted l → IsSorted (insert cmp k v l)
  unfolding insert
  insert-IsSorted k v [] s = (tt, tt)
  insert-IsSorted k v ((j, w) ∷ rest) s = ground (
    arith,
    Above-trans k j rest,
    turns k j,
    insert-Above k j v rest,
    insert-IsSorted k v rest s.1,
  )

  tdelete-Above : (k a : K) (l : List (K × V)) → Above a l → Above a (tdelete cmp k l)
  unfolding tdelete
  tdelete-Above k a [] above = tt
  tdelete-Above k a ((j, w) ∷ rest) above = ground (arith, tdelete-Above k a rest above.1)

  pub tdelete-IsSorted : (k : K) (l : List (K × V)) → IsSorted l → IsSorted (tdelete cmp k l)
  unfolding tdelete
  tdelete-IsSorted k [] s = tt
  tdelete-IsSorted k ((j, w) ∷ rest) s =
      ground (arith, tdelete-Above k j rest s.0, tdelete-IsSorted k rest s.1)

  modify-Above : (k a : K) (f : V → V) (l : List (K × V)) → Above a l → Above a (modify cmp k f l)
  unfolding modify
  modify-Above k a f [] above = tt
  modify-Above k a f ((j, w) ∷ rest) above = ground (arith, modify-Above k a f rest above.1)

  pub modify-IsSorted :
      (k : K) (f : V → V) (l : List (K × V)) → IsSorted l → IsSorted (modify cmp k f l)
  unfolding modify
  modify-IsSorted k f [] s = tt
  modify-IsSorted k f ((j, w) ∷ rest) s =
      ground (arith, modify-Above k j f rest s.0, modify-IsSorted k f rest s.1)

  pub tfind-Above : (k : K) (l : List (K × V)) → Above k l → tfind cmp k l ≡ none
  unfolding tfind
  tfind-Above k [] above = refl
  tfind-Above k ((j, w) ∷ rest) above = ground arith

  -- A lookup after an insertion of a key that is not there.
  pub tfind-insert :
      (k i : K) (v : V) (l : List (K × V))
      → IsSorted l
      → tfind cmp k l ≡ none
      → tfind cmp i (insert cmp k v l) ≡ (if is_eq (cmp i k) then some v else tfind cmp i l)
  unfolding tfind insert
  tfind-insert k i v [] s h = ground arith
  tfind-insert k i v ((j, w) ∷ rest) s h =
      ground (
        arith,
        same_key i k,
        same_key i j,
        transitive i k j,
        turns k j,
        tfind-insert k i v rest s.1,
      )

  pub tfind-tdelete :
      (k i : K) (l : List (K × V))
      → IsSorted l
      → tfind cmp i (tdelete cmp k l) ≡ (if is_eq (cmp i k) then none else tfind cmp i l)
  unfolding tfind tdelete
  tfind-tdelete k i [] s = ground arith
  tfind-tdelete k i ((j, w) ∷ rest) s = ground (
    arith,
    same_key i k,
    same_key i j,
    same_key k j,
    turns k j,
    turns_back j i,
    finds_itself i,
    finds_itself k,
    transitive i k j,
    transitive i j k,
    tfind-Above j rest s.0,
    tfind-Above i rest,
    Above-trans i j rest,
    tfind-tdelete k i rest s.1,
  )

  pub tfind-modify :
      (k i : K) (f : V → V) (l : List (K × V))
      → IsSorted l
      → tfind cmp i (modify cmp k f l)
        ≡ (if is_eq (cmp i k) then Option.map f (tfind cmp i l) else tfind cmp i l)
  unfolding tfind modify
  tfind-modify k i f [] s = ground arith
  tfind-modify k i f ((j, w) ∷ rest) s = ground (
    arith,
    same_key i k,
    same_key i j,
    same_key k j,
    turns k j,
    finds_itself j,
    tfind-modify k i f rest s.1,
  )
