-- ===== src/BindEvent/Canids.antt =====
-- The CAN-IDs that the socket has to let through.
use agl_can_binder.Base.{
  ℕ, ◌≤◌, ◌<◌, ◌≡◌, refl, Bool, true, false, ◌||◌, inl, inr, List, [], ◌∷◌, ◌++◌, length,
  length-append, arith, ◌==◌, Bool-cases,
}
use agl_can_binder.CanidSearch.Tree.{walk}
use agl_can_binder.BindEvent.{
  BindEvent, Events, support_canid_max, contains, add_subscribed_canid, walk_canids,
  get_subscribed_canids,
}

-- A list in which no CAN-ID stands twice.
abbrev pub Once : List ℕ → Type 0
Once [] = Unit {0}
Once (c ∷ rest) = (contains c rest ≡ false) × Once rest

contains-append : (c x : ℕ) (l : List ℕ) → contains c (l ++ x ∷ []) ≡ (contains c l || c == x)
unfolding contains
contains-append c x [] = ground arith
contains-append c x (y ∷ l) = ground (arith, contains-append c x l)

Once-append : (x : ℕ) (l : List ℕ) → Once l → contains x l ≡ false → Once (l ++ x ∷ [])
unfolding contains
Once-append x [] o h = (refl, tt)
Once-append x (y ∷ l) o h =
    (ground (arith, contains-append y x l), Once-append x l o.1 (ground arith))

-- Whether an event with the CAN-ID is registered.
unfoldable pub registered : ℕ → List BindEvent → Bool
registered c [] = false
registered c (b ∷ rest) = c == b.raw_info.canid || registered c rest

-- One call of the handler.
module _ (x : ℕ) (acc : List ℕ) where
  abbrev next : List ℕ
  next = add_subscribed_canid x acc

  next-Once : Once acc → Once next
  unfolding add_subscribed_canid
  next-Once o = ground (arith, Once-append x acc o)

  next-bound : length acc ≤ support_canid_max → length next ≤ support_canid_max
  unfolding add_subscribed_canid
  next-bound b = ground (arith, length-append acc (x ∷ []))

  next-grows : length acc ≤ length next
  unfolding add_subscribed_canid
  next-grows = ground (arith, length-append acc (x ∷ []))

  next_sound : (c : ℕ) → contains c next ≡ true → (contains c acc || c == x) ≡ true
  unfolding add_subscribed_canid
  next_sound c h = ground (arith, contains-append c x acc)

  next-keeps : (c : ℕ) → contains c acc ≡ true → contains c next ≡ true
  unfolding add_subscribed_canid
  next-keeps c h = ground (arith, contains-append c x acc)

  next-adds : (c : ℕ) → length next < support_canid_max → (c == x) ≡ true → contains c next ≡ true
  unfolding add_subscribed_canid
  next-adds c room h =
      let same : c ≡ x = ground arith in
      rw same (ground (arith, contains-append x x acc, length-append acc (x ∷ [])))

walk_canids-Once : (l : List BindEvent) (acc : List ℕ) → Once acc → Once (walk_canids l acc)
unfolding walk_canids
walk_canids-Once [] acc o = o
walk_canids-Once (b ∷ l) acc o = walk_canids-Once l _ (next-Once b.raw_info.canid acc o)

walk_canids-bound :
    (l : List BindEvent) (acc : List ℕ)
    → length acc ≤ support_canid_max
    → length (walk_canids l acc) ≤ support_canid_max
unfolding walk_canids
walk_canids-bound [] acc h = h
walk_canids-bound (b ∷ l) acc h = walk_canids-bound l _ (next-bound b.raw_info.canid acc h)

walk_canids-grows : (l : List BindEvent) (acc : List ℕ) → length acc ≤ length (walk_canids l acc)
unfolding walk_canids
walk_canids-grows [] acc = omega arith
walk_canids-grows (b ∷ l) acc = omega (
  arith,
  next-grows b.raw_info.canid acc,
  walk_canids-grows l (add_subscribed_canid b.raw_info.canid acc),
)

walk_canids_sound :
    (l : List BindEvent) (acc : List ℕ) (c : ℕ)
    → contains c (walk_canids l acc) ≡ true
    → (contains c acc || registered c l) ≡ true
unfolding walk_canids registered
walk_canids_sound [] acc c h = ground arith
walk_canids_sound (b ∷ l) acc c h = ground (
  arith,
  walk_canids_sound l (add_subscribed_canid b.raw_info.canid acc) c h,
  next_sound b.raw_info.canid acc c,
)

walk_canids_complete :
    (l : List BindEvent) (acc : List ℕ) (c : ℕ)
    → length (walk_canids l acc) < support_canid_max
    → (contains c acc || registered c l) ≡ true
    → contains c (walk_canids l acc) ≡ true
unfolding walk_canids registered
walk_canids_complete [] acc c room h = ground arith
walk_canids_complete (b ∷ l) acc c room h =
    let x = b.raw_info.canid in
    let acc' = add_subscribed_canid x acc in
    let smaller : length acc' < support_canid_max = omega (arith, walk_canids-grows l acc') in
    walk_canids_complete l acc' c room
      (ground (arith, next-keeps x acc c, next-adds x acc c smaller))

-- The CAN-IDs of the filter: none stands twice, and there are 512 at most.
pub get_subscribed_canids_bound :
    (e : Events)
    → let canids = (get_subscribed_canids e).1 in Once canids × (length canids ≤ support_canid_max)
unfolding get_subscribed_canids
get_subscribed_canids_bound e =
    let l = walk e.bind_event_root in
    (walk_canids-Once l [] tt, walk_canids-bound l [] (omega arith))

-- While the list of the filter is not full, a CAN-ID stands in it exactly if an event with the
-- CAN-ID is registered.
pub get_subscribed_canids_iff :
    (e : Events) (c : ℕ)
    → length (get_subscribed_canids e).1 < support_canid_max
    → contains c (get_subscribed_canids e).1 ≡ registered c (walk e.bind_event_root)
unfolding get_subscribed_canids contains
get_subscribed_canids_iff e c room =
    let l = walk e.bind_event_root in
    let there = walk_canids_sound l [] c in
    let found = walk_canids_complete l [] c room in
    elim (Bool-cases (registered c l)) [
      | inl held ↦ ground (arith, found held)
      | inr unheld ↦ elim (Bool-cases (contains c (walk_canids l []))) [
        | inl listed ↦ absurd (ground (arith, there listed))
        | inr absent ↦ ground arith
      ]
    ]
