-- ===== src/CanJson/Load/Ready.antt =====
-- The loader between two CAN-IDs: what the dictionaries hold, and the entries of a new CAN-ID.
use agl_can_binder.Base.{
  ℕ, ◌≡◌, refl, Option, some, List, [], ◌∷◌, ◌++◌, arith, All, Option-cases, inl, inr,
}
use agl_can_binder.CanidInfo.Types.{Strings, CanBit, Property}
use agl_can_binder.CanidSearch.Dict.{get_canid_dict, requested}
use agl_can_binder.CanidSearch.Dict.Every.{Every, Extends}
use agl_can_binder.CanSignalEvent.Ivi.Shape.{IsWellFormed}
use agl_can_binder.CanSignalEvent.Parse.Sound.{IsSound}
use agl_can_binder.CanJson.JsonC.{JsonC}
use agl_can_binder.CanJson.Run.{done, defined, >>=-eq-done, defined-eq-done}
use agl_can_binder.CanJson.Member.{add_property_member}
use agl_can_binder.CanJson.Member.Typed.{Grows, Grows-refl, Grows-trans}
use agl_can_binder.CanJson.Member.Laws.{
  IsLoaded, IsLoaded-append, HasKeys, add_property_member-IsLoaded,
}
use agl_can_binder.CanJson.Load.{Loader, property_members, add_property_mapping}

-- Every entry of a property is one that the file may define.
abbrev pub PropertyLoaded : Strings → Property → Type 0
PropertyLoaded strings p = IsLoaded strings p.head × All (IsLoaded strings) p.next

All-IsLoaded-append :
    (strings more : Strings) (l : List CanBit)
    → All (IsLoaded strings) l
    → All (IsLoaded (strings ++ more)) l
All-IsLoaded-append strings more [] h = tt
All-IsLoaded-append strings more (p ∷ l) h =
    (IsLoaded-append strings more p h.0, All-IsLoaded-append strings more l h.1)

pub PropertyLoaded-Grows :
    (strings strings' : Strings)
    → Grows strings strings'
    → (p : Property) → PropertyLoaded strings p
    → PropertyLoaded strings' p
PropertyLoaded-Grows strings strings' (more, grown) p h =
    rw grown (IsLoaded-append strings more p.head h.0, All-IsLoaded-append strings more p.next h.1)

All-bits-end :
    (strings : Strings) (l : List CanBit) (p : CanBit)
    → All (IsLoaded strings) l
    → IsLoaded strings p
    → All (IsLoaded strings) (l ++ p ∷ [])
All-bits-end strings [] p h w = (w, tt)
All-bits-end strings (x ∷ l) p h w = (h.0, All-bits-end strings l p h.1 w)

pub PropertyLoaded-Extends : (strings : Strings) → Extends (PropertyLoaded strings)
PropertyLoaded-Extends strings x p h w = (h.0, All-bits-end strings x.next p.head h.1 w.0)

-- The dictionaries are sound, and hold nothing but what the file may define.
pub record IsReady (s : Loader) : Type 0 where
  pub sound : IsSound s.dict
  pub loaded : Every (PropertyLoaded s.strings) s.dict

pub requested-IsReady : (s : Loader) → IsReady s → IsReady (record s { dict = requested s.dict })
unfolding get_canid_dict
requested-IsReady s r = record {
  sound = record {
    well_formed = record {
      canids_in_order = r.sound.well_formed.canids_in_order;
      names_in_order = r.sound.well_formed.names_in_order;
      resolves = r.sound.well_formed.resolves;
      listed = r.sound.well_formed.listed;
    };
    applied = r.sound.applied;
  };
  loaded = r.loaded;
}

-- The entries of a new CAN-ID.
abbrev pub IsNew : Strings → List Property → Type 0
IsNew strings l = All (PropertyLoaded strings) l × All IsWellFormed l

module _ {J : Type 0} (json : JsonC J) (keys : HasKeys json) where
  property_members-IsNew :
      (kind : ℕ) (l : List (Option J)) (strings strings' : Strings) (ps : List Property)
      → property_members json kind l strings ≡ some (ps, strings')
      → Grows strings strings' × IsNew strings' ps
  unfolding property_members
  property_members-IsNew kind [] strings strings' ps h =
      let none_read : ps ≡ [] = ground arith in
      let same : strings' ≡ strings = ground arith in
      rw none_read (rw same (Grows-refl strings, (tt, tt)))
  property_members-IsNew kind (e ∷ l) strings strings' ps h =
      elim (Option-cases (add_property_member json kind e strings)) [
        | inl gone ↦ absurd (ground (arith, gone))
        | inr ((p, strings1), first) ↦ elim (Option-cases (property_members json kind l strings1)) [
          | inl gone ↦ absurd (ground (arith, first, gone))
          | inr ((qs, strings2), later) ↦
              let (grows, loaded, alone, bare) =
                add_property_member-IsLoaded json kind e strings strings1 p keys first in
              let (grows', new) = property_members-IsNew kind l strings1 strings2 qs later in
              let all : ps ≡ p ∷ qs = ground (arith, first, later) in
              let last : strings' ≡ strings2 = ground (arith, first, later) in
              let whole : Grows strings strings2 × IsNew strings2 (p ∷ qs) = (
                Grows-trans strings strings1 strings2 grows grows',
                (
                  (PropertyLoaded-Grows strings1 strings2 grows' p (loaded, rw alone tt), new.0),
                  (rw bare tt, new.1),
                ),
              ) in
              rw (last, all) whole
        ]
      ]

  unread :
      (kind : ℕ) (strings strings' : Strings) (ps : List Property) (err : ℕ)
      → add_property_mapping json kind [] strings ≡ done (ps, strings', err)
      → property_members json kind [] strings ≡ some (ps, strings')
  unfolding add_property_mapping property_members
  unread kind strings strings' ps err h =
      let none_read : ps ≡ [] = ground arith in
      let same : strings' ≡ strings = ground arith in rw none_read (rw same refl)

  pub mapping-IsNew :
      (kind : ℕ) (l : List (Option J)) (strings strings' : Strings) (ps : List Property) (err : ℕ)
      → add_property_mapping json kind l strings ≡ done (ps, strings', err)
      → Grows strings strings' × IsNew strings' ps
  unfolding add_property_mapping
  mapping-IsNew kind [] strings strings' ps err h =
      property_members-IsNew kind [] strings strings' ps (unread kind strings strings' ps err h)
  mapping-IsNew kind (e ∷ l) strings strings' ps err h =
      let ((qs, strings1), read, last) =
        >>=-eq-done (defined (property_members json kind (e ∷ l) strings)) _ h in
      let all : ps ≡ qs = ground arith in
      let kept : strings' ≡ strings1 = ground arith in
      rw (kept, all)
        (property_members-IsNew kind (e ∷ l) strings strings1 qs
          (defined-eq-done (property_members json kind (e ∷ l) strings) read))
