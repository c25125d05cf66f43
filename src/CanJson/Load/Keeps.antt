-- ===== src/CanJson/Load/Keeps.antt =====
-- A property of the loader's state that every CAN-ID of the file keeps is kept by the whole file.
use agl_can_binder.Base.{
  ℕ, ◌≡◌, Bool, Option, some, List, [], ◌∷◌, CString, codes, ℤ, arith, Option-cases, inl, inr, u16,
  to_u32, none, Bool-cases,
}
use agl_can_binder.CanidInfo.Types.{CanidInfo, can_kind_send}
use agl_can_binder.CanidSearch.Dict.{get_canid_dict, requested}
use agl_can_binder.CanSignalEvent.Send.{TimerAnswers}
use agl_can_binder.CanJson.JsonC.{JsonC, members, elements}
use agl_can_binder.CanJson.Run.{Run, done, ◌>>=◌, defined, >>=-eq-done}
use agl_can_binder.CanJson.Load.{
  Loader, can_kind_readonly, add_caninfo, grow_caninfo, data_of, mode_of, cycle_of, dlc_of,
  new_caninfo, read_caninfo, parse_caninfo,
}
use agl_can_binder.CanJson.Load.File.{
  each, canid_def, parse_canid_def, standard_or_extended, parse_recept_and_transmission,
  reception_or_transmission, parse_json, can_define_init,
}

module _ (I : Loader → Type 0) where
  -- Where the step is defined, it keeps the property.
  abbrev pub Keeps : (Loader → Run (Loader × ℕ)) → Type 0
  Keeps f = (s s' : Loader) (n : ℕ) → I s → f s ≡ done (s', n) → I s'

  pub Keeps-done : (n : ℕ) → Keeps (λ s. done (s, n))
  Keeps-done n s s' m i h = let same : s' ≡ s = ground arith in rw same i

  each-Keeps :
      {J : Type 0} (body : CString → Option J → Loader → Run (Loader × ℕ))
      (l : List (CString × Option J))
      → ((key : CString) (val : Option J) → Keeps (body key val))
      → Keeps (each body l)
  unfolding each
  each-Keeps body [] k s s' n i h = let same : s' ≡ s = ground arith in rw same i
  each-Keeps body ((key, val) ∷ rest) k s s' n i h =
      let ((s1, n1), first, later) = >>=-eq-done (body key val s) _ h in
      let ((s2, n2), second, last) = >>=-eq-done (each body rest s1) _ later in
      let same : s' ≡ s2 = ground arith in
      rw same (each-Keeps body rest k s1 s2 n2 (k key val s s1 n1 i first) second)

  module _ {J : Type 0} (json : JsonC J) (memory : ℕ → Bool) (answers : ℕ → TimerAnswers)
      (asks : (s : Loader) → I s → I (record s { dict = requested s.dict }))
      (adds : (kind : ℕ) (info : CanidInfo) (l : List (Option J))
        → Keeps (add_caninfo json memory answers kind info l)) where
    grow_caninfo-Keeps :
        (kind : ℕ) (info : CanidInfo) (l : List (Option J))
        → Keeps (grow_caninfo json memory answers kind info l)
    unfolding grow_caninfo
    grow_caninfo-Keeps kind info l s s' n r h =
        let grown = record s { dict = requested s.dict } in
        ground (arith, adds kind info l s s' n r, adds kind info l grown s' n (asks s r))

    data_of-Keeps :
        (kind : ℕ) (info : CanidInfo) (v : Option J)
        → Keeps (data_of json memory answers kind info v)
    unfolding data_of
    data_of-Keeps kind info none s s' n r h = Keeps-done 1 s s' n r h
    data_of-Keeps kind info (some v) s s' n r h = elim (Option-cases (elements json (some v))) [
      | inl gone ↦ let same : s' ≡ s = ground (arith, gone) in rw same r
      | inr (l, there) ↦ grow_caninfo-Keeps kind info l s s' n r (ground (arith, there))
    ]

    -- Reading a CAN-ID keeps what a request for memory and an array of entries keep.
    pub parse_caninfo-Keeps :
        (canid : ℕ) (obj : Option J) (kind : ℕ)
        → Keeps (parse_caninfo json memory answers canid obj kind)
    unfolding parse_caninfo read_caninfo
    parse_caninfo-Keeps canid obj kind s s' n r h =
        elim (Option-cases (get_canid_dict canid s.dict)) [
          | inr (other, known) ↦ let same : s' ≡ s = ground (arith, known) in rw same r
          | inl fresh ↦
              let s1 = record s { dict = requested s.dict } in
              elim (Bool-cases (memory s.dict.requests)) [
                | inr refused ↦
                    let same : s' ≡ s1 = ground (arith, fresh, refused) in rw same (asks s r)
                | inl granted ↦
                    let ran : read_caninfo json memory answers canid obj kind s1 ≡ done (s', n) =
                      ground (arith, fresh, granted) in
                    let (mode, first, later) =
                      >>=-eq-done (mode_of json (json.get_ex obj (codes "MODE"))) _ ran in
                    let cycle = cycle_of json mode (json.get_ex obj (codes "CYCLE")) in
                    let dlc = dlc_of json (json.get_ex obj (codes "DLC")) in
                    data_of-Keeps kind (new_caninfo canid kind mode cycle dlc)
                      (json.get_ex obj (codes "DATA")) s1 s' n (asks s r) later
              ]
        ]

  module _ {J : Type 0} (json : JsonC J) (memory : ℕ → Bool) (answers : ℕ → TimerAnswers)
      (strtol : CString → ℤ)
      (keeps : (canid : ℕ) (obj : Option J) (kind : ℕ)
        → Keeps (parse_caninfo json memory answers canid obj kind)) where
    canid_def-Keeps :
        (kind : ℕ) (key : CString) (val : Option J)
        → Keeps (canid_def json memory answers strtol kind key val)
    unfolding canid_def
    canid_def-Keeps kind key val s s' n i h =
        let canid = u16 (to_u32 (strtol key)) in
        let ((s1, n1), first, later) =
          >>=-eq-done (parse_caninfo json memory answers canid val kind s) _ h in
        let same : s' ≡ s1 = ground arith in rw same (keeps canid val kind s s1 n1 i first)

    parse_canid_def-Keeps :
        (kind : ℕ) (obj : Option J) → Keeps (parse_canid_def json memory answers strtol kind obj)
    unfolding parse_canid_def
    parse_canid_def-Keeps kind obj s s' n i h =
        let (l, first, later) = >>=-eq-done (defined (members json obj)) _ h in
        each-Keeps (canid_def json memory answers strtol kind) l (canid_def-Keeps kind) s s' n i
          later

    standard_or_extended-Keeps :
        (kind : ℕ) (key : CString) (val : Option J)
        → Keeps (standard_or_extended json memory answers strtol kind key val)
    unfolding standard_or_extended
    standard_or_extended-Keeps kind key val s s' n i h =
        ground (arith, parse_canid_def-Keeps kind val s s' n i)

    parse_recept_and_transmission-Keeps :
        (kind : ℕ) (obj : Option J)
        → Keeps (parse_recept_and_transmission json memory answers strtol kind obj)
    unfolding parse_recept_and_transmission
    parse_recept_and_transmission-Keeps kind obj s s' n i h =
        let (l, first, later) = >>=-eq-done (defined (members json obj)) _ h in
        each-Keeps (standard_or_extended json memory answers strtol kind) l
          (standard_or_extended-Keeps kind) s s' n i later

    reception_or_transmission-Keeps :
        (key : CString) (val : Option J)
        → Keeps (reception_or_transmission json memory answers strtol key val)
    unfolding reception_or_transmission
    reception_or_transmission-Keeps key val s s' n i h = ground (
      arith,
      parse_recept_and_transmission-Keeps can_kind_readonly val s s' n i,
      parse_recept_and_transmission-Keeps can_kind_send val s s' n i,
    )

    parse_json-Keeps : (obj : Option J) → Keeps (parse_json json memory answers strtol obj)
    unfolding parse_json
    parse_json-Keeps obj s s' n i h =
        let (l, first, later) = >>=-eq-done (defined (members json obj)) _ h in
        each-Keeps (reception_or_transmission json memory answers strtol) l
          reception_or_transmission-Keeps s s' n i later

    pub can_define_init-Keeps :
        (fname : Option CString) → Keeps (can_define_init json memory answers strtol fname)
    unfolding can_define_init
    can_define_init-Keeps fname s s' n i h = elim (Option-cases (json.from_file fname)) [
      | inl gone ↦ let same : s' ≡ s = ground (arith, gone) in rw same i
      | inr (jobj, there) ↦
          let drop_errors : Loader × ℕ → Run (Loader × ℕ) = λ r. done (r.0, 0) in
          let ran : (parse_json json memory answers strtol (some jobj) s >>= drop_errors)
              ≡ done (s', n) =
            ground (arith, there) in
          let ((s1, n1), first, later) =
            >>=-eq-done (parse_json json memory answers strtol (some jobj) s) _ ran in
          let same : s' ≡ s1 = ground arith in
          rw same (parse_json-Keeps (some jobj) s s1 n1 i first)
    ]
