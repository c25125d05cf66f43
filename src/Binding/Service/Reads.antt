-- ===== src/Binding/Service/Reads.antt =====
-- What reading the configuration keeps.
use agl_can_binder.Base.{
  ℕ, zero, suc, ◌==◌, ◌<◌, ◌≡◌, refl, Bool, inl, inr, Option, none, some, List, [], ◌∷◌, length,
  CString, codes, str_eq, ℤ, arith, Bool-cases, Option-cases,
}
use agl_can_binder.CanSignalEvent.Send.{TimerAnswers}
use agl_can_binder.CanJson.JsonC.{JsonC, members}
use agl_can_binder.CanJson.Run.{Run, done, ◌>>=◌, defined, >>=-eq-done}
use agl_can_binder.CanJson.Load.{Loader}
use agl_can_binder.CanJson.Load.File.{can_define_init}
use agl_can_binder.CanJson.Load.Keeps.{Keeps}
use agl_can_binder.Binding.Service.{
  ServiceAnswers, CaniviConf, Setup, conf_file_max, c_string, conf_field, conf_fields, conf_object,
  init_conf,
}

-- A file that leaves room for the terminator is read as a string.
pub c_string_total : (n : ℕ) (l : List ℕ) → length l < n → (s : CString) × (c_string n l ≡ some s)
unfolding c_string
c_string_total zero l h = absurd (omega (arith, h))
c_string_total (suc n) [] h = ([], refl)
c_string_total (suc n) (b ∷ l) h =
    let (s, there) = c_string_total n l (omega (arith, h)) in
    elim (Bool-cases (b == 0)) [
      | inl e ↦ ([], ground (arith, e))
      | inr e ↦ (b ∷ s, ground (arith, e, there))
    ]

-- What reading the configuration keeps: a property of the loader, and the socket.
abbrev pub Reads : (Loader → Type 0) → Setup → Setup → Type 0
Reads I s s' = (I s.loader → I s'.loader) × (s'.socket ≡ s.socket)

-- For a property that loading a CAN definition file keeps.
module _ {J : Type 0} (json : JsonC J) (memory : ℕ → Bool) (timers : ℕ → TimerAnswers)
    (strtol : CString → ℤ) (I : Loader → Type 0)
    (keeps : (fname : Option CString)
      → Keeps I (can_define_init json memory timers strtol fname)) where
  abbrev map_file : Option CString → CaniviConf → Setup → Run (CaniviConf × Setup)
  map_file fname conf s =
      let keep : Loader × ℕ → Run (CaniviConf × Setup) =
        λ r. done (conf, record s { loader = r.0 }) in
      can_define_init json memory timers strtol fname s.loader >>= keep

  map_file-Reads :
      (fname : Option CString) (conf conf' : CaniviConf) (s s' : Setup)
      → map_file fname conf s ≡ done (conf', s')
      → Reads I s s'
  map_file-Reads fname conf conf' s s' h =
      let ((loader, err), first, later) =
        >>=-eq-done (can_define_init json memory timers strtol fname s.loader) _ h in
      let same : s' ≡ record s { loader = loader } = ground arith in
      rw same ((λ r. keeps fname s.loader loader err r first), refl)

  conf_field-Reads :
      (key : CString) (val : Option J) (conf conf' : CaniviConf) (s s' : Setup)
      → conf_field json memory timers strtol key val conf s ≡ done (conf', s')
      → Reads I s s'
  unfolding conf_field
  conf_field-Reads key val conf conf' s s' h = elim (Bool-cases (str_eq key (codes "dev_name"))) [
    | inl e ↦ elim (Option-cases (json.get_string val)) [
      | inl gone ↦ absurd (ground (arith, e, gone))
      | inr (name, there) ↦ let same : s' ≡ s = ground (arith, e, there) in rw same ((λ r. r), refl)
    ]
    | inr e ↦ elim (Bool-cases (str_eq key (codes "can_map"))) [
      | inl f ↦ map_file-Reads (json.get_string val) conf conf' s s' (ground (arith, e, f))
      | inr f ↦ let same : s' ≡ s = ground (arith, e, f) in rw same ((λ r. r), refl)
    ]
  ]

  conf_fields-Reads :
      (l : List (CString × Option J)) (conf conf' : CaniviConf) (s s' : Setup)
      → conf_fields json memory timers strtol l conf s ≡ done (conf', s')
      → Reads I s s'
  unfolding conf_fields
  conf_fields-Reads [] conf conf' s s' h =
      let same : s' ≡ s = ground arith in rw same ((λ r. r), refl)
  conf_fields-Reads ((key, val) ∷ rest) conf conf' s s' h =
      let ((conf1, s1), first, later) =
        >>=-eq-done (conf_field json memory timers strtol key val conf s) _ h in
      let (ready, sock) = conf_field-Reads key val conf conf1 s s1 first in
      let (ready', sock') = conf_fields-Reads rest conf1 conf' s1 s' later in
      ((λ r. ready' (ready r)), rw sock' sock)

  conf_object-Reads :
      (obj : Option J) (conf conf' : CaniviConf) (s s' : Setup) (err : ℤ)
      → conf_object json memory timers strtol obj conf s ≡ done (conf', s', err)
      → Reads I s s'
  unfolding conf_object
  conf_object-Reads none conf conf' s s' err h =
      let same : s' ≡ s = ground arith in rw same ((λ r. r), refl)
  conf_object-Reads (some jobj) conf conf' s s' err h =
      let (l, first, later) = >>=-eq-done (defined (members json (some jobj))) _ h in
      let ((conf1, s1), second, last) =
        >>=-eq-done (conf_fields json memory timers strtol l conf s) _ later in
      let same : s' ≡ s1 = ground arith in rw same (conf_fields-Reads l conf conf1 s s1 second)

  pub init_conf-Reads :
      (answers : ServiceAnswers) (conf conf' : CaniviConf) (s s' : Setup) (err : ℤ)
      → init_conf json memory timers strtol answers conf s ≡ done (conf', s', err)
      → Reads I s s'
  unfolding init_conf
  init_conf-Reads answers conf conf' s s' err h = elim (Bool-cases answers.stream) [
    | inr closed ↦ let same : s' ≡ s = ground (arith, closed) in rw same ((λ r. r), refl)
    | inl stream ↦ elim (Option-cases (c_string conf_file_max answers.content)) [
      | inl gone ↦ absurd (ground (arith, stream, gone))
      | inr (filebuf, there) ↦
          conf_object-Reads (json.tokener_parse filebuf) conf conf' s s' err
            (ground (arith, stream, there))
    ]
  ]
