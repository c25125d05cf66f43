-- ===== src/CanJson/Load/File.antt =====
-- src/can_json.c: from `parse_canid_def` to `can_define_init`. `strtol` reads a number in base 16.
use agl_can_binder.Base.{
  ℕ, ◌+◌, Bool, false, not, Option, none, some, List, [], ◌∷◌, ◌==◌, u16, CString, codes, str_eq,
  if◌then◌else◌, ℤ, pos, negsuc, to_u32,
}
use agl_can_binder.CanidInfo.Types.{can_kind_send}
use agl_can_binder.CanSignalEvent.Send.{TimerAnswers}
use agl_can_binder.CanJson.JsonC.{JsonC, members}
use agl_can_binder.CanJson.Run.{Run, done, ◌>>=◌, defined}
use agl_can_binder.CanJson.Load.{Loader, can_kind_readonly, parse_caninfo}

-- `json_object_object_foreach` with a body that returns a number of errors.
unfoldable pub each :
    {J : Type 0}
    → (CString → Option J → Loader → Run (Loader × ℕ))
    → List (CString × Option J)
    → Loader
    → Run (Loader × ℕ)
each body [] s = done (s, 0)
each body ((key, val) ∷ rest) s = do
  (s', n) ← body key val s
  (s'', m) ← each body rest s'
  done (s'', n + m)

abbrev pub is_positive : ℤ → Bool
is_positive (pos n) = not (n == 0)
is_positive (negsuc n) = false

module _ {J : Type 0} (json : JsonC J) (memory : ℕ → Bool) (answers : ℕ → TimerAnswers)
    (strtol : CString → ℤ) where
  -- The body of `parse_canid_def`: a CAN-ID of 0 or less is an error, and is parsed all the same; what
  -- `parse_caninfo` returns is dropped.
  unfoldable pub canid_def : ℕ → CString → Option J → Loader → Run (Loader × ℕ)
  canid_def kind key val s = do
    (s', err) ← parse_caninfo json memory answers (u16 (to_u32 (strtol key))) val kind s
    done (s', if is_positive (strtol key) then 0 else 1)

  unfoldable pub parse_canid_def : ℕ → Option J → Loader → Run (Loader × ℕ)
  unfolding canid_def each
  parse_canid_def kind obj s = do l ← defined (members json obj); each (canid_def kind) l s

  unfoldable pub standard_or_extended : ℕ → CString → Option J → Loader → Run (Loader × ℕ)
  unfolding parse_canid_def
  standard_or_extended kind key val s =
      if str_eq key (codes "STANDARD")
      then parse_canid_def kind val s
      else if str_eq key (codes "EXTENDED")
      then done (s, 0)
      else done (s, 1)

  unfoldable pub parse_recept_and_transmission : ℕ → Option J → Loader → Run (Loader × ℕ)
  unfolding standard_or_extended
  parse_recept_and_transmission kind obj s = do
    l ← defined (members json obj)
    each (standard_or_extended kind) l s

  unfoldable pub reception_or_transmission : CString → Option J → Loader → Run (Loader × ℕ)
  unfolding parse_recept_and_transmission
  reception_or_transmission key val s =
      if str_eq key (codes "RECEPTION")
      then parse_recept_and_transmission can_kind_readonly val s
      else if str_eq key (codes "TRANSMISSION")
      then parse_recept_and_transmission can_kind_send val s
      else done (s, 1)

  unfoldable pub parse_json : Option J → Loader → Run (Loader × ℕ)
  unfolding reception_or_transmission
  parse_json obj s = do l ← defined (members json obj); each reception_or_transmission l s

  -- The errors in the file are not returned.
  unfoldable pub can_define_init : Option CString → Loader → Run (Loader × ℕ)
  unfolding parse_json
  can_define_init fname s = elim (json.from_file fname) [
    | none ↦ done (s, 1)
    | some jobj ↦ do (s', err) ← parse_json (some jobj) s; done (s', 0)
  ]
