-- ===== src/Binding/Service.antt =====
-- src/af-canivi-binding.c: `connection`, `init_conf` and `afbBindingV1ServiceInit`. What the daemon and
-- the system answer is a record. `exited` is the `exit` of the loader.
pub mod Reads
pub mod Laws
pub mod Failed
use agl_can_binder.Base.{
  ℕ, zero, suc, Bool, true, false, Option, none, some, List, [], ◌∷◌, map, ◌==◌, if◌then◌else◌,
  CString, codes, str_eq, ℤ, pos, negsuc,
}
use mathlib.Core.Option
use agl_can_binder.SocketcanRaw.{Socket, OpenAnswers, is_negative, socketcan_open, socketcan_close}
use agl_can_binder.CanSignalEvent.Send.{TimerAnswers}
use agl_can_binder.CanJson.JsonC.{JsonC, members}
use agl_can_binder.CanJson.Run.{Run, done, exited, undefined, ◌>>=◌, defined}
use agl_can_binder.CanJson.Load.{Loader}
use agl_can_binder.CanJson.Load.File.{can_define_init}

-- What `afb_daemon_rootdir_open_locale` returns, whether `fdopen` gives a stream, the bytes of
-- canivi.json, the answers for the CAN socket, and what `sd_event_add_io` returns.
pub record ServiceAnswers : Type 0 where
  pub fd_conf : ℤ
  pub stream : Bool
  pub content : List ℕ
  pub can_open : OpenAnswers
  pub add_io : ℤ

-- struct canivi_conf; `none` is a pointer that was never set.
pub record CaniviConf : Type 0 where
  pub devname : Option CString

-- The state that the start of the service sets up.
pub record Setup : Type 0 where
  pub loader : Loader
  pub socket : Socket

abbrev pub conf_file_max : ℕ
conf_file_max = 1024

-- The string in a buffer of zeros into which the bytes were read; `none` is a buffer that they fill
-- without a NUL, which is read past its end.
unfoldable pub c_string : ℕ → List ℕ → Option CString
c_string zero l = none
c_string (suc n) [] = some []
c_string (suc n) (b ∷ l) =
    let rest = Option.map (◌∷◌ b) (c_string n l) in if b == 0 then some [] else rest

-- On a failure the socket is closed.
unfoldable pub watch_socket : ℤ → ℤ → Setup → Setup × ℤ
watch_socket add_io fd s =
    if is_negative add_io
    then (record s { socket = socketcan_close fd s.socket }, negsuc 0)
    else (record s { loader = record s.loader { watched = fd ∷ s.loader.watched } }, pos 0)

unfoldable pub connection : ServiceAnswers → CaniviConf → Setup → Run (Setup × ℤ)
unfolding watch_socket
connection answers conf s = do
  devname ← defined conf.devname
  (sock, fd) ← defined (socketcan_open answers.can_open devname s.socket)
  let s' = record s { socket = sock }
  done (if is_negative fd then (s', negsuc 0) else watch_socket answers.add_io fd s')

-- What follows `init_conf`: any result but 0 ends the start.
unfoldable pub connect_if : ServiceAnswers → CaniviConf → Setup → ℤ → Run (Setup × ℤ)
unfolding connection
connect_if answers conf s (pos zero) = connection answers conf s
connect_if answers conf s _ = done (s, negsuc 0)

module _ {J : Type 0} (json : JsonC J) (memory : ℕ → Bool) (timers : ℕ → TimerAnswers)
    (strtol : CString → ℤ) where
  -- The body of the loop in `init_conf`; `strdup` reads the string that it copies, and what
  -- `can_define_init` returns is dropped.
  unfoldable pub conf_field : CString → Option J → CaniviConf → Setup → Run (CaniviConf × Setup)
  conf_field key val conf s =
      let name : Run (CaniviConf × Setup) = do
        devname ← defined (json.get_string val)
        done (record conf { devname = some devname }, s)
      in let map_file : Run (CaniviConf × Setup) = do
        (loader, err) ← can_define_init json memory timers strtol (json.get_string val) s.loader
        done (conf, record s { loader = loader })
        in if str_eq key (codes "dev_name")
          then name
          else if str_eq key (codes "can_map")
          then map_file
          else done (conf, s)

  unfoldable pub conf_fields :
      List (CString × Option J) → CaniviConf → Setup → Run (CaniviConf × Setup)
  unfolding conf_field
  conf_fields [] conf s = done (conf, s)
  conf_fields ((key, val) ∷ rest) conf s = do
    (conf', s') ← conf_field key val conf s
    conf_fields rest conf' s'

  -- The loop over the parsed file, NULL for a file that is not JSON.
  unfoldable pub conf_object : Option J → CaniviConf → Setup → Run (CaniviConf × Setup × ℤ)
  unfolding conf_fields
  conf_object none conf s = done (conf, s, negsuc 0)
  conf_object (some jobj) conf s = do
    l ← defined (members json (some jobj))
    (conf', s') ← conf_fields l conf s
    done (conf', s', pos 0)

  unfoldable pub init_conf : ServiceAnswers → CaniviConf → Setup → Run (CaniviConf × Setup × ℤ)
  unfolding conf_object
  init_conf answers conf s = elim answers.stream [
    | false ↦ done (conf, s, negsuc 0)
    | true ↦ do
      filebuf ← defined (c_string conf_file_max answers.content)
      conf_object (json.tokener_parse filebuf) conf s
  ]

  -- `afbBindingV1ServiceInit`
  unfoldable pub service_init : ServiceAnswers → Setup → Run (Setup × ℤ)
  unfolding init_conf connect_if
  service_init answers s = elim (is_negative answers.fd_conf) [
    | true ↦ done (s, negsuc 0)
    | false ↦ do
      (conf, s', err) ← init_conf answers (record { devname = none }) s
      connect_if answers conf s' err
  ]
