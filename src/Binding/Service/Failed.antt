-- ===== src/Binding/Service/Failed.antt =====
-- What a start of the service that fails leaves behind.
use agl_can_binder.Base.{
  ℕ, zero, suc, ◌≡◌, ◌≢◌, ◌⊎◌, ◌&&◌, refl, Bool, false, true, inl, inr, none, some, ◌∷◌, leb,
  length, if◌then◌else◌, CString, ℤ, pos, negsuc, arith, Bool-cases, Option-cases,
}
use agl_can_binder.SocketcanRaw.{
  Socket, OpenAnswers, is_negative, is_zero, ifnamsiz, socketcan_open, socketcan_close,
}
use agl_can_binder.CanSignalEvent.Send.{TimerAnswers}
use agl_can_binder.CanJson.JsonC.{JsonC}
use agl_can_binder.CanJson.Run.{Run-cases, done}
use agl_can_binder.CanJson.Member.Laws.{HasKeys}
use agl_can_binder.CanJson.Load.Ready.{IsReady}
use agl_can_binder.CanJson.Load.Laws.{can_define_init-IsReady}
use agl_can_binder.Binding.Service.{
  ServiceAnswers, CaniviConf, Setup, watch_socket, connection, init_conf, connect_if, service_init,
}
use agl_can_binder.Binding.Service.Reads.{init_conf-Reads}

-- The socket was opened and closed again. Its descriptor is forgotten if the event loop did not take
-- it, but not if `ioctl` or `bind` failed.
abbrev pub Reclosed : OpenAnswers → Socket → Socket → Type 0
Reclosed answers sock sock' =
    (is_negative answers.socket ≡ false)
    × (sock'.closed ≡ answers.socket ∷ sock.closed)
    × (sock'.canfd
        ≡ (if is_zero answers.ioctl && is_zero answers.bind then negsuc 0 else answers.socket))

-- A result other than 0 is -1, the loader stays, and so does the socket if it was not opened and
-- closed.
abbrev Fails : OpenAnswers → Setup → Setup → ℤ → Type 0
Fails answers s s' r =
    (r ≡ negsuc 0)
    × (s'.loader ≡ s.loader)
    × ((s'.socket ≡ s.socket) ⊎ Reclosed answers s.socket s'.socket)

socketcan_open-Fails :
    (answers : OpenAnswers) (devname : CString) (sock sock' : Socket) (fd : ℤ)
    → socketcan_open answers devname sock ≡ some (sock', fd)
    → is_negative fd ≡ true
    → (sock' ≡ sock) ⊎ Reclosed answers sock sock'
unfolding socketcan_open
socketcan_open-Fails answers devname sock sock' fd h failed =
    elim (Bool-cases (is_negative answers.socket)) [
      | inl none_made ↦ inl (ground arith)
      | inr made ↦ elim (Bool-cases (leb ifnamsiz (length devname))) [
        | inl overflow ↦ absurd (ground arith)
        | inr fits ↦ inr (ground (arith, made, fits))
      ]
    ]

socketcan_open-opens :
    (answers : OpenAnswers) (devname : CString) (sock sock' : Socket) (fd : ℤ)
    → socketcan_open answers devname sock ≡ some (sock', fd)
    → is_negative fd ≡ false
    → (fd ≡ answers.socket)
      × (sock'.closed ≡ sock.closed)
      × (is_zero answers.ioctl && is_zero answers.bind ≡ true)
unfolding socketcan_open
socketcan_open-opens answers devname sock sock' fd h ok = ground (arith, h, ok)

connection-Fails :
    (answers : ServiceAnswers) (conf : CaniviConf) (s s' : Setup) (r : ℤ)
    → connection answers conf s ≡ done (s', r)
    → r ≢ pos 0
    → Fails answers.can_open s s' r
unfolding connection watch_socket socketcan_open socketcan_close
connection-Fails answers conf s s' r h bad = elim (Option-cases conf.devname) [
  | inl unset ↦ absurd (ground (arith, unset))
  | inr (devname, set) ↦ elim (Option-cases (socketcan_open answers.can_open devname s.socket)) [
    | inl overflow ↦ absurd (ground (arith, set, overflow))
    | inr ((sock, fd), opening) ↦ elim (Bool-cases (is_negative fd)) [
      | inl failed ↦
          let shut =
            socketcan_open-Fails answers.can_open devname s.socket sock fd opening failed in
          let (same, result) : (s' ≡ record s { socket = sock }) × (r ≡ negsuc 0) =
            ground (arith, set, opening, failed) in
          rw (same, result) (refl, refl, shut)
      | inr ok ↦ elim (Bool-cases (is_negative answers.add_io)) [
        | inl refused ↦
            let (one, kept, fine) =
              socketcan_open-opens answers.can_open devname s.socket sock fd opening ok in
            let (same, result) : (s' ≡ record s { socket = socketcan_close fd sock })
                × (r ≡ negsuc 0) =
              ground (arith, set, opening, ok, refused) in
            rw (same, result) (refl, refl, inr (ground (arith, ok, one, kept, fine)))
        | inr added ↦ absurd (ground (arith, set, opening, ok, added))
      ]
    ]
  ]
]

connect_if-Fails :
    (answers : ServiceAnswers) (conf : CaniviConf) (s s' : Setup) (err r : ℤ)
    → connect_if answers conf s err ≡ done (s', r)
    → r ≢ pos 0
    → Fails answers.can_open s s' r
unfolding connect_if
connect_if-Fails answers conf s s' (pos zero) r h bad = connection-Fails answers conf s s' r h bad
connect_if-Fails answers conf s s' (pos (suc n)) r h bad =
    let (same, result) : (s' ≡ s) × (r ≡ negsuc 0) = ground arith in
    rw (same, result) (refl, refl, inl refl)
connect_if-Fails answers conf s s' (negsuc n) r h bad =
    let (same, result) : (s' ≡ s) × (r ≡ negsuc 0) = ground arith in
    rw (same, result) (refl, refl, inl refl)

-- A start of the service that returns and does not succeed, whatever the configuration and the CAN
-- definition file hold, if no object has a key twice: it returns -1, and dictionaries that were
-- ready still are. The socket is as it was, or it was opened and its descriptor was closed, once;
-- `canfd` is then -1 if only the event loop refused the descriptor, and is still the closed
-- descriptor if `ioctl` or `bind` failed.
pub service_init_failed :
    {J : Type 0} (json : JsonC J) (keys : HasKeys json) (memory : ℕ → Bool)
    (timers : ℕ → TimerAnswers) (strtol : CString → ℤ) (answers : ServiceAnswers) (s s' : Setup)
    (r : ℤ)
    → service_init json memory timers strtol answers s ≡ done (s', r)
    → r ≢ pos 0
    → (r ≡ negsuc 0)
      × (IsReady s.loader → IsReady s'.loader)
      × ((s'.socket ≡ s.socket) ⊎ Reclosed answers.can_open s.socket s'.socket)
unfolding service_init
service_init_failed json keys memory timers strtol answers s s' r h bad =
    elim (Bool-cases (is_negative answers.fd_conf)) [
      | inl gone ↦
          let (same, result) : (s' ≡ s) × (r ≡ negsuc 0) = ground (arith, gone) in
          rw (same, result) (refl, (λ i. i), inl refl)
      | inr there ↦
          let unset : CaniviConf = record { devname = none } in
          elim (Run-cases (init_conf json memory timers strtol answers unset s)) [
            | inl ((conf, s1, err), read) ↦
                let (ready, sock) =
                  init_conf-Reads json memory timers strtol IsReady
                    (can_define_init-IsReady json keys memory timers strtol) answers unset conf s s1
                    err read in
                let (result, loader, shut) =
                  connect_if-Fails answers conf s1 s' err r (ground (arith, there, read)) bad in
                (result, (λ i. rw loader (ready i)), rw sock at shut)
            | inr (inl left) ↦ absurd (ground (arith, there, left))
            | inr (inr undone) ↦ absurd (ground (arith, there, undone))
          ]
    ]
