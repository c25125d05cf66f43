-- ===== src/Binding/Service/Laws.antt =====
-- What a start of the service leaves behind.
use agl_can_binder.Base.{
  ℕ, zero, suc, ◌≡◌, refl, Bool, false, inl, inr, none, some, Option, List, [], ◌∷◌, CString, ℤ,
  pos, negsuc, arith, Bool-cases, Option-cases,
}
use agl_can_binder.SocketcanRaw.{Socket, OpenAnswers, can_sff_mask, is_negative, socketcan_open}
use agl_can_binder.CanSignalEvent.Send.{TimerAnswers}
use agl_can_binder.CanJson.JsonC.{JsonC}
use agl_can_binder.CanJson.Run.{Run-cases, done}
use agl_can_binder.CanJson.Member.Laws.{HasKeys}
use agl_can_binder.CanJson.Load.{Loader}
use agl_can_binder.CanJson.Load.Ready.{IsReady}
use agl_can_binder.CanJson.Load.Keeps.{Keeps}
use agl_can_binder.CanJson.Load.File.{can_define_init}
use agl_can_binder.CanJson.Load.Laws.{can_define_init-IsReady}
use agl_can_binder.Binding.Service.{
  ServiceAnswers, CaniviConf, Setup, watch_socket, connection, init_conf, connect_if, service_init,
}
use agl_can_binder.Binding.Service.Reads.{Reads, init_conf-Reads}

-- A socket that is open for reading and sending, watched, and lets no CAN-ID pass but one of all
-- ones.
abbrev pub Started : Setup → Setup → Type 0
Started s s' =
    (s'.loader ≡ record s.loader { watched = s'.socket.canfd ∷ s.loader.watched })
    × (is_negative s'.socket.canfd ≡ false)
    × (s'.socket.can_sendfd ≡ s'.socket.canfd)
    × (s'.socket.filters ≡ record { can_id = can_sff_mask; can_mask = can_sff_mask } ∷ [])
    × (s'.socket.closed ≡ s.socket.closed)

socketcan_open-succeeds :
    (answers : OpenAnswers) (devname : CString) (sock sock' : Socket) (fd : ℤ)
    → socketcan_open answers devname sock ≡ some (sock', fd)
    → is_negative fd ≡ false
    → sock' ≡ record sock {
      canfd = fd;
      can_sendfd = fd;
      filters = record { can_id = can_sff_mask; can_mask = can_sff_mask } ∷ [];
    }
unfolding socketcan_open
socketcan_open-succeeds answers devname sock sock' fd h ok = ground (arith, h, ok)

connection-Started :
    (answers : ServiceAnswers) (conf : CaniviConf) (s s' : Setup)
    → connection answers conf s ≡ done (s', pos 0)
    → Started s s'
unfolding connection watch_socket socketcan_open
connection-Started answers conf s s' h = elim (Option-cases conf.devname) [
  | inl unset ↦ absurd (ground (arith, unset))
  | inr (devname, set) ↦ elim (Option-cases (socketcan_open answers.can_open devname s.socket)) [
    | inl overflow ↦ absurd (ground (arith, set, overflow))
    | inr ((sock, fd), opening) ↦ elim (Bool-cases (is_negative fd)) [
      | inl failed ↦ absurd (ground (arith, set, opening, failed))
      | inr ok ↦ elim (Bool-cases (is_negative answers.add_io)) [
        | inl failed ↦ absurd (ground (arith, set, opening, ok, failed))
        | inr added ↦
            let opened =
              socketcan_open-succeeds answers.can_open devname s.socket sock fd opening ok in
            let same : s' ≡ record s {
              socket = sock;
              loader = record s.loader { watched = fd ∷ s.loader.watched };
            } =
              ground (arith, set, opening, ok, added) in
            rw (same, opened) (refl, ok, refl, refl, refl)
      ]
    ]
  ]
]

-- For a property of the loader that loading a CAN definition file keeps.
module _ {J : Type 0} (json : JsonC J) (memory : ℕ → Bool) (timers : ℕ → TimerAnswers)
    (strtol : CString → ℤ) (I : Loader → Type 0)
    (keeps : (fname : Option CString)
      → Keeps I (can_define_init json memory timers strtol fname)) where
  connect_if-Started :
      (answers : ServiceAnswers) (conf : CaniviConf) (s s' : Setup) (err : ℤ)
      → connect_if answers conf s err ≡ done (s', pos 0)
      → Started s s'
  unfolding connect_if
  connect_if-Started answers conf s s' (pos zero) h = connection-Started answers conf s s' h
  connect_if-Started answers conf s s' (pos (suc n)) h = absurd (ground arith)
  connect_if-Started answers conf s s' (negsuc n) h = absurd (ground arith)

  -- A start that returns 0 has read the configuration, and then set up the socket.
  pub service_init-Started :
      (answers : ServiceAnswers) (s s' : Setup)
      → service_init json memory timers strtol answers s ≡ done (s', pos 0)
      → (s1 : Setup) × Reads I s s1 × Started s1 s'
  unfolding service_init
  service_init-Started answers s s' h = elim (Bool-cases (is_negative answers.fd_conf)) [
    | inl gone ↦ absurd (ground (arith, gone))
    | inr there ↦
        elim (Run-cases
          (init_conf json memory timers strtol answers (record { devname = none }) s)) [
            | inl ((conf, s1, err), read) ↦ (
              s1,
              init_conf-Reads json memory timers strtol I keeps answers (record { devname = none })
                  conf s s1 err read,
              connect_if-Started answers conf s1 s' err (ground (arith, there, read)),
            )
            | inr (inl left) ↦ absurd (ground (arith, there, left))
            | inr (inr bad) ↦ absurd (ground (arith, there, bad))
          ]
  ]

module _ {J : Type 0} (json : JsonC J) (keys : HasKeys json) (memory : ℕ → Bool)
    (timers : ℕ → TimerAnswers) (strtol : CString → ℤ) where
  -- A start of the service that returns 0, whatever the configuration and the CAN definition file
  -- hold, if no object has a key twice: dictionaries that were sound, with entries as a file may
  -- define them, still are; both descriptors are the one of a socket that is open and watched by the
  -- event loop, no descriptor was closed, and the filter is the one with 0x7ff alone.
  pub service_init_started :
      (answers : ServiceAnswers) (s s' : Setup)
      → IsReady s.loader
      → service_init json memory timers strtol answers s ≡ done (s', pos 0)
      → IsReady s'.loader
        × ((l : List ℤ) × (s'.loader.watched ≡ s'.socket.canfd ∷ l))
        × (is_negative s'.socket.canfd ≡ false)
        × (s'.socket.can_sendfd ≡ s'.socket.canfd)
        × (s'.socket.filters ≡ record { can_id = can_sff_mask; can_mask = can_sff_mask } ∷ [])
        × (s'.socket.closed ≡ s.socket.closed)
  service_init_started answers s s' ready h =
      let (s1, (loads, sock), (loader, opened, sending, filters, closed)) =
        service_init-Started json memory timers strtol IsReady
          (can_define_init-IsReady json keys memory timers strtol) answers s s' h in
      (
        rw loader (record { sound = (loads ready).sound; loaded = (loads ready).loaded }),
        (s1.loader.watched, rw loader refl),
        opened,
        sending,
        filters,
        rw (closed, sock) refl,
      )
