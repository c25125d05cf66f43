-- ===== src/SocketcanRaw/Laws.antt =====
-- The descriptors and filters of the CAN socket.
use agl_can_binder.Base.{
  ℕ, ◌≡◌, ◌⊎◌, refl, Bool, true, false, List, [], ◌∷◌, ◌++◌, map, arith, pos, negsuc, ◌%◌, ◌^◌,
  ◌==◌, bit_and, ◌||◌, bit_and_mask,
}
use agl_can_binder.CanidInfo.Types.{CanFrame}
use agl_can_binder.SocketcanRaw.{
  CanFilter, Socket, is_negative, socketcan_update_filter, socketcan_send, can_sff_mask,
}

-- How the kernel reads a filter: a frame passes where both agree under the mask.
abbrev pub passes : ℕ → List CanFilter → Bool
passes id [] = false
passes id (f ∷ rest) = (bit_and id f.can_mask == bit_and f.can_id f.can_mask) || passes id rest

-- The list of wanted CAN-IDs holds the eleven low bits of an identifier.
abbrev pub wanted : ℕ → List ℕ → Bool
wanted id [] = false
wanted id (c ∷ rest) = (id % 2 ^ 11 == c % 2 ^ 11) || wanted id rest

passes-map :
    (id : ℕ) (l : List ℕ)
    → passes id (map (λ c. record { can_id = c; can_mask = can_sff_mask }) l) ≡ wanted id l
passes-map id [] = refl
passes-map id (c ∷ rest) = ground (arith, bit_and_mask 11 id, bit_and_mask 11 c, passes-map id rest)

-- With an open descriptor, after an update with a list of CAN-IDs that is not empty exactly the
-- frames pass whose eleven low bits are those of one of the list.
pub passes-socketcan_update_filter :
    (id c : ℕ) (rest : List ℕ) (sock : Socket)
    → is_negative sock.canfd ≡ false
    → passes id (socketcan_update_filter (c ∷ rest) sock).filters ≡ wanted id (c ∷ rest)
unfolding socketcan_update_filter
passes-socketcan_update_filter id c rest sock opened = rw opened (passes-map id (c ∷ rest))

-- A send that fails leaves the log of frames; one that succeeds adds the frame at the end. It
-- succeeds exactly with an open descriptor that takes the whole frame.
pub socketcan_send_lem :
    (sends : CanFrame → Bool) (frame : CanFrame) (sock : Socket)
    → (((socketcan_send sends frame sock).1 ≡ pos 0)
        × ((socketcan_send sends frame sock).0.sent ≡ sock.sent ++ frame ∷ [])
        × (is_negative sock.can_sendfd ≡ false)
        × (sends frame ≡ true))
      ⊎ (((socketcan_send sends frame sock).1 ≡ negsuc 0)
          × ((socketcan_send sends frame sock).0.sent ≡ sock.sent)
          × ((is_negative sock.can_sendfd ≡ true) ⊎ (sends frame ≡ false)))
unfolding socketcan_send
socketcan_send_lem sends frame sock = ground arith
