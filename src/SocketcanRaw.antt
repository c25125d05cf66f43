-- ===== src/SocketcanRaw.antt =====
-- src/socketcan_raw.c. What the system calls answer is an argument: the descriptor or error of each,
-- and what `recvmsg` delivers. Descriptors and return values are C ints.
-- `setsockopt` is taken to succeed on a descriptor.
pub mod Laws
use agl_can_binder.Base.{
  ℕ, ◌+◌, Bool, true, false, not, Option, none, some, List, [], ◌∷◌, ◌++◌, map, length, leb, ltb,
  ◌==◌, if◌then◌else◌, CString, ℤ, pos, negsuc,
}
use agl_can_binder.CanidInfo.Types.{Timeval, CanFrame}

-- CAN_SFF_MASK and CAN_MTU of <linux/can.h>, and IFNAMSIZ of <net/if.h>.
abbrev pub can_sff_mask : ℕ
can_sff_mask = 0x7ff

abbrev pub can_mtu : ℕ
can_mtu = 16

abbrev pub ifnamsiz : ℕ
ifnamsiz = 16

-- struct can_filter
pub record CanFilter : Type 0 where
  pub can_id : ℕ
  pub can_mask : ℕ

-- `canfd`, `can_sendfd`, the filters of the socket, the frames that were sent, oldest first, and the
-- descriptors that were closed.
pub record Socket : Type 0 where
  pub canfd : ℤ
  pub can_sendfd : ℤ
  pub filters : List CanFilter
  pub sent : List CanFrame
  pub closed : List ℤ

abbrev pub is_negative : ℤ → Bool
is_negative (pos n) = false
is_negative (negsuc n) = true

-- What `socket`, `ioctl` and `bind` return.
pub record OpenAnswers : Type 0 where
  pub socket : ℤ
  pub ioctl : ℤ
  pub bind : ℤ

abbrev pub is_zero : ℤ → Bool
is_zero (pos n) = n == 0
is_zero (negsuc n) = false

-- `close(s); return -1`
abbrev socket_error : ℤ → Socket → Socket × ℤ
socket_error s sock = (record sock { closed = s ∷ sock.closed }, negsuc 0)

-- The socket with both descriptors set and its first filter.
abbrev opened : ℤ → Socket → Socket
opened s sock = record sock {
  canfd = s;
  can_sendfd = s;
  filters = record { can_id = can_sff_mask; can_mask = can_sff_mask } ∷ [];
}

-- `none` is a name that `strcpy` writes past the end of `ifr_name`.
unfoldable pub socketcan_open : OpenAnswers → CString → Socket → Option (Socket × ℤ)
socketcan_open answers devname sock =
    if is_negative answers.socket
    then some (sock, negsuc 0)
    else if leb ifnamsiz (length devname)
    then none
    else if not (is_zero answers.ioctl)
    then some (socket_error answers.socket (opened answers.socket sock))
    else if not (is_zero answers.bind)
    then some (socket_error answers.socket (opened answers.socket sock))
    else some (opened answers.socket sock, answers.socket)

unfoldable pub socketcan_close : ℤ → Socket → Socket
socketcan_close s sock =
    if is_negative s
    then sock
    else record sock { canfd = negsuc 0; can_sendfd = negsuc 0; closed = s ∷ sock.closed }

-- An empty list changes nothing; `setsockopt` fails without a descriptor, and its failure is not
-- looked at.
unfoldable pub socketcan_update_filter : List ℕ → Socket → Socket
socketcan_update_filter [] sock = sock
socketcan_update_filter (c ∷ rest) sock = if is_negative sock.canfd then sock else record sock {
  filters = map (λ id. record { can_id = id; can_mask = can_sff_mask }) (c ∷ rest);
}

-- `sends` says whether `send` takes the whole frame.
unfoldable pub socketcan_send : (CanFrame → Bool) → CanFrame → Socket → Socket × ℤ
socketcan_send sends frame sock =
    if is_negative sock.can_sendfd
    then (sock, negsuc 0)
    else if sends frame
    then (record sock { sent = sock.sent ++ frame ∷ [] }, pos 0)
    else (sock, negsuc 0)

-- What `recvmsg` delivers: the number of bytes or an error, whether `errno` then says to try again,
-- the frame, and the time stamp of the control messages, if there is one.
pub record Received : Type 0 where
  pub nbyte : ℤ
  pub again : Bool
  pub frame : CanFrame
  pub stamp : Option Timeval

-- The return value 0 with the frame and `*tm`, 1, or -1.
pub data Reading : Type 0 where
  received : CanFrame → Timeval → Reading
  timed_out failed : Reading

-- `tm` is the value that the caller's variable has before the call.
abbrev stamp_or : Option Timeval → Timeval → Timeval
stamp_or none tm = tm
stamp_or (some t) tm = t

abbrev nothing_read : Bool → Reading
nothing_read again = if again then timed_out else failed

read_bytes : ℤ → Received → Timeval → Reading
read_bytes (negsuc n) r tm = nothing_read r.again
read_bytes (pos n) r tm =
    if n == 0
    then nothing_read r.again
    else if ltb n can_mtu
    then failed
    else received r.frame (stamp_or r.stamp tm)

unfoldable pub socketcan_read : Received → Timeval → Reading
unfolding read_bytes
socketcan_read r tm = read_bytes r.nbyte r tm
