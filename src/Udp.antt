-- ===== src/Udp.antt =====
-- wlan_br_server/udp.c. The kernel is a parameter: it answers a call as a function of all calls made
-- so far, that one included. `log` lists the calls in order.
pub mod Send
pub mod Receive
pub mod Adds
use wlan_bridge.Common.{
  ℕ, ◌*◌, Bool, not, ◌&&◌, ◌||◌, Option, none, some, List, [], ◌∷◌, ◌++◌, map, ◌==◌, if◌then◌else◌,
  length, take, drop, ℤ, pos, negsuc, ◌==ℤ◌,
}
use mathlib.Core.Option
use mathlib.Core.List
use wlan_bridge.Net.{SockaddrIn, Datagram, htons}

pub data Call : Type 0 where
  socket : Call
  bind : ℤ → SockaddrIn → Call
  set_rcvbuf : ℤ → ℕ → Call
  set_sndbuf : ℤ → ℕ → Call
  sendto : ℤ → Datagram → Call
  sendmmsg : ℤ → List Datagram → Call
  recvfrom : ℤ → ℕ → Call
  recvmmsg : ℤ → (max_len max_num : ℕ) → Call
  usleep : ℕ → Call
  close : ℤ → Call

-- What sendmmsg leaves: its result, errno, and the msg_len of each message.
pub record SendReply : Type 0 where
  pub retval : ℤ
  pub errno : ℕ
  pub msg_len : List ℕ

-- A datagram that arrived: its bytes, and who sent it.
pub record Arrival : Type 0 where
  pub bytes : List ℕ
  pub from : SockaddrIn

-- What recvfrom or recvmmsg leaves: what arrived, or that it failed, and errno.
pub record RecvReply : Type 0 where
  pub failed : Bool
  pub errno : ℕ
  pub arrivals : List Arrival

pub record Kernel : Type 0 where
  pub socket_ret : List Call → ℤ
  pub bind_ret : List Call → ℤ
  pub setsockopt_ret : List Call → ℤ
  pub sendto_ret : List Call → ℤ
  pub sendmmsg_ret : List Call → SendReply
  pub recv_ret : List Call → RecvReply

pub record Udp : Type 0 where
  pub serv_sock : ℤ
  pub log : List Call

-- EAGAIN of <errno.h>
abbrev pub eagain : ℕ
eagain = 11

-- The file after one more call.
abbrev pub called : Udp → Call → Udp
called s c = record s { log = s.log ++ c ∷ [] }

module _ (kernel : Kernel) where
  -- Both branches on the result return it.
  unfoldable pub send_data_to_udp_client : Udp → ℕ → List ℕ → SockaddrIn → ℤ × Udp
  send_data_to_udp_client s len buf peer_addr =
      let s' = called s (sendto s.serv_sock (record { len = len; buf = buf; addr = peer_addr })) in
      (kernel.sendto_ret s'.log, s')

-- The messages whose msg_len is not their length, in order. A message beyond the reply's end has the
-- msg_len 0 that memset gave it.
unfoldable pub unsent : List Datagram → List ℕ → List Datagram
unsent [] lens = []
unsent (m ∷ ms) [] = if 0 == m.len then unsent ms [] else m ∷ unsent ms []
unsent (m ∷ ms) (n ∷ lens) = if n == m.len then unsent ms lens else m ∷ unsent ms lens

module _ (kernel : Kernel) where
  -- usleep(20), and the second sendmmsg, over the messages that were not sent.
  resend : Udp → List Datagram → ℤ × Udp
  resend s resend_mmsg =
      let s' = called (called s (usleep 20)) (sendmmsg s.serv_sock resend_mmsg) in
      let retval = (kernel.sendmmsg_ret s'.log).retval in
      if retval ==ℤ pos (length resend_mmsg) then (retval, s') else (negsuc 0, s')

  unfoldable pub send_data_to_udp_client_burst : Udp → List Datagram → ℤ × Udp
  unfolding unsent resend
  send_data_to_udp_client_burst s mmsg =
      let s' = called s (sendmmsg s.serv_sock mmsg) in
      let reply = kernel.sendmmsg_ret s'.log in
      let resend_mmsg = unsent mmsg reply.msg_len in
      if reply.retval ==ℤ pos (length mmsg)
      then (reply.retval, s')
      else if (reply.errno == eagain) && not (length resend_mmsg == 0)
      then resend s' resend_mmsg
      else (negsuc 0, s')

-- INADDR_ANY and the port, in network byte order.
unfoldable pub any_addr : ℕ → SockaddrIn
any_addr port = record { sin_family = 2; sin_port = htons port; s_addr = 0 }

-- One place of the arrays buf, data_len and peer_addr of the receive loop.
pub record Slot : Type 0 where
  pub buf : List ℕ
  pub data_len : ℕ
  pub peer_addr : SockaddrIn

-- What the kernel writes: at most `max_len` bytes, over what the buffer held.
unfoldable pub fill : ℕ → Slot → Arrival → Slot
fill max_len s a =
    let got = take max_len a.bytes in
    record { buf = got ++ drop (length got) s.buf; data_len = length got; peer_addr = a.from }

-- The first places are filled, one for each arrival.
unfoldable pub fill_all : ℕ → List Slot → List Arrival → List Slot
unfolding fill
fill_all max_len [] arrivals = []
fill_all max_len (s ∷ ss) [] = s ∷ ss
fill_all max_len (s ∷ ss) (a ∷ arrivals) = fill max_len s a ∷ fill_all max_len ss arrivals

-- recv_len <= 0
abbrev pub nothing : RecvReply → Bool
nothing r = r.failed || length r.arrivals == 0

-- The result where nothing was received.
abbrev pub recv_error : RecvReply → ℤ
recv_error r = if r.errno == eagain then negsuc 1 else negsuc 0

module _ (kernel : Kernel) where
  unfoldable pub read_data_from_udp_client_burst : Udp → ℕ → List Slot → ℤ × List Slot × Udp
  unfolding fill_all
  read_data_from_udp_client_burst s max_len slots =
      let s' = called s (recvmmsg s.serv_sock max_len (length slots)) in
      let r = kernel.recv_ret s'.log in
      if nothing r
      then (recv_error r, slots, s')
      else (pos (length r.arrivals), fill_all max_len slots r.arrivals, s')

  -- The first arrival's length; recvfrom takes one datagram.
  unfoldable pub first_len : ℕ → List Arrival → ℕ
  first_len max_len [] = 0
  first_len max_len (a ∷ as') = length (take max_len a.bytes)

  -- What recvfrom leaves in the buffer and the address.
  received : ℕ → Slot → List Arrival → Slot
  unfolding fill
  received max_len slot [] = slot
  received max_len slot (a ∷ as') = fill max_len slot a

  -- Where `buf` or `peer_addr` is NULL there is no slot.
  unfoldable pub read_data_from_udp_client : Udp → ℕ → Option Slot → ℤ × Option Slot × Udp
  unfolding received first_len
  read_data_from_udp_client s max_len none = (negsuc 0, none, s)
  read_data_from_udp_client s max_len (some slot) =
      let s' = called s (recvfrom s.serv_sock max_len) in
      let r = kernel.recv_ret s'.log in
      let n = first_len max_len r.arrivals in
      let slot' = if r.failed then slot else received max_len slot r.arrivals in
      (if r.failed || n == 0 then recv_error r else pos n, some slot', s')

  -- Behind the bind: the two buffer sizes, whose failure is only logged.
  set_buffers : Udp → ℤ × Udp
  set_buffers s = (
    s.serv_sock,
    called (called s (set_rcvbuf s.serv_sock (1024 * 1024))) (set_sndbuf s.serv_sock (1024 * 1024)),
  )

  unfoldable pub create_udp_server : Udp → ℕ → ℤ × Udp
  unfolding any_addr set_buffers
  create_udp_server s port =
      let s' = called s socket in
      let fd = kernel.socket_ret s'.log in
      let s'' = record s' { serv_sock = fd } in
      if fd ==ℤ negsuc 0
      then (negsuc 0, s'')
      else let bound = called s'' (bind fd (any_addr port)) in
        if kernel.bind_ret bound.log ==ℤ negsuc 0 then (negsuc 0, bound) else set_buffers bound

unfoldable pub destroy_udp_server : Udp → Udp
destroy_udp_server s =
    if s.serv_sock ==ℤ negsuc 0
    then s
    else record { serv_sock = negsuc 0; log = s.log ++ close s.serv_sock ∷ [] }
