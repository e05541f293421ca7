-- ===== src/Client/Udp.antt =====
-- wlan_br_client/udp_client.c
use wlan_bridge.Common.{
  ℕ, none, some, List, [], ◌∷◌, map, ◌==◌, if◌then◌else◌, length, ℤ, pos, negsuc, ◌==ℤ◌,
}
use wlan_bridge.Net.{SockaddrIn, htons}
use wlan_bridge.Udp.{Arrival, nothing, recv_error}
use wlan_bridge.Client.{
  recvmmsg, socket, close, sendto, sendmmsg, recvfrom, Kernel, Client, called, load,
}

-- All of `serv_adr` zero, as memset leaves it.
abbrev no_addr : SockaddrIn
no_addr = record { sin_family = 0; sin_port = 0; s_addr = 0 }

module _ (kernel : Kernel) where
  -- `server_ip` is the address that inet_addr reads off the text.
  unfoldable pub create_udp_client : Client → (port server_ip : ℕ) → ℤ × Client
  create_udp_client s port server_ip =
      let s' = called s socket in
      let fd = kernel.ret s'.log in
      if fd ==ℤ negsuc 0 then (negsuc 0, record s' { udp_sock = fd }) else (
        fd,
        record s' {
          udp_sock = fd;
          serv_adr = record { sin_family = 2; sin_port = htons port; s_addr = server_ip };
        },
      )

  -- Both branches on the result return it.
  unfoldable pub send_data_use_udp : Client → ℕ → List ℕ → ℤ × Client
  send_data_use_udp s len buf =
      let s' = called s (sendto s.udp_sock (record { len = len; buf = buf; addr = s.serv_adr })) in
      (kernel.ret s'.log, s')

  -- The messages all go to the server.
  unfoldable send_data_use_udp_burst : Client → List (ℕ × List ℕ) → ℤ × Client
  send_data_use_udp_burst s msgs =
      let s' = called s (
        sendmmsg s.udp_sock
          (map (λ (m : ℕ × List ℕ). record { len = m.0; buf = m.1; addr = s.serv_adr }) msgs)) in
      let retval = kernel.ret s'.log in
      if retval ==ℤ pos (length msgs) then (retval, s') else (negsuc 0, s')

  -- The result, and the buffer.
  unfoldable pub read_data_from_udp : Client → (max_len : ℕ) → List ℕ → ℤ × List ℕ × Client
  unfolding load
  read_data_from_udp s max_len buf =
      let s' = called s (recvfrom s.udp_sock max_len) in
      elim (kernel.got s'.log) [
        | none ↦ (negsuc 0, buf, s')
        | some bytes ↦
            let (n, buf') = load max_len bytes buf in (if n == 0 then negsuc 0 else pos n, buf', s')
      ]

-- A place of the arrays buf and data_len; the senders' addresses stay inside the function.
record Place : Type 0 where
  pub buf : List ℕ
  pub data_len : ℕ

-- The first places are filled, one for each arrival.
unfoldable load_all : ℕ → List Place → List Arrival → List Place
unfolding load
load_all max_len [] arrivals = []
load_all max_len (p ∷ ps) [] = p ∷ ps
load_all max_len (p ∷ ps) (a ∷ arrivals) =
    let (n, buf') = load max_len a.bytes p.buf in
    record { buf = buf'; data_len = n } ∷ load_all max_len ps arrivals

module _ (kernel : Kernel) where
  unfoldable read_data_from_udp_burst : Client → ℕ → List Place → ℤ × List Place × Client
  unfolding load_all
  read_data_from_udp_burst s max_len places =
      let s' = called s (recvmmsg s.udp_sock max_len (length places)) in
      let r = kernel.arrived s'.log in
      if nothing r
      then (recv_error r, places, s')
      else (pos (length r.arrivals), load_all max_len places r.arrivals, s')

unfoldable pub destroy_udp_client : Client → Client
destroy_udp_client s =
    let s' = record s { serv_adr = no_addr } in
    if s.udp_sock ==ℤ negsuc 0
    then s'
    else record (called s' (close s.udp_sock)) { udp_sock = negsuc 0 }
