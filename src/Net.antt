-- ===== src/Net.antt =====
-- What the program uses of <netinet/in.h>: `struct sockaddr_in`, and the datagrams it hands to the
-- kernel.
use wlan_bridge.Common.{ℕ, ◌+◌, ◌*◌, ◌/◌, ◌%◌, Bool, ◌&&◌, List, ◌==◌}

-- Port and address stand in network byte order, as the program keeps and compares them.
pub record SockaddrIn : Type 0 where
  pub sin_family : ℕ
  pub sin_port : ℕ
  pub s_addr : ℕ

-- The comparison that the program writes out at each place.
abbrev pub same_peer : SockaddrIn → SockaddrIn → Bool
same_peer a b = a.s_addr == b.s_addr && a.sin_port == b.sin_port

-- A datagram, with the peer that it came from or goes to.
pub record Datagram : Type 0 where
  pub len : ℕ
  pub buf : List ℕ
  pub addr : SockaddrIn

-- htons, on a little-endian machine.
unfoldable pub htons : ℕ → ℕ
htons port = port % 256 * 256 + port / 256
