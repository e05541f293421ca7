-- ===== src/Client.antt =====
-- wlan_br_client: the far end of a tunnel. What its files share: the calls of the kernel, whose
-- answers are functions of all calls made so far, and the statics of the three files.
pub mod Udp
pub mod Tuntap
pub mod Running
pub mod Cli
pub mod Start
pub mod Log
use wlan_bridge.Common.{ℕ, Bool, Option, List, [], ◌∷◌, ◌++◌, length, take, drop, ℤ}
use wlan_bridge.Ether.{Mac}
use wlan_bridge.Net.{SockaddrIn, Datagram}
use wlan_bridge.Main.{EpollStatInfo}
use wlan_bridge.Udp.{RecvReply}

-- The requests of ioctl; a name is an interface's, as character codes.
pub data Request : Type 0 where
  tunsetiff : List ℕ → (flags : ℕ) → Request
  tunsetnocsum tunsetdebug tunsetpersist : Request
  siocsifhwaddr : List ℕ → Mac → Request
  siocsifmtu : List ℕ → ℕ → Request
  siocgifflags : List ℕ → Request
  siocsifflags : List ℕ → (flags : ℕ) → Request
  siocgifindex : List ℕ → Request

pub data Call : Type 0 where
  open_tun : Call
  ioctl : ℤ → Request → Call
  socket : Call
  close : ℤ → Call
  sendto : ℤ → Datagram → Call
  sendmmsg : ℤ → List Datagram → Call
  recvfrom : ℤ → (max_len : ℕ) → Call
  write_to : ℤ → (len : ℕ) → List ℕ → Call
  read_from : ℤ → (max_len : ℕ) → Call
  writev : ℤ → List (ℕ × List ℕ) → Call
  readv : ℤ → (max_len max_num : ℕ) → Call
  recvmmsg : ℤ → (max_len max_num : ℕ) → Call

-- The result of a call; the bytes that a read finds (`none` if it fails); what recvmmsg leaves; the name that TUNSETIFF
-- leaves, and the flags that SIOCGIFFLAGS leaves.
pub record Kernel : Type 0 where
  pub ret : List Call → ℤ
  pub got : List Call → Option (List ℕ)
  pub arrived : List Call → RecvReply
  pub name_of : List Call → List ℕ
  pub flags_of : List Call → ℕ

-- tun_fd of tuntap.c; udp_sock and serv_adr of udp_client.c; the statics of main.c; the calls so far.
pub record Client : Type 0 where
  pub tun_fd : ℤ
  pub udp_sock : ℤ
  pub serv_adr : SockaddrIn
  pub tuntap_fd : ℤ
  pub udp_sock_fd : ℤ
  pub epoll_stat_info : EpollStatInfo
  pub rx_task_is_running : Bool
  pub log : List Call

abbrev pub called : Client → Call → Client
called s c = record s { log = s.log ++ c ∷ [] }

-- A buffer after a read of at most `max_len` bytes: the length read, and what the buffer then holds.
unfoldable pub load : ℕ → List ℕ → List ℕ → ℕ × List ℕ
load max_len bytes buf = let got = take max_len bytes in (length got, got ++ drop (length got) buf)
