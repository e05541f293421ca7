-- ===== src/Tests/Setup.antt =====
-- A bridge over association lists, with three peers, for the concrete runs.
use wlan_bridge.Common.{ℕ, Bool, true, false, List, [], ◌∷◌, Ptr, pos}
use native.Mathlib.Decide.{ℕ_discrete}
use wlan_bridge.Uthash.Assoc.{assoc}
use wlan_bridge.Utlist.{of_list}
use wlan_bridge.Ether.{Mac, Mac-discrete}
use wlan_bridge.Net.{SockaddrIn}
use wlan_bridge.Fdb.{FdbEntry}
use wlan_bridge.Peers.{WlanListEntry}
use wlan_bridge.Statistics.{zeroed}
use wlan_bridge.Udp.{Kernel}
use wlan_bridge.Forward.{Env, Bridge}

-- A kernel that sends every frame of 60 bytes whole.
abbrev pub willing : Kernel
willing = record {
  socket_ret = λ log. pos 3;
  bind_ret = λ log. pos 0;
  setsockopt_ret = λ log. pos 0;
  sendto_ret = λ log. pos 60;
  sendmmsg_ret = λ log. record { retval = pos 1; errno = 0; msg_len = 60 ∷ [] };
  recv_ret = λ log. record { failed = true; errno = 11; arrivals = [] };
}

abbrev env_of : (ℕ → Bool) → Env (List (Mac × FdbEntry)) (List WlanListEntry) (List (ℕ × Ptr))
env_of oom = record {
  macs = assoc Mac-discrete;
  ips = assoc ℕ_discrete;
  utlist = of_list;
  kernel = willing;
  fdb_oom = oom;
  list_oom = oom;
  stat_oom = oom;
}

abbrev pub env : Env (List (Mac × FdbEntry)) (List WlanListEntry) (List (ℕ × Ptr))
env = env_of (λ n. false)

abbrev pub peer : ℕ → SockaddrIn
peer n = record { sin_family = 2; sin_port = 29870; s_addr = n }

abbrev pub mac : ℕ → Mac
mac n = record { a0 = 2; a1 = 0; a2 = 0; a3 = 0; a4 = 0; a5 = n }

-- A frame from host `s` to host `d`, headers only.
abbrev pub frame : ℕ → ℕ → List ℕ
frame s d = 2 ∷ 0 ∷ 0 ∷ 0 ∷ 0 ∷ d ∷ 2 ∷ 0 ∷ 0 ∷ 0 ∷ 0 ∷ s ∷ 8 ∷ 0 ∷ []

abbrev pub broadcast : ℕ → List ℕ
broadcast s = 255 ∷ 255 ∷ 255 ∷ 255 ∷ 255 ∷ 255 ∷ 2 ∷ 0 ∷ 0 ∷ 0 ∷ 0 ∷ s ∷ 8 ∷ 6 ∷ []

abbrev pub start : Bridge (List (Mac × FdbEntry)) (List WlanListEntry) (List (ℕ × Ptr))
start = record {
  fdb = record { h_head = []; allocs = 0 };
  peers = record {
    l_head = [];
    infos = λ p. record { addr = peer 0; count = 0; flood_flag = 0 };
    allocs = 0;
  };
  stats = record {
    h_ip_stat_head = [];
    items = λ p. record { key_ip4_addr = 0; curr_stat = zeroed; prev_stat = zeroed };
    allocs = 0;
  };
  udp = record { serv_sock = pos 3; log = [] };
}
