-- ===== src/Main/Read.antt =====
-- One read of the receive loop: the call that it makes, and what it finds.
use wlan_bridge.Common.{◌≡◌, ap, false, true, List, [], ◌∷◌, ◌++◌, arith, length, is_nonpos}
use wlan_bridge.Udp.{Call, recvmmsg, nothing, fill_all, read_data_from_udp_client_burst}
use wlan_bridge.Forward.{Env, Bridge}
use wlan_bridge.Main.{Server, max_data_len, count_of, read}

module _ {T L S : Type 0} (env : Env T L S) (m : Server T L S) where
  -- The calls up to the read.
  abbrev pub asked : List Call
  asked = m.bridge.udp.log ++ recvmmsg m.bridge.udp.serv_sock max_data_len (length m.slots) ∷ []

  -- Of the bridge a read changes only the calls made.
  pub read_bridge :
      (read env m).1.bridge
      ≡ record m.bridge { udp = record { serv_sock = m.bridge.udp.serv_sock; log = asked } }
  unfolding read read_data_from_udp_client_burst
  read_bridge = ground arith

  pub read_log : (read env m).1.bridge.udp.log ≡ asked
  read_log = ap (λ (b : Bridge T L S). b.udp.log) read_bridge

  pub read_stats : (read env m).1.bridge.stats ≡ m.bridge.stats
  read_stats = ap (λ (b : Bridge T L S). b.stats) read_bridge

  pub read_missed :
      is_nonpos (read env m).0 ≡ true
      → (nothing (env.kernel.recv_ret asked) ≡ true) × ((read env m).1.slots ≡ m.slots)
  unfolding read read_data_from_udp_client_burst
  read_missed p = (ground (arith, p), ground (arith, p))

  pub read_found :
      is_nonpos (read env m).0 ≡ false
      → let r = env.kernel.recv_ret asked in
        (nothing r ≡ false)
        × (count_of (read env m).0 ≡ length r.arrivals)
        × ((read env m).1.slots ≡ fill_all max_data_len m.slots r.arrivals)
  unfolding read read_data_from_udp_client_burst
  read_found p = ground (arith, p)
