-- ===== src/Forward/Steady.antt =====
-- A burst keeps the peer list well formed whatever callocs fail.
use wlan_bridge.Common.{refl, ap, List, [], ◌∷◌, ◌++◌}
use wlan_bridge.Net.{Datagram}
use wlan_bridge.Peers.Update.{IsValid}
use wlan_bridge.Forward.{Env, Bridge, burst_entry, burst_loop, wlan_br_handle_burst}
use wlan_bridge.Forward.Learn.{learn-IsValid}
use wlan_bridge.Forward.BurstEntry.{src, burst_entry-Entry}
use wlan_bridge.Forward.Burst.{handle_burst_cases}

module _ {T L S : Type 0} (env : Env T L S) where
  burst_entry-IsValid :
      (b : Bridge T L S) (d : Datagram)
      → IsValid env.utlist b.peers
      → IsValid env.utlist (burst_entry env b d).1.peers
  burst_entry-IsValid b d v =
      let learned = learn-IsValid env b d.addr (src d) v in
      rw (burst_entry-Entry env b d learned).keeps.peers learned

  burst_loop-IsValid :
      (b : Bridge T L S) (to rx : List Datagram)
      → IsValid env.utlist b.peers
      → IsValid env.utlist (burst_loop env b to rx).1.peers
  unfolding burst_loop
  burst_loop-IsValid b to [] v = v
  burst_loop-IsValid b to (d ∷ rest) v =
      let (queued, b') = burst_entry env b d in
      burst_loop-IsValid b' (to ++ queued) rest (burst_entry-IsValid b d v)

  pub handle_burst-IsValid :
      (b : Bridge T L S) (rx : List Datagram)
      → IsValid env.utlist b.peers
      → IsValid env.utlist (wlan_br_handle_burst env b rx).peers
  handle_burst-IsValid b rx v =
      let cases = handle_burst_cases env b rx (burst_loop env b [] rx).0 refl in
      rw (ap (λ (c : Bridge T L S). c.peers) cases) (burst_loop-IsValid b [] rx v)
