-- ===== src/Forward/InRange.antt =====
-- The records of the peers and the counters stay within their C types in the bridge.
use wlan_bridge.Common.{ℕ, ◌≤◌, inl, inr, Ptr, Bool-cases, ◌==◌, pos, ◌==ℤ◌}
use wlan_bridge.Ether.{Mac}
use wlan_bridge.Net.{SockaddrIn}
use wlan_bridge.Fdb.{wlan_fdb_update}
use wlan_bridge.Peers
use wlan_bridge.Peers.Range.{wlan_list_update-AllFit}
use wlan_bridge.Statistics
use wlan_bridge.Statistics.Range.{update_rx-AllFit, update_tx-AllFit}
use wlan_bridge.Forward.{Env, Bridge, set_flag, learn, count_in, count_out, write_flag}
use wlan_bridge.Forward.Keeps.{Keeps}

pub record InRange {T L S : Type 0} (b : Bridge T L S) : Type 0 where
  pub peers : Peers.Range.AllFit b.peers
  pub stats : Statistics.Range.AllFit b.stats

module _ {T L S : Type 0} (env : Env T L S) where
  learn-InRange :
      (b : Bridge T L S) (a : SockaddrIn) (m : Mac) → InRange b → InRange (learn env b a m)
  unfolding learn
  learn-InRange b a m h =
      elim (Bool-cases ((wlan_fdb_update env.macs env.fdb_oom b.fdb a m).0 ==ℤ pos 1)) [
        | inl e ↦ rw e (record {
          peers = wlan_list_update-AllFit env.utlist env.list_oom b.peers a m h.peers;
          stats = h.stats;
        })
        | inr e ↦ rw e (record { peers = h.peers; stats = h.stats })
      ]

  mark-InRange :
      (b : Bridge T L S) (pa : Ptr) (flag : ℕ)
      → flag ≤ 1
      → InRange b
      → InRange (write_flag env b pa flag)
  unfolding write_flag set_flag
  mark-InRange b pa flag le h = record {
    peers = λ p. elim (Bool-cases (pa == p)) [
      | inl e ↦ rw e (record { count = (h.peers pa).count; flood_flag = le })
      | inr e ↦ rw e (h.peers p)
    ];
    stats = h.stats;
  }

  pub keeps-InRange : Keeps env InRange
  unfolding count_in count_out
  keeps-InRange = record {
    learns = learn-InRange;
    counts_in = λ b a len h. record {
      peers = h.peers;
      stats = update_rx-AllFit env.ips env.stat_oom b.stats a.s_addr 1 len h.stats;
    };
    counts_out = λ b a len h. record {
      peers = h.peers;
      stats = update_tx-AllFit env.ips env.stat_oom b.stats a.s_addr 1 len h.stats;
    };
    marks = mark-InRange;
    calls = λ b u h. record { peers = h.peers; stats = h.stats };
  }
