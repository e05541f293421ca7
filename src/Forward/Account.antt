-- ===== src/Forward/Account.antt =====
-- What one frame of a burst adds to the counters of an address.
pub mod Frame
pub mod Burst
use wlan_bridge.Common.{
  ℕ, ◌+◌, ◌≡◌, refl, sym, ap, ◌∙◌, inl, inr, Bool, true, false, ◌||◌, none, some, List, [], ◌∷◌,
  ◌++◌, arith, if◌then◌else◌, Bool-cases, Option-cases, ◌==◌, null, pos, negsuc, ◌==ℤ◌,
}
use mathlib.Core.List.{append_assoc, append-nil}
use mathlib.Core.Path.{subst}
use wlan_bridge.Fdb.{FdbEntry}
use wlan_bridge.Net.{SockaddrIn, Datagram, same_peer}
use wlan_bridge.Ether.{is_multicast_ether_addr}
use wlan_bridge.Peers.{WlanListEntry, entries}
use wlan_bridge.Statistics.{Stats, wlan_ip_static_update_tx}
use wlan_bridge.Statistics.Laws.{IsValid}
use wlan_bridge.Statistics.Counts.{
  Counts, Counts-refl, Counts-trans, Counts-cast, rx-Counts, tx-Counts,
}
use wlan_bridge.Udp.{Call, called, sendto, send_data_to_udp_client}
use wlan_bridge.Forward.{
  Env, Bridge, count_in, find_entry, learn, wlan_br_forward_to_array, flood_entry, flood_loop,
  clear_entry, clear_loop, wlan_br_flood, burst_entry, burst_loop,
}
use wlan_bridge.Forward.BurstEntry.{src, dest, burst_route}
use wlan_bridge.Forward.Flood.{with_log}
use wlan_bridge.Forward.Learn.{learn_udp}
use wlan_bridge.Forward.Totals.{
  one, bytes, total, total-append, came, went, sleeps, ledger, asleep, Log, Log-trans, ledger_trans,
}

module _ {T L S : Type 0} (env : Env T L S) (a : ℕ) where
  -- From `b` to `c` the bridge handled `rx`, put `queued` off for sendmmsg and made the calls `new`,
  -- none of which reads; it counted each frame handled, each put off, and each sent.
  pub record Accounts (b c : Bridge T L S) (rx queued : List Datagram) : Type 0 where
    pub new : List Call
    pub calls : Log b.udp.log new c.udp.log
    pub unread : (weight : ℕ → ℕ) → ledger (came env.kernel weight a) false b.udp.log new ≡ 0
    pub counts :
        Counts env.ips env.stat_oom a b.stats c.stats
          (total one a rx)
          (total bytes a rx)
          (ledger (went env.kernel one a) false b.udp.log new + total one a queued)
          (ledger (went env.kernel bytes a) false b.udp.log new + total bytes a queued)

  -- Nothing is sent.
  pub quiet-Accounts :
      {b c : Bridge T L S} (rx queued : List Datagram)
      → c.udp ≡ b.udp
      → Counts env.ips env.stat_oom a b.stats c.stats
          (total one a rx)
          (total bytes a rx)
          (total one a queued)
          (total bytes a queued)
      → Accounts b c rx queued
  unfolding ledger asleep
  quiet-Accounts {b} {c} rx queued u k = record {
    new = [];
    calls = record { log = rw (u, append-nil b.udp.log) refl; awake = refl };
    unread = λ weight. refl;
    counts = Counts-cast env.ips env.stat_oom a k refl refl (omega arith) (omega arith);
  }

  pub Accounts-refl : (b : Bridge T L S) → IsValid env.ips env.stat_oom b.stats → Accounts b b [] []
  unfolding total
  Accounts-refl b v = quiet-Accounts [] [] refl (Counts-refl env.ips env.stat_oom a b.stats v)

  pub Accounts-trans :
      {b c d : Bridge T L S} {rx rx' q q' : List Datagram}
      → Accounts b c rx q
      → Accounts c d rx' q'
      → Accounts b d (rx ++ rx') (q ++ q')
  Accounts-trans {b} {c} {d} {rx} {rx'} {q} {q'} f g =
      let sent = λ (w : ℕ → ℕ). ledger_trans (went env.kernel w a) f.calls g.calls in
      record {
        new = f.new ++ g.new;
        calls = Log-trans f.calls g.calls;
        unread = λ w.
            omega
              (arith, ledger_trans (came env.kernel w a) f.calls g.calls, f.unread w, g.unread w);
        counts =
            Counts-cast env.ips env.stat_oom a
              (Counts-trans env.ips env.stat_oom a f.counts g.counts)
              (sym (total-append one a rx rx')) (sym (total-append bytes a rx rx'))
              (omega (arith, sent one, total-append one a q q'))
              (omega (arith, sent bytes, total-append bytes a q q'));
      }

  module _ (never : (n : ℕ) → env.stat_oom n ≡ false) where
    pub count_in-Accounts :
        (b : Bridge T L S) (d : Datagram)
        → IsValid env.ips env.stat_oom b.stats
        → Accounts b (count_in env b d.addr d.len) (d ∷ []) []
    unfolding total count_in
    count_in-Accounts b d v = quiet-Accounts (d ∷ []) [] refl (
        Counts-cast env.ips env.stat_oom a
          (rx-Counts env.ips env.stat_oom a never b.stats v d.addr.s_addr d.len) (omega arith)
          (omega arith) refl refl)

    -- One call of sendto, counted where the frame went out whole.
    pub sent-Accounts :
        (b c : Bridge T L S) (d : Datagram)
        → IsValid env.ips env.stat_oom b.stats
        → let whole =
            env.kernel.sendto_ret (called b.udp (sendto b.udp.serv_sock d)).log ==ℤ pos d.len in
          c.udp ≡ called b.udp (sendto b.udp.serv_sock d)
          → c.stats ≡ (
              if whole
              then wlan_ip_static_update_tx env.ips env.stat_oom b.stats d.addr.s_addr 1 d.len
              else b.stats)
          → Accounts b c [] []
    unfolding total ledger asleep sleeps came went
    sent-Accounts b c d v u k =
        let calls = sendto b.udp.serv_sock d ∷ [] in
        elim (Bool-cases
          (env.kernel.sendto_ret (called b.udp (sendto b.udp.serv_sock d)).log ==ℤ pos d.len)) [
            | inl e ↦ record {
              new = calls;
              calls = record { log = ap (λ x. x.log) u; awake = refl };
              unread = λ w. omega arith;
              counts =
                  rw (k, e)
                    (Counts-cast env.ips env.stat_oom a
                      (tx-Counts env.ips env.stat_oom a never b.stats v d.addr.s_addr d.len) refl
                      refl (ground (arith, e)) (ground (arith, e)));
            }
            | inr e ↦ record {
              new = calls;
              calls = record { log = ap (λ x. x.log) u; awake = refl };
              unread = λ w. omega arith;
              counts =
                  rw (k, e)
                    (Counts-cast env.ips env.stat_oom a
                      (Counts-refl env.ips env.stat_oom a b.stats v) refl refl (ground (arith, e))
                      (ground (arith, e)));
            }
          ]
