-- ===== src/Forward/Account/Burst.antt =====
-- What a whole burst adds to the counters of an address, in wlan_br_handle_burst.
use wlan_bridge.Common.{ℕ, ◌≡◌, refl, sym, ◌∙◌, inl, inr, false, List, [], ◌∷◌, ◌++◌, arith}
use wlan_bridge.Net.{Datagram}
use wlan_bridge.Statistics.Laws.{IsValid}
use wlan_bridge.Statistics.Counts.{Counts-cast}
use wlan_bridge.Udp.{Call, Udp, Kernel, sendmmsg, usleep}
use mathlib.Core.List.{append_assoc, append-nil}
use mathlib.Core.Path.{subst}
use wlan_bridge.Forward.{Env, Bridge, burst_entry, burst_loop, wlan_br_handle_burst}
use wlan_bridge.Forward.One.{burst_send_cases}
use wlan_bridge.Forward.Burst.{send_queue, handle_burst_cases}
use wlan_bridge.Forward.Totals.{
  one, bytes, total, came, went, sleeps, ledger, asleep, Log, Log-trans, ledger_trans,
}
use wlan_bridge.Forward.Account.{Accounts, Accounts-refl, Accounts-trans}
use wlan_bridge.Forward.Account.Frame.{entry-Accounts}

-- Of the calls behind `s`, those to sendmmsg carry the queue, and none reads.
record Flushes (kernel : Kernel) (a : ℕ) (q : List Datagram) (s t : List Call) : Type 0 where
  new : List Call
  calls : Log s new t
  unread : (weight : ℕ → ℕ) → ledger (came kernel weight a) false s new ≡ 0
  sent : (weight : ℕ → ℕ) → ledger (went kernel weight a) false s new ≡ total weight a q

send_queue-Flushes :
    (kernel : Kernel) (a : ℕ) (s : Udp) (q : List Datagram)
    → Flushes kernel a q s.log (send_queue kernel s q).log
unfolding ledger asleep sleeps total came went
send_queue-Flushes kernel a s [] = record {
  new = [];
  calls = record { log = sym (append-nil s.log); awake = refl };
  unread = λ w. refl;
  sent = λ w. refl;
}
send_queue-Flushes kernel a s (d ∷ ds) =
    let first = sendmmsg s.serv_sock (d ∷ ds) in
    elim (burst_send_cases kernel s (d ∷ ds)) [
      | inl e ↦ record {
        new = first ∷ [];
        calls = record { log = e; awake = refl };
        unread = λ w. omega arith;
        sent = λ w. omega arith;
      }
      | inr (again, e) ↦ record {
        new = first ∷ usleep 20 ∷ sendmmsg s.serv_sock again ∷ [];
        calls = record { log = e; awake = refl };
        unread = λ w. omega arith;
        sent = λ w. omega arith;
      }
    ]

module _ {T L S : Type 0} (env : Env T L S) (a : ℕ) where
  -- What the loop adds to the `to_` arrays, and what it counts.
  record Loop (b : Bridge T L S) (to rx : List Datagram) (r : List Datagram × Bridge T L S)
      : Type 0 where
    queued : List Datagram
    result : r.0 ≡ to ++ queued
    accounts : Accounts env a b r.1 rx queued

  -- The burst's sendmmsg settles what was put off.
  flushed-Accounts :
      {b c : Bridge T L S} {rx queued : List Datagram}
      → Accounts env a b c rx queued
      → Accounts env a b (record c { udp = send_queue env.kernel c.udp queued }) rx []
  unfolding total
  flushed-Accounts {b} {c} {rx} {queued} f =
      let g = send_queue-Flushes env.kernel a c.udp queued in
      let sent = λ (w : ℕ → ℕ). ledger_trans (went env.kernel w a) f.calls g.calls in
      record {
        new = f.new ++ g.new;
        calls = Log-trans f.calls g.calls;
        unread = λ w.
            omega
              (arith, ledger_trans (came env.kernel w a) f.calls g.calls, f.unread w, g.unread w);
        counts =
            Counts-cast env.ips env.stat_oom a f.counts refl refl
              (omega (arith, sent one, g.sent one)) (omega (arith, sent bytes, g.sent bytes));
      }

  module _ (never : (n : ℕ) → env.stat_oom n ≡ false) where
    burst_loop-Loop :
        (b : Bridge T L S) (to rx : List Datagram)
        → IsValid env.ips env.stat_oom b.stats
        → Loop b to rx (burst_loop env b to rx)
    unfolding burst_loop
    burst_loop-Loop b to [] v = record {
      queued = [];
      result = sym (append-nil to);
      accounts = Accounts-refl env a b v;
    }
    burst_loop-Loop b to (d ∷ rest) v =
        let (queued, b') = burst_entry env b d in
        let step = entry-Accounts env a never d b v in
        let ih = burst_loop-Loop b' (to ++ queued) rest step.counts.valid in
        record {
          queued = queued ++ ih.queued;
          result = ih.result ∙ append_assoc to queued ih.queued;
          accounts = Accounts-trans env a step ih.accounts;
        }

    -- While memory lasts for the counters and their table is well formed, wlan_br_handle_burst counts
    -- every frame that it is given once, for its sender's IPv4 address, with its length; and of what
    -- it sends each frame flooded for which sendto returned its length, and each handed to sendmmsg
    -- (but for a second try), modulo 2 ^ 64. The table stays well formed.
    pub burst-Accounts :
        (b : Bridge T L S) (rx : List Datagram)
        → IsValid env.ips env.stat_oom b.stats
        → Accounts env a b (wlan_br_handle_burst env b rx) rx []
    burst-Accounts b rx v =
        let l = burst_loop-Loop b [] rx v in
        subst (λ r. Accounts env a b r rx []) (sym (handle_burst_cases env b rx l.queued l.result))
          (flushed-Accounts l.accounts)
