-- ===== src/Main/Account.antt =====
-- What server_runing_burst counts for an address: what its reads found and its sends took.
use wlan_bridge.Common.{
  ℕ, ◌≤◌, ◌<◌, ◌≡◌, refl, sym, Bool, true, false, some, List, [], ◌∷◌, ◌++◌, arith, length, ℤ,
  is_nonpos,
}
use mathlib.Core.List.{append-nil}
use mathlib.Core.Path.{subst}
use wlan_bridge.Net.{Datagram}
use wlan_bridge.Statistics.{Stats}
use wlan_bridge.Statistics.Laws.{IsValid}
use wlan_bridge.Statistics.Counts.{Counts, Counts-refl, Counts-trans, Counts-cast}
use wlan_bridge.Udp.{Kernel, Call, Arrival, Slot, recvmmsg, fill_all, fill}
use wlan_bridge.Forward.{Env, Bridge}
use wlan_bridge.Forward.Totals.{
  one, bytes, total, arrived, came, went, sleeps, ledger, asleep, Log, Log-trans, ledger_trans,
}
use wlan_bridge.Forward.Account.Burst.{burst-Accounts}
use wlan_bridge.Main.{
  Server, Round, max_data_len, count_of, received, read, pass_on, server_runing_burst,
}
use wlan_bridge.Main.Read.{asked, read_log, read_stats, read_missed, read_found}
use wlan_bridge.Main.Drain.{Draining, Healthy, unread}
use wlan_bridge.Main.Run.{run-total}
use wlan_bridge.Main.Steps.{Steps, bridge-Steps, run_keeps}

-- recvmmsg receives no more messages than it is asked for.
pub record Bounded (kernel : Kernel) : Type 0 where
  pub bound :
      (log : List Call) (fd : ℤ) (max_len n : ℕ)
      → length (kernel.recv_ret (log ++ recvmmsg fd max_len n ∷ [])).arrivals ≤ n

-- The places that were filled weigh what arrived.
received-arrived :
    (weight : ℕ → ℕ) (a : ℕ) (slots : List Slot) (arrivals : List Arrival)
    → length arrivals ≤ length slots
    → total weight a (received (length arrivals) (fill_all max_data_len slots arrivals))
      ≡ arrived weight a max_data_len arrivals
unfolding received fill_all fill total arrived
received-arrived weight a [] [] h = refl
received-arrived weight a (s ∷ slots) [] h = refl
received-arrived weight a [] (x ∷ xs) h = absurd (omega arith)
received-arrived weight a (s ∷ slots) (x ∷ xs) h =
    ground (arith, received-arrived weight a slots xs (omega arith))

module _ {T L S : Type 0} (env : Env T L S) (a : ℕ) where
  -- The counters grow by what came in and what went out by the calls `new`.
  abbrev pub Agrees : Stats S → Stats S → (before new : List Call) → Type 0
  Agrees s t before new =
      Counts env.ips env.stat_oom a s t (ledger (came env.kernel one a) false before new)
        (ledger (came env.kernel bytes a) false before new)
        (ledger (went env.kernel one a) false before new)
        (ledger (went env.kernel bytes a) false before new)

  -- From `b` to `c` the bridge made the calls `new`, and counted what they did.
  pub record Settled (b c : Bridge T L S) : Type 0 where
    pub new : List Call
    pub calls : Log b.udp.log new c.udp.log
    pub counts : Agrees b.stats c.stats b.udp.log new

  pub Settled-refl : (b : Bridge T L S) → IsValid env.ips env.stat_oom b.stats → Settled b b
  unfolding ledger asleep
  Settled-refl b v = record {
    new = [];
    calls = record { log = sym (append-nil b.udp.log); awake = refl };
    counts = Counts-refl env.ips env.stat_oom a b.stats v;
  }

  Settled-trans : {b c d : Bridge T L S} → Settled b c → Settled c d → Settled b d
  Settled-trans f g =
      let sum = λ (h : Bool → List Call → Call → ℕ). sym (ledger_trans h f.calls g.calls) in
      record {
        new = f.new ++ g.new;
        calls = Log-trans f.calls g.calls;
        counts =
            Counts-cast env.ips env.stat_oom a
              (Counts-trans env.ips env.stat_oom a f.counts g.counts) (sum (came env.kernel one a))
              (sum (came env.kernel bytes a)) (sum (went env.kernel one a))
              (sum (went env.kernel bytes a));
      }

  module _ (m : Server T L S) where
    asks : Call
    asks = recvmmsg m.bridge.udp.serv_sock max_data_len (length m.slots)

    read-Log : Log m.bridge.udp.log (asks ∷ []) (read env m).1.bridge.udp.log
    unfolding asks asleep sleeps
    read-Log = record { log = read_log env m; awake = refl }

    -- A read that found nothing.
    missed-Settled :
        is_nonpos (read env m).0 ≡ true
        → IsValid env.ips env.stat_oom m.bridge.stats
        → Settled m.bridge (read env m).1.bridge
    unfolding ledger came went asks
    missed-Settled p v = record {
      new = asks ∷ [];
      calls = read-Log;
      counts = rw (read_stats env m) (
          Counts-cast env.ips env.stat_oom a (Counts-refl env.ips env.stat_oom a m.bridge.stats v)
            (ground (arith, (read_missed env m p).0)) (ground (arith, (read_missed env m p).0)) refl
            refl);
    }

    module _ (bounded : Bounded env.kernel) (p : is_nonpos (read env m).0 ≡ false) where
      rx : List Datagram
      rx = received (count_of (read env m).0) (read env m).1.slots

      rx-came :
          (weight : ℕ → ℕ)
          → total weight a rx ≡ ledger (came env.kernel weight a) false m.bridge.udp.log (asks ∷ [])
      unfolding rx ledger came asks
      rx-came weight =
          let f = read_found env m p in
          let arrivals = (env.kernel.recv_ret (asked env m)).arrivals in
          let few =
            bounded.bound m.bridge.udp.log m.bridge.udp.serv_sock max_data_len (length m.slots) in
          rw (f.0, f.1, f.2, received-arrived weight a m.slots arrivals few) (omega arith)

      handled : Bridge T L S
      handled = (pass_on env (count_of (read env m).0) (read env m).1).bridge

      -- A read that found something, and the burst that it is.
      handled-Settled :
          (never : (n : ℕ) → env.stat_oom n ≡ false)
          → IsValid env.ips env.stat_oom m.bridge.stats
          → Settled m.bridge handled
      unfolding handled pass_on rx ledger asks went total sleeps
      handled-Settled never v =
          let b = (read env m).1.bridge in
          let valid = subst (IsValid env.ips env.stat_oom) (sym (read_stats env m)) v in
          let f = burst-Accounts env a never b rx valid in
          let calls = Log-trans read-Log f.calls in
          let came_in = λ (w : ℕ → ℕ). ledger_trans (came env.kernel w a) read-Log f.calls in
          let went_out = λ (w : ℕ → ℕ). ledger_trans (went env.kernel w a) read-Log f.calls in
          record {
            new = asks ∷ f.new;
            calls = calls;
            counts =
                subst (λ s. Agrees s handled.stats m.bridge.udp.log (asks ∷ f.new))
                  (read_stats env m)
                  (Counts-cast env.ips env.stat_oom a f.counts
                    (omega (arith, came_in one, f.unread one, rx-came one))
                    (omega (arith, came_in bytes, f.unread bytes, rx-came bytes))
                    (omega (arith, went_out one)) (omega (arith, went_out bytes)));
          }

  pub settles :
      (never : (n : ℕ) → env.stat_oom n ≡ false)
      → Bounded env.kernel
      → (start : Bridge T L S) → Steps env (λ m. Settled start m.bridge)
  unfolding handled
  settles never bounded start =
      bridge-Steps env (Settled start)
        (λ m p f. Settled-trans f (missed-Settled m p f.counts.valid))
        (λ m p f. Settled-trans f (handled-Settled m bounded p never f.counts.valid))

module _ {T L S : Type 0} (env : Env T L S) (left : List Call → ℕ)
    (k : Draining env.kernel left) where
  -- While memory lasts for the counters, with well-formed tables, a kernel that receives no more
  -- messages than it is asked for, and more fuel than its queue holds bursts, the server's loop comes
  -- to an end over any rounds; and then, for each IPv4 address, the counters have grown, modulo
  -- 2 ^ 64, by exactly the frames and bytes that its reads found from the address, and by those that
  -- it sent to it: each sendto that returned the frame's length, and each frame of a sendmmsg,
  -- whatever that returned, but for second tries.
  pub run-counts :
      (never : (n : ℕ) → env.stat_oom n ≡ false)
      → Bounded env.kernel
      → (fuel : ℕ) (m : Server T L S) (rounds : List Round) → Healthy env left m
      → IsValid env.ips env.stat_oom m.bridge.stats
      → unread env left m < fuel
      → (m' : Server T L S) × (server_runing_burst env fuel m rounds ≡ some m')
        × ((a : ℕ) → Settled env a m.bridge m'.bridge)
  run-counts never bounded fuel m rounds v w lt =
      let t = run-total env left k fuel m rounds v lt in
      (
        t.0,
        t.1,
        λ a.
            run_keeps env (λ c. Settled env a m.bridge c.bridge)
              (settles env a never bounded m.bridge) fuel m t.0 rounds t.1
              (Settled-refl env a m.bridge w),
      )
