-- ===== src/Main/Refines.antt =====
-- server_runing_burst against the abstract learning switch of Forward/Switch, over a whole run.
use wlan_bridge.Common.{
  ℕ, ◌≤◌, ◌<◌, ◌≡◌, refl, sym, ap, Bool, true, false, some, List, [], ◌∷◌, ◌++◌, map, arith, length,
  take, take-append, is_nonpos, count_if-append,
}
use mathlib.Core.List.{append-nil, map-append}
use mathlib.Core.Path.{subst}
use wlan_bridge.Net.{SockaddrIn, Datagram}
use wlan_bridge.Peers.Update.{IsValid}
use wlan_bridge.Udp.{Call, Arrival, Slot, recvmmsg, fill_all, fill}
use wlan_bridge.Forward.{Env, Bridge, find_entry, wlan_br_handle_burst}
use wlan_bridge.Forward.Switch.{view}
use wlan_bridge.Forward.BurstEntry.{hits, learns_all, burst_copies}
use wlan_bridge.Forward.Burst.{NeverFails, burst-refines}
use wlan_bridge.Forward.Totals.{sleeps, ledger, asleep, Log, Log-trans, ledger_trans}
use wlan_bridge.Forward.Reach.{learns_all-append, burst_copies-append}
use wlan_bridge.Forward.Asked.{asks, finds, found, found-append, burst_asks}
use wlan_bridge.Main.{
  Server, Round, max_data_len, count_of, received, read, pass_on, server_runing_burst,
}
use wlan_bridge.Main.Account.{Bounded}
use wlan_bridge.Main.Read.{asked, read_bridge, read_missed, read_found}
use wlan_bridge.Main.Drain.{Draining, Healthy, unread}
use wlan_bridge.Main.Run.{run-total}
use wlan_bridge.Main.Steps.{Steps, bridge-Steps, run_keeps}

-- A frame without what its buffer held before, and the frame that arrived.
abbrev pub trim : Datagram → Datagram
trim d = record d { buf = take d.len d.buf }

abbrev pub frame_of : Arrival → Datagram
frame_of x =
    let got = take max_data_len x.bytes in record { len = length got; buf = got; addr = x.from }

received_lem :
    (slots : List Slot) (arrivals : List Arrival)
    → length arrivals ≤ length slots
    → map trim (received (length arrivals) (fill_all max_data_len slots arrivals))
      ≡ map frame_of arrivals
unfolding received fill_all fill
received_lem [] [] h = refl
received_lem (s ∷ slots) [] h = refl
received_lem [] (x ∷ xs) h = absurd (omega arith)
received_lem (s ∷ slots) (x ∷ xs) h =
    rw (received_lem slots xs (omega arith), take-append (take max_data_len x.bytes)) refl

module _ {T L S : Type 0} (env : Env T L S) where
  -- From `b` to `c` the bridge did what the switch does with the frames that its reads found: it
  -- learned the same, and asked the kernel for the copies that the switch delivers.
  pub record Switched (b c : Bridge T L S) : Type 0 where
    pub rx : List Datagram
    pub new : List Call
    pub calls : Log b.udp.log new c.udp.log
    pub came : map trim rx ≡ map frame_of (found env.kernel b.udp.log new)
    pub valid : IsValid env.utlist c.peers
    pub knows : view env c ≡ learns_all (view env b) rx
    pub delivered :
        (test : ℕ → List ℕ → Bool) (a : SockaddrIn)
        → ledger (asks test a) false b.udp.log new ≡ burst_copies test (view env b) rx a

  pub Switched-refl : (b : Bridge T L S) → IsValid env.utlist b.peers → Switched b b
  unfolding ledger asleep found learns_all burst_copies
  Switched-refl b v = record {
    rx = [];
    new = [];
    calls = record { log = sym (append-nil b.udp.log); awake = refl };
    came = refl;
    valid = v;
    knows = refl;
    delivered = λ test a. refl;
  }

  Switched-trans : {b c d : Bridge T L S} → Switched b c → Switched c d → Switched b d
  Switched-trans {b} {c} {d} f g = record {
    rx = f.rx ++ g.rx;
    new = f.new ++ g.new;
    calls = Log-trans f.calls g.calls;
    came =
        rw
          (
            found-append env.kernel b.udp.log f.new g.new,
            map-append,
            map-append,
            f.came,
            ← f.calls.log,
            g.came,
          )
          refl;
    valid = g.valid;
    knows = rw (learns_all-append (view env b) f.rx g.rx, ← f.knows) g.knows;
    delivered = λ test a.
        let both = ledger_trans (asks test a) f.calls g.calls in
        let after : burst_copies test (view env c) g.rx a
            ≡ burst_copies test (learns_all (view env b) f.rx) g.rx a =
          ap (λ v. burst_copies test v g.rx a) f.knows in
        omega (
          arith,
          both,
          after,
          f.delivered test a,
          g.delivered test a,
          burst_copies-append test (view env b) f.rx g.rx a,
        );
  }

  module _ (m : Server T L S) where
    recv : Call
    recv = recvmmsg m.bridge.udp.serv_sock max_data_len (length m.slots)

    -- The bridge when the read is over.
    abbrev asking : Bridge T L S
    asking = record m.bridge {
      udp = record { serv_sock = m.bridge.udp.serv_sock; log = asked env m };
    }

    -- A read that found nothing.
    missed-Switched :
        is_nonpos (read env m).0 ≡ true
        → IsValid env.utlist m.bridge.peers
        → Switched m.bridge (read env m).1.bridge
    unfolding ledger asks asleep sleeps found finds learns_all burst_copies recv find_entry
    missed-Switched p v = subst (Switched m.bridge) (sym (read_bridge env m)) (record {
      rx = [];
      new = recv ∷ [];
      calls = record { log = refl; awake = refl };
      came = rw ((read_missed env m p).0) refl;
      valid = v;
      knows = refl;
      delivered = λ test a. omega arith;
    })

    module _ (bounded : Bounded env.kernel) (p : is_nonpos (read env m).0 ≡ false) where
      rx_read : List Datagram
      rx_read = received (count_of (read env m).0) (read env m).1.slots

      rx_came : map trim rx_read ≡ map frame_of (env.kernel.recv_ret (asked env m)).arrivals
      unfolding rx_read
      rx_came =
          let f = read_found env m p in
          let arrivals = (env.kernel.recv_ret (asked env m)).arrivals in
          let few =
            bounded.bound m.bridge.udp.log m.bridge.udp.serv_sock max_data_len (length m.slots) in
          rw (f.1, f.2) (received_lem m.slots arrivals few)

      -- A read that found something, and the burst that it is.
      handled-Switched :
          NeverFails env
          → IsValid env.utlist m.bridge.peers
          → Switched m.bridge (pass_on env (count_of (read env m).0) (read env m).1).bridge
      unfolding pass_on rx_read ledger asks asleep sleeps found finds recv find_entry
      handled-Switched never v =
          let (knows, valid, bursts) = burst-refines env never asking rx_read v in
          let after = wlan_br_handle_burst env asking rx_read in
          let (new, sends) = burst_asks env asking after rx_read bursts in
          let first : Log m.bridge.udp.log (recv ∷ []) (asked env m) = record {
            log = refl;
            awake = refl;
          } in
          subst (λ b. Switched m.bridge (wlan_br_handle_burst env b rx_read))
            (sym (read_bridge env m))
            (record {
              rx = rx_read;
              new = recv ∷ new;
              calls = Log-trans first sends.calls;
              came = rw ((read_found env m p).0, sends.silent, append-nil) rx_came;
              valid = valid;
              knows = knows;
              delivered = λ test a. omega (
                arith,
                sends.asked test a,
                bursts.count test a,
                count_if-append (hits test a) bursts.sent bursts.queued,
              );
            })

  pub switches :
      NeverFails env
      → Bounded env.kernel
      → (start : Bridge T L S) → Steps env (λ m. Switched start m.bridge)
  switches never bounded start =
      bridge-Steps env (Switched start) (λ m p f. Switched-trans f (missed-Switched m p f.valid))
        (λ m p f. Switched-trans f (handled-Switched m bounded p never f.valid))

module _ {T L S : Type 0} (env : Env T L S) (left : List Call → ℕ)
    (k : Draining env.kernel left) where
  -- While memory lasts for the tables, with a well-formed list, a kernel that receives no more
  -- messages than it is asked for, and more fuel than its queue holds bursts, the server's loop comes
  -- to an end over any rounds, and implements the learning switch on what its reads found: it has
  -- learned what the switch learns from those frames, in their order, and has asked the kernel to
  -- send each frame to each peer as often as the switch delivers it there (second tries left aside),
  -- unchanged. The list stays well formed.
  pub run-refines :
      NeverFails env
      → Bounded env.kernel
      → (fuel : ℕ) (m : Server T L S) (rounds : List Round) → Healthy env left m
      → unread env left m < fuel
      → (m' : Server T L S) × (server_runing_burst env fuel m rounds ≡ some m')
        × Switched env m.bridge m'.bridge
  run-refines never bounded fuel m rounds v lt =
      let t = run-total env left k fuel m rounds v lt in
      (
        t.0,
        t.1,
        run_keeps env (λ c. Switched env m.bridge c.bridge) (switches env never bounded m.bridge)
            fuel m t.0 rounds t.1 (Switched-refl env m.bridge v),
      )
