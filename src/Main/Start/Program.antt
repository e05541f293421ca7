-- ===== src/Main/Start/Program.antt =====
-- The server's program as a whole, from its start with empty tables to its end.
use wlan_bridge.Common.{
  ℕ, ◌%◌, ◌<◌, ◌≡◌, ◌≢◌, refl, sym, ap, ◌∙◌, inl, inr, Bool, false, some, List, [], ◌∷◌, ◌++◌, map,
  arith, Bool-cases, Option-cases, u64_mod, ℤ, pos, negsuc, ◌==ℤ◌, ==ℤ_iff,
}
use mathlib.Core.List.{append_cancel_left}
use mathlib.Core.Path.{subst}
use wlan_bridge.Net.{SockaddrIn, Datagram}
use wlan_bridge.Statistics.{Stats, zeroed}
use wlan_bridge.Statistics.Laws.{curr}
use wlan_bridge.Udp.{Call, Udp, close, create_udp_server}
use wlan_bridge.Forward.{Env, Bridge, find_entry}
use wlan_bridge.Forward.Switch.{view}
use wlan_bridge.Forward.BurstEntry.{learns_all, burst_copies}
use wlan_bridge.Forward.Burst.{NeverFails}
use wlan_bridge.Forward.Totals.{one, bytes, came, went, ledger}
use wlan_bridge.Forward.Asked.{asks, found}
use wlan_bridge.Main.{Server, Round}
use wlan_bridge.Main.Account.{Bounded, Settled, Settled-refl, Agrees, settles}
use wlan_bridge.Main.Refines.{Switched, Switched-refl, switches, trim, frame_of}
use wlan_bridge.Main.Relay.{Relayed, begin, Honest}
use wlan_bridge.Main.Relay.Run.{honest}
use wlan_bridge.Main.Steps.{Steps, run_keeps}
use wlan_bridge.Main.Drain.{Draining, unread}
use wlan_bridge.Main.Start.{System, Process, udp_port, buffers, max_num, start_up, run_bursts, main}
use wlan_bridge.Main.Start.Total.{main-Served}
use wlan_bridge.Main.Start.Fresh.{Fresh, blank, fresh_list, fresh_counters, fresh_curr, fresh_view}

module _ {T L S : Type 0} (env : Env T L S) (sys : System) where
  -- The loop with its allocations keeps what each of its steps keeps.
  run_bursts_keeps :
      (P : Bridge T L S → Type 0)
      → Steps env (λ m. P m.bridge)
      → (fuel : ℕ) (m m' : Server T L S) (rounds : List Round)
      → run_bursts env sys fuel m rounds ≡ some m'
      → P m.bridge
      → P m'.bridge
  unfolding run_bursts
  run_bursts_keeps P steps fuel m m' rounds e h = elim (Option-cases (buffers sys 0 max_num)) [
    | inl f ↦ let d : m ≡ m' = ground (arith, f, e) in rw (← d) h
    | inr (slots, f) ↦
        run_keeps env (λ c. P c.bridge) steps fuel (record m { slots = slots }) m' rounds
          (ground (arith, f, e)) h
  ]

-- The counters of an address, where they began at 0.
pub record Counted {T L S : Type 0} (env : Env T L S) (s : Stats S) (before new : List Call) (a : ℕ)
    : Type 0 where
  pub received :
      (curr env.ips env.stat_oom s a).rx_packets % u64_mod
      ≡ ledger (came env.kernel one a) false before new % u64_mod
  pub received_bytes :
      (curr env.ips env.stat_oom s a).rx_bytes % u64_mod
      ≡ ledger (came env.kernel bytes a) false before new % u64_mod
  pub sent :
      (curr env.ips env.stat_oom s a).tx_packets % u64_mod
      ≡ ledger (went env.kernel one a) false before new % u64_mod
  pub sent_bytes :
      (curr env.ips env.stat_oom s a).tx_bytes % u64_mod
      ≡ ledger (went env.kernel bytes a) false before new % u64_mod

-- The whole of what the program did behind create_udp_server, read off the calls that it made.
pub record Implements {T L S : Type 0} (env : Env T L S) (udp : Udp) (fd : ℤ) (b : Bridge T L S)
    : Type 0 where
  pub new : List Call
  pub log : b.udp.log ≡ (udp.log ++ new) ++ close fd ∷ []
  pub relayed : Relayed env.kernel udp.log (udp.log ++ new)
  pub rx : List Datagram
  pub arrivals : map trim rx ≡ map frame_of (found env.kernel udp.log new)
  pub knows : view env b ≡ learns_all blank rx
  pub delivered :
      (test : ℕ → List ℕ → Bool) (a : SockaddrIn)
      → ledger (asks test a) false udp.log new ≡ burst_copies test blank rx a
  pub counted : (a : ℕ) → Counted env b.stats udp.log new a

module _ {T L S : Type 0} (env : Env T L S) where
  Agrees-Counted :
      (s t : Stats S) (before new : List Call) (a : ℕ)
      → curr env.ips env.stat_oom s a ≡ zeroed
      → Agrees env a s t before new
      → Counted env t before new a
  Agrees-Counted s t before new a z h = record {
    received = h.received ∙ rw z (omega arith);
    received_bytes = h.received_bytes ∙ rw z (omega arith);
    sent = h.sent ∙ rw z (omega arith);
    sent_bytes = h.sent_bytes ∙ rw z (omega arith);
  }

  module _ (b c last : Bridge T L S) (fd : ℤ) (fresh : Fresh env b) (switched : Switched env b c)
      (settled : (a : ℕ) → Settled env a b c) (relayed : Relayed env.kernel b.udp.log c.udp.log)
      (tables : last ≡ record c { udp = last.udp })
      (closed : last.udp.log ≡ c.udp.log ++ close fd ∷ []) where
    -- The calls that the counters stand for are those that the switch stands for.
    same_calls : (a : ℕ) → (settled a).new ≡ switched.new
    same_calls a =
        append_cancel_left b.udp.log (settled a).new switched.new
          (sym (settled a).calls.log ∙ switched.calls.log)

    counted : (a : ℕ) → Counted env last.stats b.udp.log switched.new a
    counted a =
        subst (λ (s : Stats S). Counted env s b.udp.log switched.new a)
          (sym (ap (λ (x : Bridge T L S). x.stats) tables))
          (Agrees-Counted b.stats c.stats b.udp.log switched.new a (fresh_curr env b fresh a)
            (subst (Agrees env a b.stats c.stats b.udp.log) (same_calls a) (settled a).counts))

    last_view : view env last ≡ view env c
    unfolding find_entry
    last_view = ap (view env) tables

    loop-Implements : Implements env b.udp fd last
    loop-Implements = record {
      new = switched.new;
      log = closed ∙ rw (switched.calls.log) refl;
      relayed = subst (Relayed env.kernel b.udp.log) switched.calls.log relayed;
      rx = switched.rx;
      arrivals = switched.came;
      knows =
          last_view ∙ switched.knows ∙ ap (λ v. learns_all v switched.rx) (fresh_view env b fresh);
      delivered = λ test a.
          switched.delivered test a
          ∙ ap (λ v. burst_copies test v switched.rx a) (fresh_view env b fresh);
      counted = counted;
    }

module _ {T L S : Type 0} (env : Env T L S) (left : List Call → ℕ) (k : Draining env.kernel left)
    (sys : System) where
  -- The server's program, from its start: while memory lasts for the tables and the counters, with
  -- empty tables, a kernel that receives no more messages than it is asked for, and more fuel than
  -- its queue holds bursts, main returns 0 when create_udp_server succeeds, over any rounds, at
  -- whose end the loop is taken to end. By then it has
  -- implemented the learning switch that knows nothing: it has learned what the switch learns from the frames
  -- that its reads found, in their order; it has asked the kernel to send each to each peer as often as the
  -- switch delivers it there (second tries left aside), never back to its sender and never before it
  -- came in; it has counted, for each IPv4 address, what came from it and what went to it, modulo
  -- 2 ^ 64; and its last call closes the socket.
  pub main-Implements :
      NeverFails env
      → ((n : ℕ) → env.stat_oom n ≡ false)
      → Bounded env.kernel
      → (fuel : ℕ) (rounds : List Round) (p : Process T L S) → Fresh env p.server.bridge
      → unread env left p.server < fuel
      → let (fd, udp) = create_udp_server env.kernel p.server.bridge.udp udp_port in
        fd ≢ negsuc 0
        → (p' : Process T L S) × (main env sys fuel rounds p ≡ some (pos 0, p'))
          × Implements env udp fd p'.server.bridge
  unfolding start_up
  main-Implements never counts bounded fuel rounds p fresh lt open' =
      let (fd, udp) = create_udp_server env.kernel p.server.bridge.udp udp_port in
      let shut : (fd ==ℤ negsuc 0) ≡ false = elim (Bool-cases (fd ==ℤ negsuc 0)) [
        | inl e ↦ absurd (open' ((==ℤ_iff fd (negsuc 0)).0 e))
        | inr e ↦ e
      ] in
      let b = record p.server.bridge { udp = udp } in
      let fresh' : Fresh env b = record {
        fdb = fresh.fdb;
        list = fresh.list;
        stats = fresh.stats;
      } in
      let s =
        main-Served env left k sys fuel rounds p (fresh_list env p.server.bridge fresh) lt shut in
      let keeps = λ (P : Bridge T L S → Type 0) (steps : Steps env (λ m. P m.bridge)) (h : P b).
        run_bursts_keeps env sys P steps fuel (start_up env sys p).1.server s.loop rounds s.ran h in
      (
        s.last,
        s.result,
        loop-Implements env b s.loop.bridge s.last.server.bridge fd fresh'
            (keeps (Switched env b) (switches env never bounded b)
              (Switched-refl env b (fresh_list env b fresh')))
            (λ a.
              keeps (Settled env a b) (settles env a counts bounded b)
                (Settled-refl env a b (fresh_counters env b fresh')))
            (keeps (Honest env udp.log) (honest env udp.log) begin) s.tables s.closed,
      )
