-- ===== src/Forward/Account/Frame.antt =====
-- What wlan_br_flood, and the body of the loop over a burst, add to the counters of an address.
use wlan_bridge.Common.{
  ℕ, ◌≡◌, refl, inl, inr, false, ◌||◌, List, [], ◌∷◌, arith, Bool-cases, ◌==◌, null,
}
use wlan_bridge.Net.{SockaddrIn, Datagram, same_peer}
use wlan_bridge.Peers.{WlanListEntry, entries}
use wlan_bridge.Statistics.Laws.{IsValid}
use wlan_bridge.Statistics.Counts.{Counts-refl, tx-Counts, Counts-cast}
use wlan_bridge.Udp.{send_data_to_udp_client}
use wlan_bridge.Forward.{
  Env, Bridge, count_in, count_out, learn, flood_entry, flood_loop, clear_entry, clear_loop,
  wlan_br_flood, burst_entry,
}
use wlan_bridge.Forward.BurstEntry.{src, burst_route}
use wlan_bridge.Forward.Learn.{learn_udp}
use wlan_bridge.Forward.Totals.{total}
use wlan_bridge.Forward.Route.{route_elim}
use wlan_bridge.Forward.Account.{
  Accounts, Accounts-refl, Accounts-trans, quiet-Accounts, count_in-Accounts, sent-Accounts,
}

module _ {T L S : Type 0} (env : Env T L S) (a : ℕ) (never : (n : ℕ) → env.stat_oom n ≡ false) where
  abbrev Valid : Bridge T L S → Type 0
  Valid b = IsValid env.ips env.stat_oom b.stats

  still :
      {b c : Bridge T L S} → c.udp ≡ b.udp → c.stats ≡ b.stats → Valid b → Accounts env a b c [] []
  unfolding total
  still {b} {c} u k v =
      quiet-Accounts env a [] [] u (rw k (Counts-refl env.ips env.stat_oom a b.stats v))

  flood_entry-Accounts :
      (len : ℕ) (buf : List ℕ) (curr : SockaddrIn) (b : Bridge T L S) (e : WlanListEntry)
      → Valid b
      → Accounts env a b (flood_entry env len buf curr b e) [] []
  unfolding flood_entry send_data_to_udp_client
  flood_entry-Accounts len buf curr b e v =
      let pa = b.peers.infos e.peer_addr in
      let d : Datagram = record { len = len; buf = buf; addr = pa.addr } in
      elim (Bool-cases (e.peer_addr == null)) [
        | inl p ↦ still (ground (arith, p)) (ground (arith, p)) v
        | inr p ↦ elim (Bool-cases (pa.flood_flag == 1 || same_peer pa.addr curr)) [
          | inl q ↦ still (ground (arith, p, q)) (ground (arith, p, q)) v
          | inr q ↦
              sent-Accounts env a never b (flood_entry env len buf curr b e) d v
                (ground (arith, p, q)) (ground (arith, p, q))
        ]
      ]

  flood_loop-Accounts :
      (len : ℕ) (buf : List ℕ) (curr : SockaddrIn) (b : Bridge T L S) (es : List WlanListEntry)
      → Valid b
      → Accounts env a b (flood_loop env len buf curr b es) [] []
  unfolding flood_loop
  flood_loop-Accounts len buf curr b [] v = Accounts-refl env a b v
  flood_loop-Accounts len buf curr b (e ∷ es) v =
      let step = flood_entry-Accounts len buf curr b e v in
      Accounts-trans env a step
        (flood_loop-Accounts len buf curr (flood_entry env len buf curr b e) es step.counts.valid)

  clear_loop_same :
      (b : Bridge T L S) (es : List WlanListEntry)
      → ((clear_loop env b es).udp ≡ b.udp) × ((clear_loop env b es).stats ≡ b.stats)
  unfolding clear_loop clear_entry
  clear_loop_same b [] = (refl, refl)
  clear_loop_same b (e ∷ es) =
      let ih = clear_loop_same (clear_entry env b e) es in
      (ground (arith, ih.0), ground (arith, ih.1))

  flood-Accounts :
      (b : Bridge T L S) (d : Datagram)
      → Valid b
      → Accounts env a b (wlan_br_flood env b d.len d.buf d.addr) (d ∷ []) []
  unfolding wlan_br_flood
  flood-Accounts b d v =
      let b' = count_in env b d.addr d.len in
      let es = entries env.utlist b'.peers in
      let in' = count_in-Accounts env a never b d v in
      let out = flood_loop-Accounts d.len d.buf d.addr b' es in'.counts.valid in
      let same = clear_loop_same (flood_loop env d.len d.buf d.addr b' es) es in
      Accounts-trans env a (Accounts-trans env a in' out) (still same.0 same.1 out.counts.valid)

  module _ (d : Datagram) where
    count_out-Accounts :
        (b : Bridge T L S) (to : SockaddrIn)
        → Valid b
        → Accounts env a b (count_out env b to d.len) [] (record d { addr = to } ∷ [])
    unfolding total count_out
    count_out-Accounts b to v = quiet-Accounts env a [] (record d { addr = to } ∷ []) refl (
        Counts-cast env.ips env.stat_oom a
          (tx-Counts env.ips env.stat_oom a never b.stats v to.s_addr d.len) refl refl (omega arith)
          (omega arith))

    -- A frame is received, and what it puts off is counted.
    abbrev Handled : Bridge T L S → List Datagram × Bridge T L S → Type 0
    Handled b r = Accounts env a b r.1 (d ∷ []) r.0

    route-Accounts : (b : Bridge T L S) → Valid b → Handled b (burst_route env b d)
    route-Accounts b v =
        let in' = count_in-Accounts env a never b d v in
        let b' = count_in env b d.addr d.len in
        route_elim env b d (Handled b) (flood-Accounts b d v) in'
          (λ to g. Accounts-trans env a in' (count_out-Accounts b' to in'.counts.valid))

    pub entry-Accounts : (b : Bridge T L S) → Valid b → Handled b (burst_entry env b d)
    unfolding burst_entry burst_route total learn
    entry-Accounts b v =
        let learned = learn env b d.addr (src d) in
        let same = still (learn_udp env b d.addr (src d)) (ground arith) v in
        Accounts-trans env a same (route-Accounts learned same.counts.valid)
