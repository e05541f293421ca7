-- ===== src/Forward/Keeps.antt =====
-- What holds of the bridge throughout wlan_br_handle_burst, because each of its steps keeps it.
use wlan_bridge.Common.{
  ℕ, ◌≤◌, refl, inl, inr, ◌||◌, List, [], ◌∷◌, ◌++◌, arith, Ptr, null, Bool-cases, ◌==◌, pos, ◌==ℤ◌,
}
use wlan_bridge.Ether.{Mac}
use wlan_bridge.Net.{SockaddrIn, Datagram, same_peer}
use wlan_bridge.Peers.{WlanListEntry, entries}
use wlan_bridge.Udp.{Udp, send_data_to_udp_client}
use wlan_bridge.Forward.{
  Env, Bridge, count_in, count_out, write_flag, flood_send, learn, flood_entry, flood_loop,
  clear_entry, clear_loop, wlan_br_flood, burst_entry, burst_loop, wlan_br_handle_burst,
}
use wlan_bridge.Forward.BurstEntry.{src, burst_route}
use wlan_bridge.Forward.Burst.{send_queue, handle_burst_cases}
use wlan_bridge.Forward.Route.{route_elim}

module _ {T L S : Type 0} (env : Env T L S) (P : Bridge T L S → Type 0) where
  -- The steps of the bridge: a frame is learned or counted, a mark is set, a call is made.
  pub record Keeps : Type 0 where
    pub learns : (b : Bridge T L S) (a : SockaddrIn) (m : Mac) → P b → P (learn env b a m)
    pub counts_in : (b : Bridge T L S) (a : SockaddrIn) (len : ℕ) → P b → P (count_in env b a len)
    pub counts_out : (b : Bridge T L S) (a : SockaddrIn) (len : ℕ) → P b → P (count_out env b a len)
    pub marks :
        (b : Bridge T L S) (pa : Ptr) (flag : ℕ) → flag ≤ 1 → P b → P (write_flag env b pa flag)
    pub calls : (b : Bridge T L S) (u : Udp) → P b → P (record b { udp = u })

module _ {T L S : Type 0} (env : Env T L S) (P : Bridge T L S → Type 0) (keeps : Keeps env P) where
  flood_send_keeps :
      (b : Bridge T L S) (len : ℕ) (buf : List ℕ) (addr : SockaddrIn)
      → P b
      → P (flood_send env b len buf addr)
  unfolding flood_send
  flood_send_keeps b len buf addr h =
      let (ret, udp') = send_data_to_udp_client env.kernel b.udp len buf addr in
      let sent = keeps.calls b udp' h in
      elim (Bool-cases (ret ==ℤ pos len)) [
        | inl e ↦ rw e (keeps.counts_out (record b { udp = udp' }) addr len sent)
        | inr e ↦ rw e sent
      ]

  module _ (len : ℕ) (buf : List ℕ) (curr : SockaddrIn) where
    flood_entry_keeps :
        (b : Bridge T L S) (e : WlanListEntry) → P b → P (flood_entry env len buf curr b e)
    unfolding flood_entry
    flood_entry_keeps b e h =
        let pa = b.peers.infos e.peer_addr in
        elim (Bool-cases (e.peer_addr == null)) [
          | inl p ↦ rw p h
          | inr p ↦ elim (Bool-cases (pa.flood_flag == 1 || same_peer pa.addr curr)) [
            | inl q ↦ rw (p, q) h
            | inr q ↦
                let marked = keeps.marks b e.peer_addr 1 (omega arith) h in
                rw (p, q) (flood_send_keeps (write_flag env b e.peer_addr 1) len buf pa.addr marked)
          ]
        ]

    flood_loop_keeps :
        (b : Bridge T L S) (es : List WlanListEntry) → P b → P (flood_loop env len buf curr b es)
    unfolding flood_loop
    flood_loop_keeps b [] h = h
    flood_loop_keeps b (e ∷ es) h =
        flood_loop_keeps (flood_entry env len buf curr b e) es (flood_entry_keeps b e h)

    clear_loop_keeps : (b : Bridge T L S) (es : List WlanListEntry) → P b → P (clear_loop env b es)
    unfolding clear_loop clear_entry
    clear_loop_keeps b [] h = h
    clear_loop_keeps b (e ∷ es) h =
        clear_loop_keeps (clear_entry env b e) es (elim (Bool-cases (e.peer_addr == null)) [
          | inl p ↦ rw p h
          | inr p ↦ rw p (keeps.marks b e.peer_addr 0 (omega arith) h)
        ])

    flood_keeps : (b : Bridge T L S) → P b → P (wlan_br_flood env b len buf curr)
    unfolding wlan_br_flood
    flood_keeps b h =
        let b' = count_in env b curr len in
        let es = entries env.utlist b'.peers in
        clear_loop_keeps (flood_loop env len buf curr b' es) es
          (flood_loop_keeps b' es (keeps.counts_in b curr len h))

  burst_entry_keeps : (b : Bridge T L S) (d : Datagram) → P b → P (burst_entry env b d).1
  unfolding burst_entry burst_route
  burst_entry_keeps b d h =
      let b' = learn env b d.addr (src d) in
      let learned = keeps.learns b d.addr (src d) h in
      let counted = keeps.counts_in b' d.addr d.len learned in
      route_elim env b' d (λ r. P r.1) (flood_keeps d.len d.buf d.addr b' learned) counted
        (λ to g. keeps.counts_out (count_in env b' d.addr d.len) to d.len counted)

  burst_loop_keeps : (b : Bridge T L S) (to rx : List Datagram) → P b → P (burst_loop env b to rx).1
  unfolding burst_loop
  burst_loop_keeps b to [] h = h
  burst_loop_keeps b to (d ∷ rest) h =
      let (queued, b') = burst_entry env b d in
      burst_loop_keeps b' (to ++ queued) rest (burst_entry_keeps b d h)

  pub burst_keeps :
      (b : Bridge T L S) (rx : List Datagram) → P b → P (wlan_br_handle_burst env b rx)
  burst_keeps b rx h =
      let (to, c) = burst_loop env b [] rx in
      rw (handle_burst_cases env b rx to refl)
        (keeps.calls c (send_queue env.kernel c.udp to) (burst_loop_keeps b [] rx h))
