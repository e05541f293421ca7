-- ===== src/Forward/Relay.antt =====
-- What wlan_br_forward.c does with a burst: whatever its tables hold and whatever callocs fail,
-- each frame that it hands to the kernel is one of those received, for another peer than the one
-- that sent it.
pub mod Frame
use wlan_bridge.Common.{
  ℕ, ◌≡◌, refl, sym, ap, inl, inr, true, false, ◌||◌, none, some, List, [], ◌∷◌, ◌++◌, arith, All,
  All-append, All-weaken, if◌then◌else◌, Bool-cases, Option-cases, ◌==◌, null, pos, negsuc, ◌==ℤ◌,
}
use mathlib.Core.List.Memᴰ
use mathlib.Core.List.{Memᴰ}
use mathlib.Core.Path.{subst}
use wlan_bridge.Fdb.{FdbEntry}
use wlan_bridge.Net.{Datagram, same_peer}
use wlan_bridge.Ether.{is_multicast_ether_addr, ethhdr_of}
use wlan_bridge.Peers.{WlanListEntry, entries}
use wlan_bridge.Udp.{Udp, called, sendto, send_data_to_udp_client}
use wlan_bridge.Forward.{
  Env, Bridge, count_in, count_out, find_entry, learn, queue_to, wlan_br_forward_to_array,
  flood_entry, flood_loop, clear_entry, clear_loop, wlan_br_flood, burst_entry, burst_loop,
  wlan_br_handle_burst,
}
use wlan_bridge.Forward.BurstEntry.{src, dest, burst_route}
use wlan_bridge.Forward.Route.{route_elim}
use wlan_bridge.Forward.Burst.{send_queue, handle_burst_cases}
use wlan_bridge.Forward.Learn.{learn_udp}
use wlan_bridge.Udp.Adds.{Adds, Adds-refl, Adds-trans, called-Adds, Adds-weaken, burst-Adds}

-- `d` is `r` on its way to another peer.
abbrev pub Copies : Datagram → Datagram → Type 0
Copies r d = (d.len ≡ r.len) × (d.buf ≡ r.buf) × (same_peer d.addr r.addr ≡ false)

module _ {T L S : Type 0} (env : Env T L S) where
  module _ (r : Datagram) where
    flood_entry_udp :
        (b : Bridge T L S) (e : WlanListEntry)
        → let pa = b.peers.infos e.peer_addr in
          (e.peer_addr == null) ≡ false
          → (pa.flood_flag == 1 || same_peer pa.addr r.addr) ≡ false
          → (flood_entry env r.len r.buf r.addr b e).udp
            ≡ called b.udp (sendto b.udp.serv_sock (record r { addr = pa.addr }))
    unfolding flood_entry send_data_to_udp_client
    flood_entry_udp b e p q = ground (arith, p, q)

    flood_entry-Adds :
        (b : Bridge T L S) (e : WlanListEntry)
        → Adds (Copies r) b.udp (flood_entry env r.len r.buf r.addr b e).udp
    unfolding flood_entry send_data_to_udp_client
    flood_entry-Adds b e =
        let pa = b.peers.infos e.peer_addr in
        elim (Bool-cases (e.peer_addr == null)) [
          | inl p ↦ rw p (Adds-refl (Copies r) b.udp)
          | inr p ↦ elim (Bool-cases (pa.flood_flag == 1 || same_peer pa.addr r.addr)) [
            | inl q ↦ rw (p, q) (Adds-refl (Copies r) b.udp)
            | inr q ↦
                rw (flood_entry_udp b e p q)
                  (called-Adds (Copies r) b.udp _ (refl, refl, ground (arith, q)))
          ]
        ]

    flood_loop-Adds :
        (b : Bridge T L S) (es : List WlanListEntry)
        → Adds (Copies r) b.udp (flood_loop env r.len r.buf r.addr b es).udp
    unfolding flood_loop
    flood_loop-Adds b [] = Adds-refl (Copies r) b.udp
    flood_loop-Adds b (e ∷ es) =
        let b' = flood_entry env r.len r.buf r.addr b e in
        Adds-trans (Copies r) b.udp b'.udp _ (flood_entry-Adds b e) (flood_loop-Adds b' es)

    clear_loop_udp :
        (b : Bridge T L S) (es : List WlanListEntry) → (clear_loop env b es).udp ≡ b.udp
    unfolding clear_loop clear_entry
    clear_loop_udp b [] = refl
    clear_loop_udp b (e ∷ es) = ground (arith, clear_loop_udp (clear_entry env b e) es)

    pub flood-Adds :
        (b : Bridge T L S) → Adds (Copies r) b.udp (wlan_br_flood env b r.len r.buf r.addr).udp
    unfolding wlan_br_flood
    flood-Adds b = rw (clear_loop_udp _ _) (flood_loop-Adds _ (entries env.utlist b.peers))

  module _ (d : Datagram) where
    -- A frame adds calls that send it, and puts copies of it off.
    Onward : Bridge T L S → List Datagram × Bridge T L S → Type 0
    Onward b q = Adds (Copies d) b.udp q.1.udp × All (Copies d) q.0

    route-Onward : (b : Bridge T L S) → Onward b (burst_route env b d)
    unfolding Onward count_in count_out
    route-Onward b =
        let none_sent = Adds-refl (Copies d) b.udp in
        route_elim env b d (Onward b) (flood-Adds d b, tt) (none_sent, tt)
          (λ to g. (none_sent, ((refl, refl, g), tt)))

    entry-Onward : (b : Bridge T L S) → Onward b (burst_entry env b d)
    unfolding burst_entry burst_route Onward
    entry-Onward b =
        let learned = learn env b d.addr (src d) in
        let q = burst_route env learned d in
        subst (λ u. Adds (Copies d) u q.1.udp × All (Copies d) q.0) (learn_udp env b d.addr (src d))
          (route-Onward learned)

module _ {T L S : Type 0} (env : Env T L S) (P : Datagram → Type 0) where
  -- Whatever copies the frame for another peer satisfies `P`.
  abbrev pub Allows : Datagram → Type 0
  Allows r = (d : Datagram) → Copies r d → P d

  burst_loop-Adds :
      (b : Bridge T L S) (to rx : List Datagram)
      → All Allows rx
      → All P to
      → Adds P b.udp (burst_loop env b to rx).1.udp × All P (burst_loop env b to rx).0
  unfolding burst_loop Onward
  burst_loop-Adds b to [] h k = (Adds-refl P b.udp, k)
  burst_loop-Adds b to (r ∷ rest) h k =
      let (queued, b') = burst_entry env b r in
      let step = entry-Onward env r b in
      let rest' =
        burst_loop-Adds b' (to ++ queued) rest h.1
          (All-append P to queued k (All-weaken (Copies r) P h.0 queued step.1)) in
      (
        Adds-trans P b.udp b'.udp _ (Adds-weaken (Copies r) P h.0 b.udp b'.udp step.0) rest'.0,
        rest'.1,
      )

  send_queue-Adds : (s : Udp) (q : List Datagram) → All P q → Adds P s (send_queue env.kernel s q)
  send_queue-Adds s [] h = Adds-refl P s
  send_queue-Adds s (d ∷ ds) h = burst-Adds P env.kernel s (d ∷ ds) h

  -- A burst adds only calls that send on what was received, for another peer than its own.
  pub handle_burst-Adds :
      (b : Bridge T L S) (rx : List Datagram)
      → All Allows rx
      → Adds P b.udp (wlan_br_handle_burst env b rx).udp
  handle_burst-Adds b rx h =
      let c = (burst_loop env b [] rx).1 in
      let to = (burst_loop env b [] rx).0 in
      let loop = burst_loop-Adds b [] rx h tt in
      rw (ap (λ (x : Bridge T L S). x.udp) (handle_burst_cases env b rx to refl))
        (Adds-trans P b.udp c.udp _ loop.0 (send_queue-Adds c.udp to loop.1))
