-- ===== src/Forward/Flood.antt =====
-- What wlan_br_flood does to the bridge.
use wlan_bridge.Common.{
  ℕ, ◌≡◌, refl, ap, ◌∙◌, Bool, true, false, not, ◌&&◌, List, [], ◌∷◌, ◌++◌, map, arith, Heap,
  if◌then◌else◌, count_if, ℤ,
}
use mathlib.Core.List.{append_assoc, append-nil, map-append}
use mathlib.Core.Path.{subst}
use wlan_bridge.Peers.Update.{IsValid, knows_in}
use wlan_bridge.Net.{SockaddrIn}
use wlan_bridge.Peers.{Peers, PeerAddrInfo, WlanListEntry}
use wlan_bridge.Udp.{Udp, Call, sendto, send_data_to_udp_client}
use wlan_bridge.Forward.{
  count_in, same_peer, wlan_br_flood, clear_entry, clear_loop, entries, Env, Bridge, flood_entry,
  flood_loop,
}
use wlan_bridge.Forward.Marks.{
  clear_all-visit_all, count-targets, clear_all, skips, visit, visit_all, targets,
}

-- The call that sends a frame to a peer.
abbrev pub send_call : ℤ → ℕ → List ℕ → SockaddrIn → Call
send_call fd len buf addr = sendto fd (record { len = len; buf = buf; addr = addr })

abbrev with_infos : {L : Type 0} → Peers L → Heap PeerAddrInfo → Peers L
with_infos s h = record s { infos = h }

abbrev pub with_log : Udp → List Call → Udp
with_log s new = record s { log = s.log ++ new }

if-append :
    (c : Bool) (x : SockaddrIn) (xs : List SockaddrIn)
    → (if c then [] else x ∷ []) ++ xs ≡ (if c then xs else x ∷ xs)
if-append true x xs = refl
if-append false x xs = refl

module _ {T L S : Type 0} (env : Env T L S) (len : ℕ) (buf : List ℕ) (curr : SockaddrIn) where
  -- The parts of a bridge that the flood's sends touch in a way that does not turn on their results.
  record Floods (b c : Bridge T L S) (h : Heap PeerAddrInfo) (to : List SockaddrIn) : Type 0 where
    fdb : c.fdb ≡ b.fdb
    peers : c.peers ≡ with_infos b.peers h
    udp : c.udp ≡ with_log b.udp (map (send_call b.udp.serv_sock len buf) to)

  flood_entry-Floods :
      (b : Bridge T L S) (e : WlanListEntry)
      → Floods b
          (flood_entry env len buf curr b e)
          (visit b.peers.infos curr e)
          (if skips b.peers.infos curr e then [] else (b.peers.infos e.peer_addr).addr ∷ [])
  unfolding flood_entry visit skips send_data_to_udp_client
  flood_entry-Floods b e = ground (arith, append-nil b.udp.log)

  Floods-trans :
      (b c d : Bridge T L S) (h g : Heap PeerAddrInfo) (to more : List SockaddrIn)
      → Floods b c h to
      → Floods c d g more
      → Floods b d g (to ++ more)
  Floods-trans b c d h g to more f k = record {
    fdb = k.fdb ∙ f.fdb;
    peers = ground (arith, f.peers, k.peers);
    udp =
        rw (k.udp, f.udp, map-append)
          (ap (λ l. record { serv_sock = b.udp.serv_sock; log = l })
            (append_assoc b.udp.log (map (send_call b.udp.serv_sock len buf) to) _));
  }

  flood_loop-Floods :
      (b : Bridge T L S) (h : Heap PeerAddrInfo) (es : List WlanListEntry)
      → b.peers.infos ≡ h
      → Floods b (flood_loop env len buf curr b es) (visit_all h curr es) (targets h curr es)
  unfolding flood_loop visit_all targets
  flood_loop-Floods b h [] i = record {
    fdb = refl;
    peers = ground arith;
    udp = ground (arith, append-nil b.udp.log);
  }
  flood_loop-Floods b h (e ∷ es) i =
      let b' = flood_entry env len buf curr b e in
      let step =
        subst
          (λ g.
            Floods b b' (visit g curr e) (if skips g curr e then [] else (g e.peer_addr).addr ∷ []))
          i (flood_entry-Floods b e) in
      let rest =
        flood_loop-Floods b' (visit h curr e) es (ap (λ (s : Peers L). s.infos) (step.peers)) in
      subst (Floods b (flood_loop env len buf curr b' es) (visit_all (visit h curr e) curr es))
        (if-append (skips h curr e) (h e.peer_addr).addr (targets (visit h curr e) curr es))
        (Floods-trans b b' _ _ _ _ _ step rest)

  clear_loop_lem :
      (b : Bridge T L S) (es : List WlanListEntry)
      → clear_loop env b es ≡ record b { peers = with_infos b.peers (clear_all b.peers.infos es) }
  unfolding clear_loop clear_entry clear_all
  clear_loop_lem b [] = refl
  clear_loop_lem b (e ∷ es) = ground (arith, clear_loop_lem (clear_entry env b e) es)

-- The peers that a flood from `curr` serves, in order.
abbrev pub served : {T L S : Type 0} → Env T L S → Bridge T L S → SockaddrIn → List SockaddrIn
served env b curr = targets b.peers.infos curr (entries env.utlist b.peers)

module _ {T L S : Type 0} (env : Env T L S) (b : Bridge T L S) (len : ℕ) (buf : List ℕ)
    (curr : SockaddrIn) (v : IsValid env.utlist b.peers) where
  flooded :
      Floods env len buf curr b (wlan_br_flood env b len buf curr) b.peers.infos (served env b curr)
  unfolding wlan_br_flood
  flooded =
      let es = entries env.utlist b.peers in
      let b' = flood_loop env len buf curr (count_in env b curr len) es in
      let f = flood_loop-Floods env len buf curr (count_in env b curr len) b.peers.infos es refl in
      let cleared : clear_all b'.peers.infos es ≡ b.peers.infos =
        rw (f.peers) (clear_all-visit_all b.peers.infos curr es v) in
      rw (clear_loop_lem env len buf curr b' es, cleared)
        (record { fdb = f.fdb; peers = rw (f.peers); udp = f.udp })

  -- A flood changes neither the forwarding table nor, once it is over, the list.
  pub flood_fdb : (wlan_br_flood env b len buf curr).fdb ≡ b.fdb
  flood_fdb = flooded.fdb

  pub flood_peers : (wlan_br_flood env b len buf curr).peers ≡ b.peers
  flood_peers = flooded.peers

  pub flood_udp :
      (wlan_br_flood env b len buf curr).udp
      ≡ with_log b.udp (map (send_call b.udp.serv_sock len buf) (served env b curr))
  flood_udp = flooded.udp

  -- The flood serves every peer that it knows, other than the sender, exactly once.
  pub flood_once :
      (a : SockaddrIn)
      → count_if (λ t. same_peer t a) (served env b curr)
        ≡ (if knows_in env.utlist b.peers a && not (same_peer a curr) then 1 else 0)
  flood_once a = count-targets b.peers.infos curr a (entries env.utlist b.peers) v

  -- On a well-formed list wlan_br_flood sends the frame to every peer of the list but the sender,
  -- exactly once however many hardware addresses the peer has, whatever the sends return; it asks
  -- nothing else of the kernel, leaves the forwarding table alone, and takes its marks away again.
  pub flood_exact :
      let c = wlan_br_flood env b len buf curr in
      let to = served env b curr in
      (c.fdb ≡ b.fdb)
      × (c.peers ≡ b.peers)
      × (c.udp ≡ with_log b.udp (map (send_call b.udp.serv_sock len buf) to))
      × ((a : SockaddrIn)
          → count_if (λ t. same_peer t a) to
            ≡ (if knows_in env.utlist b.peers a && not (same_peer a curr) then 1 else 0))
  flood_exact = (flood_fdb, flood_peers, flood_udp, flood_once)
