-- ===== src/Forward/Handle.antt =====
-- wlan_br_handle implements the abstract switch.
use wlan_bridge.Common.{
  ℕ, ◌≡◌, refl, sym, ◌∙◌, inl, inr, List, [], ◌∷◌, arith, if◌then◌else◌, Bool-cases, Option-cases,
  negsuc, ◌==ℤ◌,
}
use mathlib.Core.Path.{subst}
use mathlib.Core.List.{append-nil}
use wlan_bridge.Ether.{Mac, ethhdr_of, is_multicast_ether_addr}
use wlan_bridge.Net.{SockaddrIn, same_peer}
use wlan_bridge.Peers.Update.{IsValid}
use wlan_bridge.Udp.{send_data_to_udp_client}
use wlan_bridge.Forward.{
  Env, Bridge, find_entry, learn, wlan_br_flood, wlan_br_forward, wlan_br_handle,
}
use wlan_bridge.Forward.Flood.{
  flood_fdb, flood_peers, flood_udp, flood_once, served, send_call, with_log,
}
use wlan_bridge.Forward.Switch.{learns, view, flood_copies, copies, Delivers}
use wlan_bridge.Forward.Learn.{learn_udp, learn-IsValid, HasMemory, learn-view}

module _ {T L S : Type 0} (env : Env T L S) (b : Bridge T L S) (len : ℕ) (buf : List ℕ)
    (curr : SockaddrIn) where
  flood-view : IsValid env.utlist b.peers → view env (wlan_br_flood env b len buf curr) ≡ view env b
  unfolding find_entry
  flood-view v = rw (flood_fdb env b len buf curr v, flood_peers env b len buf curr v)

  flood-Delivers :
      IsValid env.utlist b.peers
      → Delivers b.udp
          (wlan_br_flood env b len buf curr).udp
          len
          buf
          (flood_copies (view env b) curr)
  unfolding flood_copies
  flood-Delivers v = record {
    to = served env b curr;
    calls = flood_udp env b len buf curr v;
    count = flood_once env b len buf curr v;
  }

  -- What the rest of wlan_br_handle does, behind the learning.
  route : Mac → Bridge T L S
  unfolding wlan_br_forward
  route dest =
      if is_multicast_ether_addr dest
      then wlan_br_flood env b len buf curr
      else let (ret, b') = wlan_br_forward env b len buf dest curr in
        if negsuc 0 ==ℤ ret then wlan_br_flood env b' len buf curr else b'

  -- The three ways in which a frame is routed.
  data Routes (dest : Mac) : Bridge T L S → Type 0 where
    floods :
        (c : Bridge T L S)
        → c ≡ wlan_br_flood env b len buf curr
        → ((a : SockaddrIn) → copies (view env b) curr dest a ≡ flood_copies (view env b) curr a)
        → Routes dest c
    stays :
        (c : Bridge T L S)
        → c ≡ b
        → ((a : SockaddrIn) → copies (view env b) curr dest a ≡ 0)
        → Routes dest c
    forwards :
        (c : Bridge T L S) (t : SockaddrIn)
        → c.fdb ≡ b.fdb
        → c.peers ≡ b.peers
        → c.udp ≡ with_log b.udp (send_call b.udp.serv_sock len buf t ∷ [])
        → ((a : SockaddrIn) → copies (view env b) curr dest a ≡ (if same_peer t a then 1 else 0))
        → Routes dest c

  route-Routes : (dest : Mac) → Routes dest (route dest)
  unfolding route copies send_data_to_udp_client
  route-Routes dest = elim (Bool-cases (is_multicast_ether_addr dest)) [
    | inl e ↦ floods _ (ground arith) (ground arith)
    | inr e ↦ elim (Option-cases (find_entry env b dest)) [
      | inl f ↦ floods _ (ground arith) (ground arith)
      | inr (x, f) ↦ elim (Bool-cases (same_peer x.peer_addr curr)) [
        | inl g ↦ stays _ (ground arith) (ground arith)
        | inr g ↦ forwards _ x.peer_addr (ground arith) (ground arith) (ground arith) (ground arith)
      ]
    ]
  ]

  -- A routed frame changes nothing that the bridge knows, and reaches whom the switch says.
  record Routed (dest : Mac) (c : Bridge T L S) : Type 0 where
    fdb : c.fdb ≡ b.fdb
    peers : c.peers ≡ b.peers
    delivers : Delivers b.udp c.udp len buf (copies (view env b) curr dest)

  Routes-Routed :
      (dest : Mac) (c : Bridge T L S) → IsValid env.utlist b.peers → Routes dest c → Routed dest c
  Routes-Routed dest c v (floods _ e n) =
      let d = flood-Delivers v in
      rw e (record {
        fdb = flood_fdb env b len buf curr v;
        peers = flood_peers env b len buf curr v;
        delivers = record { to = d.to; calls = d.calls; count = λ a. d.count a ∙ sym (n a) };
      })
  Routes-Routed dest c v (stays _ e n) = rw e (record {
    fdb = refl;
    peers = refl;
    delivers = record {
      to = [];
      calls = ground (arith, append-nil b.udp.log);
      count = λ a. sym (n a);
    };
  })
  Routes-Routed dest c v (forwards _ t f p u n) = record {
    fdb = f;
    peers = p;
    delivers = record { to = t ∷ []; calls = u; count = λ a. ground (arith, n a) };
  }

  route-Routed : (dest : Mac) → IsValid env.utlist b.peers → Routed dest (route dest)
  route-Routed dest v = Routes-Routed dest (route dest) v (route-Routes dest)

module _ {T L S : Type 0} (env : Env T L S) (b : Bridge T L S) (len : ℕ) (buf : List ℕ)
    (curr : SockaddrIn) (v : IsValid env.utlist b.peers) where
  abbrev src : Mac
  src = (ethhdr_of buf).h_source

  abbrev dest : Mac
  dest = (ethhdr_of buf).h_dest

  handle_lem :
      wlan_br_handle env b len buf curr ≡ route env (learn env b curr src) len buf curr dest
  unfolding wlan_br_handle route
  handle_lem = refl

  routed : Routed env (learn env b curr src) len buf curr dest (wlan_br_handle env b len buf curr)
  routed =
      rw handle_lem
        (route-Routed env (learn env b curr src) len buf curr dest (learn-IsValid env b curr src v))

  -- Whatever callocs fail, wlan_br_handle leaves a well-formed list well formed: each entry
  -- points at a record that calloc returned, there is one record for each peer, none is left marked
  -- as served, and each counts the entries that share it, modulo 2 ^ 16.
  pub handle-IsValid : IsValid env.utlist (wlan_br_handle env b len buf curr).peers
  handle-IsValid = rw (routed.peers) (learn-IsValid env b curr src v)

  handle-view :
      HasMemory env b curr src
      → view env (wlan_br_handle env b len buf curr) ≡ learns (view env b) curr src
  unfolding find_entry
  handle-view m = rw (routed.fdb, routed.peers) (learn-view env b curr src v m)

  handle-Delivers :
      HasMemory env b curr src
      → Delivers b.udp
          (wlan_br_handle env b len buf curr).udp
          len
          buf
          (copies (learns (view env b) curr src) curr dest)
  handle-Delivers m = rw (← learn-view env b curr src v m) (
      subst
        (λ u.
          Delivers u (wlan_br_handle env b len buf curr).udp len buf
            (copies (view env (learn env b curr src)) curr dest))
        (learn_udp env b curr src) (routed.delivers))

  -- On a well-formed list and while memory lasts, wlan_br_handle implements the learning switch:
  -- the bridge knows afterwards what the switch knows, and the one thing it asks of the kernel is
  -- to send the frame, unchanged, to each peer as many times as the switch delivers it there.
  pub handle-refines :
      HasMemory env b curr src
      → (view env (wlan_br_handle env b len buf curr) ≡ learns (view env b) curr src)
        × Delivers b.udp
            (wlan_br_handle env b len buf curr).udp
            len
            buf
            (copies (learns (view env b) curr src) curr dest)
  handle-refines m = (handle-view m, handle-Delivers m)
