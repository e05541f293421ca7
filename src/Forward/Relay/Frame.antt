-- ===== src/Forward/Relay/Frame.antt =====
-- wlan_br_handle, which has one frame at a time, sends on what it received too.
use wlan_bridge.Common.{
  if◌then◌else◌, negsuc, ◌==ℤ◌, ◌≡◌, refl, inl, inr, true, false, none, some, arith, Bool-cases,
  Option-cases,
}
use mathlib.Core.Path.{subst}
use wlan_bridge.Net.{Datagram, same_peer}
use wlan_bridge.Ether.{is_multicast_ether_addr}
use wlan_bridge.Fdb.{FdbEntry}
use wlan_bridge.Udp.{called, sendto, send_data_to_udp_client}
use wlan_bridge.Udp.Adds.{Adds, Adds-refl, called-Adds}
use wlan_bridge.Forward.{
  Env, Bridge, find_entry, forward_to, learn, wlan_br_flood, wlan_br_forward, wlan_br_handle,
}
use wlan_bridge.Forward.BurstEntry.{src, dest}
use wlan_bridge.Forward.Learn.{learn_udp}
use wlan_bridge.Forward.Relay.{Copies, flood-Adds}

module _ {T L S : Type 0} (env : Env T L S) (r : Datagram) where
  -- What wlan_br_handle does behind the learning.
  route : Bridge T L S → Bridge T L S
  unfolding wlan_br_forward
  route b =
      if is_multicast_ether_addr (dest r)
      then wlan_br_flood env b r.len r.buf r.addr
      else let (ret, b') = wlan_br_forward env b r.len r.buf (dest r) r.addr in
        if negsuc 0 ==ℤ ret then wlan_br_flood env b' r.len r.buf r.addr else b'

  route_group :
      (b : Bridge T L S)
      → is_multicast_ether_addr (dest r) ≡ true
      → route b ≡ wlan_br_flood env b r.len r.buf r.addr
  unfolding route
  route_group b e = ground (arith, e)

  route_unknown :
      (b : Bridge T L S)
      → is_multicast_ether_addr (dest r) ≡ false
      → find_entry env b (dest r) ≡ none
      → route b ≡ wlan_br_flood env b r.len r.buf r.addr
  unfolding route wlan_br_forward
  route_unknown b e f = ground (arith, e, f)

  route_same :
      (b : Bridge T L S) (x : FdbEntry)
      → is_multicast_ether_addr (dest r) ≡ false
      → find_entry env b (dest r) ≡ some x
      → same_peer x.peer_addr r.addr ≡ true
      → (route b).udp ≡ b.udp
  unfolding route wlan_br_forward forward_to
  route_same b x e f g = ground (arith, e, f, g)

  route_other :
      (b : Bridge T L S) (x : FdbEntry)
      → is_multicast_ether_addr (dest r) ≡ false
      → find_entry env b (dest r) ≡ some x
      → same_peer x.peer_addr r.addr ≡ false
      → (route b).udp ≡ called b.udp (sendto b.udp.serv_sock (record r { addr = x.peer_addr }))
  unfolding route wlan_br_forward forward_to send_data_to_udp_client
  route_other b x e f g = ground (arith, e, f, g)

  route-Adds : (b : Bridge T L S) → Adds (Copies r) b.udp (route b).udp
  route-Adds b = elim (Bool-cases (is_multicast_ether_addr (dest r))) [
    | inl e ↦ rw (route_group b e) (flood-Adds env r b)
    | inr e ↦ elim (Option-cases (find_entry env b (dest r))) [
      | inl f ↦ rw (route_unknown b e f) (flood-Adds env r b)
      | inr (x, f) ↦ elim (Bool-cases (same_peer x.peer_addr r.addr)) [
        | inl g ↦ rw (route_same b x e f g) (Adds-refl (Copies r) b.udp)
        | inr g ↦ rw (route_other b x e f g) (called-Adds (Copies r) b.udp _ (refl, refl, g))
      ]
    ]
  ]

  -- A frame adds only calls that send it on, to other peers than its own.
  pub handle-Adds :
      (b : Bridge T L S) → Adds (Copies r) b.udp (wlan_br_handle env b r.len r.buf r.addr).udp
  unfolding wlan_br_handle route
  handle-Adds b =
      let learned = learn env b r.addr (src r) in
      subst (λ u. Adds (Copies r) u (route learned).udp) (learn_udp env b r.addr (src r))
        (route-Adds learned)
