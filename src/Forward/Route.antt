-- ===== src/Forward/Route.antt =====
-- The three ways of a frame through the body of the loop of wlan_br_handle_burst.
use wlan_bridge.Common.{
  ◌≡◌, refl, sym, inl, inr, true, false, none, some, List, [], ◌∷◌, arith, if◌then◌else◌,
  Bool-cases, Option-cases,
}
use mathlib.Core.Path.{subst}
use wlan_bridge.Net.{SockaddrIn, Datagram, same_peer}
use wlan_bridge.Ether.{is_multicast_ether_addr}
use wlan_bridge.Fdb.{FdbEntry}
use wlan_bridge.Forward.{
  Env, Bridge, count_in, count_out, find_entry, wlan_br_flood, wlan_br_forward_to_array,
}
use wlan_bridge.Forward.BurstEntry.{dest, burst_route}

module _ {T L S : Type 0} (env : Env T L S) (b : Bridge T L S) (d : Datagram) where
  route_group :
      is_multicast_ether_addr (dest d) ≡ true
      → burst_route env b d ≡ ([], wlan_br_flood env b d.len d.buf d.addr)
  unfolding burst_route
  route_group e = ground (arith, e)

  route_unknown :
      is_multicast_ether_addr (dest d) ≡ false
      → find_entry env b (dest d) ≡ none
      → burst_route env b d ≡ ([], wlan_br_flood env b d.len d.buf d.addr)
  unfolding burst_route wlan_br_forward_to_array
  route_unknown e f = ground (arith, e, f)

  -- What is put off, and the state, where the frame goes to the peer at `to`.
  abbrev queued_to : SockaddrIn → List Datagram × Bridge T L S
  queued_to to = (record d { addr = to } ∷ [], count_out env (count_in env b d.addr d.len) to d.len)

  route_known :
      (x : FdbEntry)
      → is_multicast_ether_addr (dest d) ≡ false
      → find_entry env b (dest d) ≡ some x
      → burst_route env b d ≡ (
          if same_peer x.peer_addr d.addr
          then ([], count_in env b d.addr d.len)
          else queued_to x.peer_addr)
  unfolding burst_route wlan_br_forward_to_array
  route_known x e f = ground (arith, e, f)

  -- The frame is flooded, stays with its sender, or is put off for another peer.
  pub route_elim :
      (P : List Datagram × Bridge T L S → Type 0)
      → P ([], wlan_br_flood env b d.len d.buf d.addr)
      → P ([], count_in env b d.addr d.len)
      → ((to : SockaddrIn) → same_peer to d.addr ≡ false → P (queued_to to))
      → P (burst_route env b d)
  route_elim P flooded stays queued = elim (Bool-cases (is_multicast_ether_addr (dest d))) [
    | inl e ↦ subst P (sym (route_group e)) flooded
    | inr e ↦ elim (Option-cases (find_entry env b (dest d))) [
      | inl f ↦ subst P (sym (route_unknown e f)) flooded
      | inr (x, f) ↦ elim (Bool-cases (same_peer x.peer_addr d.addr)) [
        | inl g ↦ subst P (sym (rw (route_known x e f, g) refl)) stays
        | inr g ↦ subst P (sym (rw (route_known x e f, g) refl)) (queued x.peer_addr g)
      ]
    ]
  ]
