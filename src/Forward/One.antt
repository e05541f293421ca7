-- ===== src/Forward/One.antt =====
-- A frame for a known address, on its way through a burst.
use wlan_bridge.Common.{
  ◌≡◌, refl, ◌⊎◌, inl, inr, false, not, ◌&&◌, some, List, [], ◌∷◌, ◌++◌, arith, ◌==◌, Bool-cases,
  length, pos, ◌==ℤ◌,
}
use mathlib.Core.List.{append_assoc}
use wlan_bridge.Ether.{Mac, ethhdr_of, is_multicast_ether_addr}
use wlan_bridge.Net.{SockaddrIn, Datagram, same_peer}
use wlan_bridge.Fdb.{FdbEntry}
use wlan_bridge.Fdb.Laws.{update-sticky}
use wlan_bridge.Udp.{
  usleep, eagain, unsent, Kernel, Udp, Call, sendmmsg, send_data_to_udp_client_burst,
}
use wlan_bridge.Forward.{
  Env, Bridge, find_entry, learn, wlan_br_forward_to_array, burst_entry, burst_loop,
  wlan_br_handle_burst,
}
use wlan_bridge.Forward.Learn.{learn_udp}

-- Three calls, one after the other.
three_calls :
    {A : Type 0} (log : List A) (x y z : A)
    → ((log ++ x ∷ []) ++ y ∷ []) ++ z ∷ [] ≡ log ++ x ∷ y ∷ z ∷ []
three_calls log x y z = rw (append_assoc, append_assoc) refl

-- A burst is handed to sendmmsg whole, and what is left of it perhaps once more, behind a usleep.
pub burst_send_cases :
    (kernel : Kernel) (s : Udp) (q : List Datagram)
    → let after = (send_data_to_udp_client_burst kernel s q).1.log in
      (after ≡ s.log ++ sendmmsg s.serv_sock q ∷ [])
      ⊎ ((again : List Datagram) × (after
            ≡ s.log ++ sendmmsg s.serv_sock q ∷ usleep 20 ∷ sendmmsg s.serv_sock again ∷ []))
unfolding send_data_to_udp_client_burst
burst_send_cases kernel s q =
    let log = s.log ++ sendmmsg s.serv_sock q ∷ [] in
    let reply = kernel.sendmmsg_ret log in
    let again = unsent q reply.msg_len in
    let whole = reply.retval ==ℤ pos (length q) in
    let slept = (log ++ usleep 20 ∷ []) ++ sendmmsg s.serv_sock again ∷ [] in
    elim (Bool-cases whole) [
      | inl e ↦ inl (rw e refl)
      | inr e ↦ elim (Bool-cases ((reply.errno == eagain) && not (length again == 0))) [
        | inl f ↦ inr (
          again,
          rw (e, f)
              (elim (Bool-cases ((kernel.sendmmsg_ret slept).retval ==ℤ pos (length again))) [
                | inl g ↦ rw g (three_calls s.log _ _ _)
                | inr g ↦ rw g (three_calls s.log _ _ _)
              ]),
        )
        | inr f ↦ inl (rw (e, f) refl)
      ]
    ]

-- A burst is handed to sendmmsg whole, whatever follows.
pub burst_send_first :
    (kernel : Kernel) (s : Udp) (q : List Datagram)
    → (more : List Call) × ((send_data_to_udp_client_burst kernel s q).1.log
        ≡ s.log ++ sendmmsg s.serv_sock q ∷ more)
burst_send_first kernel s q = elim (burst_send_cases kernel s q) [
  | inl e ↦ ([], e)
  | inr (again, e) ↦ (usleep 20 ∷ sendmmsg s.serv_sock again ∷ [], e)
]

module _ {T L S : Type 0} (env : Env T L S) (b : Bridge T L S) where
  learn_fdb :
      (curr : SockaddrIn) (src m : Mac) (e : FdbEntry)
      → find_entry env b m ≡ some e
      → find_entry env (learn env b curr src) m ≡ some e
  unfolding learn find_entry
  learn_fdb curr src m e h =
      let s = update-sticky env.macs env.fdb_oom b.fdb curr src m h in ground (arith, s)

  module _ (d : Datagram) (e : FdbEntry)
      (known : find_entry env b (ethhdr_of d.buf).h_dest ≡ some e)
      (single : is_multicast_ether_addr (ethhdr_of d.buf).h_dest ≡ false)
      (away : same_peer e.peer_addr d.addr ≡ false) where
    -- What the bridge sends on.
    abbrev onward : Datagram
    onward = record { len = d.len; buf = d.buf; addr = e.peer_addr }

    entry_queues : ((burst_entry env b d).0 ≡ onward ∷ []) × ((burst_entry env b d).1.udp ≡ b.udp)
    unfolding burst_entry wlan_br_forward_to_array
    entry_queues =
        let f = learn_fdb d.addr (ethhdr_of d.buf).h_source (ethhdr_of d.buf).h_dest e known in
        let u = learn_udp env b d.addr (ethhdr_of d.buf).h_source in
        (ground (arith, f, u, single, away), ground (arith, f, u, single, away))

    -- A burst of one frame for a known address behind another peer is sent on to that peer.
    pub burst_one :
        (wlan_br_handle_burst env b (d ∷ [])).udp
        ≡ (send_data_to_udp_client_burst env.kernel b.udp (onward ∷ [])).1
    unfolding wlan_br_handle_burst burst_loop
    burst_one = rw (entry_queues.0, entry_queues.1, wlan_br_handle_burst, burst_loop) refl
