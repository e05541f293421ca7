-- ===== src/Main/Single/Drain.antt =====
-- The loop server_runing ends, having read everything, and keeps the bridge well formed.
use wlan_bridge.Common.{
  ℕ, zero, suc, ◌≤◌, ◌<◌, ◌≡◌, refl, inl, inr, false, ◌||◌, some, List, [], ◌∷◌, ◌++◌, arith, ◌==◌,
  Bool-cases, ℤ, is_nonpos,
}
use wlan_bridge.Net.{Datagram}
use wlan_bridge.Peers.Update.{IsValid}
use wlan_bridge.Udp.{Call, Kernel, recvfrom, first_len, read_data_from_udp_client}
use wlan_bridge.Forward.{Env}
use wlan_bridge.Forward.Handle.{handle-IsValid}
use wlan_bridge.Forward.Relay.Frame.{handle-Adds}
use wlan_bridge.Main.{max_data_len, count_of}
use wlan_bridge.Main.Drain.{Draining, left-append}
use wlan_bridge.Main.Single.{Receiver, read_one, handle_one, drain_one}

-- The kernel's queue, as recvfrom empties it: a read with a positive result takes from it.
pub record DrainingOne (kernel : Kernel) (left : List Call → ℕ) : Type 0 where
  pub queue : Draining kernel left
  pub takes :
      (log : List Call) (fd : ℤ) (len : ℕ)
      → let r = kernel.recv_ret (log ++ recvfrom fd len ∷ []) in
        (r.failed || first_len kernel len r.arrivals == 0) ≡ false
        → left (log ++ recvfrom fd len ∷ []) < left log

module _ {T L S : Type 0} (env : Env T L S) (left : List Call → ℕ)
    (k : DrainingOne env.kernel left) where
  abbrev pub Healthy : Receiver T L S → Type 0
  Healthy r = IsValid env.utlist r.server.bridge.peers

  abbrev pub unread : Receiver T L S → ℕ
  unread r = left r.server.bridge.udp.log

  read_one-left :
      (r : Receiver T L S)
      → is_nonpos (read_one env r).0 ≡ false
      → unread (read_one env r).1 < unread r
  unfolding read_one read_data_from_udp_client
  read_one-left r h =
      ground (arith, k.takes r.server.bridge.udp.log r.server.bridge.udp.serv_sock max_data_len)

  read_one-left_le : (r : Receiver T L S) → unread (read_one env r).1 ≤ unread r
  unfolding read_one read_data_from_udp_client
  read_one-left_le r = ground (
    arith,
    k.queue.keeps r.server.bridge.udp.log (recvfrom r.server.bridge.udp.serv_sock max_data_len),
  )

  read_one_peers :
      (r : Receiver T L S) → (read_one env r).1.server.bridge.peers ≡ r.server.bridge.peers
  unfolding read_one
  read_one_peers r = refl

  handle_one-left : (n : ℕ) (r : Receiver T L S) → unread (handle_one env n r) ≤ unread r
  unfolding handle_one
  handle_one-left n r =
      let frame : Datagram = record { len = n; buf = r.slot.buf; addr = r.slot.peer_addr } in
      let sent = handle-Adds env frame r.server.bridge in
      rw (sent.log) (left-append env.kernel left k.queue r.server.bridge.udp.log sent.new)

  handle_one-Healthy : (n : ℕ) (r : Receiver T L S) → Healthy r → Healthy (handle_one env n r)
  unfolding handle_one
  handle_one-Healthy n r v = handle-IsValid env r.server.bridge n r.slot.buf r.slot.peer_addr v

  -- With a well-formed list and more fuel than the kernel's queue holds datagrams, wherever memory
  -- runs out, the inner loop of server_runing ends, with the bridge's list well formed.
  pub drain_one-total :
      (fuel : ℕ) (r : Receiver T L S)
      → Healthy r
      → unread r < fuel
      → (r' : Receiver T L S) × (drain_one env fuel r ≡ some r')
        × Healthy r'
        × (unread r' ≤ unread r)
  unfolding drain_one
  drain_one-total zero r v h = absurd (omega arith)
  drain_one-total (suc fuel) r v h = elim (Bool-cases (is_nonpos (read_one env r).0)) [
    | inl done ↦ ((read_one env r).1, ground arith, rw (read_one_peers r) v, read_one-left_le r)
    | inr more ↦
        let r' = (read_one env r).1 in
        let n = count_of (read_one env r).0 in
        let w : Healthy r' = rw (read_one_peers r) v in
        let ih =
          drain_one-total fuel (handle_one env n r') (handle_one-Healthy n r' w)
            (omega (arith, handle_one-left n r', read_one-left r more)) in
        (
          ih.0,
          ground (arith, ih.1),
          ih.2,
          omega (arith, ih.3, handle_one-left n r', read_one-left r more),
        )
  ]
