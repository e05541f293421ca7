-- ===== src/Main/Wakeup.antt =====
-- A wakeup of server_runing_burst that reports the socket: epoll is edge-triggered, so that the loop
-- must read the socket empty.
use wlan_bridge.Common.{
  ℕ, suc, ◌<◌, ◌≡◌, refl, ◌⊎◌, inl, inr, true, false, some, List, [], ◌∷◌, ◌++◌, arith, Bool-cases,
  ◌==◌, take, ℤ, pos, ◌==ℤ◌,
}
use Prim.Native.Nat.{bit_and}
use mathlib.Core.List.{Memᴰ}
use mathlib.Core.Path.{subst}
use wlan_bridge.Udp.{Call, Kernel, RecvReply, eagain, recvmmsg}
use wlan_bridge.Forward.{Env}
use wlan_bridge.Main.{
  Server, Event, max_data_len, epollin, on_event, on_events, on_wakeup, count_recv,
}
use wlan_bridge.Main.Drain.{Draining, Drained, Healthy, unread, drain-total}

-- The event says that the descriptor can be read.
pub record Readable (fd : ℤ) (ev : Event) : Type 0 where
  pub input : (bit_and ev.events epollin == 0) ≡ false
  pub socket : (ev.fd ==ℤ fd) ≡ true

-- The reply is that of a failure with EAGAIN: nothing was there to read.
pub record SaysAgain (reply : RecvReply) : Type 0 where
  pub failed : reply.failed ≡ true
  pub again : reply.errno ≡ eagain

-- As recvmmsg is documented on a non-blocking socket, it fails with EAGAIN only when no datagram
-- waits.
pub record Empties (kernel : Kernel) (left : List Call → ℕ) : Type 0 where
  pub empties :
      (log : List Call) (fd : ℤ) (len n : ℕ)
      → SaysAgain (kernel.recv_ret (log ++ recvmmsg fd len n ∷ []))
      → left (log ++ recvmmsg fd len n ∷ []) ≡ 0

-- Whether it is.
SaysAgain-cases : (reply : RecvReply) → SaysAgain reply ⊎ (¬ SaysAgain reply)
SaysAgain-cases reply = elim (Bool-cases reply.failed) [
  | inr f ↦ inr (λ a. let t = a.failed in cc (f, t))
  | inl f ↦ elim (Bool-cases (reply.errno == eagain)) [
    | inl e ↦ inl (record { failed = f; again = ground (arith, e) })
    | inr e ↦ inr (λ a. ground (arith, e, a.again))
  ]
]

-- One of the events says so.
abbrev Reported : ℤ → List Event → Type 0
Reported fd evs = (ev : Event) × Memᴰ ev evs × Readable fd ev

module _ {T L S : Type 0} (env : Env T L S) (left : List Call → ℕ) (k : Draining env.kernel left)
    (fuel : ℕ) where
  -- An event leaves the server alone, where it does not report the socket, or drains it.
  data Outcome (m : Server T L S) (ev : Event) : Type 0 where
    passes : ¬ Readable m.udp_sock_fd ev → on_event env fuel m ev ≡ some m → Outcome m ev
    drains :
        (m' : Server T L S)
        → on_event env fuel m ev ≡ some m'
        → Drained env left m'
        → unread env left m' < fuel
        → Outcome m ev

  outcome :
      (m : Server T L S) (ev : Event) → Healthy env left m → unread env left m < fuel → Outcome m ev
  unfolding on_event
  outcome m ev v lt = elim (Bool-cases (bit_and ev.events epollin == 0)) [
    | inl e ↦ passes (λ r. let i = r.input in cc (e, i)) (ground arith)
    | inr e ↦ elim (Bool-cases (ev.fd ==ℤ m.udp_sock_fd)) [
      | inl f ↦
          let d = drain-total env left k fuel m v lt in
          drains d.0 (ground (arith, d.1)) d.2 (omega (arith, d.3))
      | inr f ↦ passes (λ r. let s = r.socket in cc (f, s)) (ground arith)
    ]
  ]

  abbrev Ends : Server T L S → List Event → Type 0
  Ends m evs = (m' : Server T L S) × (on_events env fuel m evs ≡ some m') × Drained env left m'

  step_to :
      (m u : Server T L S) (ev : Event) (evs : List Event)
      → on_event env fuel m ev ≡ some u
      → Ends u evs
      → Ends m (ev ∷ evs)
  unfolding on_events
  step_to m u ev evs e (m', f, d) = (m', ground (arith, e, f), d)

  events_drain :
      (m : Server T L S) (evs : List Event)
      → Healthy env left m
      → unread env left m < fuel
      → Drained env left m ⊎ Reported m.udp_sock_fd evs
      → Ends m evs
  unfolding on_events
  events_drain m [] v lt (inl d) = (m, refl, d)
  events_drain m [] v lt (inr (ev, mem, r)) = elim mem [ ]
  events_drain m (ev ∷ evs) v lt h = elim (outcome m ev v lt) [
    | drains m' e d lt' ↦ step_to m m' ev evs e (events_drain m' evs d.healthy lt' (inl d))
    | passes other e ↦ step_to m m ev evs e (events_drain m evs v lt (still h other))
  ]
    where
      still :
          Drained env left m ⊎ Reported m.udp_sock_fd (ev ∷ evs)
          → ¬ Readable m.udp_sock_fd ev
          → Drained env left m ⊎ Reported m.udp_sock_fd evs
      still (inl d) other = inl d
      still (inr (x, Memᴰ.head p, r)) other = absurd (other (subst (Readable m.udp_sock_fd) p r))
      still (inr (x, Memᴰ.tail mem, r)) other = inr (x, mem, r)

  -- What the last read leaves: no datagram, or it did not fail with EAGAIN.
  Drained-left :
      (m' : Server T L S)
      → Empties env.kernel left
      → Drained env left m'
      → (unread env left m' ≡ 0) ⊎ (¬ SaysAgain (env.kernel.recv_ret m'.bridge.udp.log))
  Drained-left m' q d = elim (SaysAgain-cases (env.kernel.recv_ret m'.bridge.udp.log)) [
    | inr other ↦ inr other
    | inl a ↦
        let c = q.empties d.before d.fd max_data_len d.count (rw (← d.last) a) in
        inl (rw (d.last) c)
  ]

  -- With a well-formed list, more fuel than the kernel's queue holds bursts, and a kernel whose recvmmsg
  -- fails with EAGAIN only when no datagram waits, whatever callocs fail:
  -- when epoll_wait reports, among any events, that the socket can be read, the turn of the loop ends,
  -- and the last thing that it did is a read that failed or found nothing. Then no datagram is left
  -- waiting for an edge that has gone by, unless that read was not a failure with EAGAIN.
  pub wakeup-Drained :
      (m : Server T L S) (n : ℕ) (evs : List Event)
      → Empties env.kernel left
      → Healthy env left m
      → unread env left m < fuel
      → Reported m.udp_sock_fd (take (suc n) evs)
      → (m' : Server T L S) × (on_wakeup env fuel m (pos (suc n)) evs ≡ some m')
        × Drained env left m'
        × ((unread env left m' ≡ 0) ⊎ (¬ SaysAgain (env.kernel.recv_ret m'.bridge.udp.log)))
  unfolding on_wakeup count_recv
  wakeup-Drained m n evs q v lt r =
      let e = events_drain (count_recv env m (suc n)) (take (suc n) evs) v lt (inr r) in
      (e.0, e.1, e.2, Drained-left (e.0) q (e.2))
