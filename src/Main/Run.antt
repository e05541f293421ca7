-- ===== src/Main/Run.antt =====
-- The outer loop of server_runing_burst, over any rounds.
use wlan_bridge.Common.{
  ℕ, zero, suc, ◌≤◌, ◌<◌, ◌≡◌, refl, ◌∙◌, inl, inr, false, not, ◌||◌, Option, some, List, [], ◌∷◌,
  arith, ◌==◌, Bool-cases, take, ℤ, pos, negsuc, ◌==ℤ◌,
}
use Prim.Native.Nat.{bit_and}
use wlan_bridge.Main.{epollin, count_timeout, count_error}
use wlan_bridge.Udp.{Call}
use wlan_bridge.Forward.{Env}
use wlan_bridge.Main.{
  Server, Round, Event, on_event, on_events, on_wakeup, count_recv, server_runing_burst,
}
use wlan_bridge.Main.Drain.{SameSocket, Draining, unread, Healthy, drain-total}

module _ {T L S : Type 0} (env : Env T L S) (fuel : ℕ) (m m' : Server T L S) where
  on_events_step :
      (ev : Event) (evs : List Event)
      → on_event env fuel m ev ≡ some m'
      → on_events env fuel m (ev ∷ evs) ≡ on_events env fuel m' evs
  unfolding on_events
  on_events_step ev evs e = rw (e, on_events)

  pub run_step :
      (r : Round) (rs : List Round)
      → (r.signalled || not m.rx_task_is_running) ≡ false
      → on_wakeup env fuel m r.nfds r.evs ≡ some m'
      → server_runing_burst env fuel m (r ∷ rs) ≡ server_runing_burst env fuel m' rs
  unfolding server_runing_burst
  run_step r rs e f = ground (arith, e, f)

module _ {T L S : Type 0} (env : Env T L S) (left : List Call → ℕ)
    (k : Draining env.kernel left) where
  -- The code ends well: with a result, a well-formed list, no more unread than before, and the same socket.
  abbrev pub EndsWell : Server T L S → Option (Server T L S) → Type 0
  EndsWell m r =
      (m' : Server T L S) × (r ≡ some m')
      × Healthy env left m'
      × (unread env left m' ≤ unread env left m)
      × SameSocket env left m m'

  on_event-EndsWell :
      (fuel : ℕ) (m : Server T L S) (ev : Event)
      → Healthy env left m
      → unread env left m < fuel
      → EndsWell m (on_event env fuel m ev)
  unfolding on_event
  on_event-EndsWell fuel m ev v lt = elim (Bool-cases (bit_and ev.events epollin == 0)) [
    | inl e ↦ (m, ground arith, v, omega arith, refl)
    | inr e ↦ elim (Bool-cases (ev.fd ==ℤ m.udp_sock_fd)) [
      | inl f ↦
          let d = drain-total env left k fuel m v lt in
          (d.0, ground (arith, d.1), d.2.healthy, d.3, d.4)
      | inr f ↦ (m, ground arith, v, omega arith, refl)
    ]
  ]

  on_events-EndsWell :
      (fuel : ℕ) (m : Server T L S) (evs : List Event)
      → Healthy env left m
      → unread env left m < fuel
      → EndsWell m (on_events env fuel m evs)
  unfolding on_events
  on_events-EndsWell fuel m [] v lt = (m, refl, v, omega arith, refl)
  on_events-EndsWell fuel m (ev ∷ evs) v lt =
      let s = on_event-EndsWell fuel m ev v lt in
      let r = on_events-EndsWell fuel (s.0) evs (s.2) (omega (arith, s.3)) in
      (
        r.0,
        on_events_step env fuel m (s.0) ev evs (s.1) ∙ r.1,
        r.2,
        omega (arith, s.3, r.3),
        r.4 ∙ s.4,
      )

  on_wakeup-EndsWell :
      (fuel : ℕ) (m : Server T L S) (nfds : ℤ) (evs : List Event)
      → Healthy env left m
      → unread env left m < fuel
      → EndsWell m (on_wakeup env fuel m nfds evs)
  unfolding on_wakeup count_recv count_timeout count_error
  on_wakeup-EndsWell fuel m (pos zero) evs v lt = (_, refl, v, omega arith, refl)
  on_wakeup-EndsWell fuel m (pos (suc n)) evs v lt =
      on_events-EndsWell fuel (count_recv env m (suc n)) (take (suc n) evs) v lt
  on_wakeup-EndsWell fuel m (negsuc n) evs v lt = (_, refl, v, omega arith, refl)

  -- With a well-formed list and whatever callocs fail, the server's loop takes any rounds of
  -- epoll_wait and signals to an end, given more fuel for its reads than the kernel's queue holds
  -- bursts, and leaves the bridge's list well formed and the socket as it is.
  pub run-total :
      (fuel : ℕ) (m : Server T L S) (rounds : List Round)
      → Healthy env left m
      → unread env left m < fuel
      → EndsWell m (server_runing_burst env fuel m rounds)
  unfolding server_runing_burst
  run-total fuel m [] v lt = (m, refl, v, omega arith, refl)
  run-total fuel m (r ∷ rs) v lt = elim (Bool-cases (r.signalled || not m.rx_task_is_running)) [
    | inl e ↦ (record m { rx_task_is_running = false }, ground arith, v, omega arith, refl)
    | inr e ↦
        let s = on_wakeup-EndsWell fuel m r.nfds r.evs v lt in
        let t = run-total fuel (s.0) rs (s.2) (omega (arith, s.3)) in
        (t.0, run_step env fuel m (s.0) r rs e (s.1) ∙ t.1, t.2, omega (arith, s.3, t.3), t.4 ∙ s.4)
  ]
