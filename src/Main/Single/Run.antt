-- ===== src/Main/Single/Run.antt =====
-- The outer loop of server_runing, over any rounds.
use wlan_bridge.Common.{
  ℕ, ◌≤◌, ◌<◌, ◌≡◌, refl, ◌∙◌, inl, inr, false, not, ◌||◌, Option, some, List, [], ◌∷◌, arith, ◌==◌,
  Bool-cases, take, ◌==ℤ◌,
}
use Prim.Native.Nat.{bit_and}
use wlan_bridge.Udp.{Call}
use wlan_bridge.Forward.{Env}
use wlan_bridge.Main.{Event, Round, epollin, count_of}
use wlan_bridge.Main.Single.{Receiver, event_one, events_one, server_runing}
use wlan_bridge.Main.Single.Drain.{DrainingOne, Healthy, unread, drain_one-total}

module _ {T L S : Type 0} (env : Env T L S) (fuel : ℕ) (r r' : Receiver T L S) where
  events_one_step :
      (ev : Event) (evs : List Event)
      → event_one env fuel r ev ≡ some r'
      → events_one env fuel r (ev ∷ evs) ≡ events_one env fuel r' evs
  unfolding events_one
  events_one_step ev evs e = rw (e, events_one)

  round_step :
      (round : Round) (rounds : List Round)
      → (round.signalled || not r.server.rx_task_is_running) ≡ false
      → events_one env fuel r (take (count_of round.nfds) round.evs) ≡ some r'
      → server_runing env fuel r (round ∷ rounds) ≡ server_runing env fuel r' rounds
  unfolding server_runing
  round_step round rounds e f = ground (arith, e, f)

module _ {T L S : Type 0} (env : Env T L S) (left : List Call → ℕ)
    (k : DrainingOne env.kernel left) where
  -- The code ends well: with a result, a well-formed list, and no more unread than before.
  abbrev pub EndsWell : Receiver T L S → Option (Receiver T L S) → Type 0
  EndsWell r o =
      (r' : Receiver T L S) × (o ≡ some r')
      × Healthy env left k r'
      × (unread env left k r' ≤ unread env left k r)

  event_one-EndsWell :
      (fuel : ℕ) (r : Receiver T L S) (ev : Event)
      → Healthy env left k r
      → unread env left k r < fuel
      → EndsWell r (event_one env fuel r ev)
  unfolding event_one
  event_one-EndsWell fuel r ev v lt = elim (Bool-cases (bit_and ev.events epollin == 0)) [
    | inl e ↦ (r, ground arith, v, omega arith)
    | inr e ↦ elim (Bool-cases (ev.fd ==ℤ r.server.udp_sock_fd)) [
      | inl f ↦
          let d = drain_one-total env left k fuel r v lt in (d.0, ground (arith, d.1), d.2, d.3)
      | inr f ↦ (r, ground arith, v, omega arith)
    ]
  ]

  events_one-EndsWell :
      (fuel : ℕ) (r : Receiver T L S) (evs : List Event)
      → Healthy env left k r
      → unread env left k r < fuel
      → EndsWell r (events_one env fuel r evs)
  unfolding events_one
  events_one-EndsWell fuel r [] v lt = (r, refl, v, omega arith)
  events_one-EndsWell fuel r (ev ∷ evs) v lt =
      let s = event_one-EndsWell fuel r ev v lt in
      let t = events_one-EndsWell fuel (s.0) evs (s.2) (omega (arith, s.3)) in
      (t.0, events_one_step env fuel r (s.0) ev evs (s.1) ∙ t.1, t.2, omega (arith, s.3, t.3))

  -- With a well-formed list and whatever callocs fail, server_runing takes any rounds of epoll_wait and
  -- signals to an end, given more fuel for its reads than the kernel's queue holds datagrams, and
  -- leaves the bridge's list well formed.
  pub server_runing-total :
      (fuel : ℕ) (r : Receiver T L S) (rounds : List Round)
      → Healthy env left k r
      → unread env left k r < fuel
      → EndsWell r (server_runing env fuel r rounds)
  unfolding server_runing
  server_runing-total fuel r [] v lt = (r, refl, v, omega arith)
  server_runing-total fuel r (round ∷ rounds) v lt =
      elim (Bool-cases (round.signalled || not r.server.rx_task_is_running)) [
        | inl e ↦ (
          record r { server = record r.server { rx_task_is_running = false } },
          ground arith,
          v,
          omega arith,
        )
        | inr e ↦
            let s = events_one-EndsWell fuel r (take (count_of round.nfds) round.evs) v lt in
            let t = server_runing-total fuel (s.0) rounds (s.2) (omega (arith, s.3)) in
            (
              t.0,
              round_step env fuel r (s.0) round rounds e (s.1) ∙ t.1,
              t.2,
              omega (arith, s.3, t.3),
            )
      ]
