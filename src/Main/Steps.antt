-- ===== src/Main/Steps.antt =====
-- What holds throughout server_runing_burst, because each of its steps keeps it.
use wlan_bridge.Common.{
  ℕ, zero, suc, ◌≡◌, inl, inr, true, false, none, some, List, [], ◌∷◌, arith, Bool-cases,
  Option-cases, take, ℤ, pos, negsuc, is_nonpos, not, ◌||◌, ◌==◌, ◌==ℤ◌,
}
use Prim.Native.Nat.{bit_and}
use wlan_bridge.Forward.{Env, Bridge}
use wlan_bridge.Main.{
  Server, Round, Event, epollin, count_of, count_recv, count_timeout, count_error, read, pass_on,
  drain, on_event, on_events, on_wakeup, server_runing_burst,
}

module _ {T L S : Type 0} (env : Env T L S) (P : Server T L S → Type 0) where
  -- A read that found nothing, one that found something with the burst that it is, a turn of the
  -- outer loop, and its end.
  pub record Steps : Type 0 where
    pub reads : (m : Server T L S) → is_nonpos (read env m).0 ≡ true → P m → P (read env m).1
    pub handles :
        (m : Server T L S)
        → is_nonpos (read env m).0 ≡ false
        → P m
        → P (pass_on env (count_of (read env m).0) (read env m).1)
    pub timeouts : (m : Server T L S) → P m → P (count_timeout env m)
    pub errors : (m : Server T L S) → P m → P (count_error env m)
    pub wakes : (m : Server T L S) (n : ℕ) → P m → P (count_recv env m n)
    pub stops : (m : Server T L S) → P m → P (record m { rx_task_is_running = false })

-- What is said of the bridge alone is kept by the outer loop.
pub bridge-Steps :
    {T L S : Type 0} (env : Env T L S) (P : Bridge T L S → Type 0)
    → ((m : Server T L S) → is_nonpos (read env m).0 ≡ true → P m.bridge → P (read env m).1.bridge)
    → ((m : Server T L S)
        → is_nonpos (read env m).0 ≡ false
        → P m.bridge
        → P (pass_on env (count_of (read env m).0) (read env m).1).bridge)
    → Steps env (λ m. P m.bridge)
unfolding count_timeout count_error count_recv
bridge-Steps env P reads handles = record {
  reads = reads;
  handles = handles;
  timeouts = λ m h. h;
  errors = λ m h. h;
  wakes = λ m n h. h;
  stops = λ m h. h;
}

module _ {T L S : Type 0} (env : Env T L S) (P : Server T L S → Type 0) (steps : Steps env P) where
  drain_keeps : (fuel : ℕ) (m m' : Server T L S) → drain env fuel m ≡ some m' → P m → P m'
  unfolding drain
  drain_keeps zero m m' e h = cc
  drain_keeps (suc fuel) m m' e h = elim (Bool-cases (is_nonpos (read env m).0)) [
    | inl p ↦ let d : (read env m).1 ≡ m' = ground (arith, p, e) in rw (← d) (steps.reads m p h)
    | inr p ↦
        drain_keeps fuel (pass_on env (count_of (read env m).0) (read env m).1) m'
          (ground (arith, p, e)) (steps.handles m p h)
  ]

  event_keeps :
      (fuel : ℕ) (m m' : Server T L S) (ev : Event) → on_event env fuel m ev ≡ some m' → P m → P m'
  unfolding on_event
  event_keeps fuel m m' ev e h = elim (Bool-cases (bit_and ev.events epollin == 0)) [
    | inl p ↦ let d : m ≡ m' = ground (arith, p, e) in rw (← d) h
    | inr p ↦ elim (Bool-cases (ev.fd ==ℤ m.udp_sock_fd)) [
      | inl q ↦ drain_keeps fuel m m' (ground (arith, p, q, e)) h
      | inr q ↦ let d : m ≡ m' = ground (arith, p, q, e) in rw (← d) h
    ]
  ]

  events_keeps :
      (fuel : ℕ) (m m' : Server T L S) (evs : List Event)
      → on_events env fuel m evs ≡ some m'
      → P m
      → P m'
  unfolding on_events
  events_keeps fuel m m' [] e h = let d : m ≡ m' = cc in rw (← d) h
  events_keeps fuel m m' (ev ∷ evs) e h = elim (Option-cases (on_event env fuel m ev)) [
    | inl f ↦ let n : none ≡ some m' = ground (arith, f, e) in cc (n)
    | inr (c, f) ↦ events_keeps fuel c m' evs (ground (arith, f, e)) (event_keeps fuel m c ev f h)
  ]

  wakeup_keeps :
      (fuel : ℕ) (m m' : Server T L S) (nfds : ℤ) (evs : List Event)
      → on_wakeup env fuel m nfds evs ≡ some m'
      → P m
      → P m'
  unfolding on_wakeup
  wakeup_keeps fuel m m' (pos zero) evs e h =
      let d : count_timeout env m ≡ m' = cc in rw (← d) (steps.timeouts m h)
  wakeup_keeps fuel m m' (pos (suc n)) evs e h =
      events_keeps fuel (count_recv env m (suc n)) m' (take (suc n) evs) e (steps.wakes m (suc n) h)
  wakeup_keeps fuel m m' (negsuc n) evs e h =
      let d : count_error env m ≡ m' = cc in rw (← d) (steps.errors m h)

  -- The loop keeps it, however long it runs.
  pub run_keeps :
      (fuel : ℕ) (m m' : Server T L S) (rounds : List Round)
      → server_runing_burst env fuel m rounds ≡ some m'
      → P m
      → P m'
  unfolding server_runing_burst
  run_keeps fuel m m' [] e h = let d : m ≡ m' = cc in rw (← d) h
  run_keeps fuel m m' (r ∷ rs) e h = elim (Bool-cases (r.signalled || not m.rx_task_is_running)) [
    | inl p ↦
        let d : record m { rx_task_is_running = false } ≡ m' = ground (arith, p, e) in
        rw (← d) (steps.stops m h)
    | inr p ↦ elim (Option-cases (on_wakeup env fuel m r.nfds r.evs)) [
      | inl f ↦ let n : none ≡ some m' = ground (arith, p, f, e) in cc (n)
      | inr (c, f) ↦
          run_keeps fuel c m' rs (ground (arith, p, f, e)) (wakeup_keeps fuel m c r.nfds r.evs f h)
    ]
  ]
