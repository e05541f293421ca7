-- ===== src/Forward/Asked.antt =====
-- What the bridge sends and finds, read off the calls: the frames that it asks the kernel to send, and
-- the datagrams that its reads find.
use wlan_bridge.Common.{
  ℕ, ◌≡◌, refl, sym, inl, inr, Bool, false, List, [], ◌∷◌, ◌++◌, map, arith, ℤ, if◌then◌else◌,
  count_if, count_if-append,
}
use mathlib.Core.List.{append_assoc, append-nil}
use wlan_bridge.Net.{SockaddrIn, Datagram}
use wlan_bridge.Udp.{Call, recvmmsg, sendto, sendmmsg, usleep, Kernel, Udp, Arrival, nothing}
use wlan_bridge.Forward.One.{burst_send_cases}
use wlan_bridge.Forward.Burst.{Bursts, send_queue}
use wlan_bridge.Forward.BurstEntry.{hits}
use wlan_bridge.Forward.Totals.{sleeps, ledger, asleep, Log, Log-trans, ledger_trans}
use wlan_bridge.Forward.{Env, Bridge}
use wlan_bridge.Forward.Flood.{with_log}
use mathlib.Core.Path.{subst}

-- How often a call asks for a frame whose contents pass the test to be sent to the peer, where the
-- second try behind a usleep does not count again.
unfoldable pub asks : (ℕ → List ℕ → Bool) → SockaddrIn → Bool → List Call → Call → ℕ
asks test a slept log (sendto fd d) = if hits test a d then 1 else 0
asks test a slept log (sendmmsg fd ds) = if slept then 0 else count_if (hits test a) ds
asks test a slept log _ = 0

module _ (kernel : Kernel) where
  -- What one call finds.
  unfoldable pub finds : List Call → Call → List Arrival
  finds log (recvmmsg fd max_len n) =
      let r = kernel.recv_ret log in if nothing r then [] else r.arrivals
  finds log _ = []

  -- What the calls behind `before` find, in order.
  unfoldable pub found : List Call → List Call → List Arrival
  found before [] = []
  found before (c ∷ cs) = finds (before ++ c ∷ []) c ++ found (before ++ c ∷ []) cs

  pub found-append :
      (before xs ys : List Call)
      → found before (xs ++ ys) ≡ found before xs ++ found (before ++ xs) ys
  unfolding found
  found-append before [] ys = rw (append-nil before) refl
  found-append before (c ∷ xs) ys =
      let log = before ++ c ∷ [] in
      rw (found-append log xs ys, append_assoc before (c ∷ []) xs)
        (sym (append_assoc (finds log c) (found log xs) (found (before ++ c ∷ xs) ys)))

  -- Calls that send frames, each once, and find nothing.
  pub record Sends (frames : List Datagram) (before new after : List Call) : Type 0 where
    pub calls : Log before new after
    pub asked :
        (test : ℕ → List ℕ → Bool) (a : SockaddrIn)
        → ledger (asks test a) false before new ≡ count_if (hits test a) frames
    pub silent : found before new ≡ []

  sendto_asks :
      (fd : ℤ) (before : List Call) (frames : List Datagram)
      → Sends frames before (map (sendto fd) frames) (before ++ map (sendto fd) frames)
  unfolding ledger asleep sleeps asks found finds
  sendto_asks fd before [] = record {
    calls = record { log = refl; awake = refl };
    asked = λ test a. refl;
    silent = refl;
  }
  sendto_asks fd before (d ∷ ds) =
      let rest = sendto_asks fd (before ++ sendto fd d ∷ []) ds in
      record {
        calls = record { log = refl; awake = rest.calls.awake };
        asked = λ test a. omega (arith, rest.asked test a);
        silent = rest.silent;
      }

  -- The burst's sendmmsg.
  queue_asks :
      (s : Udp) (q : List Datagram)
      → (new : List Call) × Sends q s.log new (send_queue kernel s q).log
  unfolding ledger asleep sleeps asks found finds
  queue_asks s [] = (
    [],
    record {
      calls = record { log = sym (append-nil s.log); awake = refl };
      asked = λ test a. refl;
      silent = refl;
    },
  )
  queue_asks s (d ∷ ds) =
      let first = sendmmsg s.serv_sock (d ∷ ds) in
      elim (burst_send_cases kernel s (d ∷ ds)) [
        | inl e ↦ (
          first ∷ [],
          record {
            calls = record { log = e; awake = refl };
            asked = λ test a. omega arith;
            silent = refl;
          },
        )
        | inr (again, e) ↦ (
          first ∷ usleep 20 ∷ sendmmsg s.serv_sock again ∷ [],
          record {
            calls = record { log = e; awake = refl };
            asked = λ test a. omega arith;
            silent = refl;
          },
        )
      ]

  Sends-trans :
      {xs ys : List Datagram} {s t u new more : List Call}
      → Sends xs s new t
      → Sends ys t more u
      → Sends (xs ++ ys) s (new ++ more) u
  Sends-trans {xs} {ys} {s} {t} {u} {new} {more} f g = record {
    calls = Log-trans f.calls g.calls;
    asked = λ test a. omega (
      arith,
      ledger_trans (asks test a) f.calls g.calls,
      f.asked test a,
      g.asked test a,
      count_if-append (hits test a) xs ys,
    );
    silent = rw (found-append s new more, f.silent, ← f.calls.log) g.silent;
  }

-- What wlan_br_handle_burst does to the kernel.
pub burst_asks :
    {T L S : Type 0} (env : Env T L S) (b c : Bridge T L S) (rx : List Datagram)
    (h : Bursts env b c rx)
    → (new : List Call) × Sends env.kernel (h.sent ++ h.queued) b.udp.log new c.udp.log
burst_asks env b c rx h =
    let flooded = map (sendto b.udp.serv_sock) h.sent in
    let first = sendto_asks env.kernel b.udp.serv_sock b.udp.log h.sent in
    let (more, second) = queue_asks env.kernel (with_log b.udp flooded) h.queued in
    (
      flooded ++ more,
      subst (λ (u : Udp). Sends env.kernel (h.sent ++ h.queued) b.udp.log (flooded ++ more) u.log)
          (sym h.calls) (Sends-trans env.kernel first second),
    )
