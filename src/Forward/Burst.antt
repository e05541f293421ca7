-- ===== src/Forward/Burst.antt =====
-- wlan_br_handle_burst implements the abstract switch too: a frame for a known address waits for the
-- burst's one sendmmsg, a flooded frame goes out at once.
use wlan_bridge.Common.{
  ℕ, ◌+◌, ◌≡◌, refl, sym, ap, ◌∙◌, Bool, false, List, [], ◌∷◌, ◌++◌, map, arith, count_if,
  count_if-append,
}
use mathlib.Core.List.{append_assoc, append-nil, map-append}
use mathlib.Core.Path.{subst}
use wlan_bridge.Net.{SockaddrIn, Datagram}
use wlan_bridge.Peers.Update.{IsValid}
use wlan_bridge.Udp.{Kernel, Udp, sendto, send_data_to_udp_client_burst}
use wlan_bridge.Forward.{
  Env, Bridge, find_entry, learn, burst_entry, burst_loop, wlan_br_handle_burst,
}
use wlan_bridge.Forward.Flood.{with_log}
use wlan_bridge.Forward.Switch.{Switch, learns, view}
use wlan_bridge.Forward.Learn.{learn_udp, learn-IsValid, learn-view}
use wlan_bridge.Forward.BurstEntry.{
  src, learns_all, burst_copies, hits, Handles, Entry, once, burst_entry-Entry,
}

-- Memory never runs out in the tables.
pub record NeverFails {T L S : Type 0} (env : Env T L S) : Type 0 where
  pub fdb : (n : ℕ) → env.fdb_oom n ≡ false
  pub list : (n : ℕ) → env.list_oom n ≡ false

module _ {T L S : Type 0} (env : Env T L S) (m : NeverFails env) where
  -- What some frames have done: their effect on the kernel, on the list and on what is known.
  record Done (b c : Bridge T L S) (queued : List Datagram) (w : Switch)
      (n : (ℕ → List ℕ → Bool) → SockaddrIn → ℕ) : Type 0 where
    valid : IsValid env.utlist c.peers
    knows : view env c ≡ w
    handles : Handles env b c queued n

  -- A frame that taught the bridge what it teaches the switch, and was then routed.
  Entry-Done :
      (b b' : Bridge T L S) (d : Datagram) (w : Switch) (r : List Datagram × Bridge T L S)
      → IsValid env.utlist b'.peers
      → view env b' ≡ w
      → b'.udp ≡ b.udp
      → Entry env b' d r
      → Done b r.1 r.0 w (once env w d)
  unfolding find_entry
  Entry-Done b b' d w r v k u e = record {
    valid = rw (e.keeps.peers) v;
    knows = rw (e.keeps.fdb, e.keeps.peers) k;
    handles = record {
      sent = e.handles.sent;
      calls =
          subst (λ s. r.1.udp ≡ with_log s (map (sendto s.serv_sock) e.handles.sent)) u
            (e.handles.calls);
      count = λ test a.
          subst
            (λ s.
              count_if (hits test a) e.handles.sent + count_if (hits test a) r.0
              ≡ once env s d test a)
            k (e.handles.count test a);
    };
  }

  burst_entry-Done :
      (b : Bridge T L S) (d : Datagram)
      → IsValid env.utlist b.peers
      → Done b
          (burst_entry env b d).1
          (burst_entry env b d).0
          (learns (view env b) d.addr (src d))
          (once env (learns (view env b) d.addr (src d)) d)
  burst_entry-Done b d v =
      let v' = learn-IsValid env b d.addr (src d) v in
      Entry-Done b (learn env b d.addr (src d)) d (learns (view env b) d.addr (src d))
        (burst_entry env b d) v'
        (learn-view env b d.addr (src d) v
          (record { fdb = m.fdb _; element = m.list _; info = m.list _ }))
        (learn_udp env b d.addr (src d)) (burst_entry-Entry env b d v')

  Done-trans :
      (b c e : Bridge T L S) (q r : List Datagram) (v w : Switch)
      (n k : (ℕ → List ℕ → Bool) → SockaddrIn → ℕ)
      → Done b c q v n
      → Done c e r w k
      → Done b e (q ++ r) w (λ test a. n test a + k test a)
  Done-trans b c e q r v w n k f g = record {
    valid = g.valid;
    knows = g.knows;
    handles = record {
      sent = f.handles.sent ++ g.handles.sent;
      calls =
          rw (g.handles.calls, f.handles.calls, map-append)
            (ap (λ l. record { serv_sock = b.udp.serv_sock; log = l })
              (append_assoc b.udp.log (map (sendto b.udp.serv_sock) f.handles.sent) _));
      count = λ test a. omega (
        arith,
        f.handles.count test a,
        g.handles.count test a,
        count_if-append (hits test a) f.handles.sent g.handles.sent,
        count_if-append (hits test a) q r,
      );
    };
  }

  -- What the loop adds to the `to_` arrays, and what it has done.
  record Loop (b : Bridge T L S) (to rx : List Datagram) (r : List Datagram × Bridge T L S)
      : Type 0 where
    queued : List Datagram
    result : r.0 ≡ to ++ queued
    done :
        Done b r.1 queued
          (learns_all (view env b) rx)
          (λ test a. burst_copies test (view env b) rx a)

  burst_loop-Loop :
      (b : Bridge T L S) (to rx : List Datagram)
      → IsValid env.utlist b.peers
      → Loop b to rx (burst_loop env b to rx)
  unfolding burst_loop learns_all burst_copies
  burst_loop-Loop b to [] v = record {
    queued = [];
    result = sym (append-nil to);
    done = record {
      valid = v;
      knows = refl;
      handles = record {
        sent = [];
        calls = ground (arith, append-nil b.udp.log);
        count = λ test a. refl;
      };
    };
  }
  burst_loop-Loop b to (d ∷ rest) v =
      let step = burst_entry-Done b d v in
      let c = (burst_entry env b d).1 in
      let q = (burst_entry env b d).0 in
      let ih = burst_loop-Loop c (to ++ q) rest (step.valid) in
      record {
        queued = q ++ ih.queued;
        result = ih.result ∙ append_assoc to q ih.queued;
        done = Done-trans b c (burst_loop env c (to ++ q) rest).1 q ih.queued _ _ _ _ step (
            subst
              (λ w.
                Done c (burst_loop env c (to ++ q) rest).1 ih.queued (learns_all w rest)
                  (λ test a. burst_copies test w rest a))
              (step.knows) (ih.done));
      }

-- The queue goes out in one sendmmsg, where there is one.
abbrev pub send_queue : Kernel → Udp → List Datagram → Udp
send_queue kernel s [] = s
send_queue kernel s (d ∷ ds) = (send_data_to_udp_client_burst kernel s (d ∷ ds)).1

-- From `b` to `c`: the frames flooded at once, those queued for sendmmsg, and how often each peer is
-- sent each frame by the two together.
pub record Bursts {T L S : Type 0} (env : Env T L S) (b c : Bridge T L S) (rx : List Datagram)
    : Type 0 where
  pub sent : List Datagram
  pub queued : List Datagram
  pub calls :
      c.udp ≡ send_queue env.kernel (with_log b.udp (map (sendto b.udp.serv_sock) sent)) queued
  pub count :
      (test : ℕ → List ℕ → Bool) (a : SockaddrIn)
      → count_if (hits test a) sent + count_if (hits test a) queued
        ≡ burst_copies test (view env b) rx a

module _ {T L S : Type 0} (env : Env T L S) where
  pub handle_burst_cases :
      (b : Bridge T L S) (rx to : List Datagram)
      → (burst_loop env b [] rx).0 ≡ to
      → let c = (burst_loop env b [] rx).1 in
        wlan_br_handle_burst env b rx ≡ record c { udp = send_queue env.kernel c.udp to }
  unfolding wlan_br_handle_burst
  handle_burst_cases b rx [] e = ground arith
  handle_burst_cases b rx (d ∷ ds) e = ground arith

module _ {T L S : Type 0} (env : Env T L S) (m : NeverFails env) where
  -- On a well-formed list and while memory lasts, wlan_br_handle_burst implements the learning
  -- switch on a whole burst: it learns what the switch learns frame by frame, keeps the list well
  -- formed, and its immediate sends and its queue for sendmmsg together hold each frame,
  -- unchanged, for each peer as many times as the switch delivers it there.
  pub burst-refines :
      (b : Bridge T L S) (rx : List Datagram)
      → IsValid env.utlist b.peers
      → (view env (wlan_br_handle_burst env b rx) ≡ learns_all (view env b) rx)
        × IsValid env.utlist (wlan_br_handle_burst env b rx).peers
        × Bursts env b (wlan_br_handle_burst env b rx) rx
  unfolding find_entry
  burst-refines b rx v =
      let l = burst_loop-Loop env m b [] rx v in
      let e = handle_burst_cases env b rx l.queued (l.result) in
      let d = l.done in
      let u = d.handles in
      rw e (
        d.knows,
        d.valid,
        record { sent = u.sent; queued = l.queued; calls = rw (u.calls); count = u.count },
      )
