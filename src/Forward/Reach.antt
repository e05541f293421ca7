-- ===== src/Forward/Reach.antt =====
-- A host that has been heard is reached: what the learning switch does with a frame for an address that
-- an earlier frame came from.
use wlan_bridge.Common.{
  ℕ, ◌+◌, ◌≤◌, ◌≡◌, ◌≢◌, refl, sym, ap, ◌∙◌, inl, inr, Bool, true, false, none, some, List, [], ◌∷◌,
  ◌++◌, arith, All, count_if-append, if◌then◌else◌, Option-cases,
}
use mathlib.Core.Logic.{if_pos, if_neg}
use wlan_bridge.Ether.{Mac, Mac-discrete, is_multicast_ether_addr}
use wlan_bridge.Net.{SockaddrIn, Datagram, same_peer}
use wlan_bridge.Udp.{Call}
use wlan_bridge.Forward.{Env, Bridge, wlan_br_handle_burst}
use wlan_bridge.Forward.Switch.{Switch, learns, learns_old, learns_new, view, copies}
use wlan_bridge.Forward.BurstEntry.{src, dest, hits, learns_all, burst_copies}
use wlan_bridge.Peers.Update.{IsValid}
use wlan_bridge.Forward.Burst.{NeverFails, burst-refines}
use wlan_bridge.Forward.Totals.{Log, ledger}
use wlan_bridge.Forward.Asked.{asks, burst_asks}

pub learns_all-append :
    (v : Switch) (xs ys : List Datagram) → learns_all v (xs ++ ys) ≡ learns_all (learns_all v xs) ys
unfolding learns_all
learns_all-append v [] ys = refl
learns_all-append v (d ∷ xs) ys = learns_all-append (learns v d.addr (src d)) xs ys

pub burst_copies-append :
    (test : ℕ → List ℕ → Bool) (v : Switch) (xs ys : List Datagram) (a : SockaddrIn)
    → burst_copies test v (xs ++ ys) a
      ≡ burst_copies test v xs a + burst_copies test (learns_all v xs) ys a
unfolding learns_all burst_copies
burst_copies-append test v [] ys a = omega arith
burst_copies-append test v (d ∷ xs) ys a =
    omega (arith, burst_copies-append test (learns v d.addr (src d)) xs ys a)

module _ (v : Switch) (curr : SockaddrIn) (s : Mac) where
  -- An address stays bound, a new one is bound to the sender, and no other is touched.
  learns_sticky :
      (m : Mac) (t : SockaddrIn) → v.bound m ≡ some t → (learns v curr s).bound m ≡ some t
  learns_sticky m t h = elim (Option-cases (v.bound s)) [
    | inr (u, e) ↦ rw (learns_old v curr s e) h
    | inl e ↦ elim (Mac-discrete s m) [
      | yes p ↦ let c : none ≡ some t = sym e ∙ ap v.bound p ∙ h in cc (c)
      | no n ↦ rw (learns_new v curr s e) (if_neg (Mac-discrete s m) n _ _ ∙ h)
    ]
  ]

  learns_self : v.bound s ≡ none → (learns v curr s).bound s ≡ some curr
  learns_self e = rw (learns_new v curr s e) (if_pos (Mac-discrete s s) refl _ _)

  learns_other : (m : Mac) → s ≢ m → v.bound m ≡ none → (learns v curr s).bound m ≡ none
  learns_other m n h = elim (Option-cases (v.bound s)) [
    | inr (u, e) ↦ rw (learns_old v curr s e) h
    | inl e ↦ rw (learns_new v curr s e) (if_neg (Mac-discrete s m) n _ _ ∙ h)
  ]

all_sticky :
    (v : Switch) (ds : List Datagram) (m : Mac) (t : SockaddrIn)
    → v.bound m ≡ some t
    → (learns_all v ds).bound m ≡ some t
unfolding learns_all
all_sticky v [] m t h = h
all_sticky v (d ∷ ds) m t h =
    all_sticky (learns v d.addr (src d)) ds m t (learns_sticky v d.addr (src d) m t h)

all_other :
    (v : Switch) (ds : List Datagram) (m : Mac)
    → All (λ d. src d ≢ m) ds
    → v.bound m ≡ none
    → (learns_all v ds).bound m ≡ none
unfolding learns_all
all_other v [] m h e = e
all_other v (d ∷ ds) m h e =
    all_other (learns v d.addr (src d)) ds m h.1 (learns_other v d.addr (src d) m h.0 e)

-- The frames `xs`, `e`, `ys`, `d`, `zs` in this order: `e` is the first from its address, which is the
-- single destination of `d`, and they come from different peers.
pub record Answers (v : Switch) (xs : List Datagram) (e d : Datagram) : Type 0 where
  pub new : v.bound (src e) ≡ none
  pub first : All (λ x. src x ≢ src e) xs
  pub answer : dest d ≡ src e
  pub single : is_multicast_ether_addr (dest d) ≡ false
  pub away : same_peer e.addr d.addr ≡ false

module _ (test : ℕ → List ℕ → Bool) (v : Switch) (xs ys zs : List Datagram) (e d : Datagram)
    (h : Answers v xs e d) (ok : test d.len d.buf ≡ true) where
  known : Switch
  known = learns (learns_all (learns (learns_all v xs) e.addr (src e)) ys) d.addr (src d)

  known_bound : known.bound (dest d) ≡ some e.addr
  unfolding known
  known_bound =
      let v1 = learns_all v xs in
      let v2 = learns v1 e.addr (src e) in
      let bound : v2.bound (src e) ≡ some e.addr =
        learns_self v1 e.addr (src e) (all_other v xs (src e) h.first h.new) in
      rw (h.answer) (
        learns_sticky (learns_all v2 ys) d.addr (src d) (src e) e.addr
          (all_sticky v2 ys (src e) e.addr bound))

  one_copy : copies known d.addr (dest d) e.addr ≡ 1
  unfolding copies
  one_copy = ground (arith, h.single, known_bound, h.away)

  counted_once : (if test d.len d.buf then copies known d.addr (dest d) e.addr else 0) ≡ 1
  counted_once = rw ok one_copy

  abbrev heard : Switch
  heard = learns (learns_all v xs) e.addr (src e)

  last_copies : 1 ≤ burst_copies test (learns_all heard ys) (d ∷ zs) e.addr
  unfolding burst_copies known
  last_copies = omega (arith, counted_once)

  later_copies : 1 ≤ burst_copies test heard (ys ++ d ∷ zs) e.addr
  later_copies = omega (arith, last_copies, burst_copies-append test heard ys (d ∷ zs) e.addr)

  from_first : 1 ≤ burst_copies test (learns_all v xs) (e ∷ (ys ++ (d ∷ zs))) e.addr
  unfolding burst_copies
  from_first = omega (arith, later_copies)

  answered : 1 ≤ burst_copies test v (xs ++ (e ∷ (ys ++ (d ∷ zs)))) e.addr
  answered =
      rw (burst_copies-append test v xs (e ∷ (ys ++ (d ∷ zs))) e.addr) (omega (arith, from_first))

-- An answer finds its way: on a well-formed list and while memory lasts, if a burst holds a frame
-- that is the first from its address, new to the bridge, and behind it one from another peer, whose
-- single destination is that address, then among the calls that wlan_br_handle_burst makes is one
-- that asks for the second frame's contents to be sent to the peer that the first came from.
pub burst-answers :
    {T L S : Type 0} (env : Env T L S)
    → NeverFails env
    → (b : Bridge T L S) (xs ys zs : List Datagram) (e d : Datagram) → IsValid env.utlist b.peers
    → Answers (view env b) xs e d
    → (test : ℕ → List ℕ → Bool) → test d.len d.buf ≡ true
    → (new : List Call) × Log b.udp.log new
        (wlan_br_handle_burst env b (xs ++ (e ∷ (ys ++ (d ∷ zs))))).udp.log
      × (1 ≤ ledger (asks test e.addr) false b.udp.log new)
burst-answers env never b xs ys zs e d v h test ok =
    let rx = xs ++ (e ∷ (ys ++ (d ∷ zs))) in
    let (knows, valid, bursts) = burst-refines env never b rx v in
    let (new, sends) = burst_asks env b (wlan_br_handle_burst env b rx) rx bursts in
    (
      new,
      sends.calls,
      omega (
        arith,
        sends.asked test e.addr,
        bursts.count test e.addr,
        answered test (view env b) xs ys zs e d h ok,
        count_if-append (hits test e.addr) bursts.sent bursts.queued,
      ),
    )
