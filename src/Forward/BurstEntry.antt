-- ===== src/Forward/BurstEntry.antt =====
-- One frame of a burst in wlan_br_handle_burst: behind the learning it is flooded at once, or put off
-- for the burst's sendmmsg.
use wlan_bridge.Common.{
  ℕ, ◌+◌, ◌≡◌, refl, inl, inr, Bool, ◌&&◌, List, [], ◌∷◌, map, arith, if◌then◌else◌, Bool-cases,
  Option-cases, count_if, ℤ, pos, negsuc, ◌==ℤ◌,
}
use mathlib.Core.List.{append-nil}
use mathlib.Core.Path.{subst}
use wlan_bridge.Ether.{Mac, ethhdr_of, is_multicast_ether_addr}
use wlan_bridge.Net.{SockaddrIn, Datagram, same_peer}
use wlan_bridge.Peers.Update.{IsValid}
use wlan_bridge.Udp.{sendto}
use wlan_bridge.Forward.{
  wlan_br_forward_to_array, Env, Bridge, find_entry, learn, wlan_br_flood, burst_entry,
}
use wlan_bridge.Forward.Flood.{
  flood_fdb, flood_peers, flood_udp, flood_once, served, send_call, with_log,
}
use wlan_bridge.Forward.Switch.{Switch, learns, view, flood_copies, copies}

abbrev pub src : Datagram → Mac
src d = (ethhdr_of d.buf).h_source

abbrev pub dest : Datagram → Mac
dest d = (ethhdr_of d.buf).h_dest

-- What the switch learns from frames, one after another.
unfoldable pub learns_all : Switch → List Datagram → Switch
learns_all v [] = v
learns_all v (d ∷ rest) = learns_all (learns v d.addr (src d)) rest

-- How many copies the switch delivers to a peer, of those frames whose contents pass a test.
unfoldable pub burst_copies : (ℕ → List ℕ → Bool) → Switch → List Datagram → SockaddrIn → ℕ
burst_copies test v [] a = 0
burst_copies test v (d ∷ rest) a =
    let v' = learns v d.addr (src d) in
    (if test d.len d.buf then copies v' d.addr (dest d) a else 0) + burst_copies test v' rest a

-- A datagram to the peer, whose contents pass the test.
abbrev pub hits : (ℕ → List ℕ → Bool) → SockaddrIn → Datagram → Bool
hits test a d = test d.len d.buf && same_peer d.addr a

addressed : ℕ → List ℕ → SockaddrIn → Datagram
addressed len buf t = record { len = len; buf = buf; addr = t }

map-addressed :
    (fd : ℤ) (len : ℕ) (buf : List ℕ) (to : List SockaddrIn)
    → map (sendto fd) (map (addressed len buf) to) ≡ map (send_call fd len buf) to
unfolding addressed
map-addressed fd len buf [] = refl
map-addressed fd len buf (t ∷ to) = ground (arith, map-addressed fd len buf to)

count_addressed :
    (test : ℕ → List ℕ → Bool) (a : SockaddrIn) (len : ℕ) (buf : List ℕ) (to : List SockaddrIn)
    → count_if (hits test a) (map (addressed len buf) to)
      ≡ (if test len buf then count_if (λ t. same_peer t a) to else 0)
unfolding addressed
count_addressed test a len buf [] = ground arith
count_addressed test a len buf (t ∷ to) = ground (arith, count_addressed test a len buf to)

-- What burst_entry does behind the learning.
unfoldable pub burst_route :
    {T L S : Type 0} → Env T L S → Bridge T L S → Datagram → List Datagram × Bridge T L S
unfolding wlan_br_forward_to_array
burst_route env b d =
    if is_multicast_ether_addr (dest d)
    then ([], wlan_br_flood env b d.len d.buf d.addr)
    else let (ret, queued, b') = wlan_br_forward_to_array env b d.len d.buf (dest d) d.addr in
      if pos 1 ==ℤ ret
      then (queued, b')
      else if negsuc 0 ==ℤ ret
      then ([], wlan_br_flood env b' d.len d.buf d.addr)
      else ([], b')

module _ {T L S : Type 0} (env : Env T L S) where
  -- From `b` to `c`, with `queued` put off: the peers' copies are as `n` says.
  pub record Handles (b c : Bridge T L S) (queued : List Datagram)
      (n : (ℕ → List ℕ → Bool) → SockaddrIn → ℕ) : Type 0 where
    pub sent : List Datagram
    pub calls : c.udp ≡ with_log b.udp (map (sendto b.udp.serv_sock) sent)
    pub count :
        (test : ℕ → List ℕ → Bool) (a : SockaddrIn)
        → count_if (hits test a) sent + count_if (hits test a) queued ≡ n test a

  -- The same, where the tables are left alone.
  pub record Keeps (b c : Bridge T L S) : Type 0 where
    pub fdb : c.fdb ≡ b.fdb
    pub peers : c.peers ≡ b.peers

  flood-Handles :
      (b : Bridge T L S) (d : Datagram) (n : (ℕ → List ℕ → Bool) → SockaddrIn → ℕ)
      → IsValid env.utlist b.peers
      → ((test : ℕ → List ℕ → Bool) (a : SockaddrIn)
          → n test a ≡ (if test d.len d.buf then flood_copies (view env b) d.addr a else 0))
      → Handles b (wlan_br_flood env b d.len d.buf d.addr) [] n
  unfolding flood_copies
  flood-Handles b d n v e = record {
    sent = map (addressed d.len d.buf) (served env b d.addr);
    calls =
        rw (map-addressed b.udp.serv_sock d.len d.buf (served env b d.addr))
          (flood_udp env b d.len d.buf d.addr v);
    count = λ test a. ground (
      arith,
      e test a,
      count_addressed test a d.len d.buf (served env b d.addr),
      flood_once env b d.len d.buf d.addr v a,
    );
  }

  -- The copies of one frame, whose contents must pass the test.
  abbrev pub once : Switch → Datagram → (ℕ → List ℕ → Bool) → SockaddrIn → ℕ
  once v d test a = if test d.len d.buf then copies v d.addr (dest d) a else 0

  pub record Entry (b : Bridge T L S) (d : Datagram) (r : List Datagram × Bridge T L S)
      : Type 0 where
    pub keeps : Keeps b r.1
    pub handles : Handles b r.1 r.0 (once (view env b) d)

  module _ (b : Bridge T L S) (d : Datagram) (v : IsValid env.utlist b.peers) where
    flood-Entry :
        ((a : SockaddrIn)
          → copies (view env b) d.addr (dest d) a ≡ flood_copies (view env b) d.addr a)
        → Entry b d ([], wlan_br_flood env b d.len d.buf d.addr)
    flood-Entry e = record {
      keeps = record {
        fdb = flood_fdb env b d.len d.buf d.addr v;
        peers = flood_peers env b d.len d.buf d.addr v;
      };
      handles = flood-Handles b d _ v (λ test a. ground (arith, e a));
    }

    -- Nothing is sent at once.
    quiet-Entry :
        (c : Bridge T L S) (queued : List Datagram)
        → c.fdb ≡ b.fdb
        → c.peers ≡ b.peers
        → c.udp ≡ b.udp
        → ((test : ℕ → List ℕ → Bool) (a : SockaddrIn)
            → count_if (hits test a) queued ≡ once (view env b) d test a)
        → Entry b d (queued, c)
    quiet-Entry c queued f p u n = record {
      keeps = record { fdb = f; peers = p };
      handles = record {
        sent = [];
        calls = ground (arith, append-nil b.udp.log);
        count = λ test a. omega (arith, n test a);
      };
    }

    burst_route-Entry : Entry b d (burst_route env b d)
    unfolding burst_route copies
    burst_route-Entry = elim (Bool-cases (is_multicast_ether_addr (dest d))) [
      | inl e ↦ subst (Entry b d) (ground arith) (flood-Entry (λ a. ground arith))
      | inr e ↦ elim (Option-cases (find_entry env b (dest d))) [
        | inl f ↦ subst (Entry b d) (ground arith) (flood-Entry (λ a. ground arith))
        | inr (x, f) ↦
            quiet-Entry (burst_route env b d).1 (burst_route env b d).0 (ground arith)
              (ground arith) (ground arith) (λ test a. ground arith)
      ]
    ]

module _ {T L S : Type 0} (env : Env T L S) (b : Bridge T L S) (d : Datagram) where
  pub burst_entry-Entry :
      IsValid env.utlist (learn env b d.addr (src d)).peers
      → Entry env (learn env b d.addr (src d)) d (burst_entry env b d)
  unfolding burst_entry burst_route
  burst_entry-Entry v = burst_route-Entry env (learn env b d.addr (src d)) d v
