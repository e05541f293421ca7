-- ===== src/Peers/Linked.antt =====
-- Facts about lists of entries and the records that they point at.
use wlan_bridge.Common.{
  ℕ, ◌%◌, ◌≤◌, ◌≡◌, refl, ◌≢◌, inl, inr, Bool, true, false, ◌||◌, none, some, List, [], ◌∷◌, arith,
  u16_mod, Ptr, null, Heap, ◌==◌, Bool-cases, count_if,
}
use wlan_bridge.Net.{SockaddrIn, same_peer}
use wlan_bridge.Peers.{PeerAddrInfo, WlanListEntry, find_peer}

-- Some entry points at the record.
abbrev pub has : Ptr → List WlanListEntry → Bool
has p [] = false
has p (e ∷ es) = e.peer_addr == p || has p es

-- How many entries point at it.
abbrev pub sharers : Ptr → List WlanListEntry → ℕ
sharers p es = count_if (λ e. e.peer_addr == p) es

-- Well-formed entries over a heap with `n` allocations behind it: each points at a record that calloc
-- returned, there is one record for each peer, no record is marked as served, and each counts the
-- entries that share it, as a u16.
pub record IsLinked (h : Heap PeerAddrInfo) (n : ℕ) (es : List WlanListEntry) : Type 0 where
  pub not_null : (p : Ptr) → has p es ≡ true → p ≢ null
  pub allocated : (p : Ptr) → has p es ≡ true → p ≤ n
  pub one_record :
      (p q : Ptr)
      → has p es ≡ true
      → has q es ≡ true
      → same_peer (h p).addr (h q).addr ≡ true
      → p ≡ q
  pub unmarked : (p : Ptr) → has p es ≡ true → (h p).flood_flag ≡ 0
  pub counted : (p : Ptr) → has p es ≡ true → (h p).count ≡ sharers p es % u16_mod

module _ (h : Heap PeerAddrInfo) (a : SockaddrIn) where
  pub find_peer-some :
      (es : List WlanListEntry) {p : Ptr}
      → find_peer h a es ≡ some p
      → (has p es ≡ true) × (same_peer (h p).addr a ≡ true)
  unfolding find_peer
  find_peer-some [] e = cc
  find_peer-some (x ∷ es) {p} e = elim (Bool-cases (same_peer (h x.peer_addr).addr a)) [
    | inl hit ↦ ground arith
    | inr miss ↦ ground (arith, find_peer-some es {p = p})
  ]

  pub find_peer-none :
      (es : List WlanListEntry) (p : Ptr)
      → find_peer h a es ≡ none
      → has p es ≡ true
      → same_peer (h p).addr a ≡ false
  unfolding find_peer
  find_peer-none [] p e i = cc
  find_peer-none (x ∷ es) p e i = ground (arith, find_peer-none es p)

-- Some entry is of the peer.
abbrev pub knows : Heap PeerAddrInfo → SockaddrIn → List WlanListEntry → Bool
knows h a [] = false
knows h a (e ∷ es) = same_peer (h e.peer_addr).addr a || knows h a es

-- Two heaps that agree on the peers' addresses know the same peers.
pub knows-congr :
    (h g : Heap PeerAddrInfo) (a : SockaddrIn) (es : List WlanListEntry)
    → ((p : Ptr) → has p es ≡ true → (g p).addr ≡ (h p).addr)
    → knows g a es ≡ knows h a es
knows-congr h g a [] same = refl
knows-congr h g a (x ∷ es) same =
    ground (arith, same x.peer_addr, knows-congr h g a es (λ p i. same p (ground arith)))

knows_of_has :
    (h : Heap PeerAddrInfo) (a : SockaddrIn) (es : List WlanListEntry) (p : Ptr)
    → has p es ≡ true
    → same_peer (h p).addr a ≡ true
    → knows h a es ≡ true
knows_of_has h a [] p i e = cc
knows_of_has h a (x ∷ es) p i e = ground (arith, knows_of_has h a es p)
