-- ===== src/Forward/Marks.antt =====
-- The flood loop of wlan_br_flood seen on its own: which peers it serves, and the marks that it
-- leaves in their records.
use wlan_bridge.Common.{
  ℕ, ◌≡◌, refl, ◌≢◌, inl, inr, Bool, true, false, not, ◌&&◌, ◌||◌, List, [], ◌∷◌, arith, Ptr, null,
  Heap, write, ◌==◌, if◌then◌else◌, Bool-cases, count_if,
}
use mathlib.Core.Path.{fun_ext}
use wlan_bridge.Net.{SockaddrIn, same_peer}
use wlan_bridge.Peers.{PeerAddrInfo, WlanListEntry}
use wlan_bridge.Peers.Linked.{IsLinked, knows, has}
use wlan_bridge.Forward.{set_flag}

-- The loop's two `continue`s.
unfoldable pub skips : Heap PeerAddrInfo → SockaddrIn → WlanListEntry → Bool
skips h curr e =
    e.peer_addr == null || (h e.peer_addr).flood_flag == 1 || same_peer (h e.peer_addr).addr curr

unfoldable mark : Heap PeerAddrInfo → Ptr → Heap PeerAddrInfo
mark h p = write h p (set_flag (h p) 1)

unfoldable pub visit : Heap PeerAddrInfo → SockaddrIn → WlanListEntry → Heap PeerAddrInfo
unfolding skips mark
visit h curr e = if skips h curr e then h else mark h e.peer_addr

unfoldable pub visit_all : Heap PeerAddrInfo → SockaddrIn → List WlanListEntry → Heap PeerAddrInfo
unfolding visit
visit_all h curr [] = h
visit_all h curr (e ∷ es) = visit_all (visit h curr e) curr es

-- The peers served, in order.
unfoldable pub targets : Heap PeerAddrInfo → SockaddrIn → List WlanListEntry → List SockaddrIn
unfolding visit
targets h curr [] = []
targets h curr (e ∷ es) =
    let rest = targets (visit h curr e) curr es in
    if skips h curr e then rest else (h e.peer_addr).addr ∷ rest

unfoldable pub clear_all : Heap PeerAddrInfo → List WlanListEntry → Heap PeerAddrInfo
clear_all h [] = h
clear_all h (e ∷ es) =
    clear_all (if e.peer_addr == null then h else write h e.peer_addr (set_flag (h e.peer_addr) 0))
      es

-- Some entry is of the peer, and its record is not marked.
pending : Heap PeerAddrInfo → SockaddrIn → List WlanListEntry → Bool
pending h a [] = false
pending h a (e ∷ es) =
    (same_peer (h e.peer_addr).addr a && not ((h e.peer_addr).flood_flag == 1)) || pending h a es

pending-mark :
    (h : Heap PeerAddrInfo) (a : SockaddrIn) (p : Ptr) (es : List WlanListEntry)
    → ((q : Ptr) → has q es ≡ true → same_peer (h p).addr (h q).addr ≡ true → p ≡ q)
    → pending (mark h p) a es ≡ (if same_peer (h p).addr a then false else pending h a es)
unfolding pending mark set_flag
pending-mark h a p [] one = ground arith
pending-mark h a p (e ∷ es) one =
    ground (arith, one e.peer_addr, pending-mark h a p es (λ q i. one q (ground arith)))

-- Entries that point at one record for each peer, none at NULL.
record IsShared (h : Heap PeerAddrInfo) (es : List WlanListEntry) : Type 0 where
  not_null : (p : Ptr) → has p es ≡ true → p ≢ null
  one_record :
      (p q : Ptr)
      → has p es ≡ true
      → has q es ≡ true
      → same_peer (h p).addr (h q).addr ≡ true
      → p ≡ q

IsShared-tail :
    {h : Heap PeerAddrInfo} (e : WlanListEntry) (es : List WlanListEntry)
    → IsShared h (e ∷ es)
    → IsShared h es
IsShared-tail e es v = record {
  not_null = λ p i. v.not_null p (ground arith);
  one_record = λ p q i j. v.one_record p q (ground arith) (ground arith);
}

IsShared-mark :
    (h : Heap PeerAddrInfo) (r : Ptr) (es : List WlanListEntry)
    → IsShared h es
    → IsShared (mark h r) es
unfolding mark set_flag
IsShared-mark h r es v = record {
  not_null = v.not_null;
  one_record = λ p q i j s. ground (arith, v.one_record p q);
}

count_targets :
    (h : Heap PeerAddrInfo) (curr a : SockaddrIn) (es : List WlanListEntry)
    → IsShared h es
    → count_if (λ t. same_peer t a) (targets h curr es)
      ≡ (if pending h a es && not (same_peer a curr) then 1 else 0)
unfolding targets visit skips pending
count_targets h curr a [] v = refl
count_targets h curr a (e ∷ es) v = elim (Bool-cases (skips h curr e)) [
  | inl s ↦
      rw s (
        ground (arith, s, count_targets h curr a es (IsShared-tail e es v), v.not_null e.peer_addr))
  | inr s ↦ rw s (
      ground (
        arith,
        s,
        count_targets (mark h e.peer_addr) curr a es
            (IsShared-mark h e.peer_addr es (IsShared-tail e es v)),
        pending-mark h a e.peer_addr es
            (λ q i. v.one_record e.peer_addr q (ground arith) (ground arith)),
      ))
]

pending-knows :
    (h : Heap PeerAddrInfo) (a : SockaddrIn) (es : List WlanListEntry)
    → ((p : Ptr) → has p es ≡ true → (h p).flood_flag ≡ 0)
    → pending h a es ≡ knows h a es
unfolding pending
pending-knows h a [] un = refl
pending-knows h a (e ∷ es) un =
    ground (arith, un e.peer_addr, pending-knows h a es (λ p i. un p (ground arith)))

-- With no peer marked, the loop serves each known peer but the sender's once.
pub count-targets :
    (h : Heap PeerAddrInfo) (curr a : SockaddrIn) {n : ℕ} (es : List WlanListEntry)
    → IsLinked h n es
    → count_if (λ t. same_peer t a) (targets h curr es)
      ≡ (if knows h a es && not (same_peer a curr) then 1 else 0)
count-targets h curr a es v =
    rw (← pending-knows h a es v.unmarked)
      (count_targets h curr a es (record { not_null = v.not_null; one_record = v.one_record }))

visit_all-unmarked :
    (h : Heap PeerAddrInfo) (curr : SockaddrIn) (es : List WlanListEntry) (p : Ptr)
    → set_flag (visit_all h curr es p) 0 ≡ set_flag (h p) 0
unfolding visit_all visit mark skips set_flag
visit_all-unmarked h curr [] p = refl
visit_all-unmarked h curr (e ∷ es) p = ground (arith, visit_all-unmarked (visit h curr e) curr es p)

visit_all-other :
    (h : Heap PeerAddrInfo) (curr : SockaddrIn) (es : List WlanListEntry) (p : Ptr)
    → has p es ≡ false
    → visit_all h curr es p ≡ h p
unfolding visit_all visit mark skips
visit_all-other h curr [] p e = refl
visit_all-other h curr (x ∷ es) p e = ground (arith, visit_all-other (visit h curr x) curr es p)

clear_all_lem :
    (h : Heap PeerAddrInfo) (es : List WlanListEntry) (p : Ptr)
    → ((q : Ptr) → has q es ≡ true → q ≢ null)
    → clear_all h es p ≡ (if has p es then set_flag (h p) 0 else h p)
unfolding clear_all set_flag
clear_all_lem h [] p nn = refl
clear_all_lem h (e ∷ es) p nn = ground (
  arith,
  nn e.peer_addr,
  clear_all_lem (write h e.peer_addr (set_flag (h e.peer_addr) 0)) es p
      (λ q i. nn q (ground arith)),
)

-- The second loop takes all marks away again.
pub clear_all-visit_all :
    (h : Heap PeerAddrInfo) (curr : SockaddrIn) {n : ℕ} (es : List WlanListEntry)
    → IsLinked h n es
    → clear_all (visit_all h curr es) es ≡ h
unfolding set_flag
clear_all-visit_all h curr es v = fun_ext λ p. ground (
  arith,
  clear_all_lem (visit_all h curr es) es p v.not_null,
  visit_all-unmarked h curr es p,
  visit_all-other h curr es p,
  v.unmarked p,
)
