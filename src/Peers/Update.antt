-- ===== src/Peers/Update.antt =====
-- wlan_list_update keeps the list well formed.
use wlan_bridge.Common.{
  ℕ, suc, ◌+◌, ◌%◌, ◌≤◌, ◌≡◌, refl, inl, inr, Bool, true, false, ◌||◌, none, some, List, [], ◌∷◌,
  arith, u16_mod, Ptr, Heap, write, Bool-cases, Option-cases, ℤ, pos,
}
use wlan_bridge.Ether.{Mac}
use wlan_bridge.Net.{same_peer, SockaddrIn}
use wlan_bridge.Peers.{
  wlan_list_update, entries, Peers, Utlist, PeerAddrInfo, WlanListEntry, find_peer,
}
use wlan_bridge.Peers.Linked.{
  knows-congr, find_peer-some, knows, has, sharers, IsLinked, find_peer-none,
}

module _ (h : Heap PeerAddrInfo) (es : List WlanListEntry) (mac : Mac) where
  sharers_absent : (p : Ptr) (es : List WlanListEntry) → has p es ≡ false → sharers p es ≡ 0
  sharers_absent p [] e = refl
  sharers_absent p (x ∷ es) e = ground (arith, sharers_absent p es)

  old-IsLinked :
      (n : ℕ) (pa : Ptr)
      → IsLinked h n es
      → has pa es ≡ true
      → IsLinked
          (write h pa (record (h pa) { count = ((h pa).count + 1) % u16_mod; flood_flag = 0 }))
          n
          (record { key_remote_mac = mac; peer_addr = pa } ∷ es)
  old-IsLinked n pa l i = record {
    not_null = λ p j. ground (arith, l.not_null p, l.not_null pa);
    allocated = λ p j. ground (arith, l.allocated p, l.allocated pa);
    one_record = λ p q j k e. ground (arith, l.one_record p q);
    unmarked = λ p j. ground (arith, l.unmarked p);
    counted = λ p j. ground (arith, l.counted p, l.counted pa);
  }

  new-IsLinked :
      (n : ℕ) (a : SockaddrIn)
      → IsLinked h n es
      → find_peer h a es ≡ none
      → IsLinked
          (write h (suc n) (record { addr = a; count = 1; flood_flag = 0 }))
          (suc n)
          (record { key_remote_mac = mac; peer_addr = suc n } ∷ es)
  new-IsLinked n a l e = record {
    not_null = λ p j. ground (arith, l.not_null p);
    allocated = λ p j. ground (arith, l.allocated p);
    one_record = λ p q j k same. ground (
      arith,
      l.one_record p q,
      l.allocated p,
      l.allocated q,
      find_peer-none h a es p e,
      find_peer-none h a es q e,
    );
    unmarked = λ p j. ground (arith, l.unmarked p);
    counted = λ p j.
        ground (arith, l.counted p, l.allocated p, sharers_absent (suc n) es, l.allocated (suc n));
  }

IsLinked-mono :
    {h : Heap PeerAddrInfo} {m n : ℕ} {es : List WlanListEntry}
    → IsLinked h m es
    → m ≤ n
    → IsLinked h n es
IsLinked-mono l le = record {
  not_null = l.not_null;
  allocated = λ p i. omega (arith, l.allocated p i);
  one_record = l.one_record;
  unmarked = l.unmarked;
  counted = l.counted;
}

module _ {L : Type 0} (utlist : Utlist WlanListEntry L) where
  -- The three ways in which wlan_list_update ends.
  data Outcome (s : Peers L) (a : SockaddrIn) (mac : Mac) (r : ℤ × Peers L) : Type 0 where
    failed :
        r.0 ≡ pos 0
        → r.1.infos ≡ s.infos
        → s.allocs ≤ r.1.allocs
        → entries utlist r.1 ≡ entries utlist s
        → Outcome s a mac r
    joined :
        (pa : Ptr)
        → find_peer s.infos a (entries utlist s) ≡ some pa
        → r.0 ≡ pos 1
        → r.1.infos
          ≡ write s.infos pa
              (record (s.infos pa) { count = ((s.infos pa).count + 1) % u16_mod; flood_flag = 0 })
        → s.allocs ≤ r.1.allocs
        → entries utlist r.1 ≡ record { key_remote_mac = mac; peer_addr = pa } ∷ entries utlist s
        → Outcome s a mac r
    created :
        (n : ℕ)
        → find_peer s.infos a (entries utlist s) ≡ none
        → s.allocs ≤ n
        → r.0 ≡ pos 1
        → r.1.infos ≡ write s.infos (suc n) (record { addr = a; count = 1; flood_flag = 0 })
        → r.1.allocs ≡ suc n
        → entries utlist r.1 ≡ record { key_remote_mac = mac; peer_addr = suc n } ∷ entries utlist s
        → Outcome s a mac r

  -- The list is well formed.
  abbrev pub IsValid : Peers L → Type 0
  IsValid s = IsLinked s.infos s.allocs (entries utlist s)

  abbrev pub knows_in : Peers L → SockaddrIn → Bool
  knows_in s a = knows s.infos a (entries utlist s)

module _ {L : Type 0} (utlist : Utlist WlanListEntry L) (oom : ℕ → Bool) (s : Peers L)
    (a : SockaddrIn) (mac : Mac) where
  update-Outcome : Outcome utlist s a mac (wlan_list_update utlist oom s a mac)
  unfolding wlan_list_update
  update-Outcome = elim (Bool-cases (oom s.allocs)) [
    | inl e ↦ failed (ground arith) (ground arith) (ground arith) (ground arith)
    | inr e ↦ elim (Option-cases (find_peer s.infos a (entries utlist s))) [
      | inl f ↦ elim (Bool-cases (oom (suc s.allocs))) [
        | inl g ↦ failed (ground arith) (ground arith) (ground arith) (ground arith)
        | inr g ↦
            created (suc s.allocs) f (ground arith) (ground arith) (ground arith) (ground arith) (
              ground (
                arith,
                utlist.foreach-prepend s.l_head
                    (record { key_remote_mac = mac; peer_addr = suc (suc s.allocs) }),
              ))
      ]
      | inr (pa, f) ↦ joined pa f (ground arith) (ground arith) (ground arith) (
          ground (
            arith,
            utlist.foreach-prepend s.l_head (record { key_remote_mac = mac; peer_addr = pa }),
          ))
    ]
  ]

module _ {L : Type 0} (utlist : Utlist WlanListEntry L) {s : Peers L} {a : SockaddrIn} {mac : Mac}
    {r : ℤ × Peers L} where
  Outcome-IsValid : IsValid utlist s → Outcome utlist s a mac r → IsValid utlist r.1
  Outcome-IsValid v (failed _ i n e) = rw (i, e) (IsLinked-mono v n)
  Outcome-IsValid v (joined pa f _ i n e) =
      rw (i, e) (IsLinked-mono (old-IsLinked _ _ mac s.allocs pa v (find_peer-some _ a _ f).0) n)
  Outcome-IsValid v (created m f le _ i n e) =
      rw (i, n, e) (new-IsLinked _ _ mac m a (IsLinked-mono v le) f)

  Outcome-knows :
      (b : SockaddrIn)
      → IsValid utlist s
      → r.0 ≡ pos 1
      → Outcome utlist s a mac r
      → knows_in utlist r.1 b ≡ (same_peer a b || knows_in utlist s b)
  Outcome-knows b v one (failed z i n e) = cc
  Outcome-knows b v one (joined pa f o i n e) =
      let found = find_peer-some _ a _ f in
      rw (i, e)
        (ground (
          arith,
          found.1,
          knows-congr s.infos r.1.infos b (entries utlist s) (λ p j. rw i (ground arith)),
        ))
  Outcome-knows b v one (created m f le o i n e) =
      rw (i, e)
        (ground (
          arith,
          knows-congr s.infos r.1.infos b (entries utlist s)
              (λ p j. rw i (ground (arith, v.allocated p j))),
        ))

module _ {L : Type 0} (utlist : Utlist WlanListEntry L) (oom : ℕ → Bool) (s : Peers L)
    (a : SockaddrIn) (mac : Mac) (v : IsValid utlist s) where
  -- Whatever callocs fail, wlan_list_update keeps a well-formed list well formed.
  pub wlan_list_update-IsValid : IsValid utlist (wlan_list_update utlist oom s a mac).1
  wlan_list_update-IsValid = Outcome-IsValid utlist v (update-Outcome utlist oom s a mac)

  -- On a well-formed list, when wlan_list_update returns 1 the peers that the list knows are those
  -- that it knew before and the given one.
  pub knows-wlan_list_update :
      (b : SockaddrIn)
      → (wlan_list_update utlist oom s a mac).0 ≡ pos 1
      → knows_in utlist (wlan_list_update utlist oom s a mac).1 b
        ≡ (same_peer a b || knows_in utlist s b)
  knows-wlan_list_update b one = Outcome-knows utlist b v one (update-Outcome utlist oom s a mac)

  pub wlan_list_update_ok :
      oom s.allocs ≡ false
      → oom (suc s.allocs) ≡ false
      → (wlan_list_update utlist oom s a mac).0 ≡ pos 1
  unfolding wlan_list_update
  wlan_list_update_ok e f = ground arith
