-- ===== src/Peers.antt =====
-- The list of learned hardware addresses of wlan_br_server/wlan_br_forward.c: an entry for each
-- address, newest first, that points at the record of its peer. Entries of one peer share that
-- record, through which the flood marks the peer as served.
pub mod Linked
pub mod Update
pub mod Range
use wlan_bridge.Common.{
  ℕ, suc, ◌+◌, ◌%◌, Bool, Option, none, some, List, [], ◌∷◌, u16_mod, Ptr, null, Heap, write,
  calloc, ◌==◌, if◌then◌else◌, ℤ, pos,
}
use wlan_bridge.Utlist.{Utlist}
use wlan_bridge.Ether.{Mac}
use wlan_bridge.Net.{SockaddrIn, same_peer}

-- peer_addr_info_t
pub record PeerAddrInfo : Type 0 where
  pub addr : SockaddrIn
  pub count : ℕ
  pub flood_flag : ℕ

-- wlan_list_entry_t; its links are the list's.
pub record WlanListEntry : Type 0 where
  pub key_remote_mac : Mac
  pub peer_addr : Ptr

-- `l_head`, the peers' records by address, and the number of allocations made so far.
pub record Peers (L : Type 0) : Type 0 where
  pub l_head : L
  pub infos : Heap PeerAddrInfo
  pub allocs : ℕ

-- The search loop of wlan_list_update: the record that the first entry of the peer points at.
unfoldable pub find_peer : Heap PeerAddrInfo → SockaddrIn → List WlanListEntry → Option Ptr
find_peer h peer_addr [] = none
find_peer h peer_addr (entry ∷ rest) =
    if same_peer (h entry.peer_addr).addr peer_addr
    then some entry.peer_addr
    else find_peer h peer_addr rest

-- What CDL_FOREACH_SAFE(l_head, entry, tmp, tmp2) visits.
abbrev pub entries : {L : Type 0} → Utlist WlanListEntry L → Peers L → List WlanListEntry
entries utlist s = utlist.foreach s.l_head

module _ {L : Type 0} (utlist : Utlist WlanListEntry L) (oom : ℕ → Bool) where
  -- elem->peer_addr = pa; CDL_PREPEND(l_head, elem);
  link : Peers L → Mac → Ptr → ℤ × Peers L
  link s remote_mac pa = (
    pos 1,
    record s {
      l_head = utlist.prepend s.l_head (record { key_remote_mac = remote_mac; peer_addr = pa });
    },
  )

  -- A peer that no entry points at gets a record of its own.
  link_new : Peers L → SockaddrIn → Mac → ℤ × Peers L
  unfolding link
  link_new s peer_addr remote_mac =
      let pa = calloc oom s.allocs in
      if pa == null
      then (pos 0, record s { allocs = suc s.allocs })
      else link
          (record s {
            infos = write s.infos pa (record { addr = peer_addr; count = 1; flood_flag = 0 });
            allocs = suc s.allocs;
          })
          remote_mac pa

  -- pa->count++; pa->flood_flag = 0;
  link_old : Peers L → Mac → Ptr → ℤ × Peers L
  unfolding link
  link_old s remote_mac pa =
      link
        (record s {
          infos =
              write s.infos pa (record (s.infos pa) {
                count = ((s.infos pa).count + 1) % u16_mod;
                flood_flag = 0;
              });
        })
        remote_mac pa

  -- Behind the first calloc, that of the element.
  link_peer : Peers L → SockaddrIn → Mac → ℤ × Peers L
  unfolding link_new link_old find_peer
  link_peer s peer_addr remote_mac = elim (find_peer s.infos peer_addr (entries utlist s)) [
    | some pa ↦ link_old s remote_mac pa
    | none ↦ link_new s peer_addr remote_mac
  ]

  unfoldable pub wlan_list_update : Peers L → SockaddrIn → Mac → ℤ × Peers L
  unfolding link_peer
  wlan_list_update s peer_addr remote_mac =
      if calloc oom s.allocs == null
      then (pos 0, record s { allocs = suc s.allocs })
      else link_peer (record s { allocs = suc s.allocs }) peer_addr remote_mac
