-- ===== src/Peers/Range.antt =====
-- The records of the peers stay within their C types: count is a u16, and the mark is 0 or 1.
use wlan_bridge.Common.{
  ℕ, suc, ◌<◌, ◌≤◌, inl, inr, Bool, arith, Bool-cases, Option-cases, Ptr, u16_mod, null, calloc,
  ◌==◌,
}
use wlan_bridge.Utlist.{Utlist}
use wlan_bridge.Ether.{Mac}
use wlan_bridge.Net.{SockaddrIn}
use wlan_bridge.Peers.{
  PeerAddrInfo, WlanListEntry, Peers, entries, find_peer, link, link_new, link_old, link_peer,
  wlan_list_update,
}

pub record Fits (i : PeerAddrInfo) : Type 0 where
  pub count : i.count < u16_mod
  pub flood_flag : i.flood_flag ≤ 1

-- Every record of the heap is in range.
abbrev pub AllFit : {L : Type 0} → Peers L → Type 0
AllFit s = (p : Ptr) → Fits (s.infos p)

module _ {L : Type 0} (utlist : Utlist WlanListEntry L) (oom : ℕ → Bool) where
  link_peer-AllFit :
      (s : Peers L) (a : SockaddrIn) (m : Mac) → AllFit s → AllFit (link_peer utlist oom s a m).1
  unfolding link_peer link_new link_old link
  link_peer-AllFit s a m h p = elim (Option-cases (find_peer s.infos a (entries utlist s))) [
    | inl e ↦ record {
      count = ground (arith, e, (h p).count);
      flood_flag = ground (arith, e, (h p).flood_flag);
    }
    | inr (pa, e) ↦ record {
      count = ground (arith, e, (h p).count);
      flood_flag = ground (arith, e, (h p).flood_flag);
    }
  ]

  pub wlan_list_update-AllFit :
      (s : Peers L) (a : SockaddrIn) (m : Mac)
      → AllFit s
      → AllFit (wlan_list_update utlist oom s a m).1
  unfolding wlan_list_update
  wlan_list_update-AllFit s a m h p = elim (Bool-cases (calloc oom s.allocs == null)) [
    | inl e ↦ rw e (h p)
    | inr e ↦ rw e (link_peer-AllFit (record s { allocs = suc s.allocs }) a m h p)
  ]
