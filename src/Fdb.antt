-- ===== src/Fdb.antt =====
-- wlan_br_server/wlan_fdb.c: the forwarding table, from a learned hardware address to the peer that
-- first sent from it. An entry's device_id and seq_id are zeroed and never used. The file's one
-- allocation site is numbered by `allocs`.
pub mod Laws
use wlan_bridge.Common.{
  ℕ, suc, ◌≡◌, Bool, Option, none, some, ℤ, pos, negsuc, if◌then◌else◌, calloc, null, ◌==◌,
}
use wlan_bridge.Uthash.{Uthash}
use wlan_bridge.Ether.{Mac}
use wlan_bridge.Net.{SockaddrIn}

-- wlan_fdb_entry_t
pub record FdbEntry : Type 0 where
  pub key_remote_mac : Mac
  pub peer_addr : SockaddrIn

-- The file's statics; `T` is the hash table.
pub record Fdb (T : Type 0) : Type 0 where
  pub h_head : T
  pub allocs : ℕ

module _ {T : Type 0} (uthash : Uthash Mac FdbEntry T) (oom : ℕ → Bool) where
  unfoldable pub wlan_br_find : Fdb T → Mac → Option FdbEntry
  wlan_br_find s remote_mac = uthash.find s.h_head remote_mac

  -- The part behind the search, where the address is new.
  insert : Fdb T → SockaddrIn → Mac → ℤ × Fdb T
  insert s peer_addr remote_mac =
      if calloc oom s.allocs == null then (negsuc 0, record s { allocs = suc s.allocs }) else (
        pos 1,
        record {
          h_head =
              uthash.add s.h_head remote_mac
                (record { key_remote_mac = remote_mac; peer_addr = peer_addr });
          allocs = suc s.allocs;
        },
      )

  unfoldable pub wlan_fdb_update : Fdb T → SockaddrIn → Mac → ℤ × Fdb T
  unfolding wlan_br_find insert
  wlan_fdb_update s peer_addr remote_mac = elim (wlan_br_find s remote_mac) [
    | some entry ↦ (pos 0, s)
    | none ↦ insert s peer_addr remote_mac
  ]
