-- ===== src/Tests/Tables.antt =====
-- The theorems on the tables, at small tables.
use wlan_bridge.Common.{◌≡◌, refl, none, some, List, [], ◌∷◌, if◌then◌else◌}
use mathlib.Core.Logic.{ite}
use wlan_bridge.Uthash.Assoc
use wlan_bridge.Uthash.Assoc.{assoc}
use wlan_bridge.Ether.{Mac, Mac-discrete}
use wlan_bridge.Fdb.{Fdb, FdbEntry, wlan_br_find, wlan_fdb_update}
use wlan_bridge.Fdb.Laws.{updates, find-update, updates-sticky}
use wlan_bridge.Peers.{wlan_list_update}
use wlan_bridge.Peers.Update.{IsValid, wlan_list_update-IsValid}
use wlan_bridge.Tests.Setup.{env, peer, mac, start}
use wlan_bridge.Tests.Bridge.{three, three-IsValid}

wlan_list_update-IsValid_example :
    IsValid env.utlist (wlan_list_update env.utlist env.list_oom three.peers (peer 20) (mac 4)).1
wlan_list_update-IsValid_example =
    wlan_list_update-IsValid env.utlist env.list_oom three.peers (peer 20) (mac 4) three-IsValid

abbrev host : FdbEntry
host = record { key_remote_mac = mac 1; peer_addr = peer 10 }

-- A table that binds one address.
abbrev one : Fdb (List (Mac × FdbEntry))
one = record { h_head = (mac 1, host) ∷ []; allocs = 1 }

find-update_example :
    wlan_br_find env.macs env.fdb_oom
      (wlan_fdb_update env.macs env.fdb_oom one (peer 20) (mac 2)).1
      (mac 2)
    ≡ ite
        (Mac-discrete (mac 2) (mac 2))
        (elim (wlan_br_find env.macs env.fdb_oom one (mac 2)) [
          | some e ↦ some e
          | none ↦
              if env.fdb_oom one.allocs
              then none
              else some (record { key_remote_mac = mac 2; peer_addr = peer 20 })
        ])
        (wlan_br_find env.macs env.fdb_oom one (mac 2))
find-update_example = find-update env.macs env.fdb_oom one (peer 20) (mac 2) (mac 2)

one-host : wlan_br_find env.macs env.fdb_oom one (mac 1) ≡ some host
unfolding wlan_br_find Mac-discrete Assoc.find
one-host = refl

updates-sticky_example :
    wlan_br_find env.macs env.fdb_oom
      (updates env.macs env.fdb_oom one ((peer 20, mac 1) ∷ (peer 20, mac 2) ∷ []))
      (mac 1)
    ≡ some host
updates-sticky_example =
    updates-sticky env.macs env.fdb_oom one ((peer 20, mac 1) ∷ (peer 20, mac 2) ∷ []) (mac 1)
      one-host

empty_find : (m : Mac) → wlan_br_find env.macs env.fdb_oom start.fdb m ≡ none
unfolding wlan_br_find Assoc.find
empty_find m = refl
