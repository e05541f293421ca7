-- ===== src/Tests/Whole.antt =====
-- The theorems on the two programs from start to end.
use wlan_bridge.Common.{ℕ, false, List, [], Ptr, pos, negsuc}
use wlan_bridge.Ether.{Mac}
use wlan_bridge.Fdb.{FdbEntry}
use wlan_bridge.Peers.{WlanListEntry}
use wlan_bridge.Udp
use wlan_bridge.Main.Start
use wlan_bridge.Main.Start.{Process}
use wlan_bridge.Cli.Listen.{unopened}
use wlan_bridge.Tests.Loop.{server}

abbrev pub system : Start.System
system = record { flags_of = λ fd. 2; epfd = pos 4; malloc_fails = λ n. false; memory = λ n. [] }

abbrev process : Process (List (Mac × FdbEntry)) (List WlanListEntry) (List (ℕ × Ptr))
process = record { server = server; listener = unopened; epfd = negsuc 0; calls = [] }
