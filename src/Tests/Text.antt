-- ===== src/Tests/Text.antt =====
-- The theorems on addresses, on their text, and on the commands' arguments.
use wlan_bridge.Common.{
  ℕ, ◌^◌, ◌<◌, ◌≤◌, ◌⊎◌, none, ◌≡◌, ◌↔◌, true, some, List, [], ◌∷◌, map, arith, if◌then◌else◌,
  length,
}
use wlan_bridge.Ether.{IsMac, Ethhdr}
use wlan_bridge.Log.{LogLine, plain, debug, info, log_dbg, log_info, log_ip_ether_addr}
use wlan_bridge.Log.Levels.{Names, set_log_level-logs}
use wlan_bridge.Ether.Text.{ether_addr_to_str, read, read-to_str}
use wlan_bridge.Main.{no_events}
use wlan_bridge.Cli.{
  Globals, cli_ok, is_number, check_auth, cmd_set_log_level, codes, lower, admin, atoi,
}
use wlan_bridge.Cli.Laws.{AllDigits, decimal, check_auth_lem, set_log_level_lem}
use wlan_bridge.Tests.Setup.{mac, peer}

mac-IsMac : (n : ℕ) → n < 256 → IsMac (mac n)
mac-IsMac n h = record {
  a0_lt = omega arith;
  a1_lt = omega arith;
  a2_lt = omega arith;
  a3_lt = omega arith;
  a4_lt = omega arith;
  a5_lt = h;
}

read-to_str_example :
    (s : List ℕ) × (ether_addr_to_str (mac 7) true 20 ≡ some s) × (length s ≡ 17) × (read s ≡ mac 7)
read-to_str_example = read-to_str (mac 7) 20 (mac-IsMac 7 (omega arith)) (omega arith)

check_auth_lem_example :
    (check_auth (codes "Admin") (codes "ADMIN") ≡ cli_ok)
    ↔ ((map lower (codes "Admin") ≡ admin) × (map lower (codes "ADMIN") ≡ admin))
check_auth_lem_example = check_auth_lem (codes "Admin") (codes "ADMIN")

abbrev pub globals : Globals
globals = record {
  regular_count = 0;
  debug_regular = 0;
  epoll_stat_info = no_events;
  log_level = 0;
  tv_sec = 1;
  tv_usec = 0;
  calls = [];
}

three_lt : atoi 0 (codes "3") < 2 ^ 31
unfolding atoi
three_lt = omega arith

set_log_level_lem_example :
    let r = cmd_set_log_level globals (codes "3" ∷ []) in
    ((r.0 ≡ cli_ok) ↔ AllDigits (codes "3"))
    × (r.1.log_level ≡ (if is_number (codes "3") then atoi 0 (codes "3") else globals.log_level))
    × (r.1.epoll_stat_info ≡ no_events)
set_log_level_lem_example = set_log_level_lem globals (codes "3") [] three_lt

abbrev header : Ethhdr
header = record { h_dest = mac 3; h_source = mac 7; h_proto = 2048 }

set_log_level-logs_example :
    let level = (cmd_set_log_level globals (decimal 1 2 ∷ [])).1.log_level in
    ((log_dbg level (codes "hi") ≡ some (plain debug (codes "hi"))) ↔ (2 ≤ 2))
    × ((log_info level (codes "hi") ≡ some (plain info (codes "hi"))) ↔ (1 ≤ 2))
    × (((2 < 2) × (log_ip_ether_addr level (peer 1) header (codes "hi") ≡ none))
        ⊎ ((2 ≤ 2)
            × (line : LogLine) × (log_ip_ether_addr level (peer 1) header (codes "hi") ≡ some line)
            × Names (peer 1) header (codes "hi") line))
set_log_level-logs_example =
    set_log_level-logs (peer 1) header (codes "hi") globals 1 2 [] (omega arith) (omega arith)
      (mac-IsMac 7 (omega arith)) (mac-IsMac 3 (omega arith))
