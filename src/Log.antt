-- ===== src/Log.antt =====
-- The logging macros of wlan_br_server/common.h. Each prints a line or nothing; `message` is the
-- macro's own format, filled in. The name of the function and the line number are left out.
pub mod Levels
use wlan_bridge.Common.{ℕ, ◌≡◌, Bool, true, Option, none, some, List, [], ◌∷◌, leb, if◌then◌else◌}
use wlan_bridge.Net.{SockaddrIn}
use wlan_bridge.Ether.{Mac, Ethhdr}
use wlan_bridge.Ether.Text.{ether_addr_to_str}
use wlan_bridge.Cli.{Text}

pub data Tag : Type 0 where
  error debug info : Tag

-- A printed line: of LOG_ERR, LOG_DBG and LOG_INFO; of LOG_ETHER_ADDR; and of LOG_IP_ETHER_ADDR. An
-- address that was not written is a null %s.
pub data LogLine : Type 0 where
  plain : Tag → Text → LogLine
  ether : SockaddrIn → Option Text → Text → LogLine
  ip_ether : SockaddrIn → (src dst : Option Text) → (proto : ℕ) → Text → LogLine

-- enum log_level
abbrev log_level_info : ℕ
log_level_info = 1

abbrev pub log_level_debug : ℕ
log_level_debug = 2

unfoldable pub log_err : Text → Option LogLine
log_err message = some (plain error message)

unfoldable pub log_dbg : ℕ → Text → Option LogLine
log_dbg log_level message =
    if leb log_level_debug log_level then some (plain debug message) else none

unfoldable pub log_info : ℕ → Text → Option LogLine
log_info log_level message =
    if leb log_level_info log_level then some (plain info message) else none

unfoldable pub log_ether_addr : ℕ → SockaddrIn → Mac → Text → Option LogLine
log_ether_addr log_level peer_addr eth message =
    if leb log_level_debug log_level
    then some (ether peer_addr (ether_addr_to_str eth true 20) message)
    else none

unfoldable pub log_ip_ether_addr : ℕ → SockaddrIn → Ethhdr → Text → Option LogLine
log_ip_ether_addr log_level peer_addr eth message =
    if leb log_level_debug log_level
    then some (
        ip_ether peer_addr (ether_addr_to_str eth.h_source true 20)
          (ether_addr_to_str eth.h_dest true 20) eth.h_proto message)
    else none
