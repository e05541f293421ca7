-- ===== src/Client/Log.antt =====
-- The logging macros of wlan_br_client/common.h, and its copy of ether_addr_to_str. LOG_DBG and
-- LOG_INFO of the client do not look at log_level.
use wlan_bridge.Common.{
  ℕ, ◌-◌, Bool, true, not, ◌||◌, Option, none, some, ltb, leb, if◌then◌else◌, take,
}
use wlan_bridge.Ether.{Mac, Ethhdr}
use wlan_bridge.Ether.Text.{text}
use wlan_bridge.Cli.{Text}
use wlan_bridge.Log.{Tag, error, debug, info, log_level_debug}

-- A printed line: of LOG_ERR, LOG_DBG and LOG_INFO; and of LOG_ETHER_ADDR.
pub data ClientLine : Type 0 where
  plain : Tag → Text → ClientLine
  frame_ether : (src dst : Option Text) → (proto : ℕ) → Text → ClientLine

unfoldable pub ether_addr_to_str : Mac → (has_buf : Bool) → (len : ℕ) → Option Text
unfolding text
ether_addr_to_str addr has_buf len =
    if not has_buf || ltb len 17 then none else some (take (len - 1) (text addr))

unfoldable pub log_err : Text → Option ClientLine
log_err message = some (plain error message)

unfoldable pub log_dbg : Text → Option ClientLine
log_dbg message = some (plain debug message)

unfoldable pub log_info : Text → Option ClientLine
log_info message = some (plain info message)

unfoldable pub log_ether_addr : ℕ → Ethhdr → Text → Option ClientLine
unfolding ether_addr_to_str
log_ether_addr log_level eth message =
    if leb log_level_debug log_level
    then some (
        frame_ether (ether_addr_to_str eth.h_source true 20) (ether_addr_to_str eth.h_dest true 20)
          eth.h_proto message)
    else none
