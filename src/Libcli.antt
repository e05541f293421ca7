-- ===== src/Libcli.antt =====
-- What the two command lines ask of the vendored libcli when they set a session up. The library is a
-- parameter: the pointer that cli_register_command returns is a function of the calls so far. All
-- calls of a session are on the `struct cli_def` that its cli_init returned.
use wlan_bridge.Common.{ℕ, Option, List, [], ◌∷◌, Ptr, ◌==◌, if◌then◌else◌, ℤ}
use wlan_bridge.Cli.{Text}

-- The callbacks of commands.
pub data Handler : Type 0 where
  test set config_int_exit show_epoll_stat clean_epoll_stat set_log_level : Handler
  show_fdb_list show_ip_stat : Handler

-- PRIVILEGE_UNPRIVILEGED and PRIVILEGE_PRIVILEGED
pub data Privilege : Type 0 where
  unprivileged privileged : Privilege

-- The arguments of cli_register_command; where C passes NULL there is no callback, or no help.
pub record Registration : Type 0 where
  pub parent : Ptr
  pub command : Text
  pub callback : Option Handler
  pub privilege : Privilege
  pub mode : ℕ
  pub help : Option Text

-- The callbacks of the other calls are regular_callback, idle_timeout, check_auth and check_enable.
pub data LibCall : Type 0 where
  cli_init : LibCall
  cli_set_banner : Text → LibCall
  cli_set_hostname : Text → LibCall
  cli_telnet_protocol : ℕ → LibCall
  cli_regular : LibCall
  cli_regular_interval : ℕ → LibCall
  cli_set_idle_timeout_callback : ℕ → LibCall
  cli_register_command : Registration → LibCall
  cli_set_auth_callback : LibCall
  cli_set_enable_callback : LibCall
  cli_loop : ℤ → LibCall
  cli_done : LibCall

-- MODE_EXEC of libcli.h
abbrev pub mode_exec : ℕ
mode_exec = 0

-- A command for everybody, in the mode of a session's start.
abbrev pub exec_command : Ptr → Text → Option Handler → Option Text → LibCall
exec_command parent command callback help = cli_register_command (record {
  parent = parent;
  command = command;
  callback = callback;
  privilege = unprivileged;
  mode = mode_exec;
  help = help;
})

-- The commands that some calls register below a command, or at the top where `p` is NULL, in order.
unfoldable pub registered : Ptr → List LibCall → List (Text × Option Handler)
registered p [] = []
registered p (cli_register_command r ∷ rest) =
    if p == r.parent then (r.command, r.callback) ∷ registered p rest else registered p rest
registered p (_ ∷ rest) = registered p rest
