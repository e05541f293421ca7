-- ===== src/Cli/Register.antt =====
-- wlan_br_server/cli.c: run_child, which sets a session of libcli up and serves it, and the thread
-- around it. MODE_CONFIG_INT is 10.
use wlan_bridge.Common.{
  ◌≡◌, refl, ◌≢◌, Bool, true, false, none, some, List, [], ◌∷◌, ◌++◌, arith, Ptr, null, count_if, ℤ,
}
use wlan_bridge.Cli.{codes}
use wlan_bridge.Libcli.{
  test, set, config_int_exit, show_epoll_stat, clean_epoll_stat, set_log_level, show_fdb_list,
  show_ip_stat, privileged, LibCall, cli_init, cli_set_banner, cli_set_hostname,
  cli_telnet_protocol, cli_regular, cli_regular_interval, cli_set_idle_timeout_callback,
  cli_register_command, cli_set_auth_callback, cli_set_enable_callback, cli_loop, cli_done,
  exec_command, registered,
}

-- Up to the command "show", that one included.
unfoldable pub session_start : List LibCall
session_start =
    cli_init
    ∷ cli_set_banner (codes "-------wlan bridge server environment-------")
    ∷ cli_set_hostname (codes "cli")
    ∷ cli_telnet_protocol 1
    ∷ cli_regular
    ∷ cli_regular_interval 5
    ∷ cli_set_idle_timeout_callback 1800
    ∷ exec_command null (codes "test") (some test) none
    ∷ exec_command null (codes "show") none none
    ∷ []

-- The commands below "show", and the command "set".
unfoldable pub show_commands : Ptr → List LibCall
show_commands show_c =
    exec_command show_c (codes "epoll_stat") (some show_epoll_stat)
      (some (codes "Show epoll statistics"))
    ∷ exec_command show_c (codes "fdb") (some show_fdb_list) (some (codes "Show fdb list"))
    ∷ exec_command show_c (codes "ip_stat") (some show_ip_stat) (some (codes "Show ip statistics"))
    ∷ exec_command show_c (codes "counters") (some test)
        (some (codes "Show the counters that the system uses"))
    ∷ exec_command null (codes "set") none none
    ∷ []

-- The rest of run_child.
unfoldable pub set_commands : Ptr → ℤ → List LibCall
set_commands set_cli x =
    exec_command set_cli (codes "epoll_stat_clean") (some clean_epoll_stat)
      (some (codes "clean epoll statistics"))
    ∷ exec_command set_cli (codes "log_level") (some set_log_level)
        (some (codes "set log level 1: info, 2: debug"))
    ∷ exec_command set_cli (codes "counters") (some set)
        (some (codes "set the counters that the system uses"))
    ∷ cli_register_command (record {
      parent = null;
      command = codes "exit";
      callback = some config_int_exit;
      privilege = privileged;
      mode = 10;
      help = some (codes "Exit from interface configuration");
    })
    ∷ cli_set_auth_callback
    ∷ cli_set_enable_callback
    ∷ cli_loop x
    ∷ cli_done
    ∷ []

-- `ret` is what cli_register_command returns, by all calls so far. The result is the calls made.
unfoldable pub run_child : (List LibCall → Ptr) → ℤ → List LibCall
unfolding session_start show_commands set_commands
run_child ret x =
    let show_c = ret session_start in
    let shown = session_start ++ show_commands show_c in shown ++ set_commands (ret shown) x

-- The pointers that "show" and "set" get.
abbrev pub show_ptr : (List LibCall → Ptr) → Ptr
show_ptr ret = ret session_start

abbrev pub set_ptr : (List LibCall → Ptr) → Ptr
set_ptr ret = ret (session_start ++ show_commands (show_ptr ret))

abbrev pub is_loop : LibCall → Bool
is_loop (cli_loop x) = true
is_loop _ = false

-- Where libcli gives "show" and "set" pointers that differ from each other and from NULL, a session
-- has the commands "test", "show", "set" and "exit" at the top, and below "show" and "set" those of
-- the tables, each with its callback. It is served once, on the given descriptor, after all of them
-- and both checks of passwords are in place, and then freed.
pub run_child_lem :
    (ret : List LibCall → Ptr) (x : ℤ)
    → show_ptr ret ≢ null
    → set_ptr ret ≢ null
    → show_ptr ret ≢ set_ptr ret
    → (registered null (run_child ret x)
        ≡ (codes "test", some test)
          ∷ (codes "show", none)
          ∷ (codes "set", none)
          ∷ (codes "exit", some config_int_exit)
          ∷ [])
      × (registered (show_ptr ret) (run_child ret x)
          ≡ (codes "epoll_stat", some show_epoll_stat)
            ∷ (codes "fdb", some show_fdb_list)
            ∷ (codes "ip_stat", some show_ip_stat)
            ∷ (codes "counters", some test)
            ∷ [])
      × (registered (set_ptr ret) (run_child ret x)
          ≡ (codes "epoll_stat_clean", some clean_epoll_stat)
            ∷ (codes "log_level", some set_log_level)
            ∷ (codes "counters", some set)
            ∷ [])
      × (before : List LibCall) × (run_child ret x
          ≡ before ++ cli_set_auth_callback ∷ cli_set_enable_callback ∷ cli_loop x ∷ cli_done ∷ [])
      × (count_if is_loop before ≡ 0)
unfolding run_child registered
run_child_lem ret x a b c = (ground arith, ground arith, ground arith, before, refl, refl)
  where
    before : List LibCall
    before =
        session_start
        ++ show_commands (show_ptr ret)
        ++ exec_command (set_ptr ret) (codes "epoll_stat_clean") (some clean_epoll_stat)
            (some (codes "clean epoll statistics"))
          ∷ exec_command (set_ptr ret) (codes "log_level") (some set_log_level)
              (some (codes "set log level 1: info, 2: debug"))
          ∷ exec_command (set_ptr ret) (codes "counters") (some set)
              (some (codes "set the counters that the system uses"))
          ∷ cli_register_command (record {
            parent = null;
            command = codes "exit";
            callback = some config_int_exit;
            privilege = privileged;
            mode = 10;
            help = some (codes "Exit from interface configuration");
          })
          ∷ []

-- What the thread of a session does; its name is left out.
pub data SessionStep : Type 0 where
  serves : List LibCall → SessionStep
  closes : ℤ → SessionStep

-- `connect_fd` is what the thread reads through its argument.
unfoldable pub cli_client_thread : (List LibCall → Ptr) → ℤ → List SessionStep
unfolding run_child
cli_client_thread ret connect_fd = serves (run_child ret connect_fd) ∷ closes connect_fd ∷ []
