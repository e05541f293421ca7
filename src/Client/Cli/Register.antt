-- ===== src/Client/Cli/Register.antt =====
-- wlan_br_client/cli.c: run_child and the threads of the client's command line. The calls before the
-- command "show" and those behind the command "set" are the text of the server's, as are
-- cli_create_client_thread, cli_main and cli_main_thread but for the port.
use wlan_bridge.Common.{ℕ, ◌≡◌, ◌≢◌, Option, none, some, List, [], ◌∷◌, ◌++◌, arith, Ptr, null, ℤ}
use wlan_bridge.Cli.{codes}
use wlan_bridge.Cli.Register.{session_start, set_commands, SessionStep, serves, closes}
use wlan_bridge.Cli.Listen.{Listener, ListenCall, listen_on}
use wlan_bridge.Cli.Listen
use wlan_bridge.Libcli.{
  test, set, config_int_exit, show_epoll_stat, clean_epoll_stat, set_log_level, LibCall,
  exec_command, registered,
}

-- The commands below "show", and the command "set".
unfoldable pub show_commands : Ptr → List LibCall
show_commands show_c =
    exec_command show_c (codes "epoll_stat") (some show_epoll_stat)
      (some (codes "Show epoll statistics"))
    ∷ exec_command show_c (codes "counters") (some test)
        (some (codes "Show the counters that the system uses"))
    ∷ exec_command null (codes "set") none none
    ∷ []

unfoldable pub run_child : (List LibCall → Ptr) → ℤ → List LibCall
unfolding session_start show_commands set_commands
run_child ret x =
    let show_c = ret session_start in
    let shown = session_start ++ show_commands show_c in shown ++ set_commands (ret shown) x

unfoldable pub cli_client_thread : (List LibCall → Ptr) → ℤ → List SessionStep
unfolding run_child
cli_client_thread ret connect_fd = serves (run_child ret connect_fd) ∷ closes connect_fd ∷ []

unfoldable pub cli_create_client_thread : (List ListenCall → ℤ) → Listener → ℤ → Listener
unfolding Listen.cli_create_client_thread
cli_create_client_thread = Listen.cli_create_client_thread

unfoldable pub cli_main_thread : (List ListenCall → ℤ) → ℕ → Listener → Option Listener
unfolding listen_on
cli_main_thread ret = listen_on ret 8001

unfoldable pub cli_main : Listener → Listener
unfolding Listen.cli_main
cli_main = Listen.cli_main

-- The pointers that "show" and "set" get.
abbrev pub show_ptr : (List LibCall → Ptr) → Ptr
show_ptr ret = ret session_start

abbrev pub set_ptr : (List LibCall → Ptr) → Ptr
set_ptr ret = ret (session_start ++ show_commands (show_ptr ret))

-- Where libcli gives "show" and "set" pointers that differ from each other and from NULL, a session
-- of the client has the server's commands but for "show fdb" and "show ip_stat".
client_run_child_lem :
    (ret : List LibCall → Ptr) (x : ℤ)
    → show_ptr ret ≢ null
    → set_ptr ret ≢ null
    → show_ptr ret ≢ set_ptr ret
    → (registered null (run_child ret x)
        ≡ (codes "test", some test)
          ∷ (codes "show", none)
          ∷ (codes "set", none)
          ∷ (codes "exit", some config_int_exit)
          ∷ [])
      × (registered (show_ptr ret) (run_child ret x)
          ≡ (codes "epoll_stat", some show_epoll_stat) ∷ (codes "counters", some test) ∷ [])
      × (registered (set_ptr ret) (run_child ret x)
          ≡ (codes "epoll_stat_clean", some clean_epoll_stat)
            ∷ (codes "log_level", some set_log_level)
            ∷ (codes "counters", some set)
            ∷ [])
unfolding run_child registered
client_run_child_lem ret x a b c = (ground arith, ground arith, ground arith)
