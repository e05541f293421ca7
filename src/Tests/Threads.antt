-- ===== src/Tests/Threads.antt =====
-- The theorems on the two command lines.
use wlan_bridge.Common.{
  ◌≡◌, refl, true, false, none, some, List, [], ◌∷◌, ◌++◌, map, arith, Ptr, ◌==◌, if◌then◌else◌,
  length, count_if, ℤ, pos, negsuc,
}
use wlan_bridge.Cli
use wlan_bridge.Cli.Clean.{loads, stores, clears, cleared, accesses, access, store}
use wlan_bridge.Cli.{codes, cmd_test, Text}
use wlan_bridge.Cli.Register.{run_child, run_child_lem, show_ptr, set_ptr, is_loop}
use wlan_bridge.Cli.Listen.{
  ListenCall, Listener, listen_on, listen_on_lem, unopened, tried, served, created_for, last, next,
}
use wlan_bridge.Cli.Threads.{
  Threads, Reach, accepting, accepts, creates, returns, starts, act, served_twice,
}
use wlan_bridge.Cli.Threads.Prompt.{PromptReach, start, later, prompt_reads}
use wlan_bridge.Client.Cli as ClientCli
use wlan_bridge.Client.Cli.Same.{client_runs, server_runs, same_commands}
use wlan_bridge.Libcli.{
  LibCall, Handler, test, set, config_int_exit, show_epoll_stat, show_fdb_list, show_ip_stat,
  clean_epoll_stat, set_log_level, cli_set_auth_callback, cli_set_enable_callback, cli_loop,
  cli_done, registered,
}
use wlan_bridge.Tests.Text.{globals}

-- One connection, whose thread reads its argument in time.
abbrev one_session : Threads
one_session = record {
  main = accepting;
  frame = none;
  waiting = 0;
  reads = some (pos 5) ∷ [];
  accepted = pos 5 ∷ [];
}

reached : PromptReach one_session
unfolding act
reached =
    later
      (later (later (later start (accepts (pos 5)) tt refl) (creates true) tt refl) starts tt refl)
      returns refl refl

prompt_reads_example : one_session.reads ≡ map some one_session.accepted
prompt_reads_example = prompt_reads reached refl

served_twice_example :
    (s : Threads) × Reach s
    × (s.accepted ≡ pos 5 ∷ pos 6 ∷ [])
    × (s.reads ≡ some (pos 6) ∷ some (pos 6) ∷ [])
    × (s.waiting ≡ 0)
served_twice_example = served_twice 4 5

-- A kernel whose socket is 3, and on which descriptors 5 and 6 connect; the second pthread_create
-- fails.
answers : List ListenCall → ℤ
answers log =
    if length log == 1
    then pos 3
    else if length log == 5
    then pos 5
    else if length log == 8
    then pos 6
    else if length log == 9
    then pos 11
    else if length log == 10
    then negsuc 0
    else pos 0

listen_on_lem_example :
    (s : Listener) × (listen_on answers 8000 3 unopened ≡ some s)
    × (tried s.log ≡ pos 5 ∷ pos 6 ∷ [])
    × (served s.log ≡ pos 5 ∷ [])
unfolding answers created_for
listen_on_lem_example =
    listen_on_lem answers 8000 (pos 3) 3 ((pos 5, true) ∷ (pos 6, false) ∷ []) refl refl refl refl
      (next refl refl refl (next refl refl refl (last refl))) (omega arith)

-- The pointers of the n-th call are n.
abbrev pointers : List LibCall → Ptr
pointers = length

run_child_lem_example :
    (registered 0 (run_child pointers (pos 5))
      ≡ (codes "test", some test)
        ∷ (codes "show", none)
        ∷ (codes "set", none)
        ∷ (codes "exit", some config_int_exit)
        ∷ [])
    × (registered 9 (run_child pointers (pos 5))
        ≡ (codes "epoll_stat", some show_epoll_stat)
          ∷ (codes "fdb", some show_fdb_list)
          ∷ (codes "ip_stat", some show_ip_stat)
          ∷ (codes "counters", some test)
          ∷ [])
    × (registered 14 (run_child pointers (pos 5))
        ≡ (codes "epoll_stat_clean", some clean_epoll_stat)
          ∷ (codes "log_level", some set_log_level)
          ∷ (codes "counters", some set)
          ∷ [])
    × (before : List LibCall) × (run_child pointers (pos 5)
        ≡ before
          ++ cli_set_auth_callback ∷ cli_set_enable_callback ∷ cli_loop (pos 5) ∷ cli_done ∷ [])
    × (count_if is_loop before ≡ 0)
unfolding Cli.Register.session_start Cli.Register.show_commands
run_child_lem_example = run_child_lem pointers (pos 5) (λ h. cc) (λ h. cc) (λ h. cc)

same_commands_example :
    ((h : Handler) (command : Text) (argv : List Text)
      → client_runs length h globals command argv ≡ server_runs length h globals command argv)
    × (ClientCli.check_auth (codes "admin") (codes "Admin")
        ≡ Cli.check_auth (codes "admin") (codes "Admin"))
    × (ClientCli.check_enable (codes "Admin") ≡ Cli.check_enable (codes "Admin"))
    × (ClientCli.regular_callback globals ≡ Cli.regular_callback globals)
    × (ClientCli.idle_timeout globals ≡ Cli.idle_timeout globals)
same_commands_example = same_commands length globals (codes "admin") (codes "Admin")

-- A clearing while the loop increments the counter from 1 to 2.
overtaken :
    accesses cleared (loads ∷ stores 1 ∷ loads ∷ clears ∷ stores 1 ∷ [])
    ≡ some (record { value = 2; register = none })
unfolding accesses access store
overtaken = refl
