-- ===== src/Client/Cli/Same.antt =====
-- The two copies of the command line do the same.
use wlan_bridge.Common.{ℕ, ◌≡◌, refl, ap, Option, none, some, List, [], ◌∷◌, arith}
use wlan_bridge.Cli
use wlan_bridge.Cli.{Text, Status, Globals, is_digit}
use wlan_bridge.Client.Cli as ClientCli
use wlan_bridge.Libcli.{
  Handler, test, set, config_int_exit, show_epoll_stat, clean_epoll_stat, set_log_level,
  show_fdb_list, show_ip_stat,
}

-- What a command of the server does; those on its tables are left out.
abbrev pub server_runs :
    (Text → ℕ) → Handler → Globals → Text → List Text → Option (Status × Globals)
server_runs sscanf_u test g command argv = some (Cli.cmd_test g command argv)
server_runs sscanf_u set g command argv = some (Cli.cmd_set sscanf_u g argv)
server_runs sscanf_u config_int_exit g command argv = some (Cli.cmd_config_int_exit g)
server_runs sscanf_u show_epoll_stat g command argv = some (Cli.cmd_show_epoll_stat g)
server_runs sscanf_u clean_epoll_stat g command argv = some (Cli.cmd_clean_epoll_stat g)
server_runs sscanf_u set_log_level g command argv = some (Cli.cmd_set_log_level g argv)
server_runs sscanf_u show_fdb_list g command argv = none
server_runs sscanf_u show_ip_stat g command argv = none

-- What a command of the client does.
abbrev pub client_runs :
    (Text → ℕ) → Handler → Globals → Text → List Text → Option (Status × Globals)
client_runs sscanf_u test g command argv = some (ClientCli.cmd_test g command argv)
client_runs sscanf_u set g command argv = some (ClientCli.cmd_set sscanf_u g argv)
client_runs sscanf_u config_int_exit g command argv = some (ClientCli.cmd_config_int_exit g)
client_runs sscanf_u show_epoll_stat g command argv = some (ClientCli.cmd_show_epoll_stat g)
client_runs sscanf_u clean_epoll_stat g command argv = some (ClientCli.cmd_clean_epoll_stat g)
client_runs sscanf_u set_log_level g command argv = some (ClientCli.cmd_set_log_level g argv)
client_runs sscanf_u show_fdb_list g command argv = none
client_runs sscanf_u show_ip_stat g command argv = none

is_number_same : (s : Text) → ClientCli.is_number s ≡ Cli.is_number s
unfolding ClientCli.is_number Cli.is_number
is_number_same [] = refl
is_number_same (c ∷ s) = ground (arith, is_number_same s)

log_level_same :
    (g : Globals) (argv : List Text)
    → ClientCli.cmd_set_log_level g argv ≡ Cli.cmd_set_log_level g argv
unfolding ClientCli.cmd_set_log_level Cli.cmd_set_log_level
log_level_same g [] = refl
log_level_same g (a ∷ argv) = ground (arith, is_number_same a)

set_same :
    (sscanf_u : Text → ℕ) (g : Globals) (argv : List Text)
    → ClientCli.cmd_set sscanf_u g argv ≡ Cli.cmd_set sscanf_u g argv
unfolding ClientCli.cmd_set Cli.cmd_set
set_same sscanf_u g [] = refl
set_same sscanf_u g (a ∷ []) = refl
set_same sscanf_u g (a ∷ b ∷ argv) = refl

runs_same :
    (sscanf_u : Text → ℕ) (h : Handler) (g : Globals) (command : Text) (argv : List Text)
    → client_runs sscanf_u h g command argv ≡ server_runs sscanf_u h g command argv
unfolding ClientCli.cmd_test Cli.cmd_test ClientCli.cmd_config_int_exit Cli.cmd_config_int_exit
    ClientCli.cmd_show_epoll_stat Cli.cmd_show_epoll_stat ClientCli.cmd_clean_epoll_stat
    Cli.cmd_clean_epoll_stat
runs_same sscanf_u test g command argv = refl
runs_same sscanf_u set g command argv = ap some (set_same sscanf_u g argv)
runs_same sscanf_u config_int_exit g command argv = refl
runs_same sscanf_u show_epoll_stat g command argv = refl
runs_same sscanf_u clean_epoll_stat g command argv = refl
runs_same sscanf_u set_log_level g command argv = ap some (log_level_same g argv)
runs_same sscanf_u show_fdb_list g command argv = refl
runs_same sscanf_u show_ip_stat g command argv = refl

-- The client's copy of the command line does what the server's does: each command that both have, on
-- all arguments, both checks of passwords, and the two timers' callbacks.
pub same_commands :
    (sscanf_u : Text → ℕ) (g : Globals) (username password : Text)
    → ((h : Handler) (command : Text) (argv : List Text)
        → client_runs sscanf_u h g command argv ≡ server_runs sscanf_u h g command argv)
      × (ClientCli.check_auth username password ≡ Cli.check_auth username password)
      × (ClientCli.check_enable password ≡ Cli.check_enable password)
      × (ClientCli.regular_callback g ≡ Cli.regular_callback g)
      × (ClientCli.idle_timeout g ≡ Cli.idle_timeout g)
unfolding ClientCli.check_auth Cli.check_auth ClientCli.check_enable Cli.check_enable
    ClientCli.regular_callback Cli.regular_callback ClientCli.idle_timeout Cli.idle_timeout
same_commands sscanf_u g username password =
    ((λ h command argv. runs_same sscanf_u h g command argv), refl, refl, refl, refl)
