-- ===== src/Client/Cli.antt =====
-- wlan_br_client/cli.c: the client's command line, a second copy of the commands of the server's
-- without those on its tables. Of the C library and libcli it uses what the server's does, which Cli
-- has.
pub mod Same
pub mod Register
use wlan_bridge.Common.{
  ℕ, ◌+◌, ◌%◌, Bool, true, false, not, List, [], ◌∷◌, map, u32_mod, ltb, ◌==◌, if◌then◌else◌,
  length,
}
use wlan_bridge.Main.{no_events}
use wlan_bridge.Cli.{
  Text, codes, Status, cli_ok, cli_error, cli_quit, Message, called_with, arguments, argument,
  specify_variable, specify_value, specify_interval, interval_is, setting, regular,
  custom_idle_timeout, epoll_stat, clean_success, input_log_level, log_level_is, CliCall, cli_print,
  cli_reprompt, set_mode_config, Globals, say, text_eq, text_case_eq, admin, is_digit, atoi,
}

unfoldable pub check_auth : Text → Text → Status
unfolding text_case_eq
check_auth username password =
    if not (text_case_eq username admin)
    then cli_error
    else if not (text_case_eq password admin)
    then cli_error
    else cli_ok

unfoldable pub check_enable : Text → Bool
unfolding text_case_eq
check_enable password = text_case_eq password admin

unfoldable pub regular_callback : Globals → Status × Globals
regular_callback g =
    let g' = record g { regular_count = (g.regular_count + 1) % u32_mod } in
    (
      cli_ok,
      (if g.debug_regular == 0
          then g'
          else say g' (cli_print (regular g'.regular_count) ∷ cli_reprompt ∷ [])),
    )

unfoldable pub idle_timeout : Globals → Status × Globals
idle_timeout g = (cli_quit, say g (cli_print custom_idle_timeout ∷ []))

unfoldable pub cmd_config_int_exit : Globals → Status × Globals
cmd_config_int_exit g = (cli_ok, say g (set_mode_config ∷ []))

unfoldable pub cmd_test : Globals → Text → List Text → Status × Globals
cmd_test g command argv = (
  cli_ok,
  say g (
      cli_print (called_with command)
      ∷ cli_print (arguments (length argv))
      ∷ map (λ a. cli_print (argument a)) argv),
)

unfoldable pub cmd_show_epoll_stat : Globals → Status × Globals
cmd_show_epoll_stat g =
    let e = g.epoll_stat_info in
    (cli_ok, say g (cli_print (epoll_stat e.epool_recv e.epoll_timeout e.epoll_error) ∷ []))

unfoldable pub cmd_clean_epoll_stat : Globals → Status × Globals
cmd_clean_epoll_stat g =
    (cli_ok, say (record g { epoll_stat_info = no_events }) (cli_print clean_success ∷ []))

unfoldable pub is_number : Text → Bool
unfolding is_digit
is_number [] = true
is_number (c ∷ s) = if not (is_digit c) then false else is_number s

-- The first line clears the statistics of epoll, as cmd_clean_epoll_stat does.
unfoldable pub cmd_set_log_level : Globals → List Text → Status × Globals
unfolding is_number atoi
cmd_set_log_level g [] =
    (cli_error, say (record g { epoll_stat_info = no_events }) (cli_print input_log_level ∷ []))
cmd_set_log_level g (a ∷ argv) =
    let g' = record g { epoll_stat_info = no_events } in
    if not (is_number a) then (cli_error, say g' (cli_print input_log_level ∷ [])) else (
      cli_ok,
      say (record g' { log_level = atoi 0 a }) (cli_print (log_level_is (atoi 0 a)) ∷ []),
    )

-- The branch of cmd_set for "regular_interval"; `scanned` is what sscanf with %u stored, 0 if nothing.
set_interval : Globals → ℕ → Status × Globals
set_interval g scanned =
    if ltb scanned 1 then (cli_ok, say g (cli_print specify_interval ∷ [])) else (
      cli_ok,
      say (record g { tv_sec = scanned; tv_usec = 0 }) (cli_print (interval_is scanned) ∷ []),
    )

-- `sscanf_u` is sscanf with the format %u into a variable that holds 0.
unfoldable pub cmd_set : (Text → ℕ) → Globals → List Text → Status × Globals
unfolding text_eq set_interval
cmd_set sscanf_u g [] = (cli_ok, say g (cli_print specify_variable ∷ []))
cmd_set sscanf_u g (a ∷ []) = (cli_ok, say g (cli_print specify_variable ∷ []))
cmd_set sscanf_u g (a ∷ b ∷ argv) =
    if text_eq a (codes "?")
    then (cli_ok, say g (cli_print specify_variable ∷ []))
    else if text_eq b (codes "?")
    then (cli_ok, say g (cli_print specify_value ∷ []))
    else if text_eq a (codes "regular_interval")
    then set_interval g (sscanf_u b)
    else (cli_ok, say g (cli_print (setting a b) ∷ []))
