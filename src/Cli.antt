-- ===== src/Cli.antt =====
-- wlan_br_server/cli.c: the commands of the command line. What they ask of the vendored libcli is
-- listed in `calls`; a printed line is the record of what it prints. Strings are lists of character
-- codes without the final NUL.
pub mod Clean
pub mod Laws
pub mod Register
pub mod Listen
pub mod Threads
use wlan_bridge.Common.{
  ℕ, ◌+◌, ◌-◌, ◌*◌, ◌%◌, Bool, true, false, not, ◌&&◌, List, [], ◌∷◌, ◌++◌, map, u32_mod, ltb, leb,
  ◌==◌, if◌then◌else◌, length,
}
use Prim.Native.String.{String}
use Prim.Native.Char.{code}
use wlan_bridge.Main.{EpollStatInfo, no_events}
use wlan_bridge.Statistics.Show.{Line}
use wlan_bridge.Forward.Dump.{FdbLine}

abbrev pub Text : Type 0
Text = List ℕ

abbrev pub codes : String → Text
codes String.[] = []
codes (String.◌∷◌ c s) = code c ∷ codes s

-- CLI_OK, CLI_ERROR and CLI_QUIT of libcli.h
pub data Status : Type 0 where
  cli_ok cli_error cli_quit : Status

-- The lines that the commands print.
pub data Message : Type 0 where
  called_with : Text → Message
  arguments : ℕ → Message
  argument : Text → Message
  specify_variable specify_value specify_interval : Message
  interval_is : ℕ → Message
  setting : Text → Text → Message
  regular : ℕ → Message
  custom_idle_timeout : Message
  epoll_stat : (recv timeout error : ℕ) → Message
  clean_success : Message
  input_log_level : Message
  log_level_is : ℕ → Message
  fdb_line : FdbLine → Message
  ip_stat_line : Line → Message

-- A call of libcli; MODE_CONFIG is the one mode that a command sets.
pub data CliCall : Type 0 where
  cli_print : Message → CliCall
  cli_reprompt : CliCall
  set_mode_config : CliCall

-- The globals that the commands use, and the timer of their `struct cli_def`.
pub record Globals : Type 0 where
  pub regular_count : ℕ
  pub debug_regular : ℕ
  pub epoll_stat_info : EpollStatInfo
  pub log_level : ℕ
  pub tv_sec : ℕ
  pub tv_usec : ℕ
  pub calls : List CliCall

abbrev pub say : Globals → List CliCall → Globals
say g cs = record g { calls = g.calls ++ cs }

-- strcmp(a, b) == 0
unfoldable pub text_eq : Text → Text → Bool
text_eq [] [] = true
text_eq [] (d ∷ b) = false
text_eq (c ∷ a) [] = false
text_eq (c ∷ a) (d ∷ b) = c == d && text_eq a b

-- tolower of a code
unfoldable pub lower : ℕ → ℕ
lower c = if leb b'A' c && leb c b'Z' then c + 32 else c

-- strcasecmp(a, b) == 0
unfoldable pub text_case_eq : Text → Text → Bool
unfolding text_eq lower
text_case_eq a b = text_eq (map lower a) (map lower b)

abbrev pub admin : Text
admin = codes "admin"

unfoldable pub check_auth : Text → Text → Status
unfolding text_case_eq
check_auth username password =
    if not (text_case_eq username admin)
    then cli_error
    else if not (text_case_eq password admin)
    then cli_error
    else cli_ok

unfoldable pub check_enable : Text → Bool
unfolding text_case_eq
check_enable password = text_case_eq password admin

unfoldable pub regular_callback : Globals → Status × Globals
regular_callback g =
    let g' = record g { regular_count = (g.regular_count + 1) % u32_mod } in
    (
      cli_ok,
      (if g.debug_regular == 0
          then g'
          else say g' (cli_print (regular g'.regular_count) ∷ cli_reprompt ∷ [])),
    )

unfoldable pub idle_timeout : Globals → Status × Globals
idle_timeout g = (cli_quit, say g (cli_print custom_idle_timeout ∷ []))

unfoldable pub cmd_config_int_exit : Globals → Status × Globals
cmd_config_int_exit g = (cli_ok, say g (set_mode_config ∷ []))

unfoldable pub cmd_test : Globals → Text → List Text → Status × Globals
cmd_test g command argv = (
  cli_ok,
  say g (
      cli_print (called_with command)
      ∷ cli_print (arguments (length argv))
      ∷ map (λ a. cli_print (argument a)) argv),
)

unfoldable pub cmd_show_epoll_stat : Globals → Status × Globals
cmd_show_epoll_stat g =
    let e = g.epoll_stat_info in
    (cli_ok, say g (cli_print (epoll_stat e.epool_recv e.epoll_timeout e.epoll_error) ∷ []))

unfoldable pub cmd_clean_epoll_stat : Globals → Status × Globals
cmd_clean_epoll_stat g =
    (cli_ok, say (record g { epoll_stat_info = no_events }) (cli_print clean_success ∷ []))

-- isdigit
unfoldable pub is_digit : ℕ → Bool
is_digit c = leb b'0' c && leb c b'9'

unfoldable pub is_number : Text → Bool
unfolding is_digit
is_number [] = true
is_number (c ∷ s) = if not (is_digit c) then false else is_number s

-- atoi of a text of digits, while the value fits an int.
unfoldable pub atoi : ℕ → Text → ℕ
atoi acc [] = acc
atoi acc (c ∷ s) = atoi (acc * 10 + (c - b'0')) s

-- The first line clears the statistics of epoll, as cmd_clean_epoll_stat does.
unfoldable pub cmd_set_log_level : Globals → List Text → Status × Globals
unfolding is_number atoi
cmd_set_log_level g [] =
    (cli_error, say (record g { epoll_stat_info = no_events }) (cli_print input_log_level ∷ []))
cmd_set_log_level g (a ∷ argv) =
    let g' = record g { epoll_stat_info = no_events } in
    if not (is_number a) then (cli_error, say g' (cli_print input_log_level ∷ [])) else (
      cli_ok,
      say (record g' { log_level = atoi 0 a }) (cli_print (log_level_is (atoi 0 a)) ∷ []),
    )

-- The branch of cmd_set for "regular_interval"; `scanned` is what sscanf with %u stored, 0 if nothing.
set_interval : Globals → ℕ → Status × Globals
set_interval g scanned =
    if ltb scanned 1 then (cli_ok, say g (cli_print specify_interval ∷ [])) else (
      cli_ok,
      say (record g { tv_sec = scanned; tv_usec = 0 }) (cli_print (interval_is scanned) ∷ []),
    )

-- `sscanf_u` is sscanf with the format %u into a variable that holds 0.
unfoldable pub cmd_set : (Text → ℕ) → Globals → List Text → Status × Globals
unfolding text_eq set_interval
cmd_set sscanf_u g [] = (cli_ok, say g (cli_print specify_variable ∷ []))
cmd_set sscanf_u g (a ∷ []) = (cli_ok, say g (cli_print specify_variable ∷ []))
cmd_set sscanf_u g (a ∷ b ∷ argv) =
    if text_eq a (codes "?")
    then (cli_ok, say g (cli_print specify_variable ∷ []))
    else if text_eq b (codes "?")
    then (cli_ok, say g (cli_print specify_value ∷ []))
    else if text_eq a (codes "regular_interval")
    then set_interval g (sscanf_u b)
    else (cli_ok, say g (cli_print (setting a b) ∷ []))

-- wlan_br_dump_fdb and wlan_ip_dump_static hand their lines to cli_print_fn.
unfoldable cmd_show_fdb_list : Globals → List FdbLine → Status × Globals
cmd_show_fdb_list g lines = (cli_ok, say g (map (λ l. cli_print (fdb_line l)) lines))

unfoldable cmd_show_ip_stat : Globals → List Line → Status × Globals
cmd_show_ip_stat g lines = (cli_ok, say g (map (λ l. cli_print (ip_stat_line l)) lines))
