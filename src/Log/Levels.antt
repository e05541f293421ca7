-- ===== src/Log/Levels.antt =====
-- Which lines the server prints at the level that its command line sets, and what they say.
use wlan_bridge.Common.{
  ℕ, ◌^◌, ◌≤◌, ◌<◌, ◌≡◌, refl, ◌↔◌, ◌⊎◌, inl, inr, none, some, List, ◌∷◌, arith, leb, Bool-cases,
}
use wlan_bridge.Net.{SockaddrIn}
use wlan_bridge.Ether.{IsMac, Ethhdr}
use wlan_bridge.Ether.Text.{read, read-to_str}
use wlan_bridge.Cli.{Text, Globals, cmd_set_log_level}
use wlan_bridge.Cli.Laws.{decimal, set_log_level-decimal}
use wlan_bridge.Log.{
  LogLine, plain, ip_ether, debug, info, log_dbg, log_info, log_ip_ether_addr, log_level_debug,
}

-- The line of LOG_IP_ETHER_ADDR names the peer and the frame's two addresses, which can be read back.
abbrev pub Names : SockaddrIn → Ethhdr → Text → LogLine → Type 0
Names peer hdr message line =
    (src dst : Text) × (line ≡ ip_ether peer (some src) (some dst) hdr.h_proto message)
    × (read src ≡ hdr.h_source)
    × (read dst ≡ hdr.h_dest)

module _ (peer : SockaddrIn) (hdr : Ethhdr) (message : Text) where
  ip_ether_line :
      (level : ℕ)
      → IsMac hdr.h_source
      → IsMac hdr.h_dest
      → ((level < 2) × (log_ip_ether_addr level peer hdr message ≡ none))
        ⊎ ((2 ≤ level)
            × (line : LogLine) × (log_ip_ether_addr level peer hdr message ≡ some line)
            × Names peer hdr message line)
  unfolding log_ip_ether_addr
  ip_ether_line level vs vd =
      let (s, es, ls, rs) = read-to_str hdr.h_source 20 vs (omega arith) in
      let (d, ed, ld, rd) = read-to_str hdr.h_dest 20 vd (omega arith) in
      elim (Bool-cases (leb log_level_debug level)) [
        | inl e ↦ inr (
          ground arith,
          ip_ether peer (some s) (some d) hdr.h_proto message,
          rw (e, es, ed) refl,
          (s, d, refl, rs, rd),
        )
        | inr e ↦ inl (ground arith, rw e refl)
      ]

  -- After `set log_level n`, for a level n that an int holds written in decimal, the server prints
  -- debug lines from 2 on and info lines from 1 on; the line on a received frame, whose addresses
  -- are of six octets, is printed from 2 on too, and both addresses can be read back from it.
  pub set_log_level-logs :
      (g : Globals) (k n : ℕ) (argv : List Text)
      → n < 10 ^ k
      → n < 2 ^ 31
      → IsMac hdr.h_source
      → IsMac hdr.h_dest
      → let level = (cmd_set_log_level g (decimal k n ∷ argv)).1.log_level in
        ((log_dbg level message ≡ some (plain debug message)) ↔ (2 ≤ n))
        × ((log_info level message ≡ some (plain info message)) ↔ (1 ≤ n))
        × (((n < 2) × (log_ip_ether_addr level peer hdr message ≡ none))
            ⊎ ((2 ≤ n)
                × (line : LogLine) × (log_ip_ether_addr level peer hdr message ≡ some line)
                × Names peer hdr message line))
  unfolding log_dbg log_info
  set_log_level-logs g k n argv h l vs vd = rw (set_log_level-decimal g k n argv h l).1 (
    (λ e. ground arith, λ e. ground arith),
    (λ e. ground arith, λ e. ground arith),
    ip_ether_line n vs vd,
  )
