-- ===== src/Tests/Client.antt =====
-- The theorems on the client from start to end, and on its bursts.
use wlan_bridge.Common.{
  ℕ, ◌<◌, ◌≡◌, refl, ◌↔◌, ◌⊎◌, true, false, none, some, List, [], ◌∷◌, arith, length, pos, negsuc,
}
use wlan_bridge.Main.{Round}
use wlan_bridge.Cli.{codes, Text}
use wlan_bridge.Cli.Listen.{unopened}
use wlan_bridge.Client.{Kernel}
use wlan_bridge.Client.Tuntap.{create_tuntap}
use wlan_bridge.Client.Udp.{create_udp_client}
use wlan_bridge.Client.Tuntap.Setup.{held}
use wlan_bridge.Client.Tuntap.Bursts.{
  send_data_use_tuntap_burst, read_data_from_tuntap_burst, total, send_burst-fails,
  read_burst-overruns,
}
use wlan_bridge.Client.Start.{
  Opt, server, tap, other, overruns, names, Program, System, main, options_of,
}
use wlan_bridge.Client.Start.Limits.{fits, options_bounds}
use wlan_bridge.Client.Start.Closing.{main-closes}
use wlan_bridge.Tests.Setup.{frame}
use wlan_bridge.Tests.Kernel.{kernel, numbering, client}

abbrev options : List Opt
options = tap (codes "tap") ∷ server (codes "10.0.0.1") ∷ other ∷ []

options_bounds_example :
    ((options_of options ≡ overruns) ↔ (fits options ≡ false))
    × ((server_addr tap_name : Text)
        → options_of options ≡ names server_addr tap_name
        → (0 < length server_addr)
          × (length server_addr < 20)
          × (0 < length tap_name)
          × (length tap_name < 16))
options_bounds_example = options_bounds options

abbrev system : System
system = record { inet_addr = λ s. 10; rand = λ n. n; epfd = pos 4 }

abbrev program : Program
program = record { client = client; listener = unopened; epfd = negsuc 0; calls = [] }

-- A frame of the device, and the signal.
abbrev rounds : List Round
rounds =
    record { signalled = false; nfds = pos 1; evs = record { events = 1; fd = pos 5 } ∷ [] }
    ∷ record { signalled = true; nfds = pos 0; evs = [] }
    ∷ []

-- The program when main has returned.
finished : Program
finished = elim (main numbering system options program rounds) [
  | none ↦ program
  | some (status, p) ↦ p
]

returns_zero : main numbering system options program rounds ≡ some (pos 0, finished)
unfolding finished main create_tuntap create_udp_client
returns_zero = refl

main-closes_example : held numbering finished.client.log ≡ []
unfolding held
main-closes_example = main-closes numbering system options program finished rounds returns_zero

-- Two frames of 60 bytes, written whole.
abbrev two : List (ℕ × List ℕ)
two = (60, frame 1 2) ∷ (60, frame 2 1) ∷ []

abbrev whole : Kernel
whole = record kernel { ret = λ log. pos 120 }

send_burst-fails_example : (send_data_use_tuntap_burst whole client two).0 ≡ negsuc 0
unfolding total
send_burst-fails_example =
    send_burst-fails whole client two (omega arith) (omega arith, (omega arith, tt)) refl

-- A frame of 14 bytes, read into two buffers of 1518.
read_burst-overruns_example :
    (read_data_from_tuntap_burst kernel client 1518 (0 ∷ 0 ∷ []) ([] ∷ [] ∷ []) ≡ none)
    ↔ ((2 < length (frame 1 2)) ⊎ (2 < length (frame 1 2)))
read_burst-overruns_example =
    read_burst-overruns kernel client 1518 (0 ∷ 0 ∷ []) ([] ∷ [] ∷ []) (frame 1 2) refl
      (omega arith)
