-- ===== src/Main/Relay/Run.antt =====
-- The loop server_runing_burst, turn by turn, sends only what came in.
use wlan_bridge.Common.{ℕ, ◌<◌, ◌≡◌, some, List}
use wlan_bridge.Udp.{Call}
use wlan_bridge.Forward.{Env}
use wlan_bridge.Main.{Server, Round, server_runing_burst}
use wlan_bridge.Main.Drain.{Draining, Healthy, unread}
use wlan_bridge.Main.Run.{run-total}
use wlan_bridge.Main.Steps.{Steps, bridge-Steps, run_keeps}
use wlan_bridge.Main.Relay.{Relayed, begin, Honest, read-Honest, pass_on-Honest}

-- Each read sends only what came in.
pub honest :
    {T L S : Type 0} (env : Env T L S) (start : List Call)
    → Steps env (λ m. Honest env start m.bridge)
honest env start =
    bridge-Steps env (Honest env start) (λ m p h. read-Honest env start m h)
      (pass_on-Honest env start)

module _ {T L S : Type 0} (env : Env T L S) (left : List Call → ℕ)
    (k : Draining env.kernel left) where
  -- With a well-formed list and more fuel than the kernel's queue holds bursts, the server's loop
  -- comes to an end over any rounds, whatever callocs fail and whatever the calls return; and
  -- each frame that it sends on the way, at once or in a burst, is one that an earlier read of the
  -- socket found, byte for byte as far as a buffer holds it, and goes to another peer than the one
  -- that it came from.
  pub run-relays :
      (fuel : ℕ) (m : Server T L S) (rounds : List Round)
      → Healthy env left m
      → unread env left m < fuel
      → (m' : Server T L S) × (server_runing_burst env fuel m rounds ≡ some m')
        × Relayed env.kernel m.bridge.udp.log m'.bridge.udp.log
  run-relays fuel m rounds v lt =
      let t = run-total env left k fuel m rounds v lt in
      (
        t.0,
        t.1,
        run_keeps env (λ c. Honest env m.bridge.udp.log c.bridge) (honest env m.bridge.udp.log) fuel
            m t.0 rounds t.1 begin,
      )
