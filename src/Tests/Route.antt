-- ===== src/Tests/Route.antt =====
-- The theorems on the bridge, at the bridge of three hosts.
use wlan_bridge.Common.{◌≡◌, refl, not, ◌&&◌, map, if◌then◌else◌, count_if}
use wlan_bridge.Net.{SockaddrIn, same_peer}
use wlan_bridge.Peers.Update.{knows_in}
use wlan_bridge.Forward.{wlan_br_handle, wlan_br_flood}
use wlan_bridge.Forward.Switch.{view, learns, copies, Delivers}
use wlan_bridge.Forward.Flood.{flood_exact, served, send_call, with_log}
use wlan_bridge.Forward.Handle.{handle-refines}
use wlan_bridge.Tests.Setup.{env, peer, mac, broadcast}
use wlan_bridge.Tests.Bridge.{three, three-IsValid}

handle-refines_example :
    (view env (wlan_br_handle env three 60 (broadcast 3) (peer 20))
      ≡ learns (view env three) (peer 20) (mac 3))
    × Delivers three.udp
        (wlan_br_handle env three 60 (broadcast 3) (peer 20)).udp
        60
        (broadcast 3)
        (copies
          (learns (view env three) (peer 20) (mac 3))
          (peer 20)
          (record { a0 = 255; a1 = 255; a2 = 255; a3 = 255; a4 = 255; a5 = 255 }))
handle-refines_example =
    handle-refines env three 60 (broadcast 3) (peer 20) three-IsValid
      (record { fdb = refl; element = refl; info = refl })

flood_exact_example :
    let c = wlan_br_flood env three 60 (broadcast 3) (peer 20) in
    let to = served env three (peer 20) in
    (c.fdb ≡ three.fdb)
    × (c.peers ≡ three.peers)
    × (c.udp ≡ with_log three.udp (map (send_call three.udp.serv_sock 60 (broadcast 3)) to))
    × ((a : SockaddrIn)
        → count_if (λ t. same_peer t a) to
          ≡ (if knows_in env.utlist three.peers a && not (same_peer a (peer 20)) then 1 else 0))
flood_exact_example = flood_exact env three 60 (broadcast 3) (peer 20) three-IsValid
