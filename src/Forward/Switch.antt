-- ===== src/Forward/Switch.antt =====
-- The abstract learning switch: what the bridge of wlan_br_forward.c promises, without its tables,
-- records and marks. It knows the peer to which each hardware address is bound, and the peers that
-- a flood reaches.
use wlan_bridge.Common.{
  ℕ, ◌≡◌, Bool, not, ◌&&◌, ◌||◌, Option, none, some, List, map, if◌then◌else◌, count_if,
}
use mathlib.Core.Logic.{ite}
use mathlib.Core.Option
use wlan_bridge.Ether.{Mac, Mac-discrete, is_multicast_ether_addr}
use wlan_bridge.Net.{SockaddrIn, same_peer}
use wlan_bridge.Peers.Update.{knows_in}
use wlan_bridge.Udp.{Udp}
use wlan_bridge.Forward.{Env, Bridge, find_entry}
use wlan_bridge.Forward.Flood.{send_call, with_log}

pub record Switch : Type 0 where
  pub bound : Mac → Option SockaddrIn
  pub member : SockaddrIn → Bool

-- The first peer that sends from an address is bound to it, and becomes a member.
unfoldable pub learns : Switch → SockaddrIn → Mac → Switch
learns v curr src = elim (v.bound src) [
  | some t ↦ v
  | none ↦ record {
    bound = λ m. ite (Mac-discrete src m) (some curr) (v.bound m);
    member = λ a. same_peer curr a || v.member a;
  }
]

-- How many copies of a flooded frame a peer gets.
unfoldable pub flood_copies : Switch → SockaddrIn → SockaddrIn → ℕ
flood_copies v curr a = if v.member a && not (same_peer a curr) then 1 else 0

-- How many copies of a frame from `curr` to `dest` a peer gets.
unfoldable pub copies : Switch → SockaddrIn → Mac → SockaddrIn → ℕ
copies v curr dest a =
    if is_multicast_ether_addr dest then flood_copies v curr a else elim (v.bound dest) [
      | none ↦ flood_copies v curr a
      | some t ↦ if same_peer t curr then 0 else if same_peer t a then 1 else 0
    ]

-- The switch that a bridge stands for.
abbrev pub view : {T L S : Type 0} → Env T L S → Bridge T L S → Switch
view env b = record {
  bound = λ m. Option.map (λ e. e.peer_addr) (find_entry env b m);
  member = λ a. knows_in env.utlist b.peers a;
}

-- From `s` to `t` the frame was sent to peers, to each as often as `n` says, and nothing else was
-- asked of the kernel.
pub record Delivers (s t : Udp) (len : ℕ) (buf : List ℕ) (n : SockaddrIn → ℕ) : Type 0 where
  pub to : List SockaddrIn
  pub calls : t ≡ with_log s (map (send_call s.serv_sock len buf) to)
  pub count : (a : SockaddrIn) → count_if (λ t. same_peer t a) to ≡ n a

module _ (v : Switch) (curr : SockaddrIn) (src : Mac) where
  pub learns_old : {t : SockaddrIn} → v.bound src ≡ some t → learns v curr src ≡ v
  unfolding learns
  learns_old h = rw (h, learns)

  pub learns_new :
      v.bound src ≡ none
      → learns v curr src ≡ record {
        bound = λ m. ite (Mac-discrete src m) (some curr) (v.bound m);
        member = λ a. same_peer curr a || v.member a;
      }
  unfolding learns
  learns_new h = rw (h, learns)
