-- ===== src/Forward/Learn.antt =====
-- Learning: the bridge follows the abstract switch, and its list stays well formed.
use wlan_bridge.Common.{
  suc, ◌≡◌, sym, ap, ◌∙◌, inl, inr, false, ◌||◌, none, some, arith, Bool-cases, Option-cases, pos,
  ◌==ℤ◌,
}
use mathlib.Core.Logic.{ite, if_pos, if_neg}
use mathlib.Core.Option
use mathlib.Core.Path.{fun_ext}
use wlan_bridge.Ether.{Mac, Mac-discrete}
use wlan_bridge.Net.{SockaddrIn, same_peer}
use wlan_bridge.Fdb.{FdbEntry, wlan_fdb_update}
use wlan_bridge.Fdb.Laws.{update_known, update_new}
use wlan_bridge.Peers.{wlan_list_update}
use wlan_bridge.Peers.Update.{
  IsValid, knows_in, wlan_list_update-IsValid, knows-wlan_list_update, wlan_list_update_ok,
}
use wlan_bridge.Forward.{Env, Bridge, find_entry, learn}
use wlan_bridge.Forward.Switch.{learns, view, learns_old, learns_new}

module _ {T L S : Type 0} (env : Env T L S) (b : Bridge T L S) (curr : SockaddrIn) (src : Mac) where
  pub learn_udp : (learn env b curr src).udp ≡ b.udp
  unfolding learn
  learn_udp = ground arith

  pub learn-IsValid : IsValid env.utlist b.peers → IsValid env.utlist (learn env b curr src).peers
  unfolding learn
  learn-IsValid v =
      elim (Bool-cases ((wlan_fdb_update env.macs env.fdb_oom b.fdb curr src).0 ==ℤ pos 1)) [
        | inl e ↦ rw e (wlan_list_update-IsValid env.utlist env.list_oom b.peers curr src v)
        | inr e ↦ rw e v
      ]

  -- Memory does not run out while the frame is learned.
  pub record HasMemory : Type 0 where
    pub fdb : env.fdb_oom b.fdb.allocs ≡ false
    pub element : env.list_oom b.peers.allocs ≡ false
    pub info : env.list_oom (suc b.peers.allocs) ≡ false

  learn_old : (e : FdbEntry) → find_entry env b src ≡ some e → learn env b curr src ≡ b
  unfolding learn find_entry
  learn_old e h = ground (arith, update_known env.macs env.fdb_oom b.fdb curr src h)

  learn_new :
      find_entry env b src ≡ none
      → HasMemory
      → learn env b curr src ≡ record b {
        fdb = (wlan_fdb_update env.macs env.fdb_oom b.fdb curr src).1;
        peers = (wlan_list_update env.utlist env.list_oom b.peers curr src).1;
      }
  unfolding learn find_entry
  learn_new h m = ground (arith, (update_new env.macs env.fdb_oom b.fdb curr src h m.fdb).0)

  new_bound :
      find_entry env b src ≡ none
      → HasMemory
      → (m : Mac)
      → Option.map (λ (e : FdbEntry). e.peer_addr) (find_entry env (learn env b curr src) m)
        ≡ ite
            (Mac-discrete src m)
            (some curr)
            (Option.map (λ (e : FdbEntry). e.peer_addr) (find_entry env b m))
  unfolding find_entry
  new_bound h mem m =
      let fdb = update_new env.macs env.fdb_oom b.fdb curr src h mem.fdb in
      rw (learn_new h mem) (elim (Mac-discrete src m) [
        | yes p ↦ rw (if_pos _ p, ← p, fdb.1)
        | no n ↦ rw (if_neg _ n, fdb.2 m n)
      ])

  new_member :
      find_entry env b src ≡ none
      → HasMemory
      → IsValid env.utlist b.peers
      → (a : SockaddrIn)
      → knows_in env.utlist (learn env b curr src).peers a
        ≡ (same_peer curr a || knows_in env.utlist b.peers a)
  new_member h mem v a = rw (learn_new h mem) (
      knows-wlan_list_update env.utlist env.list_oom b.peers curr src v a
        (wlan_list_update_ok env.utlist env.list_oom b.peers curr src v mem.element mem.info))

  -- A learned frame teaches the bridge what it teaches the switch.
  pub learn-view :
      IsValid env.utlist b.peers
      → HasMemory
      → view env (learn env b curr src) ≡ learns (view env b) curr src
  learn-view v mem = elim (Option-cases (find_entry env b src)) [
    | inr (e, h) ↦
        rw (learn_old e h) (
          sym
            (learns_old (view env b) curr src (ap (Option.map (λ (e : FdbEntry). e.peer_addr)) h)))
    | inl h ↦
        (λ i. record {
          bound = fun_ext (new_bound h mem) i;
          member = fun_ext (new_member h mem v) i;
        })
        ∙ sym (learns_new (view env b) curr src (ap (Option.map (λ (e : FdbEntry). e.peer_addr)) h))
  ]
