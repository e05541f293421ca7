-- ===== src/Main/Start/Fresh.antt =====
-- The tables as the program finds them at its start: h_head, l_head and h_ip_stat_head are NULL.
use wlan_bridge.Common.{ℕ, ◌≡◌, refl, false, none, []}
use mathlib.Core.Path.{fun_ext}
use wlan_bridge.Ether.{Mac}
use wlan_bridge.Net.{SockaddrIn}
use wlan_bridge.Fdb.{wlan_br_find}
use wlan_bridge.Peers.{WlanListEntry, entries}
use wlan_bridge.Peers
use wlan_bridge.Peers.Update.{knows_in}
use wlan_bridge.Statistics.{zeroed, wlan_ip_static_find}
use wlan_bridge.Statistics
use wlan_bridge.Statistics.Laws.{curr}
use wlan_bridge.Forward.{Env, Bridge, find_entry}
use wlan_bridge.Forward.Switch.{Switch, view}

pub record Fresh {T L S : Type 0} (env : Env T L S) (b : Bridge T L S) : Type 0 where
  pub fdb : b.fdb.h_head ≡ env.macs.empty
  pub list : b.peers.l_head ≡ env.utlist.empty
  pub stats : b.stats.h_ip_stat_head ≡ env.ips.empty

-- A switch that has learned nothing.
abbrev pub blank : Switch
blank = record { bound = λ m. none; member = λ a. false }

module _ {T L S : Type 0} (env : Env T L S) (b : Bridge T L S) (f : Fresh env b) where
  no_entries : entries env.utlist b.peers ≡ []
  no_entries = rw (f.list) env.utlist.foreach-empty

  no_counters : (a : ℕ) → wlan_ip_static_find env.ips env.stat_oom b.stats a ≡ none
  unfolding wlan_ip_static_find
  no_counters a = rw (f.stats) (env.ips.find-empty a)

  no_address : (m : Mac) → find_entry env b m ≡ none
  unfolding find_entry wlan_br_find
  no_address m = rw (f.fdb) (env.macs.find-empty m)

  pub fresh_list : Peers.Update.IsValid env.utlist b.peers
  fresh_list = rw no_entries (record {
    not_null = λ p h. cc;
    allocated = λ p h. cc;
    one_record = λ p q h. cc;
    unmarked = λ p h. cc;
    counted = λ p h. cc;
  })

  pub fresh_counters : Statistics.Laws.IsValid env.ips env.stat_oom b.stats
  fresh_counters = record {
    allocated = λ k p h. cc (h, no_counters k);
    keyed = λ k p h. cc (h, no_counters k);
  }

  pub fresh_curr : (a : ℕ) → curr env.ips env.stat_oom b.stats a ≡ zeroed
  unfolding curr
  fresh_curr a = rw (curr, no_counters a) refl

  pub fresh_view : view env b ≡ blank
  fresh_view =
      λ i. record { bound = fun_ext (λ m. bound_none m) i; member = fun_ext (λ a. no_member a) i }
    where
      bound_none : (m : Mac) → (view env b).bound m ≡ none
      bound_none m = rw (no_address m) refl

      no_member : (a : SockaddrIn) → knows_in env.utlist b.peers a ≡ false
      no_member a = rw no_entries refl
