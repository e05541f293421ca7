-- ===== src/Tests/Counters.antt =====
-- The theorems on the counters and their report, with the first peer's address.
use wlan_bridge.Common.{
  ℕ, ◌+◌, ◌*◌, ◌/◌, ◌%◌, ◌≡◌, refl, Option, none, some, [], ◌∷◌, map, u64_mod, Ptr,
}
use wlan_bridge.Uthash.Assoc
use wlan_bridge.Statistics.{WlanIpStatistics, zeroed, wlan_ip_static_update_rx, wlan_ip_static_find}
use wlan_bridge.Statistics.Laws.{IsValid}
use wlan_bridge.Statistics.Show.{
  Doubles, Timespec, elapsed, growth, rate, rx_rate, scale_of, show_throuthput, totals, tx_rate,
  wlan_ip_dump_static,
}
use wlan_bridge.Statistics.Report.{only_totals, dump_lem, show_twice, at}
use wlan_bridge.Tests.Setup.{env, start}

no_entry : (k : ℕ) → wlan_ip_static_find env.ips env.stat_oom start.stats k ≡ none
unfolding wlan_ip_static_find Assoc.find
no_entry k = refl

pub valid : IsValid env.ips env.stat_oom start.stats
valid = record { allocated = λ k p h. cc (h, no_entry k); keyed = λ k p h. cc (h, no_entry k) }

-- Division of whole numbers for that of doubles.
abbrev doubles : Doubles
doubles = record { ns_of_sec = λ s. s * 1000000000; per_sec = λ n ns. n * 1000000000 / (ns + 1) }

dump_lem_example :
    let clock : ℕ → Option Timespec = λ n. some (record { tv_sec = n; tv_nsec = 0 }) in
    let s = wlan_ip_static_update_rx env.ips env.stat_oom start.stats 10 1 60 in
    let r = wlan_ip_dump_static doubles env.ips clock s in
    (only_totals r.1 ≡ (
      map
        (λ p.
          let e = s.items p in
          totals e.key_ip4_addr e.curr_stat.rx_packets e.curr_stat.tx_packets e.curr_stat.rx_bytes
            e.curr_stat.tx_bytes)
        (env.ips.elems s.h_ip_stat_head)))
    × ((p : Ptr)
        → ((r.0.items p).curr_stat ≡ (s.items p).curr_stat)
          × ((r.0.items p).key_ip4_addr ≡ (s.items p).key_ip4_addr))
    × (r.0.h_ip_stat_head ≡ s.h_ip_stat_head)
dump_lem_example =
    dump_lem doubles (λ n. some (record { tv_sec = n; tv_nsec = 0 })) env.ips
      (wlan_ip_static_update_rx env.ips env.stat_oom start.stats 10 1 60)

-- An entry that has received 3 frames of 60 bytes, and sent none.
abbrev entry : WlanIpStatistics
entry = record {
  key_ip4_addr = 10;
  curr_stat = record zeroed { rx_packets = 3; rx_bytes = 180 };
  prev_stat = zeroed;
}

show_twice_example :
    let e' = (show_throuthput doubles (some (record { tv_sec = 1; tv_nsec = 0 })) entry).0 in
    let second : Timespec = record { tv_sec = 2; tv_nsec = 0 } in
    let c = entry.curr_stat in
    let (diff_ns, time_ns) = elapsed doubles (some second) e'.prev_stat.time_ns in
    (show_throuthput doubles (some second) (at e' c)).1 ≡ (
      let rx_bps =
        (rate doubles (growth c.rx_bytes entry.curr_stat.rx_bytes) diff_ns * 8) % u64_mod in
      let tx_bps =
        (rate doubles (growth c.tx_bytes entry.curr_stat.tx_bytes) diff_ns * 8) % u64_mod in
      rx_rate
        (rate doubles (growth c.rx_packets entry.curr_stat.tx_packets) diff_ns)
        rx_bps
        (scale_of rx_bps)
      ∷ tx_rate
          (rate doubles (growth c.tx_packets entry.prev_stat.tx_packets) diff_ns)
          tx_bps
          (scale_of tx_bps)
      ∷ [])
show_twice_example =
    show_twice doubles (record { tv_sec = 1; tv_nsec = 0 }) (record { tv_sec = 2; tv_nsec = 0 })
      entry entry.curr_stat
