-- ===== src/Statistics/Report.antt =====
-- What the report of statistics.c shows, and what it leaves behind.
use wlan_bridge.Common.{
  ℕ, suc, ◌*◌, ◌%◌, ◌≡◌, refl, Option, some, List, [], ◌∷◌, map, arith, u64_mod, Ptr, Heap, write,
}
use wlan_bridge.Uthash.{Uthash}
use wlan_bridge.Statistics.{Tatistics, WlanIpStatistics, Stats}
use wlan_bridge.Statistics.Show.{
  Doubles, Timespec, Line, totals, rx_rate, tx_rate, growth, rate, elapsed, scale_of,
  show_throuthput, totals_of, dump_loop, wlan_ip_dump_static,
}

-- The lines of the counters, without those of the rates.
unfoldable pub only_totals : List Line → List Line
only_totals [] = []
only_totals (totals i a b c d ∷ ls) = totals i a b c d ∷ only_totals ls
only_totals (rx_rate p r s ∷ ls) = only_totals ls
only_totals (tx_rate p r s ∷ ls) = only_totals ls

-- Two entries that agree but for their previous counters.
record SameCounters (e f : WlanIpStatistics) : Type 0 where
  key : f.key_ip4_addr ≡ e.key_ip4_addr
  curr : f.curr_stat ≡ e.curr_stat

module _ (doubles : Doubles) (clock : ℕ → Option Timespec) where
  loop-curr :
      (n : ℕ) (items : Heap WlanIpStatistics) (es : List Ptr) (p : Ptr)
      → SameCounters (items p) ((dump_loop doubles clock n items es).0 p)
  unfolding dump_loop
  loop-curr n items [] p = record { key = refl; curr = refl }
  loop-curr n items (e ∷ es) p =
      let shown = (show_throuthput doubles (clock n) (items e)).0 in
      ground (arith, loop-curr (suc n) (write items e shown) es p)

  loop-totals :
      (n : ℕ) (items base : Heap WlanIpStatistics) (es : List Ptr)
      → ((p : Ptr) → SameCounters (base p) (items p))
      → only_totals (dump_loop doubles clock n items es).1
        ≡ map (λ p. totals_of doubles (base p)) es
  unfolding dump_loop only_totals
  loop-totals n items base [] h = refl
  loop-totals n items base (e ∷ es) h =
      let shown = (show_throuthput doubles (clock n) (items e)).0 in
      ground (
        arith,
        h e,
        loop-totals (suc n) (write items e shown) base es (λ p. ground (arith, h p, h e)),
      )

  -- For every entry, in the order in which the entries were added, wlan_ip_dump_static prints a line
  -- of the address and the current rx_packets, tx_packets, rx_bytes and tx_bytes, and it changes no
  -- entry's key or current counters.
  pub dump_lem :
      {T : Type 0} (uthash : Uthash ℕ Ptr T) (s : Stats T)
      → let r = wlan_ip_dump_static doubles uthash clock s in
        (only_totals r.1 ≡ (
          map
            (λ p.
              let e = s.items p in
              totals e.key_ip4_addr e.curr_stat.rx_packets e.curr_stat.tx_packets
                e.curr_stat.rx_bytes e.curr_stat.tx_bytes)
            (uthash.elems s.h_ip_stat_head)))
        × ((p : Ptr)
            → ((r.0.items p).curr_stat ≡ (s.items p).curr_stat)
              × ((r.0.items p).key_ip4_addr ≡ (s.items p).key_ip4_addr))
        × (r.0.h_ip_stat_head ≡ s.h_ip_stat_head)
  unfolding wlan_ip_dump_static totals_of
  dump_lem uthash s =
      let es = uthash.elems s.h_ip_stat_head in
      (
        loop-totals 0 s.items s.items es (λ p. record { key = refl; curr = refl }),
        λ p. let same = loop-curr 0 s.items es p in (same.curr, same.key),
        refl,
      )

-- The counters of an entry at some later time.
abbrev pub at : WlanIpStatistics → Tatistics → WlanIpStatistics
at e c = record e { curr_stat = c }

module _ (doubles : Doubles) (first second : Timespec) (e : WlanIpStatistics) (c : Tatistics) where
  -- Of two reports on an entry, the second measures the received packets against those *sent* up to
  -- the first, and the sent packets against the count that the entry had before the first.
  pub show_twice :
      let e' = (show_throuthput doubles (some first) e).0 in
      let (diff_ns, time_ns) = elapsed doubles (some second) e'.prev_stat.time_ns in
      (show_throuthput doubles (some second) (at e' c)).1 ≡ (
        let rx_bps =
          (rate doubles (growth c.rx_bytes e.curr_stat.rx_bytes) diff_ns * 8) % u64_mod in
        let tx_bps =
          (rate doubles (growth c.tx_bytes e.curr_stat.tx_bytes) diff_ns * 8) % u64_mod in
        rx_rate
          (rate doubles (growth c.rx_packets e.curr_stat.tx_packets) diff_ns)
          rx_bps
          (scale_of rx_bps)
        ∷ tx_rate
            (rate doubles (growth c.tx_packets e.prev_stat.tx_packets) diff_ns)
            tx_bps
            (scale_of tx_bps)
        ∷ [])
  unfolding show_throuthput
  show_twice = refl
