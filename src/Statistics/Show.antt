-- ===== src/Statistics/Show.antt =====
-- wlan_br_server/statistics.c: show_throuthput and wlan_ip_dump_static, the report on the counters.
-- The clock and the arithmetic on doubles are parameters; a printed line is the record of what it
-- prints.
use wlan_bridge.Common.{
  ℕ, suc, ◌+◌, ◌-◌, ◌*◌, ◌%◌, Option, none, some, List, [], ◌∷◌, ◌++◌, u64_mod, Ptr, Heap, write,
  ltb, leb, ◌==◌, if◌then◌else◌,
}
use wlan_bridge.Uthash.{Uthash}
use wlan_bridge.Statistics.{Tatistics, WlanIpStatistics, Stats}

-- The two conversions through double: tv_sec * NS_PER_SEC, and diff / diff_ns * NS_PER_SEC.
pub record Doubles : Type 0 where
  pub ns_of_sec : ℕ → ℕ
  pub per_sec : ℕ → ℕ → ℕ

-- What clock_gettime leaves in `struct timespec`.
pub record Timespec : Type 0 where
  pub tv_sec : ℕ
  pub tv_nsec : ℕ

-- The unit in which a rate is printed.
pub data Scale : Type 0 where
  bps kbps mbps gbps : Scale

-- RATE_1K, RATE_1M, RATE_1G
unfoldable pub scale_of : ℕ → Scale
scale_of rate =
    if leb rate 1_000
    then bps
    else if leb rate 1_000_000
    then kbps
    else if leb rate 1_000_000_000
    then mbps
    else gbps

-- A line of the report: of an address's counters, or of a rate.
pub data Line : Type 0 where
  totals : (ip4_addr rx_packets tx_packets rx_bytes tx_bytes : ℕ) → Line
  rx_rate : (pps rate : ℕ) → Scale → Line
  tx_rate : (pps rate : ℕ) → Scale → Line

-- (a > b) ? (a - b) : 0
unfoldable pub growth : ℕ → ℕ → ℕ
growth a b = if ltb b a then a - b else 0

module _ (doubles : Doubles) where
  -- The clock's value as a u64 of nanoseconds.
  unfoldable now_ns : Timespec → ℕ
  now_ns t = (doubles.ns_of_sec t.tv_sec + t.tv_nsec) % u64_mod

  -- diff_ns, and ps->time_ns afterwards.
  unfoldable pub elapsed : Option Timespec → ℕ → ℕ × ℕ
  unfolding now_ns
  elapsed none time_ns = (0, time_ns)
  elapsed (some t) time_ns =
      ((if time_ns == 0 then 0 else (now_ns t + u64_mod - time_ns) % u64_mod), now_ns t)

  -- diff_ns > 0 ? (double)diff / diff_ns * NS_PER_SEC : 0
  unfoldable pub rate : ℕ → ℕ → ℕ
  rate diff diff_ns = if ltb 0 diff_ns then doubles.per_sec diff diff_ns else 0

  -- ps afterwards; the source assigns rx_packets twice, and tx_packets never.
  unfoldable remember : Tatistics → Tatistics → ℕ → Tatistics
  remember ps curr time_ns = record ps {
    rx_packets = curr.tx_packets;
    rx_bytes = curr.rx_bytes;
    tx_bytes = curr.tx_bytes;
    time_ns = time_ns;
  }

  unfoldable pub show_throuthput : Option Timespec → WlanIpStatistics → WlanIpStatistics × List Line
  unfolding elapsed rate remember growth scale_of
  show_throuthput clock stats =
      let ps = stats.prev_stat in
      let curr = stats.curr_stat in
      let (diff_ns, time_ns) = elapsed clock ps.time_ns in
      let mpps_rx = rate (growth curr.rx_packets ps.rx_packets) diff_ns in
      let mpps_tx = rate (growth curr.tx_packets ps.tx_packets) diff_ns in
      let mbps_rx = (rate (growth curr.rx_bytes ps.rx_bytes) diff_ns * 8) % u64_mod in
      let mbps_tx = (rate (growth curr.tx_bytes ps.tx_bytes) diff_ns * 8) % u64_mod in
      (
        record stats { prev_stat = remember ps curr time_ns },
        rx_rate mpps_rx mbps_rx (scale_of mbps_rx)
            ∷ tx_rate mpps_tx mbps_tx (scale_of mbps_tx)
            ∷ [],
      )

  -- The line of the counters.
  unfoldable pub totals_of : WlanIpStatistics → Line
  totals_of ce =
      totals ce.key_ip4_addr ce.curr_stat.rx_packets ce.curr_stat.tx_packets ce.curr_stat.rx_bytes
        ce.curr_stat.tx_bytes

  -- The loop over the entries; `clock n` is the clock at the n-th entry.
  unfoldable pub dump_loop :
      (ℕ → Option Timespec)
      → ℕ
      → Heap WlanIpStatistics
      → List Ptr
      → Heap WlanIpStatistics × List Line
  unfolding show_throuthput totals_of
  dump_loop clock n items [] = (items, [])
  dump_loop clock n items (ce ∷ rest) =
      let (shown, rates) = show_throuthput (clock n) (items ce) in
      let (items', lines) = dump_loop clock (suc n) (write items ce shown) rest in
      (items', totals_of (items ce) ∷ rates ++ lines)

  unfoldable pub wlan_ip_dump_static :
      {T : Type 0} → Uthash ℕ Ptr T → (ℕ → Option Timespec) → Stats T → Stats T × List Line
  unfolding dump_loop
  wlan_ip_dump_static uthash clock s =
      let (items', lines) = dump_loop clock 0 s.items (uthash.elems s.h_ip_stat_head) in
      (record s { items = items' }, lines)
