-- ===== src/Statistics.antt =====
-- wlan_br_server/statistics.c and statistics.h: packet and byte counters for each IPv4 address. The
-- hash table holds the addresses of the entries, since the counters are written through them.
pub mod Laws
pub mod Show
pub mod Report
pub mod Counts
pub mod Range
use wlan_bridge.Common.{
  ℕ, suc, ◌+◌, ◌%◌, Bool, Option, none, some, if◌then◌else◌, Ptr, null, Heap, write, calloc,
  u64_mod, ◌==◌,
}
use wlan_bridge.Uthash.{Uthash}

-- tatistics_t
pub record Tatistics : Type 0 where
  pub rx_packets : ℕ
  pub rx_bytes : ℕ
  pub rx_err : ℕ
  pub tx_packets : ℕ
  pub tx_bytes : ℕ
  pub tx_err : ℕ
  pub time_ns : ℕ

abbrev pub zeroed : Tatistics
zeroed = record {
  rx_packets = 0;
  rx_bytes = 0;
  rx_err = 0;
  tx_packets = 0;
  tx_bytes = 0;
  tx_err = 0;
  time_ns = 0;
}

-- wlan_ip_statistics_t
pub record WlanIpStatistics : Type 0 where
  pub key_ip4_addr : ℕ
  pub curr_stat : Tatistics
  pub prev_stat : Tatistics

-- The file's static, the entries by address, and the number of allocations made so far.
pub record Stats (T : Type 0) : Type 0 where
  pub h_ip_stat_head : T
  pub items : Heap WlanIpStatistics
  pub allocs : ℕ

-- e->curr_stat.rx_packets += rx_packet; e->curr_stat.rx_bytes += rx_byte;
unfoldable pub count_rx : Tatistics → ℕ → ℕ → Tatistics
count_rx c rx_packet rx_byte = record c {
  rx_packets = (c.rx_packets + rx_packet) % u64_mod;
  rx_bytes = (c.rx_bytes + rx_byte) % u64_mod;
}

unfoldable pub count_tx : Tatistics → ℕ → ℕ → Tatistics
count_tx c tx_packet tx_byte = record c {
  tx_packets = (c.tx_packets + tx_packet) % u64_mod;
  tx_bytes = (c.tx_bytes + tx_byte) % u64_mod;
}

module _ {T : Type 0} (uthash : Uthash ℕ Ptr T) (oom : ℕ → Bool) where
  unfoldable pub wlan_ip_static_find : Stats T → ℕ → Option Ptr
  wlan_ip_static_find s ip4_addr = uthash.find s.h_ip_stat_head ip4_addr

  -- A new entry, all zero but its key; none when calloc fails.
  create : Stats T → ℕ → Option Ptr × Stats T
  create s ip4_addr =
      let e = calloc oom s.allocs in
      if e == null then (none, record s { allocs = suc s.allocs }) else (
        some e,
        record {
          h_ip_stat_head = uthash.add s.h_ip_stat_head ip4_addr e;
          items =
              write s.items e
                (record { key_ip4_addr = ip4_addr; curr_stat = zeroed; prev_stat = zeroed });
          allocs = suc s.allocs;
        },
      )

  -- The entry of an address, created where there is none.
  obtain : Stats T → ℕ → Option Ptr × Stats T
  unfolding wlan_ip_static_find create
  obtain s ip4_addr = elim (wlan_ip_static_find s ip4_addr) [
    | some e ↦ (some e, s)
    | none ↦ create s ip4_addr
  ]

  -- The write through the entry's address.
  update : Option Ptr × Stats T → (Tatistics → Tatistics) → Stats T
  update (none, s) f = s
  update (some e, s) f = record s {
    items = write s.items e (record (s.items e) { curr_stat = f (s.items e).curr_stat });
  }

  unfoldable pub wlan_ip_static_update_rx : Stats T → ℕ → ℕ → ℕ → Stats T
  unfolding obtain update
  wlan_ip_static_update_rx s ip4_addr rx_packet rx_byte =
      update (obtain s ip4_addr) (λ c. count_rx c rx_packet rx_byte)

  unfoldable pub wlan_ip_static_update_tx : Stats T → ℕ → ℕ → ℕ → Stats T
  unfolding obtain update
  wlan_ip_static_update_tx s ip4_addr tx_packet tx_byte =
      update (obtain s ip4_addr) (λ c. count_tx c tx_packet tx_byte)
