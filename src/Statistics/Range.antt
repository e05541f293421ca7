-- ===== src/Statistics/Range.antt =====
-- The counters of statistics.c stay u64.
use wlan_bridge.Common.{
  ℕ, ◌<◌, inl, inr, Bool, none, some, Option, arith, Bool-cases, Option-cases, Ptr, u64_mod, null,
  calloc, ◌==◌,
}
use wlan_bridge.Uthash.{Uthash}
use wlan_bridge.Statistics.{
  Tatistics, zeroed, Stats, count_rx, count_tx, create, obtain, update, wlan_ip_static_find,
  wlan_ip_static_update_rx, wlan_ip_static_update_tx,
}

pub record Fits (c : Tatistics) : Type 0 where
  pub rx_packets : c.rx_packets < u64_mod
  pub rx_bytes : c.rx_bytes < u64_mod
  pub tx_packets : c.tx_packets < u64_mod
  pub tx_bytes : c.tx_bytes < u64_mod

-- Every entry of the heap has counters in range.
abbrev pub AllFit : {T : Type 0} → Stats T → Type 0
AllFit s = (p : Ptr) → Fits (s.items p).curr_stat

zeroed-Fits : Fits zeroed
zeroed-Fits = record {
  rx_packets = omega arith;
  rx_bytes = omega arith;
  tx_packets = omega arith;
  tx_bytes = omega arith;
}

module _ {T : Type 0} (uthash : Uthash ℕ Ptr T) (oom : ℕ → Bool) where
  create-AllFit : (s : Stats T) (k : ℕ) → AllFit s → AllFit (create uthash oom s k).1
  unfolding create
  create-AllFit s k h p = elim (Bool-cases (calloc oom s.allocs == null)) [
    | inl e ↦ rw e (h p)
    | inr e ↦ elim (Bool-cases (calloc oom s.allocs == p)) [
      | inl f ↦ rw (e, f) zeroed-Fits
      | inr f ↦ rw (e, f) (h p)
    ]
  ]

  obtain-AllFit : (s : Stats T) (k : ℕ) → AllFit s → AllFit (obtain uthash oom s k).1
  unfolding obtain
  obtain-AllFit s k h p = elim (Option-cases (wlan_ip_static_find uthash oom s k)) [
    | inl e ↦ rw (obtain, e) (create-AllFit s k h p)
    | inr (q, e) ↦ rw (obtain, e) (h p)
  ]

  update-AllFit :
      (f : Tatistics → Tatistics)
      → ((c : Tatistics) → Fits c → Fits (f c))
      → (r : Option Ptr) (s : Stats T) → AllFit s
      → AllFit (update uthash oom (r, s) f)
  unfolding update
  update-AllFit f g none s h p = h p
  update-AllFit f g (some q) s h p = elim (Bool-cases (q == p)) [
    | inl e ↦ rw e (g (s.items q).curr_stat (h q))
    | inr e ↦ rw e (h p)
  ]

  module _ (s : Stats T) (k packets bytes : ℕ) (h : AllFit s) where
    pub update_rx-AllFit : AllFit (wlan_ip_static_update_rx uthash oom s k packets bytes)
    unfolding wlan_ip_static_update_rx count_rx
    update_rx-AllFit =
        let (r, s') = obtain uthash oom s k in
        update-AllFit (λ c. count_rx c packets bytes)
          (λ c v. record {
            rx_packets = omega arith;
            rx_bytes = omega arith;
            tx_packets = v.tx_packets;
            tx_bytes = v.tx_bytes;
          })
          r s' (obtain-AllFit s k h)

    pub update_tx-AllFit : AllFit (wlan_ip_static_update_tx uthash oom s k packets bytes)
    unfolding wlan_ip_static_update_tx count_tx
    update_tx-AllFit =
        let (r, s') = obtain uthash oom s k in
        update-AllFit (λ c. count_tx c packets bytes)
          (λ c v. record {
            rx_packets = v.rx_packets;
            rx_bytes = v.rx_bytes;
            tx_packets = omega arith;
            tx_bytes = omega arith;
          })
          r s' (obtain-AllFit s k h)
