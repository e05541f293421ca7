-- ===== src/Statistics/Counts.antt =====
-- The current counters of one address over any updates, modulo 2 ^ 64.
use wlan_bridge.Common.{
  ℕ, ◌+◌, ◌%◌, ◌≡◌, inl, inr, Bool, true, false, arith, Ptr, u64_mod, ◌==◌, if◌then◌else◌,
  Bool-cases, Option-cases,
}
use wlan_bridge.Uthash.{Uthash}
use wlan_bridge.Statistics.{
  Stats, count_rx, count_tx, wlan_ip_static_find, wlan_ip_static_update_rx,
  wlan_ip_static_update_tx,
}
use wlan_bridge.Statistics.Laws.{IsValid, curr, has_room, update_rx_lem, update_tx_lem}

module _ {T : Type 0} (uthash : Uthash ℕ Ptr T) (oom : ℕ → Bool) (a : ℕ) where
  -- From `s` to `t` the counters of the address grow by these amounts.
  pub record Counts (s t : Stats T) (rx_packets rx_bytes tx_packets tx_bytes : ℕ) : Type 0 where
    pub valid : IsValid uthash oom t
    pub received :
        (curr uthash oom t a).rx_packets % u64_mod
        ≡ ((curr uthash oom s a).rx_packets + rx_packets) % u64_mod
    pub received_bytes :
        (curr uthash oom t a).rx_bytes % u64_mod
        ≡ ((curr uthash oom s a).rx_bytes + rx_bytes) % u64_mod
    pub sent :
        (curr uthash oom t a).tx_packets % u64_mod
        ≡ ((curr uthash oom s a).tx_packets + tx_packets) % u64_mod
    pub sent_bytes :
        (curr uthash oom t a).tx_bytes % u64_mod
        ≡ ((curr uthash oom s a).tx_bytes + tx_bytes) % u64_mod

  pub Counts-refl : (s : Stats T) → IsValid uthash oom s → Counts s s 0 0 0 0
  Counts-refl s v = record {
    valid = v;
    received = omega arith;
    received_bytes = omega arith;
    sent = omega arith;
    sent_bytes = omega arith;
  }

  pub Counts-trans :
      {s t u : Stats T} {p q x y p' q' x' y' : ℕ}
      → Counts s t p q x y
      → Counts t u p' q' x' y'
      → Counts s u (p + p') (q + q') (x + x') (y + y')
  Counts-trans f g = record {
    valid = g.valid;
    received = omega (arith, f.received, g.received);
    received_bytes = omega (arith, f.received_bytes, g.received_bytes);
    sent = omega (arith, f.sent, g.sent);
    sent_bytes = omega (arith, f.sent_bytes, g.sent_bytes);
  }

  pub Counts-cast :
      {s t : Stats T} {p q x y p' q' x' y' : ℕ}
      → Counts s t p q x y
      → p ≡ p'
      → q ≡ q'
      → x ≡ x'
      → y ≡ y'
      → Counts s t p' q' x' y'
  Counts-cast f d e g h = record {
    valid = f.valid;
    received = omega (arith, f.received, d);
    received_bytes = omega (arith, f.received_bytes, e);
    sent = omega (arith, f.sent, g);
    sent_bytes = omega (arith, f.sent_bytes, h);
  }

  module _ (never : (n : ℕ) → oom n ≡ false) (s : Stats T) (v : IsValid uthash oom s) where
    room : (k : ℕ) → has_room uthash oom s k ≡ true
    room k = elim (Option-cases (wlan_ip_static_find uthash oom s k)) [
      | inl h ↦ ground (arith, h, never s.allocs)
      | inr (p, h) ↦ ground (arith, h)
    ]

    pub rx-Counts :
        (k len : ℕ)
        → Counts s
            (wlan_ip_static_update_rx uthash oom s k 1 len)
            (if k == a then 1 else 0)
            (if k == a then len else 0)
            0
            0
    unfolding count_rx
    rx-Counts k len =
        let u = update_rx_lem uthash oom s k 1 len v in
        elim (Bool-cases (k == a)) [
          | inl e ↦ record {
            valid = u.1;
            received = rw (u.0 a, e, room k) (omega arith);
            received_bytes = rw (u.0 a, e, room k) (omega arith);
            sent = rw (u.0 a, e, room k) (omega arith);
            sent_bytes = rw (u.0 a, e, room k) (omega arith);
          }
          | inr e ↦ record {
            valid = u.1;
            received = rw (u.0 a, e) (omega arith);
            received_bytes = rw (u.0 a, e) (omega arith);
            sent = rw (u.0 a, e) (omega arith);
            sent_bytes = rw (u.0 a, e) (omega arith);
          }
        ]

    pub tx-Counts :
        (k len : ℕ)
        → Counts s
            (wlan_ip_static_update_tx uthash oom s k 1 len)
            0
            0
            (if k == a then 1 else 0)
            (if k == a then len else 0)
    unfolding count_tx
    tx-Counts k len =
        let u = update_tx_lem uthash oom s k 1 len v in
        elim (Bool-cases (k == a)) [
          | inl e ↦ record {
            valid = u.1;
            received = rw (u.0 a, e, room k) (omega arith);
            received_bytes = rw (u.0 a, e, room k) (omega arith);
            sent = rw (u.0 a, e, room k) (omega arith);
            sent_bytes = rw (u.0 a, e, room k) (omega arith);
          }
          | inr e ↦ record {
            valid = u.1;
            received = rw (u.0 a, e) (omega arith);
            received_bytes = rw (u.0 a, e) (omega arith);
            sent = rw (u.0 a, e) (omega arith);
            sent_bytes = rw (u.0 a, e) (omega arith);
          }
        ]
