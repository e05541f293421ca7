-- ===== src/Statistics/Laws.antt =====
-- The counters of each address, and what the two updates do to them.
use wlan_bridge.Common.{
  ℕ, suc, ◌≤◌, ◌≡◌, ◌≢◌, inl, inr, Bool, true, not, ◌&&◌, none, some, arith, Ptr, ◌==◌,
  if◌then◌else◌, Option-cases,
}
use native.Mathlib.Decide.{ℕ_discrete}
use wlan_bridge.Uthash.{Uthash}
use wlan_bridge.Statistics.{
  Tatistics, zeroed, Stats, count_rx, count_tx, create, obtain, update, wlan_ip_static_find,
  wlan_ip_static_update_rx, wlan_ip_static_update_tx,
}

module _ {T : Type 0} (uthash : Uthash ℕ Ptr T) (oom : ℕ → Bool) where
  -- Each entry of the table is one that calloc returned, and holds its key.
  pub record IsValid (s : Stats T) : Type 0 where
    pub allocated : (k : ℕ) (p : Ptr) → wlan_ip_static_find uthash oom s k ≡ some p → p ≤ s.allocs
    pub keyed :
        (k : ℕ) (p : Ptr)
        → wlan_ip_static_find uthash oom s k ≡ some p
        → (s.items p).key_ip4_addr ≡ k

  -- The current counters of an address: all zero while it has no entry.
  unfoldable pub curr : Stats T → ℕ → Tatistics
  curr s k = elim (wlan_ip_static_find uthash oom s k) [
    | some p ↦ (s.items p).curr_stat
    | none ↦ zeroed
  ]

  -- The address has an entry, or memory for one.
  abbrev pub has_room : Stats T → ℕ → Bool
  has_room s k = elim (wlan_ip_static_find uthash oom s k) [
    | some p ↦ true
    | none ↦ not (oom s.allocs)
  ]

  module _ (s : Stats T) (k : ℕ) (f : Tatistics → Tatistics) (v : IsValid s) where
    abbrev after : Stats T
    after = update uthash oom (obtain uthash oom s k) f

    find-create_self :
        wlan_ip_static_find uthash oom s k ≡ none
        → uthash.find (uthash.add s.h_ip_stat_head k (suc s.allocs)) k ≡ some (suc s.allocs)
    unfolding wlan_ip_static_find
    find-create_self h = uthash.find-add_self s.h_ip_stat_head k (suc s.allocs) h

    curr-after_self : curr after k ≡ (if has_room s k then f (curr s k) else curr s k)
    unfolding curr update obtain create wlan_ip_static_find
    curr-after_self = elim (Option-cases (wlan_ip_static_find uthash oom s k)) [
      | inl h ↦ ground (arith, h, find-create_self h)
      | inr (p, h) ↦ ground (arith, h)
    ]

    curr-after_ne : (j : ℕ) → k ≢ j → curr after j ≡ curr s j
    unfolding curr update obtain create wlan_ip_static_find
    curr-after_ne j ne = elim (Option-cases (wlan_ip_static_find uthash oom s k)) [
      | inl h ↦ elim (Option-cases (wlan_ip_static_find uthash oom s j)) [
        | inl g ↦ ground (arith, h, g, uthash.find-add_ne s.h_ip_stat_head k j (suc s.allocs) ne)
        | inr (q, g) ↦ ground (
          arith,
          h,
          g,
          uthash.find-add_ne s.h_ip_stat_head k j (suc s.allocs) ne,
          v.allocated j q g,
        )
      ]
      | inr (p, h) ↦ elim (Option-cases (wlan_ip_static_find uthash oom s j)) [
        | inl g ↦ ground (arith, h, g)
        | inr (q, g) ↦ ground (arith, h, g, v.keyed j q g, v.keyed k p h)
      ]
    ]

    after-IsValid : IsValid after
    unfolding update obtain create wlan_ip_static_find
    after-IsValid = elim (Option-cases (wlan_ip_static_find uthash oom s k)) [
      | inl h ↦ record {
        allocated = λ j q g. elim (ℕ_discrete k j) [
          | yes e ↦ ground (arith, h, e, find-create_self h)
          | no ne ↦
              ground (
                arith,
                h,
                uthash.find-add_ne s.h_ip_stat_head k j (suc s.allocs) ne,
                v.allocated j q,
              )
        ];
        keyed = λ j q g. elim (ℕ_discrete k j) [
          | yes e ↦ ground (arith, h, e, find-create_self h)
          | no ne ↦ ground (
            arith,
            h,
            uthash.find-add_ne s.h_ip_stat_head k j (suc s.allocs) ne,
            v.allocated j q,
            v.keyed j q,
          )
        ];
      }
      | inr (p, h) ↦ record {
        allocated = λ j q g. ground (arith, h, v.allocated j q);
        keyed = λ j q g. ground (arith, h, v.keyed j q);
      }
    ]

    curr-after :
        (j : ℕ) → curr after j ≡ (if k == j && has_room s k then f (curr s j) else curr s j)
    curr-after j = elim (ℕ_discrete k j) [
      | yes e ↦ ground (arith, e, curr-after_self)
      | no ne ↦ ground (arith, ne, curr-after_ne j ne)
    ]

  module _ (s : Stats T) (ip4_addr packets bytes : ℕ) (v : IsValid s) where
    -- On a well-formed table wlan_ip_static_update_rx adds to the received packets and bytes of
    -- its address, modulo 2 ^ 64, unless the address is new and its calloc fails; no other
    -- address's counters change, and the table stays well formed.
    pub update_rx_lem :
        let s' = wlan_ip_static_update_rx uthash oom s ip4_addr packets bytes in
        ((j : ℕ)
          → curr s' j ≡ (
              if ip4_addr == j && has_room s ip4_addr
              then count_rx (curr s j) packets bytes
              else curr s j))
        × IsValid s'
    unfolding wlan_ip_static_update_rx
    update_rx_lem = (
      curr-after s ip4_addr (λ c. count_rx c packets bytes) v,
      after-IsValid s ip4_addr (λ c. count_rx c packets bytes) v,
    )

    -- On a well-formed table wlan_ip_static_update_tx adds to the sent packets and bytes of its
    -- address, modulo 2 ^ 64, unless the address is new and its calloc fails; no other address's
    -- counters change, and the table stays well formed.
    pub update_tx_lem :
        let s' = wlan_ip_static_update_tx uthash oom s ip4_addr packets bytes in
        ((j : ℕ)
          → curr s' j ≡ (
              if ip4_addr == j && has_room s ip4_addr
              then count_tx (curr s j) packets bytes
              else curr s j))
        × IsValid s'
    unfolding wlan_ip_static_update_tx
    update_tx_lem = (
      curr-after s ip4_addr (λ c. count_tx c packets bytes) v,
      after-IsValid s ip4_addr (λ c. count_tx c packets bytes) v,
    )
