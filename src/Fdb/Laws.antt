-- ===== src/Fdb/Laws.antt =====
-- What wlan_fdb_update promises of wlan_br_find.
use wlan_bridge.Common.{
  ℕ, suc, ◌≡◌, sym, ◌∙◌, ◌≢◌, inl, inr, Bool, true, false, none, some, List, [], ◌∷◌, arith,
  if◌then◌else◌, Bool-cases, Option-cases, pos, negsuc,
}
use mathlib.Core.Logic.{ite, if_pos, if_neg}
use wlan_bridge.Uthash.{Uthash}
use wlan_bridge.Ether.{Mac, Mac-discrete}
use wlan_bridge.Net.{SockaddrIn}
use wlan_bridge.Fdb.{FdbEntry, Fdb, wlan_br_find, wlan_fdb_update}

module _ {T : Type 0} (uthash : Uthash Mac FdbEntry T) (oom : ℕ → Bool) where
  -- A file's run: the updates that the bridge asks for, one after another.
  pub updates : Fdb T → List (SockaddrIn × Mac) → Fdb T
  updates s [] = s
  updates s ((a, m) ∷ rest) = updates (wlan_fdb_update uthash oom s a m).1 rest

  -- Each entry is stored under the address that it holds.
  record IsKeyed (s : Fdb T) : Type 0 where
    pub keyed :
        (m : Mac) (e : FdbEntry) → wlan_br_find uthash oom s m ≡ some e → e.key_remote_mac ≡ m

  module _ (s : Fdb T) (a : SockaddrIn) (mac : Mac) where
    pub update_known :
        {e : FdbEntry}
        → wlan_br_find uthash oom s mac ≡ some e
        → wlan_fdb_update uthash oom s a mac ≡ (pos 0, s)
    unfolding wlan_fdb_update
    update_known h = ground arith

    -- A new address is bound to the peer, and no other binding changes.
    pub update_new :
        wlan_br_find uthash oom s mac ≡ none
        → oom s.allocs ≡ false
        → let r = wlan_fdb_update uthash oom s a mac in
          (r.0 ≡ pos 1)
          × (wlan_br_find uthash oom r.1 mac
              ≡ some (record { key_remote_mac = mac; peer_addr = a }))
          × ((m : Mac) → mac ≢ m → wlan_br_find uthash oom r.1 m ≡ wlan_br_find uthash oom s m)
    unfolding wlan_fdb_update
    update_new h f =
        let e : FdbEntry = record { key_remote_mac = mac; peer_addr = a } in
        (
          ground arith,
          ground (arith, uthash.find-add_self s.h_head mac e),
          λ m ne. ground (arith, uthash.find-add_ne s.h_head mac m e ne),
        )

    -- When calloc fails the table is as it was.
    update_failed :
        wlan_br_find uthash oom s mac ≡ none
        → oom s.allocs ≡ true
        → wlan_fdb_update uthash oom s a mac ≡ (negsuc 0, record s { allocs = suc s.allocs })
    unfolding wlan_fdb_update
    update_failed h f = ground arith

    find-update_self :
        wlan_br_find uthash oom (wlan_fdb_update uthash oom s a mac).1 mac
        ≡ elim (wlan_br_find uthash oom s mac) [
          | some e ↦ some e
          | none ↦
              if oom s.allocs then none else some (record { key_remote_mac = mac; peer_addr = a })
        ]
    unfolding wlan_br_find
    find-update_self = elim (Option-cases (wlan_br_find uthash oom s mac)) [
      | inr (e, h) ↦ ground (arith, h, update_known h)
      | inl h ↦ elim (Bool-cases (oom s.allocs)) [
        | inl f ↦ ground (arith, h, update_failed h f)
        | inr f ↦ ground (arith, h, (update_new h f).1)
      ]
    ]

    find-update_ne :
        (m : Mac)
        → mac ≢ m
        → wlan_br_find uthash oom (wlan_fdb_update uthash oom s a mac).1 m
          ≡ wlan_br_find uthash oom s m
    unfolding wlan_br_find
    find-update_ne m ne = elim (Option-cases (wlan_br_find uthash oom s mac)) [
      | inr (e, h) ↦ rw (update_known h)
      | inl h ↦ elim (Bool-cases (oom s.allocs)) [
        | inl f ↦ rw (update_failed h f)
        | inr f ↦ (update_new h f).2 m ne
      ]
    ]

    -- After wlan_fdb_update, wlan_br_find finds under the frame's address what it found before, or,
    -- where it found nothing and memory lasts, a new entry for the peer; under every other address it
    -- finds what it found before.
    pub find-update :
        (m : Mac)
        → wlan_br_find uthash oom (wlan_fdb_update uthash oom s a mac).1 m
          ≡ ite
              (Mac-discrete mac m)
              (elim (wlan_br_find uthash oom s mac) [
                | some e ↦ some e
                | none ↦
                    if oom s.allocs
                    then none
                    else some (record { key_remote_mac = mac; peer_addr = a })
              ])
              (wlan_br_find uthash oom s m)
    find-update m = elim (Mac-discrete mac m) [
      | yes p ↦ rw (if_pos _ p, ← p) find-update_self
      | no n ↦ rw (if_neg _ n) (find-update_ne m n)
    ]

    -- A binding outlives every update.
    pub update-sticky :
        (m : Mac) {e : FdbEntry}
        → wlan_br_find uthash oom s m ≡ some e
        → wlan_br_find uthash oom (wlan_fdb_update uthash oom s a mac).1 m ≡ some e
    update-sticky m {e} h = elim (Mac-discrete mac m) [
      | yes p ↦ ground (arith, p, find-update_self)
      | no n ↦ find-update_ne m n ∙ h
    ]

    update-IsKeyed : IsKeyed s → IsKeyed (wlan_fdb_update uthash oom s a mac).1
    update-IsKeyed k = record {
      keyed = λ m e h. elim (Mac-discrete mac m) [
        | yes p ↦ ground (arith, p, find-update_self, k.keyed m e)
        | no n ↦ k.keyed m e (sym (find-update_ne m n) ∙ h)
      ];
    }

module _ {T : Type 0} (uthash : Uthash Mac FdbEntry T) (oom : ℕ → Bool) where
  -- Whoever sends from an address first keeps it: no later frame moves a learned address to another
  -- peer, however many arrive and whatever callocs fail.
  pub updates-sticky :
      (s : Fdb T) (frames : List (SockaddrIn × Mac)) (m : Mac) {e : FdbEntry}
      → wlan_br_find uthash oom s m ≡ some e
      → wlan_br_find uthash oom (updates uthash oom s frames) m ≡ some e
  unfolding updates
  updates-sticky s [] m h = h
  updates-sticky s ((a, mac) ∷ rest) m h =
      updates-sticky (wlan_fdb_update uthash oom s a mac).1 rest m
        (update-sticky uthash oom s a mac m h)

  -- Where each entry is stored under the address that it holds, it stays so through any updates.
  updates-IsKeyed :
      (s : Fdb T) (frames : List (SockaddrIn × Mac))
      → IsKeyed uthash oom s
      → IsKeyed uthash oom (updates uthash oom s frames)
  unfolding updates
  updates-IsKeyed s [] k = k
  updates-IsKeyed s ((a, mac) ∷ rest) k =
      updates-IsKeyed (wlan_fdb_update uthash oom s a mac).1 rest
        (update-IsKeyed uthash oom s a mac k)
