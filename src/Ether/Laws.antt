-- ===== src/Ether/Laws.antt =====
-- What the address helpers of wlan_br_forward.c decide.
use wlan_bridge.Common.{
  get_or-append, ℕ, ◌+◌, ◌%◌, ◌≤◌, ◌≡◌, refl, ◌↔◌, true, List, ◌++◌, arith, ◌==◌, length,
}
use Prim.Native.Nat.{bit_and, bit_or, bit_xor}
use wlan_bridge.Ether.Bits.{one-bit_and, bit_or-le, bit_and-le, bit_xor_zero, bit_xor_self}
use wlan_bridge.Ether.{
  mac_at, Mac, IsMac, word0, word1, word2, is_multicast_ether_addr, is_zero_ether_addr,
  ether_addr_copy, is_broadcast_ether_addr, ether_addr_equal,
}

-- An address with one octet throughout.
abbrev all_octets : ℕ → Mac
all_octets n = record { a0 = n; a1 = n; a2 = n; a3 = n; a4 = n; a5 = n }

-- is_multicast_ether_addr reads the group bit, the lowest of the first octet.
is_multicast_lem : (m : Mac) → is_multicast_ether_addr m ≡ (m.a0 % 2 == 1)
unfolding is_multicast_ether_addr
is_multicast_lem m = ground (arith, one-bit_and (word0 m))

-- is_zero_ether_addr holds of the zero address alone.
is_zero_lem : (m : Mac) → (is_zero_ether_addr m ≡ true) ↔ (m ≡ all_octets 0)
unfolding is_zero_ether_addr word0 word1 word2
is_zero_lem m = (
  λ h.
      ground
        (arith, bit_or-le (word0 m) (word1 m), bit_or-le (bit_or (word0 m) (word1 m)) (word2 m)),
  λ e. rw e,
)

-- Of the addresses of six octets, is_broadcast_ether_addr holds of the broadcast address alone.
is_broadcast_lem : (m : Mac) → IsMac m → (is_broadcast_ether_addr m ≡ true) ↔ (m ≡ all_octets 255)
unfolding is_broadcast_ether_addr word0 word1 word2
is_broadcast_lem m v = (
  λ h. ground (
    arith,
    v,
    bit_and-le (word0 m) (word1 m),
    bit_and-le (bit_and (word0 m) (word1 m)) (word2 m),
  ),
  λ e. rw e,
)

-- ether_addr_equal decides equality of addresses of six octets.
ether_addr_equal_lem : (a b : Mac) → IsMac a → IsMac b → (ether_addr_equal a b ≡ true) ↔ (a ≡ b)
unfolding ether_addr_equal word0 word1 word2
ether_addr_equal_lem a b va vb = (
  λ h.
      let x = bit_xor (word0 a) (word0 b) in
      let y = bit_xor (word1 a) (word1 b) in
      let z = bit_xor (word2 a) (word2 b) in
      let xyz : (x ≡ 0) × (y ≡ 0) × (z ≡ 0) =
        ground (arith, bit_or-le x y, bit_or-le (bit_or x y) z) in
      ground (
        arith,
        va,
        vb,
        bit_xor_zero (word0 a) (word0 b) (xyz.0),
        bit_xor_zero (word1 a) (word1 b) (xyz.1),
        bit_xor_zero (word2 a) (word2 b) (xyz.2),
      ),
  λ e. rw (e, bit_xor_self, bit_xor_self, bit_xor_self),
)

-- ether_addr_copy leaves a copy of the source, whatever was there before.
ether_addr_copy_lem : (dst src : Mac) → IsMac src → ether_addr_copy dst src ≡ src
unfolding ether_addr_copy
ether_addr_copy_lem dst src v = ground (arith, v)

-- An address that a buffer holds is the one it began with, whatever follows.
pub mac_at-append : (xs ys : List ℕ) (i : ℕ) → i + 6 ≤ length xs → mac_at (xs ++ ys) i ≡ mac_at xs i
mac_at-append xs ys i h =
    rw
      (
        get_or-append xs ys i 0 (omega arith),
        get_or-append xs ys (i + 1) 0 (omega arith),
        get_or-append xs ys (i + 2) 0 (omega arith),
        get_or-append xs ys (i + 3) 0 (omega arith),
        get_or-append xs ys (i + 4) 0 (omega arith),
        get_or-append xs ys (i + 5) 0 (omega arith),
      )
      refl
