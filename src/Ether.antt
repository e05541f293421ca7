-- ===== src/Ether.antt =====
-- Ethernet addresses and the frame header: the inline address helpers of
-- wlan_br_server/wlan_br_forward.c (lines 24-72), and `struct ethhdr` of the system's
-- <linux/if_ether.h> (two packed addresses of six octets and a big-endian protocol number) as
-- wlan_br_handle reads it off a receive buffer. Words are read as a little-endian machine does.
pub mod Bits
pub mod Laws
pub mod Text
use native.Mathlib.Decide.{ℕ_discrete}
use Prim.Native.Nat.{bit_and, bit_or, bit_xor}
use wlan_bridge.Common.{ℕ, ◌+◌, ◌*◌, ◌/◌, ◌%◌, ◌<◌, Bool, not, ◌&&◌, List, ◌==◌, get_or}

-- unsigned char[ETH_ALEN]
pub record Mac : Type 0 where
  pub a0 : ℕ
  pub a1 : ℕ
  pub a2 : ℕ
  pub a3 : ℕ
  pub a4 : ℕ
  pub a5 : ℕ

pub record Ethhdr : Type 0 where
  pub h_dest : Mac
  pub h_source : Mac
  pub h_proto : ℕ

-- Every octet of an address is one.
pub record IsMac (m : Mac) : Type 0 where
  pub a0_lt : m.a0 < 256
  pub a1_lt : m.a1 < 256
  pub a2_lt : m.a2 < 256
  pub a3_lt : m.a3 < 256
  pub a4_lt : m.a4 < 256
  pub a5_lt : m.a5 < 256

-- The six octets from place `i` on.
abbrev pub mac_at : List ℕ → ℕ → Mac
mac_at buf i = record {
  a0 = get_or buf i 0;
  a1 = get_or buf (i + 1) 0;
  a2 = get_or buf (i + 2) 0;
  a3 = get_or buf (i + 3) 0;
  a4 = get_or buf (i + 4) 0;
  a5 = get_or buf (i + 5) 0;
}

-- (struct ethhdr *)buf
abbrev pub ethhdr_of : List ℕ → Ethhdr
ethhdr_of buf = record {
  h_dest = mac_at buf 0;
  h_source = mac_at buf 6;
  h_proto = get_or buf 12 0 * 256 + get_or buf 13 0;
}

-- *(const u16 *)(addr + 0), (addr + 2) and (addr + 4)
unfoldable pub word0 : Mac → ℕ
word0 m = m.a0 + m.a1 * 256

unfoldable pub word1 : Mac → ℕ
word1 m = m.a2 + m.a3 * 256

unfoldable pub word2 : Mac → ℕ
word2 m = m.a4 + m.a5 * 256

-- A C truth value converted to the unsigned char that `bool` is here.
abbrev truth : ℕ → Bool
truth n = not (n == 0)

unfoldable pub is_multicast_ether_addr : Mac → Bool
unfolding word0
is_multicast_ether_addr m = truth (bit_and 0x01 (word0 m))

unfoldable pub is_zero_ether_addr : Mac → Bool
is_zero_ether_addr m = bit_or (bit_or (word0 m) (word1 m)) (word2 m) == 0

unfoldable pub is_broadcast_ether_addr : Mac → Bool
is_broadcast_ether_addr m = bit_and (bit_and (word0 m) (word1 m)) (word2 m) == 0xffff

unfoldable is_unicast_ether_addr : Mac → Bool
is_unicast_ether_addr m = not (is_multicast_ether_addr m)

unfoldable is_valid_ether_addr : Mac → Bool
is_valid_ether_addr m = not (is_multicast_ether_addr m) && not (is_zero_ether_addr m)

-- The three words of `src` are written over those of `dst`, an octet of each at a time.
unfoldable pub ether_addr_copy : (dst src : Mac) → Mac
unfolding word0 word1 word2
ether_addr_copy dst src = record dst {
  a0 = word0 src % 256;
  a1 = word0 src / 256;
  a2 = word1 src % 256;
  a3 = word1 src / 256;
  a4 = word2 src % 256;
  a5 = word2 src / 256;
}

unfoldable pub ether_addr_equal : Mac → Mac → Bool
ether_addr_equal a b =
    bit_or (bit_or (bit_xor (word0 a) (word0 b)) (bit_xor (word1 a) (word1 b)))
      (bit_xor (word2 a) (word2 b))
    == 0

unfoldable pub Mac-discrete : Discrete Mac
unfolding ℕ_discrete
Mac-discrete = hlevel ℕ_discrete
