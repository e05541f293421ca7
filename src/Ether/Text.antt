-- ===== src/Ether/Text.antt =====
-- ether_addr_to_str of wlan_br_server/common.h (and, word for word, of wlan_br_client/common.h): six
-- octets in hexadecimal, written by snprintf into a buffer of `len` characters.
use wlan_bridge.Common.{
  ℕ, ◌+◌, ◌-◌, ◌*◌, ◌/◌, ◌%◌, ◌≤◌, ◌<◌, ◌≡◌, refl, Bool, true, not, ◌||◌, Option, none, some, List,
  [], ◌∷◌, ◌++◌, arith, ltb, if◌then◌else◌, length, get_or, take, take_all,
}
use wlan_bridge.Ether.{Mac, IsMac}

-- The character of a hexadecimal digit, as %x writes it.
unfoldable hex : ℕ → ℕ
hex d = if ltb d 10 then b'0' + d else b'a' + (d - 10)

-- %02x of an octet
unfoldable octet : ℕ → List ℕ
unfolding hex
octet n = hex (n / 16) ∷ hex (n % 16) ∷ []

-- What the format would write, with no limit.
unfoldable pub text : Mac → List ℕ
unfolding octet
text m =
    octet m.a0
    ++ b':' ∷ octet m.a1
    ++ b':' ∷ octet m.a2
    ++ b':' ∷ octet m.a3
    ++ b':' ∷ octet m.a4
    ++ b':' ∷ octet m.a5

-- `has_buf` says that `buf` is not NULL. snprintf keeps the last place for the final NUL.
unfoldable pub ether_addr_to_str : Mac → (has_buf : Bool) → (len : ℕ) → Option (List ℕ)
unfolding text
ether_addr_to_str addr has_buf len =
    if not has_buf || ltb len 17 then none else some (take (len - 1) (text addr))

-- A reader for such a text.
unhex : ℕ → ℕ
unhex c = if ltb c b'a' then c - b'0' else c - b'a' + 10

octet_at : List ℕ → ℕ → ℕ
unfolding unhex
octet_at s i = unhex (get_or s i 0) * 16 + unhex (get_or s (i + 1) 0)

-- The address that a text of 17 characters stands for.
unfoldable pub read : List ℕ → Mac
unfolding octet_at
read s = record {
  a0 = octet_at s 0;
  a1 = octet_at s 3;
  a2 = octet_at s 6;
  a3 = octet_at s 9;
  a4 = octet_at s 12;
  a5 = octet_at s 15;
}

unhex-hex : (d : ℕ) → d < 16 → unhex (hex d) ≡ d
unfolding unhex hex
unhex-hex d h = ground arith

octet_lem : (n : ℕ) → n < 256 → unhex (hex (n / 16)) * 16 + unhex (hex (n % 16)) ≡ n
octet_lem n h = omega (arith, unhex-hex (n / 16) (omega arith), unhex-hex (n % 16) (omega arith))

length-text : (m : Mac) → length (text m) ≡ 17
unfolding text octet
length-text m = refl

read-text : (m : Mac) → IsMac m → read (text m) ≡ m
unfolding read text octet octet_at
read-text m v = ground (
  arith,
  octet_lem m.a0 v.a0_lt,
  octet_lem m.a1 v.a1_lt,
  octet_lem m.a2 v.a2_lt,
  octet_lem m.a3 v.a3_lt,
  octet_lem m.a4 v.a4_lt,
  octet_lem m.a5 v.a5_lt,
)

-- Into a buffer of at least 18 characters, ether_addr_to_str writes an address of six octets as a
-- text of 17 characters, from which the address can be read back.
pub read-to_str :
    (m : Mac) (len : ℕ)
    → IsMac m
    → 18 ≤ len
    → (s : List ℕ) × (ether_addr_to_str m true len ≡ some s) × (length s ≡ 17) × (read s ≡ m)
unfolding ether_addr_to_str
read-to_str m len v h = (
  text m,
  ground (arith, length-text m, take_all (len - 1) (text m)),
  length-text m,
  read-text m v,
)

-- A buffer of 17 characters passes the test on the length, and the text loses its last digit: two
-- addresses that differ in that digit alone are written alike.
to_str_truncated :
    (m : Mac) (n : ℕ)
    → m.a5 / 16 ≡ n / 16
    → ether_addr_to_str m true 17 ≡ ether_addr_to_str (record m { a5 = n }) true 17
unfolding ether_addr_to_str text octet
to_str_truncated m n h = ground arith
