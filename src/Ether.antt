-- ===== src/Ether.antt =====
-- Addresses (igw-h/init_setup/include/utils.h): MAC addresses as lists of six bytes, and IPv4 masks.
pub mod Laws
pub mod Aton
pub mod RoundTrip
pub mod Examples
use igw_p.Prelude.{
  ℕ, zero, suc, ◌+◌, ◌-◌, ◌*◌, ◌%◌, ◌^◌, Bool, true, false, ◌&&◌, not, List, [], ◌∷◌, ◌==◌, bit_and,
  bit_or, get_or, if◌then◌else◌,
}
use Prim.Native.Nat.{bit_xor}

pub record Mac : Type 0 where
  pub b0 : ℕ
  pub b1 : ℕ
  pub b2 : ℕ
  pub b3 : ℕ
  pub b4 : ℕ
  pub b5 : ℕ

-- `memcmp(a, b, 6) == 0`
pub mac_eq : Mac → Mac → Bool
mac_eq a b =
    a.b0 == b.b0
    && (a.b1 == b.b1 && (a.b2 == b.b2 && (a.b3 == b.b3 && (a.b4 == b.b4 && a.b5 == b.b5))))

-- `memset` to 0
abbrev pub zero_mac : Mac
zero_mac = record { b0 = 0; b1 = 0; b2 = 0; b3 = 0; b4 = 0; b5 = 0 }

unfoldable pub is_multicast_ether_addr : Mac → Bool
is_multicast_ether_addr a = not (bit_and 0x01 a.b0 == 0)

unfoldable pub is_zero_ether_addr : Mac → Bool
is_zero_ether_addr a = bit_or (bit_or (bit_or (bit_or (bit_or a.b0 a.b1) a.b2) a.b3) a.b4) a.b5 == 0

unfoldable pub is_valid_ether_addr : Mac → Bool
unfolding is_multicast_ether_addr is_zero_ether_addr
is_valid_ether_addr a = not (is_multicast_ether_addr a) && not (is_zero_ether_addr a)

unfoldable pub reverse_mac : Mac → Mac
reverse_mac mac = record {
  b0 = mac.b5;
  b1 = mac.b4;
  b2 = mac.b3;
  b3 = mac.b2;
  b4 = mac.b1;
  b5 = mac.b0;
}

abbrev pub const_max_mask_len : ℕ
const_max_mask_len = 32

-- The loop of `get_mask_by_prefix_len`: `left` rounds from `i` on. `1 << (32 - i)` is on `int`, and
-- its bit pattern is taken as `uint32_t`.
mask_loop : ℕ → ℕ → ℕ → ℕ
mask_loop zero i mask = mask
mask_loop (suc left) i mask = mask_loop left (i + 1) (bit_or mask (2 ^ (const_max_mask_len - i)))

-- For a prefix length of at most 32; beyond it the C shift has no defined value.
unfoldable pub get_mask_by_prefix_len : ℕ → ℕ
unfolding mask_loop
get_mask_by_prefix_len prefix_len = mask_loop prefix_len 1 0

-- `ip6_get_linklocal`, as the sixteen bytes that it writes
unfoldable pub ip6_get_linklocal : Mac → List ℕ
ip6_get_linklocal m =
    0xFE
    ∷ 0x80
    ∷ 0
    ∷ 0
    ∷ 0
    ∷ 0
    ∷ 0
    ∷ 0
    ∷ bit_xor m.b0 0x02
    ∷ m.b1
    ∷ m.b2
    ∷ 0xFF
    ∷ 0xFE
    ∷ m.b3
    ∷ m.b4
    ∷ m.b5
    ∷ []

-- `ipv6_addr_solict_mult_set`: the solicited-node multicast group of an address of sixteen bytes.
unfoldable pub ipv6_addr_solict_mult_set : List ℕ → List ℕ
ipv6_addr_solict_mult_set addr =
    0xFF
    ∷ 0x02
    ∷ 0
    ∷ 0
    ∷ 0
    ∷ 0
    ∷ 0
    ∷ 0
    ∷ 0
    ∷ 0
    ∷ 0
    ∷ 0x01
    ∷ bit_or 0xFF (get_or addr 12 0)
    ∷ get_or addr 13 0
    ∷ get_or addr 14 0
    ∷ get_or addr 15 0
    ∷ []
