-- ===== src/Ether/Laws.antt =====
-- Facts about addresses: what a valid MAC is, and prefix masks in closed form.
use igw_p.Prelude.{
  ℕ, ◌-◌, ◌%◌, ◌^◌, ◌≤◌, true, false, ◌≡◌, ◌≢◌, refl, ◌↔◌, ◌==◌, arith, ==_iff, every, every-lt,
}
use igw_p.Prelude.Bits.{one-bit_and}
use igw_p.Ether.{Mac, zero_mac, mac_eq, is_valid_ether_addr, reverse_mac, get_mask_by_prefix_len}

pub mac_eq_iff : (a b : Mac) → (mac_eq a b ≡ true) ↔ (a ≡ b)
unfolding mac_eq
mac_eq_iff a b = ground arith

mask_table : every 33 (λ n. get_mask_by_prefix_len n == 2 ^ 32 - 2 ^ (32 - n)) ≡ true
unfolding every get_mask_by_prefix_len
mask_table = refl

-- For a prefix length up to 32 the mask is that many leading ones.
pub get_mask_by_prefix_len_lem : (n : ℕ) → n ≤ 32 → get_mask_by_prefix_len n ≡ 2 ^ 32 - 2 ^ (32 - n)
get_mask_by_prefix_len_lem n h = (==_iff _ _).0 (
    every-lt 33 (λ n. get_mask_by_prefix_len n == 2 ^ 32 - 2 ^ (32 - n)) n mask_table (omega arith))

is_valid_ether_addr-zero : is_valid_ether_addr zero_mac ≡ false
unfolding is_valid_ether_addr
is_valid_ether_addr-zero = refl

-- An address that passes is unicast and not all zero.
pub is_valid_ether_addr-unicast :
    (a : Mac) → is_valid_ether_addr a ≡ true → (a.b0 % 2 ≡ 0) × (a ≢ zero_mac)
unfolding is_valid_ether_addr
is_valid_ether_addr-unicast a h =
    (ground (arith, one-bit_and a.b0), λ e. cc (h, e, is_valid_ether_addr-zero))

-- Reversed twice, an address is as before.
pub reverse_mac-reverse_mac : (a : Mac) → reverse_mac (reverse_mac a) ≡ a
unfolding reverse_mac
reverse_mac-reverse_mac a = refl
