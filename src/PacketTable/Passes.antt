-- ===== src/PacketTable/Passes.antt =====
-- What it takes to pass a key of the table of protocol packets, field by field, and statements about
-- every entry of the table (switch_packet_table.c).
use igw_p.Prelude.{
  ℕ, zero, suc, Bool, true, ◌&&◌, List, [], ◌∷◌, ◌++◌, ◌≡◌, refl, arith, some, bit_and, get_elem?,
  All, length,
}
use igw_p.Prelude.Bits.{bit_and-le}
use mathlib.Core.Path.{subst}
use igw_p.IpType.{masked, masked_bytes, zero_bytes, passes_field, passes_bytes}
use igw_p.Hostif.{Hostif}
use igw_p.PacketTable.{
  ProtocolPacketKey, ProtocolEntry, PacketCfg, ProtocolPacket, passes_protocol,
  process_protocol_packet_table_init, receive_from_cpu_lldp_init, receive_from_cpu_nos_init,
  arp_copy_to_cpu_nos_init, mgt_ip_copy_to_cpu_nos_init, vip_copy_to_cpu_nos_init,
  backup_vip_copy_to_cpu_nos_init, hostif_copy_to_cpu_nos_init, hostif_entries,
}

unfoldable pub Fields : ProtocolPacket → ProtocolPacketKey → Type 0
Fields p k =
    (passes_field p.p_ipv4_isvalid k.ipv4_isvalid ≡ true)
    × (passes_field p.p_ipv6_isvalid k.ipv6_isvalid ≡ true)
    × (passes_field p.p_vxlan_isvalid k.vxlan_isvalid ≡ true)
    × (passes_field p.p_ethertype k.ethertype ≡ true)
    × (passes_field p.p_dip k.dip ≡ true)
    × (passes_bytes p.p_dip6 k.dip6 ≡ true)
    × (passes_field p.p_ingress_port k.ingress_port ≡ true)

and-true : (a b : Bool) → (a && b) ≡ true → (a ≡ true) × (b ≡ true)
and-true a b h = ground arith

pub passes_protocol-Fields :
    (p : ProtocolPacket) (k : ProtocolPacketKey) → passes_protocol p k ≡ true → Fields p k
unfolding passes_protocol Fields
passes_protocol-Fields p k h =
    let (h0, r0) = and-true _ _ h in
    let (h1, r1) = and-true _ _ r0 in
    let (h2, r2) = and-true _ _ r1 in
    let (h3, r3) = and-true _ _ r2 in
    let (h4, r4) = and-true _ _ r3 in let (h5, r5) = and-true _ _ r4 in (h0, h1, h2, h3, h4, h5, r5)

pub Fields-passes_protocol :
    (p : ProtocolPacket) (k : ProtocolPacketKey) → Fields p k → passes_protocol p k ≡ true
unfolding passes_protocol Fields
Fields-passes_protocol p k (h0, h1, h2, h3, h4, h5, h6) = rw (h0, h1, h2, h3, h4, h5, h6) refl

-- An unset field is passed by all.
pub passes_field-unset : (x : ℕ) → passes_field x (masked 0 0) ≡ true
passes_field-unset x =
    let none_left : bit_and x 0 ≡ 0 = omega (arith, bit_and-le x 0) in rw none_left refl

pub passes_field_self : (x m : ℕ) → passes_field x (masked x m) ≡ true
passes_field_self x m = ground arith

passes_bytes-unset :
    (xs vs ms : List ℕ)
    → length xs ≡ length vs
    → All (λ v. v ≡ 0) vs
    → All (λ m. m ≡ 0) ms
    → passes_bytes xs (masked_bytes vs ms) ≡ true
passes_bytes-unset xs [] ms h a b = refl
passes_bytes-unset xs (v ∷ vs) [] h a b = refl
passes_bytes-unset [] (v ∷ vs) (m ∷ ms) h a b = absurd (omega arith)
passes_bytes-unset (x ∷ xs) (v ∷ vs) (m ∷ ms) h (a0, a) (b0, b) =
    rw (a0, b0, passes_field-unset x, passes_bytes-unset xs vs ms (omega arith) a b) refl

zeros : All (λ v. v ≡ 0) zero_bytes
zeros = (
  refl,
  (
    refl,
    (
      refl,
      (
        refl,
        (
          refl,
          (
            refl,
            (refl, (refl, (refl, (refl, (refl, (refl, (refl, (refl, (refl, (refl, tt)))))))))),
          ),
        ),
      ),
    ),
  ),
)

pub passes_bytes-zero :
    (xs : List ℕ) → length xs ≡ 16 → passes_bytes xs (masked_bytes zero_bytes zero_bytes) ≡ true
passes_bytes-zero xs h = passes_bytes-unset xs zero_bytes zero_bytes h zeros zeros

pub passes_bytes_self : (xs ms : List ℕ) → passes_bytes xs (masked_bytes xs ms) ≡ true
passes_bytes_self [] ms = refl
passes_bytes_self (x ∷ xs) [] = refl
passes_bytes_self (x ∷ xs) (m ∷ ms) = rw (passes_field_self x m, passes_bytes_self xs ms) refl

pub All-append {ℓ κ} :
    {A : Type ℓ} (P : A → Type κ) (xs ys : List A) → All P xs → All P ys → All P (xs ++ ys)
All-append P [] ys h g = g
All-append P (x ∷ xs) ys (a, h) g = (a, All-append P xs ys h g)

pub All-get_elem? {ℓ κ} :
    {A : Type ℓ} (P : A → Type κ) (xs : List A) (n : ℕ) (a : A)
    → All P xs
    → get_elem? xs n ≡ some a
    → P a
All-get_elem? P [] n a h e = absurd (cc e)
All-get_elem? P (x ∷ xs) zero a (h, hs) e = subst P (cc e) h
All-get_elem? P (x ∷ xs) (suc n) a (h, hs) e = All-get_elem? P xs n a hs e

module _ {κ} (P : ProtocolEntry → Type κ) (cfg : PacketCfg) where
  All-hostifs :
      (hs : List Hostif)
      → ((n : ℕ) (h : Hostif) → get_elem? hs n ≡ some h → All P (hostif_entries cfg h))
      → All P (hostif_copy_to_cpu_nos_init cfg hs)
  unfolding hostif_copy_to_cpu_nos_init
  All-hostifs [] f = tt
  All-hostifs (h ∷ hs) f =
      All-append P (hostif_entries cfg h) _ (f 0 h refl) (All-hostifs hs (λ n g e. f (suc n) g e))

  -- To hold of every entry of the table is to hold of every part's.
  pub All-table :
      (hs : List Hostif)
      → All P (receive_from_cpu_lldp_init cfg)
      → All P (receive_from_cpu_nos_init cfg)
      → All P (arp_copy_to_cpu_nos_init cfg)
      → All P (mgt_ip_copy_to_cpu_nos_init cfg)
      → All P (vip_copy_to_cpu_nos_init cfg)
      → All P (backup_vip_copy_to_cpu_nos_init cfg)
      → ((n : ℕ) (h : Hostif) → get_elem? hs n ≡ some h → All P (hostif_entries cfg h))
      → All P (process_protocol_packet_table_init cfg hs)
  unfolding process_protocol_packet_table_init
  All-table hs a b c d e f g =
      let l5 = hostif_copy_to_cpu_nos_init cfg hs in
      let l4 = backup_vip_copy_to_cpu_nos_init cfg ++ l5 in
      let l3 = vip_copy_to_cpu_nos_init cfg ++ l4 in
      let l2 = mgt_ip_copy_to_cpu_nos_init cfg ++ l3 in
      let l1 = arp_copy_to_cpu_nos_init cfg ++ l2 in
      let l0 = receive_from_cpu_nos_init cfg ++ l1 in
      All-append P (receive_from_cpu_lldp_init cfg) l0 a (
        All-append P (receive_from_cpu_nos_init cfg) l1 b (
          All-append P (arp_copy_to_cpu_nos_init cfg) l2 c (
            All-append P (mgt_ip_copy_to_cpu_nos_init cfg) l3 d (
              All-append P (vip_copy_to_cpu_nos_init cfg) l4 e
                (All-append P (backup_vip_copy_to_cpu_nos_init cfg) l5 f (All-hostifs hs g))))))
