-- ===== src/PacketTable/Own.antt =====
-- Packets to the host interfaces' own addresses reach the CPU (switch_packet_table.c).
use igw_p.Prelude.{
  ℕ, zero, suc, ◌%◌, ◌^◌, true, List, [], ◌∷◌, ◌++◌, ◌≡◌, refl, sym, some, inl, inr, ◌⊎◌, get_elem?,
  length, replicate,
}
use mathlib.Core.Path.{subst}
use igw_p.Hostif.{Hostif}
use igw_p.PacketTable.{
  ProtocolEntry, copy_to_cpu_nos, copy, PacketCfg, ProtocolPacket, passes_protocol,
  process_protocol_packet_table_init, receive_from_cpu_lldp_init, receive_from_cpu_nos_init,
  arp_copy_to_cpu_nos_init, mgt_ip_copy_to_cpu_nos_init, vip_copy_to_cpu_nos_init,
  backup_vip_copy_to_cpu_nos_init, hostif_copy_to_cpu_nos_init, hostif_entries, hostif_v4_key,
  hostif_v6_key, ethertype_ipv4, ethertype_ipv6,
}
use igw_p.PacketTable.Passes.{
  Fields, Fields-passes_protocol, passes_field-unset, passes_field_self, passes_bytes-zero,
  passes_bytes_self,
}

-- A packet to one of an interface's addresses, on the interface's port: to its IPv4 address, or, where
-- IPv6 is on, to one of the four IPv6 addresses
unfoldable pub IsFor : ProtocolPacket → Hostif → Type 0
IsFor p h =
    (p.p_ingress_port ≡ h.dev_port)
    × (length p.p_dip6 ≡ 16)
    × (((p.p_ipv4_isvalid ≡ 1)
          × (p.p_ipv6_isvalid ≡ 0)
          × (p.p_ethertype ≡ ethertype_ipv4)
          × (p.p_dip ≡ h.v4addr_ip4))
        ⊎ ((h.ipv6_enable ≡ true)
            × (p.p_ipv4_isvalid ≡ 0)
            × (p.p_ipv6_isvalid ≡ 1)
            × (p.p_ethertype ≡ ethertype_ipv6)
            × ((p.p_dip6 ≡ h.ip6)
                ⊎ ((p.p_dip6 ≡ h.ip6_mc)
                    ⊎ ((p.p_dip6 ≡ h.ip6_linklocal) ⊎ (p.p_dip6 ≡ h.ip6_linklocal_mc))))))

-- Some entry of the list copies the packet to the CPU.
unfoldable pub Copied : PacketCfg → ProtocolPacket → List ProtocolEntry → Type 0
Copied cfg p es =
    (m : ℕ) × (e : ProtocolEntry) × (get_elem? es m ≡ some e)
    × (e.protocol_action ≡ copy_to_cpu_nos (cfg.cpu_pcie_port % 2 ^ 16))
    × (passes_protocol p e.protocol_key ≡ true)

Copied-append_right :
    (cfg : PacketCfg) (p : ProtocolPacket) (xs ys : List ProtocolEntry)
    → Copied cfg p ys
    → Copied cfg p (xs ++ ys)
unfolding Copied
Copied-append_right cfg p [] ys c = c
Copied-append_right cfg p (x ∷ xs) ys c =
    let (m, e, here, copies, passed) = Copied-append_right cfg p xs ys c in
    (suc m, e, here, copies, passed)

get_elem?-append_left {ℓ} :
    {A : Type ℓ} (xs ys : List A) (m : ℕ) (a : A)
    → get_elem? xs m ≡ some a
    → get_elem? (xs ++ ys) m ≡ some a
get_elem?-append_left [] ys m a h = absurd (cc h)
get_elem?-append_left (x ∷ xs) ys zero a h = h
get_elem?-append_left (x ∷ xs) ys (suc m) a h = get_elem?-append_left xs ys m a h

Copied-append_left :
    (cfg : PacketCfg) (p : ProtocolPacket) (xs ys : List ProtocolEntry)
    → Copied cfg p xs
    → Copied cfg p (xs ++ ys)
unfolding Copied
Copied-append_left cfg p xs ys (m, e, here, copies, passed) =
    (m, e, get_elem?-append_left xs ys m e here, copies, passed)

v6-passes :
    (p : ProtocolPacket) (h : Hostif) (addr : List ℕ)
    → p.p_ingress_port ≡ h.dev_port
    → p.p_ipv4_isvalid ≡ 0
    → p.p_ipv6_isvalid ≡ 1
    → p.p_ethertype ≡ ethertype_ipv6
    → p.p_dip6 ≡ addr
    → passes_protocol p (hostif_v6_key h addr) ≡ true
unfolding hostif_v6_key Fields
v6-passes p h addr port v4 v6 type to = Fields-passes_protocol p _ (
  rw v4 refl,
  rw v6 refl,
  passes_field-unset p.p_vxlan_isvalid,
  rw type refl,
  passes_field-unset p.p_dip,
  rw to (passes_bytes_self addr (replicate 16 0xFF)),
  rw port (passes_field_self h.dev_port 0x1FF),
)

v4-passes :
    (p : ProtocolPacket) (h : Hostif)
    → p.p_ingress_port ≡ h.dev_port
    → length p.p_dip6 ≡ 16
    → p.p_ipv4_isvalid ≡ 1
    → p.p_ipv6_isvalid ≡ 0
    → p.p_ethertype ≡ ethertype_ipv4
    → p.p_dip ≡ h.v4addr_ip4
    → passes_protocol p (hostif_v4_key h) ≡ true
unfolding hostif_v4_key Fields
v4-passes p h port bytes v4 v6 type to = Fields-passes_protocol p _ (
  rw v4 refl,
  rw v6 refl,
  passes_field-unset p.p_vxlan_isvalid,
  rw type refl,
  rw to (passes_field_self h.v4addr_ip4 0xFFFFFFFF),
  passes_bytes-zero p.p_dip6 bytes,
  rw port (passes_field_self h.dev_port 0x1FF),
)

v4-Copied :
    (cfg : PacketCfg) (p : ProtocolPacket) (h : Hostif)
    → p.p_ingress_port ≡ h.dev_port
    → length p.p_dip6 ≡ 16
    → p.p_ipv4_isvalid ≡ 1
    → p.p_ipv6_isvalid ≡ 0
    → p.p_ethertype ≡ ethertype_ipv4
    → p.p_dip ≡ h.v4addr_ip4
    → Copied cfg p (hostif_entries cfg h)
unfolding hostif_entries Copied
v4-Copied cfg p h port bytes v4 v6 type to =
    (0, copy cfg (hostif_v4_key h), refl, refl, v4-passes p h port bytes v4 v6 type to)

-- The entries of an interface that has IPv6
hostif_entries-six :
    (cfg : PacketCfg) (h : Hostif)
    → h.ipv6_enable ≡ true
    → hostif_entries cfg h ≡ (
        copy cfg (hostif_v4_key h)
        ∷ copy cfg (hostif_v6_key h h.ip6)
        ∷ copy cfg (hostif_v6_key h h.ip6_mc)
        ∷ copy cfg (hostif_v6_key h h.ip6_linklocal)
        ∷ copy cfg (hostif_v6_key h h.ip6_linklocal_mc)
        ∷ [])
unfolding hostif_entries
hostif_entries-six cfg h on = rw on refl

v6-Copied :
    (cfg : PacketCfg) (p : ProtocolPacket) (h : Hostif) (m : ℕ) (addr : List ℕ)
    → h.ipv6_enable ≡ true
    → p.p_ingress_port ≡ h.dev_port
    → (p.p_ipv4_isvalid ≡ 0) × (p.p_ipv6_isvalid ≡ 1) × (p.p_ethertype ≡ ethertype_ipv6)
    → p.p_dip6 ≡ addr
    → get_elem? (hostif_entries cfg h) m ≡ some (copy cfg (hostif_v6_key h addr))
    → Copied cfg p (hostif_entries cfg h)
unfolding Copied
v6-Copied cfg p h m addr on port (v4, v6, type) to here =
    (m, copy cfg (hostif_v6_key h addr), here, refl, v6-passes p h addr port v4 v6 type to)

hostif_entries-Copied :
    (cfg : PacketCfg) (p : ProtocolPacket) (h : Hostif)
    → IsFor p h
    → Copied cfg p (hostif_entries cfg h)
unfolding IsFor
hostif_entries-Copied cfg p h (port, bytes, inl (v4, v6, type, to)) =
    v4-Copied cfg p h port bytes v4 v6 type to
hostif_entries-Copied cfg p h (port, bytes, inr (on, v4, v6, type, inl to)) =
    v6-Copied cfg p h 1 h.ip6 on port (v4, v6, type) to (rw (hostif_entries-six cfg h on) refl)
hostif_entries-Copied cfg p h (port, bytes, inr (on, v4, v6, type, inr (inl to))) =
    v6-Copied cfg p h 2 h.ip6_mc on port (v4, v6, type) to (rw (hostif_entries-six cfg h on) refl)
hostif_entries-Copied cfg p h (port, bytes, inr (on, v4, v6, type, inr (inr (inl to)))) =
    v6-Copied cfg p h 3 h.ip6_linklocal on port (v4, v6, type) to
      (rw (hostif_entries-six cfg h on) refl)
hostif_entries-Copied cfg p h (port, bytes, inr (on, v4, v6, type, inr (inr (inr to)))) =
    v6-Copied cfg p h 4 h.ip6_linklocal_mc on port (v4, v6, type) to
      (rw (hostif_entries-six cfg h on) refl)

pub hostifs-Copied :
    (cfg : PacketCfg) (hs : List Hostif) (p : ProtocolPacket) (n : ℕ) (h : Hostif)
    → get_elem? hs n ≡ some h
    → IsFor p h
    → Copied cfg p (hostif_copy_to_cpu_nos_init cfg hs)
unfolding hostif_copy_to_cpu_nos_init
hostifs-Copied cfg [] p n h here is_for = absurd (cc here)
hostifs-Copied cfg (g ∷ hs) p zero h here is_for =
    Copied-append_left cfg p (hostif_entries cfg g) _
      (hostif_entries-Copied cfg p g (subst (λ i. IsFor p i) (sym (cc here)) is_for))
hostifs-Copied cfg (g ∷ hs) p (suc n) h here is_for =
    Copied-append_right cfg p (hostif_entries cfg g) _ (hostifs-Copied cfg hs p n h here is_for)

-- A packet to an address of one of the host interfaces, on the interface's port, passes an entry that
-- copies it to the CPU.
pub process_protocol_packet_table_init-Copied :
    (cfg : PacketCfg) (hs : List Hostif) (p : ProtocolPacket) (n : ℕ) (h : Hostif)
    → get_elem? hs n ≡ some h
    → IsFor p h
    → Copied cfg p (process_protocol_packet_table_init cfg hs)
unfolding process_protocol_packet_table_init
process_protocol_packet_table_init-Copied cfg hs p n h here is_for =
    let l5 = hostif_copy_to_cpu_nos_init cfg hs in
    let l4 = backup_vip_copy_to_cpu_nos_init cfg ++ l5 in
    let l3 = vip_copy_to_cpu_nos_init cfg ++ l4 in
    let l2 = mgt_ip_copy_to_cpu_nos_init cfg ++ l3 in
    let l1 = arp_copy_to_cpu_nos_init cfg ++ l2 in
    let l0 = receive_from_cpu_nos_init cfg ++ l1 in
    Copied-append_right cfg p (receive_from_cpu_lldp_init cfg) l0 (
      Copied-append_right cfg p (receive_from_cpu_nos_init cfg) l1 (
        Copied-append_right cfg p (arp_copy_to_cpu_nos_init cfg) l2 (
          Copied-append_right cfg p (mgt_ip_copy_to_cpu_nos_init cfg) l3 (
            Copied-append_right cfg p (vip_copy_to_cpu_nos_init cfg) l4 (
              Copied-append_right cfg p (backup_vip_copy_to_cpu_nos_init cfg) l5
                (hostifs-Copied cfg hs p n h here is_for))))))
