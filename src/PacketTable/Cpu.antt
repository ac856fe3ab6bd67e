-- ===== src/PacketTable/Cpu.antt =====
-- A packet that the CPU sends is taken from it, never handed back (switch_packet_table.c).
use igw_p.Prelude.{
  ℕ, ◌<◌, ◌%◌, ◌^◌, Bool, true, false, List, ◌≡◌, refl, arith, some, Bool-cases, inl, inr, ◌⊎◌,
  get_elem?, All, length,
}
use igw_p.IpType.{masked, passes_field, is_zero, lowest_pri}
use igw_p.Hostif.{Hostif}
use igw_p.PacketTable.{
  ProtocolEntry, receive_from_cpu_nos, copy_to_cpu_nos, PacketCfg, ProtocolPacket, passes_protocol,
  process_protocol_packet_table_init, receive_from_cpu_lldp_init, receive_from_cpu_nos_init,
  arp_copy_to_cpu_nos_init, mgt_ip_copy_to_cpu_nos_init, vip_copy_to_cpu_nos_init,
  backup_vip_copy_to_cpu_nos_init, hostif_entries,
}
use igw_p.PacketTable.Passes.{
  Fields, passes_protocol-Fields, Fields-passes_protocol, passes_field-unset, passes_bytes-zero,
  All-table, All-get_elem?,
}

-- An entry either has the last priority and copies to the CPU's port, or takes from that port.
IsSorted : PacketCfg → ProtocolEntry → Type 0
IsSorted cfg e =
    ((e.protocol_key.priority ≡ lowest_pri)
      × (e.protocol_action ≡ copy_to_cpu_nos (cfg.cpu_pcie_port % 2 ^ 16)))
    ⊎ ((¬ (e.protocol_action ≡ copy_to_cpu_nos (cfg.cpu_pcie_port % 2 ^ 16)))
        × (e.protocol_key.ingress_port ≡ masked cfg.cpu_pcie_port 0x1FF))

hostif-IsSorted : (cfg : PacketCfg) (h : Hostif) → All (IsSorted cfg) (hostif_entries cfg h)
unfolding hostif_entries IsSorted
hostif-IsSorted cfg h = elim (Bool-cases h.ipv6_enable) [
  | inl e ↦ rw e (
    inl (refl, refl),
    (inl (refl, refl), (inl (refl, refl), (inl (refl, refl), (inl (refl, refl), tt)))),
  )
  | inr e ↦ rw e (inl (refl, refl), tt)
]

backup-IsSorted : (cfg : PacketCfg) → All (IsSorted cfg) (backup_vip_copy_to_cpu_nos_init cfg)
unfolding backup_vip_copy_to_cpu_nos_init IsSorted
backup-IsSorted cfg = elim (Bool-cases (is_zero cfg.backup_vip)) [
  | inl e ↦ rw e tt
  | inr e ↦ rw e (inl (refl, refl), tt)
]

table-IsSorted :
    (cfg : PacketCfg) (hs : List Hostif)
    → All (IsSorted cfg) (process_protocol_packet_table_init cfg hs)
unfolding IsSorted receive_from_cpu_lldp_init receive_from_cpu_nos_init arp_copy_to_cpu_nos_init
    mgt_ip_copy_to_cpu_nos_init vip_copy_to_cpu_nos_init
table-IsSorted cfg hs =
    All-table (IsSorted cfg) cfg hs (inr (λ e. cc e, refl), (inl (refl, refl), tt))
      (inr (λ e. cc e, refl), tt) (inl (refl, refl), tt) (inl (refl, refl), tt)
      (inl (refl, refl), tt) (backup-IsSorted cfg) (λ n h e. hostif-IsSorted cfg h)

contradicts : (b : Bool) → b ≡ true → b ≡ false → ⊥
contradicts b h g = cc

-- For a packet that comes in at the CPU's port, every entry that would copy it to the CPU comes after
-- an entry that it passes and that takes it from the CPU.
pub process_protocol_packet_table_init-received :
    (cfg : PacketCfg) (hs : List Hostif) (p : ProtocolPacket) (n : ℕ) (e : ProtocolEntry)
    → length p.p_dip6 ≡ 16
    → passes_field p.p_ingress_port (masked cfg.cpu_pcie_port 0x1FF) ≡ true
    → get_elem? (process_protocol_packet_table_init cfg hs) n ≡ some e
    → e.protocol_action ≡ copy_to_cpu_nos (cfg.cpu_pcie_port % 2 ^ 16)
    → (m : ℕ) × (r : ProtocolEntry) × (get_elem? (process_protocol_packet_table_init cfg hs) m
        ≡ some r)
      × (r.protocol_action ≡ receive_from_cpu_nos)
      × (passes_protocol p r.protocol_key ≡ true)
      × (r.protocol_key.priority < e.protocol_key.priority)
unfolding process_protocol_packet_table_init receive_from_cpu_lldp_init receive_from_cpu_nos_init
    IsSorted Fields
process_protocol_packet_table_init-received cfg hs p n e bytes cpu here copies =
    elim (All-get_elem? (IsSorted cfg) (process_protocol_packet_table_init cfg hs) n e
      (table-IsSorted cfg hs) here) [
        | inl (low, a) ↦ (
          2,
          _,
          refl,
          refl,
          Fields-passes_protocol p _ (
            passes_field-unset p.p_ipv4_isvalid,
            passes_field-unset p.p_ipv6_isvalid,
            passes_field-unset p.p_vxlan_isvalid,
            passes_field-unset p.p_ethertype,
            passes_field-unset p.p_dip,
            passes_bytes-zero p.p_dip6 bytes,
            cpu,
          ),
          omega (arith, low),
        )
        | inr (other, port) ↦ absurd (other copies)
      ]

-- Every entry that a packet from another port passes copies it to the CPU's port.
process_protocol_packet_table_init-copied :
    (cfg : PacketCfg) (hs : List Hostif) (p : ProtocolPacket) (n : ℕ) (e : ProtocolEntry)
    → passes_field p.p_ingress_port (masked cfg.cpu_pcie_port 0x1FF) ≡ false
    → get_elem? (process_protocol_packet_table_init cfg hs) n ≡ some e
    → passes_protocol p e.protocol_key ≡ true
    → e.protocol_action ≡ copy_to_cpu_nos (cfg.cpu_pcie_port % 2 ^ 16)
unfolding IsSorted Fields
process_protocol_packet_table_init-copied cfg hs p n e outside here passed =
    elim (All-get_elem? (IsSorted cfg) (process_protocol_packet_table_init cfg hs) n e
      (table-IsSorted cfg hs) here) [
        | inl (low, a) ↦ a
        | inr (other, port) ↦
            let (f0, f1, f2, f3, f4, f5, at_port) =
              passes_protocol-Fields p e.protocol_key passed in
            absurd (contradicts _ (rw port at at_port) outside)
      ]
