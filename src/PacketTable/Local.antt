-- ===== src/PacketTable/Local.antt =====
-- Which packets from the outside reach the CPU: those to the program's own addresses
-- (switch_packet_table.c).
use igw_p.Prelude.{
  ℕ, zero, suc, Bool, true, false, List, ◌≡◌, ◌≢◌, refl, arith, some, Bool-cases, inl, inr, ◌⊎◌,
  get_elem?, All,
}
use igw_p.IpType.{masked, passes_field, is_zero}
use igw_p.Hostif.{Hostif}
use igw_p.PacketTable.{
  ProtocolEntry, copy, PacketCfg, ProtocolPacket, passes_protocol,
  process_protocol_packet_table_init, receive_from_cpu_lldp_init, receive_from_cpu_nos_init,
  arp_copy_to_cpu_nos_init, mgt_ip_copy_to_cpu_nos_init, vip_copy_to_cpu_nos_init,
  backup_vip_copy_to_cpu_nos_init, hostif_entries, hostif_v4_key,
}
use igw_p.PacketTable.Passes.{Fields, passes_protocol-Fields, All-table, All-get_elem?}

-- To an IPv4 address under the whole mask
abbrev pub is_to : ProtocolPacket → ℕ → Bool
is_to p ip = passes_field p.p_dip (masked ip 0xFFFFFFFF)

-- The packet goes to the management address, to a virtual address, or to an interface's own address
-- on the interface's own port.
unfoldable pub IsLocal : PacketCfg → List Hostif → ProtocolPacket → Type 0
IsLocal cfg hs p =
    (is_to p cfg.mgt_ip ≡ true)
    ⊎ ((is_to p cfg.vip ≡ true)
        ⊎ (((cfg.backup_vip ≢ 0) × (is_to p cfg.backup_vip ≡ true))
            ⊎ ((n : ℕ) × (h : Hostif) × (get_elem? hs n ≡ some h)
                × (is_to p h.v4addr_ip4 ≡ true)
                × (passes_field p.p_ingress_port (masked h.dev_port 0x1FF) ≡ true))))

-- An IPv4 packet from outside that passes the entry is local.
OnlyLocal : PacketCfg → List Hostif → ProtocolPacket → ProtocolEntry → Type 0
OnlyLocal cfg hs p e = Fields p e.protocol_key → IsLocal cfg hs p

contradicts : (b : Bool) → b ≡ true → b ≡ false → ⊥
contradicts b h g = cc

is_zero-≢ : (n : ℕ) → is_zero n ≡ false → n ≢ 0
is_zero-≢ zero h = λ e. cc h
is_zero-≢ (suc n) h = λ e. omega (arith, e)

module _ (cfg : PacketCfg) (hs : List Hostif) (p : ProtocolPacket) where
  not_ipv4 : p.p_ipv4_isvalid ≡ 1 → passes_field p.p_ipv4_isvalid (masked 0 0x1) ≡ true → ⊥
  not_ipv4 v4 h = ground (arith, v4)

  -- A key that asks for no IPv4 header lets none of them pass.
  six-OnlyLocal :
      (e : ProtocolEntry)
      → p.p_ipv4_isvalid ≡ 1
      → e.protocol_key.ipv4_isvalid ≡ masked 0 0x1
      → OnlyLocal cfg hs p e
  unfolding OnlyLocal Fields
  six-OnlyLocal e v4 six (f0, f1, f2, f3, f4, f5, f6) = absurd (not_ipv4 v4 (rw six at f0))

  -- Nor does one that asks for the CPU's port, of packets from outside.
  receive-OnlyLocal :
      (e : ProtocolEntry)
      → passes_field p.p_ingress_port (masked cfg.cpu_pcie_port 0x1FF) ≡ false
      → e.protocol_key.ingress_port ≡ masked cfg.cpu_pcie_port 0x1FF
      → OnlyLocal cfg hs p e
  unfolding OnlyLocal Fields
  receive-OnlyLocal e outside port (f0, f1, f2, f3, f4, f5, f6) =
      absurd (contradicts _ (rw port at f6) outside)

  own_port-OnlyLocal :
      (n : ℕ) (h : Hostif)
      → get_elem? hs n ≡ some h
      → OnlyLocal cfg hs p (copy cfg (hostif_v4_key h))
  unfolding hostif_v4_key OnlyLocal IsLocal Fields
  own_port-OnlyLocal n h here (f0, f1, f2, f3, to, f5, at_port) =
      inr (inr (inr (n, h, here, to, at_port)))

  hostif-OnlyLocal :
      (n : ℕ) (h : Hostif)
      → p.p_ipv4_isvalid ≡ 1
      → get_elem? hs n ≡ some h
      → All (OnlyLocal cfg hs p) (hostif_entries cfg h)
  unfolding hostif_entries
  hostif-OnlyLocal n h v4 here = elim (Bool-cases h.ipv6_enable) [
    | inl e ↦ rw e (
      own_port-OnlyLocal n h here,
      (
        six-OnlyLocal _ v4 refl,
        (six-OnlyLocal _ v4 refl, (six-OnlyLocal _ v4 refl, (six-OnlyLocal _ v4 refl, tt))),
      ),
    )
    | inr e ↦ rw e (own_port-OnlyLocal n h here, tt)
  ]

  backup-OnlyLocal : All (OnlyLocal cfg hs p) (backup_vip_copy_to_cpu_nos_init cfg)
  unfolding backup_vip_copy_to_cpu_nos_init OnlyLocal IsLocal Fields
  backup-OnlyLocal = elim (Bool-cases (is_zero cfg.backup_vip)) [
    | inl e ↦ rw e tt
    | inr e ↦
        rw e
          ((λ (f0, f1, f2, f3, to, f5, f6). inr (inr (inl (is_zero-≢ cfg.backup_vip e, to)))), tt)
  ]

  cpu-OnlyLocal :
      passes_field p.p_ingress_port (masked cfg.cpu_pcie_port 0x1FF) ≡ false
      → All (OnlyLocal cfg hs p) (receive_from_cpu_nos_init cfg)
  unfolding receive_from_cpu_nos_init
  cpu-OnlyLocal outside = (receive-OnlyLocal _ outside refl, tt)

  link-OnlyLocal :
      p.p_ipv4_isvalid ≡ 1
      → All (OnlyLocal cfg hs p) (receive_from_cpu_lldp_init cfg)
        × All (OnlyLocal cfg hs p) (arp_copy_to_cpu_nos_init cfg)
  unfolding receive_from_cpu_lldp_init arp_copy_to_cpu_nos_init
  link-OnlyLocal v4 =
      ((six-OnlyLocal _ v4 refl, (six-OnlyLocal _ v4 refl, tt)), (six-OnlyLocal _ v4 refl, tt))

  address-OnlyLocal :
      All (OnlyLocal cfg hs p) (mgt_ip_copy_to_cpu_nos_init cfg)
      × All (OnlyLocal cfg hs p) (vip_copy_to_cpu_nos_init cfg)
  unfolding mgt_ip_copy_to_cpu_nos_init vip_copy_to_cpu_nos_init OnlyLocal IsLocal Fields
  address-OnlyLocal = (
    ((λ (f0, f1, f2, f3, to, f5, f6). inl to), tt),
    ((λ (f0, f1, f2, f3, to, f5, f6). inr (inl to)), tt),
  )

  table-OnlyLocal :
      p.p_ipv4_isvalid ≡ 1
      → passes_field p.p_ingress_port (masked cfg.cpu_pcie_port 0x1FF) ≡ false
      → All (OnlyLocal cfg hs p) (process_protocol_packet_table_init cfg hs)
  table-OnlyLocal v4 outside =
      let (lldp, arp) = link-OnlyLocal v4 in
      let (mgt, vip) = address-OnlyLocal in
      All-table (OnlyLocal cfg hs p) cfg hs lldp (cpu-OnlyLocal outside) arp mgt vip
        backup-OnlyLocal (λ n h e. hostif-OnlyLocal n h v4 e)

-- An IPv4 packet from a port other than the CPU's that passes an entry goes to the management
-- address, to the virtual address or its backup, or to an interface's own address on that interface's
-- port.
pub process_protocol_packet_table_init-IsLocal :
    (cfg : PacketCfg) (hs : List Hostif) (p : ProtocolPacket) (n : ℕ) (e : ProtocolEntry)
    → p.p_ipv4_isvalid ≡ 1
    → passes_field p.p_ingress_port (masked cfg.cpu_pcie_port 0x1FF) ≡ false
    → get_elem? (process_protocol_packet_table_init cfg hs) n ≡ some e
    → passes_protocol p e.protocol_key ≡ true
    → IsLocal cfg hs p
unfolding OnlyLocal
process_protocol_packet_table_init-IsLocal cfg hs p n e v4 outside here passed =
    All-get_elem? (OnlyLocal cfg hs p) (process_protocol_packet_table_init cfg hs) n e
      (table-OnlyLocal cfg hs p v4 outside) here (passes_protocol-Fields p e.protocol_key passed)
