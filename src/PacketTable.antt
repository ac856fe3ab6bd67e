-- ===== src/PacketTable.antt =====
-- The table of protocol packets (igw-h/init_setup/switchapi/switch_packet_table.c): which packets the
-- switch hands to the CPU and which it takes from there.
--
-- An entry is kept as the key and the action that the wrapper is given, in the order of the start-up.
-- The smaller `$MATCH_PRIORITY` wins. `data.egress_port` is a `uint16_t`. The addresses that
-- `mgt_ip_and_vip_add` gives to the kernel by `system` are left out, as is the block under `#if 0`.
pub mod Passes
pub mod Cpu
pub mod Local
pub mod Own
mod Examples
use igw_p.Prelude.{
  ℕ, ◌%◌, ◌^◌, Bool, true, false, ◌&&◌, List, [], ◌∷◌, ◌++◌, if◌then◌else◌, replicate,
}
use igw_p.IpType.{
  Ternary, masked, masked_bytes, highest_pri, lowest_pri, zero_bytes, is_zero, passes_field,
  passes_bytes,
}
use igw_p.Hostif.{Hostif}

abbrev pub middle_pri : ℕ
middle_pri = 10

abbrev pub ethertype_arp : ℕ
ethertype_arp = 0x0806

abbrev pub ethertype_ipv4 : ℕ
ethertype_ipv4 = 0x0800

abbrev pub ethertype_lldp : ℕ
ethertype_lldp = 0x88CC

abbrev pub ethertype_ipv6 : ℕ
ethertype_ipv6 = 0x86DD

-- `protocolPacketKey`
pub record ProtocolPacketKey : Type 0 where
  pub priority : ℕ
  pub ipv4_isvalid : Ternary
  pub ipv6_isvalid : Ternary
  pub vxlan_isvalid : Ternary
  pub ethertype : Ternary
  pub dip : Ternary
  pub dip6 : List Ternary
  pub ingress_port : Ternary

-- `memset(&key, 0, sizeof(protocolPacketKey))`
abbrev pub zero_protocol_key : ProtocolPacketKey
zero_protocol_key = record {
  priority = 0;
  ipv4_isvalid = masked 0 0;
  ipv6_isvalid = masked 0 0;
  vxlan_isvalid = masked 0 0;
  ethertype = masked 0 0;
  dip = masked 0 0;
  dip6 = masked_bytes zero_bytes zero_bytes;
  ingress_port = masked 0 0;
}

pub data ProtocolAction : Type 0 where
  receive_from_cpu_lldp : ProtocolAction
  receive_from_cpu_nos : ProtocolAction
  copy_to_cpu_nos : ℕ → ProtocolAction

pub record ProtocolEntry : Type 0 where
  pub protocol_key : ProtocolPacketKey
  pub protocol_action : ProtocolAction

-- `g_cpu_pcie_port`, and the fields of `switch_cfg` that the table reads
pub record PacketCfg : Type 0 where
  pub cpu_pcie_port : ℕ
  pub mgt_ip : ℕ
  pub vip : ℕ
  pub backup_vip : ℕ

abbrev pub receive : ProtocolAction → ProtocolPacketKey → ProtocolEntry
receive a k = record { protocol_key = k; protocol_action = a }

abbrev pub copy : PacketCfg → ProtocolPacketKey → ProtocolEntry
copy cfg k = record {
  protocol_key = k;
  protocol_action = copy_to_cpu_nos (cfg.cpu_pcie_port % 2 ^ 16);
}

unfoldable pub receive_from_cpu_lldp_init : PacketCfg → List ProtocolEntry
receive_from_cpu_lldp_init cfg =
    receive receive_from_cpu_lldp (record zero_protocol_key {
      priority = highest_pri;
      ipv4_isvalid = masked 0 0x1;
      ipv6_isvalid = masked 0 0x1;
      vxlan_isvalid = masked 0 0x1;
      ethertype = masked ethertype_lldp 0xFFFF;
      ingress_port = masked cfg.cpu_pcie_port 0x1FF;
    })
    ∷ copy cfg (record zero_protocol_key {
      priority = lowest_pri;
      ipv4_isvalid = masked 0 0x1;
      ipv6_isvalid = masked 0 0x1;
      vxlan_isvalid = masked 0 0x1;
      ethertype = masked ethertype_lldp 0xFFFF;
    })
    ∷ []

unfoldable pub receive_from_cpu_nos_init : PacketCfg → List ProtocolEntry
receive_from_cpu_nos_init cfg =
    receive receive_from_cpu_nos (record zero_protocol_key {
      priority = middle_pri;
      ingress_port = masked cfg.cpu_pcie_port 0x1FF;
    })
    ∷ []

unfoldable pub arp_copy_to_cpu_nos_init : PacketCfg → List ProtocolEntry
arp_copy_to_cpu_nos_init cfg =
    copy cfg (record zero_protocol_key {
      priority = lowest_pri;
      ipv4_isvalid = masked 0 0x1;
      ipv6_isvalid = masked 0 0x1;
      vxlan_isvalid = masked 0 0x1;
      ethertype = masked ethertype_arp 0xFFFF;
    })
    ∷ []

unfoldable pub mgt_ip_copy_to_cpu_nos_init : PacketCfg → List ProtocolEntry
mgt_ip_copy_to_cpu_nos_init cfg =
    copy cfg (record zero_protocol_key {
      priority = lowest_pri;
      ipv4_isvalid = masked 1 0x1;
      ipv6_isvalid = masked 0 0x1;
      ethertype = masked ethertype_ipv4 0xFFFF;
      dip = masked cfg.mgt_ip 0xFFFFFFFF;
    })
    ∷ []

-- The key that the addresses of `vip` and `backup_vip` share but for the address
vip_key : ℕ → ProtocolPacketKey
vip_key ip = record zero_protocol_key {
  priority = lowest_pri;
  ipv4_isvalid = masked 1 0x1;
  ipv6_isvalid = masked 0 0x1;
  vxlan_isvalid = masked 0 0x1;
  ethertype = masked ethertype_ipv4 0xFFFF;
  dip = masked ip 0xFFFFFFFF;
}

unfoldable pub vip_copy_to_cpu_nos_init : PacketCfg → List ProtocolEntry
unfolding vip_key
vip_copy_to_cpu_nos_init cfg = copy cfg (vip_key cfg.vip) ∷ []

unfoldable pub backup_vip_copy_to_cpu_nos_init : PacketCfg → List ProtocolEntry
unfolding vip_key
backup_vip_copy_to_cpu_nos_init cfg =
    if is_zero cfg.backup_vip then [] else copy cfg (vip_key cfg.backup_vip) ∷ []

-- The key of an interface's IPv4 address
unfoldable pub hostif_v4_key : Hostif → ProtocolPacketKey
hostif_v4_key h = record zero_protocol_key {
  priority = lowest_pri;
  ipv4_isvalid = masked 1 0x1;
  ipv6_isvalid = masked 0 0x1;
  ethertype = masked ethertype_ipv4 0xFFFF;
  dip = masked h.v4addr_ip4 0xFFFFFFFF;
  ingress_port = masked h.dev_port 0x1FF;
}

-- The key of one of an interface's IPv6 addresses
unfoldable pub hostif_v6_key : Hostif → List ℕ → ProtocolPacketKey
hostif_v6_key h ip6_ptr = record zero_protocol_key {
  priority = lowest_pri;
  ipv4_isvalid = masked 0 0x1;
  ipv6_isvalid = masked 1 0x1;
  ethertype = masked ethertype_ipv6 0xFFFF;
  dip6 = masked_bytes ip6_ptr (replicate 16 0xFF);
  ingress_port = masked h.dev_port 0x1FF;
}

unfoldable pub hostif_entries : PacketCfg → Hostif → List ProtocolEntry
unfolding hostif_v4_key hostif_v6_key
hostif_entries cfg h =
    copy cfg (hostif_v4_key h)
    ∷ (if h.ipv6_enable
        then copy cfg (hostif_v6_key h h.ip6)
          ∷ copy cfg (hostif_v6_key h h.ip6_mc)
          ∷ copy cfg (hostif_v6_key h h.ip6_linklocal)
          ∷ copy cfg (hostif_v6_key h h.ip6_linklocal_mc)
          ∷ []
        else [])

unfoldable pub hostif_copy_to_cpu_nos_init : PacketCfg → List Hostif → List ProtocolEntry
unfolding hostif_entries
hostif_copy_to_cpu_nos_init cfg [] = []
hostif_copy_to_cpu_nos_init cfg (h ∷ hs) =
    hostif_entries cfg h ++ hostif_copy_to_cpu_nos_init cfg hs

unfoldable pub process_protocol_packet_table_init : PacketCfg → List Hostif → List ProtocolEntry
unfolding receive_from_cpu_lldp_init receive_from_cpu_nos_init arp_copy_to_cpu_nos_init
    mgt_ip_copy_to_cpu_nos_init vip_copy_to_cpu_nos_init backup_vip_copy_to_cpu_nos_init
    hostif_copy_to_cpu_nos_init
process_protocol_packet_table_init cfg hostifs =
    receive_from_cpu_lldp_init cfg
    ++ receive_from_cpu_nos_init cfg
    ++ arp_copy_to_cpu_nos_init cfg
    ++ mgt_ip_copy_to_cpu_nos_init cfg
    ++ vip_copy_to_cpu_nos_init cfg
    ++ backup_vip_copy_to_cpu_nos_init cfg
    ++ hostif_copy_to_cpu_nos_init cfg hostifs

-- What the table reads of a packet
pub record ProtocolPacket : Type 0 where
  pub p_ipv4_isvalid : ℕ
  pub p_ipv6_isvalid : ℕ
  pub p_vxlan_isvalid : ℕ
  pub p_ethertype : ℕ
  pub p_dip : ℕ
  pub p_dip6 : List ℕ
  pub p_ingress_port : ℕ

unfoldable pub passes_protocol : ProtocolPacket → ProtocolPacketKey → Bool
passes_protocol p k =
    passes_field p.p_ipv4_isvalid k.ipv4_isvalid
    && (passes_field p.p_ipv6_isvalid k.ipv6_isvalid
        && (passes_field p.p_vxlan_isvalid k.vxlan_isvalid
            && (passes_field p.p_ethertype k.ethertype
                && (passes_field p.p_dip k.dip
                    && (passes_bytes p.p_dip6 k.dip6
                        && passes_field p.p_ingress_port k.ingress_port)))))
