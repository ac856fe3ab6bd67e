-- ===== src/PacketTable/Examples.antt =====
-- A small configuration, and packets that come in on its ports.
use igw_p.Prelude.{ℕ, ◌<◌, true, List, [], ◌∷◌, ◌≡◌, refl, some, inl, get_elem?, replicate}
use igw_p.Hostif.{Hostif}
use igw_p.PacketTable.{
  PacketCfg, ProtocolPacket, ProtocolEntry, receive_from_cpu_nos, copy, hostif_v4_key,
  passes_protocol, process_protocol_packet_table_init,
}
use igw_p.PacketTable.Cpu.{process_protocol_packet_table_init-received}
use igw_p.PacketTable.Local.{IsLocal, process_protocol_packet_table_init-IsLocal}
use igw_p.PacketTable.Own.{IsFor, Copied, process_protocol_packet_table_init-Copied}

abbrev one_hostif : Hostif
one_hostif = record {
  intf_name = "eth1";
  mac = record { b0 = 2; b1 = 0; b2 = 0; b3 = 0; b4 = 0; b5 = 1 };
  v4addr_len = 31;
  v4addr_ip4 = 0x0A000101;
  ip6 = replicate 16 1;
  ip6_mc = replicate 16 2;
  ip6_linklocal = replicate 16 3;
  ip6_linklocal_mc = replicate 16 4;
  ip6_prefix_len = 64;
  admin_state = true;
  fake_fp_port = 1;
  fp_port = 0;
  dev_port = 128;
  gw_ip = 0x0A000100;
  ipv6_enable = true;
}

abbrev packet_cfg : PacketCfg
packet_cfg = record { cpu_pcie_port = 320; mgt_ip = 0x0A000901; vip = 1; backup_vip = 2 }

-- To the interface's own address, on the port given
abbrev to_hostif : ℕ → ProtocolPacket
to_hostif port = record {
  p_ipv4_isvalid = 1;
  p_ipv6_isvalid = 0;
  p_vxlan_isvalid = 0;
  p_ethertype = 0x0800;
  p_dip = 0x0A000101;
  p_dip6 = replicate 16 0;
  p_ingress_port = port;
}

abbrev table : List ProtocolEntry
unfolding process_protocol_packet_table_init
table = process_protocol_packet_table_init packet_cfg (one_hostif ∷ [])

abbrev own_entry : ProtocolEntry
unfolding hostif_v4_key
own_entry = copy packet_cfg (hostif_v4_key one_hostif)

process_protocol_packet_table_init-received_example :
    (m : ℕ) × (r : ProtocolEntry) × (get_elem?
        (process_protocol_packet_table_init packet_cfg (one_hostif ∷ []))
        m
      ≡ some r)
    × (r.protocol_action ≡ receive_from_cpu_nos)
    × (passes_protocol (to_hostif 320) r.protocol_key ≡ true)
    × (r.protocol_key.priority < own_entry.protocol_key.priority)
unfolding process_protocol_packet_table_init
process_protocol_packet_table_init-received_example =
    process_protocol_packet_table_init-received packet_cfg (one_hostif ∷ []) (to_hostif 320) 7
      own_entry refl refl refl refl

process_protocol_packet_table_init-IsLocal_example :
    IsLocal packet_cfg (one_hostif ∷ []) (to_hostif 128)
unfolding process_protocol_packet_table_init passes_protocol
process_protocol_packet_table_init-IsLocal_example =
    process_protocol_packet_table_init-IsLocal packet_cfg (one_hostif ∷ []) (to_hostif 128) 7
      own_entry refl refl refl refl

to_hostif-IsFor : IsFor (to_hostif 128) one_hostif
unfolding IsFor
to_hostif-IsFor = (refl, refl, inl (refl, refl, refl, refl))

process_protocol_packet_table_init-Copied_example :
    Copied packet_cfg
      (to_hostif 128)
      (process_protocol_packet_table_init packet_cfg (one_hostif ∷ []))
process_protocol_packet_table_init-Copied_example =
    process_protocol_packet_table_init-Copied packet_cfg (one_hostif ∷ []) (to_hostif 128) 0
      one_hostif refl to_hostif-IsFor
