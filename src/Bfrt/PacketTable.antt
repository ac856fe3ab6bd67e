-- ===== src/Bfrt/PacketTable.antt =====
-- The wrappers of the table of protocol packets
-- (igw-h/init_setup/switchbfrt/bf_process_protocl_packet_table.c).

use igw_p.Prelude.{ℕ, List, [], ◌∷◌, map}
use igw_p.Bfrt.{BfEntry, Setting, set_field, bytes_with_mask}
use igw_p.Bfrt.Setup.{TableSetup, data_of, ternary, plain, with_action, entry, Step, set_up, upsert}
use igw_p.PacketTable.{
  ProtocolPacketKey, ProtocolEntry, receive_from_cpu_lldp, receive_from_cpu_nos, copy_to_cpu_nos,
  process_protocol_packet_table_init, PacketCfg,
}
use igw_p.Hostif.{Hostif}

-- `protocol_packet_table_setup`
unfoldable pub protocol_packet_table_setup : TableSetup
protocol_packet_table_setup = record {
  setup_table = "P02_Ingress.process_local_packet.process_protocol_packet";
  action_names =
      "P02_Ingress.process_local_packet.receive_from_cpu_lldp"
      ∷ "P02_Ingress.process_local_packet.receive_from_cpu_nos"
      ∷ "P02_Ingress.process_local_packet.copy_to_cpu_nos" ∷ [];
  key_names =
      "$MATCH_PRIORITY" ∷ "hdr.ipv4.$valid" ∷ "hdr.ipv6.$valid" ∷ "hdr.vxlan.$valid"
      ∷ "hdr.ethernet.etherType" ∷ "hdr.ipv4.dstAddr" ∷ "hdr.ipv6.dstAddr"
      ∷ "ig_intr_md.ingress_port" ∷ [];
  data_names = data_of "P02_Ingress.process_local_packet.copy_to_cpu_nos" "egress_port" ∷ [];
}

-- `protoclPacket_key_setup`
pub protocol_packet_key_setup : ProtocolPacketKey → List Setting
protocol_packet_key_setup k =
    plain "$MATCH_PRIORITY" k.priority
    ∷ ternary "hdr.ipv4.$valid" k.ipv4_isvalid
    ∷ ternary "hdr.ipv6.$valid" k.ipv6_isvalid
    ∷ ternary "hdr.vxlan.$valid" k.vxlan_isvalid
    ∷ ternary "hdr.ethernet.etherType" k.ethertype
    ∷ ternary "hdr.ipv4.dstAddr" k.dip
    ∷ set_field "hdr.ipv6.dstAddr"
        (bytes_with_mask (map (λ t. t.value) k.dip6) (map (λ t. t.mask) k.dip6))
    ∷ ternary "ig_intr_md.ingress_port" k.ingress_port
    ∷ []

-- `data_setup_for_copy_to_cpu`
data_setup_for_copy_to_cpu : ℕ → List Setting
data_setup_for_copy_to_cpu egress_port = plain "egress_port" egress_port ∷ []

-- `__entry_add_with_copy_to_cpu_nos`
unfoldable pub entry_copy_to_cpu_nos : ProtocolPacketKey → ℕ → BfEntry
unfolding protocol_packet_key_setup data_setup_for_copy_to_cpu
entry_copy_to_cpu_nos k egress_port =
    entry "P02_Ingress.process_local_packet.process_protocol_packet" (protocol_packet_key_setup k) (
      with_action "P02_Ingress.process_local_packet.copy_to_cpu_nos"
        (data_setup_for_copy_to_cpu egress_port))

-- `__entry_add_with_receive_from_cpu_nos`
unfoldable pub entry_receive_from_cpu_nos : ProtocolPacketKey → BfEntry
unfolding protocol_packet_key_setup
entry_receive_from_cpu_nos k =
    entry "P02_Ingress.process_local_packet.process_protocol_packet" (protocol_packet_key_setup k)
      (with_action "P02_Ingress.process_local_packet.receive_from_cpu_nos" ([]))

-- `__entry_add_with_receive_from_cpu_lldp`
unfoldable pub entry_receive_from_cpu_lldp : ProtocolPacketKey → BfEntry
unfolding protocol_packet_key_setup
entry_receive_from_cpu_lldp k =
    entry "P02_Ingress.process_local_packet.process_protocol_packet" (protocol_packet_key_setup k)
      (with_action "P02_Ingress.process_local_packet.receive_from_cpu_lldp" ([]))

-- `entry_add_with_receive_from_cpu_lldp`, `.._nos` and `entry_add_with_copy_to_cpu_nos`
unfoldable pub protocol_step : ProtocolEntry → Step
unfolding entry_copy_to_cpu_nos entry_receive_from_cpu_nos entry_receive_from_cpu_lldp
protocol_step e = elim e.protocol_action [
  | receive_from_cpu_lldp ↦ upsert (entry_receive_from_cpu_lldp e.protocol_key)
  | receive_from_cpu_nos ↦ upsert (entry_receive_from_cpu_nos e.protocol_key)
  | copy_to_cpu_nos egress_port ↦ upsert (entry_copy_to_cpu_nos e.protocol_key egress_port)
]

-- `process_protocol_packet_table_init`
unfoldable pub protocol_packet_steps : PacketCfg → List Hostif → List Step
unfolding protocol_step protocol_packet_table_setup
protocol_packet_steps cfg hostifs =
    set_up protocol_packet_table_setup
    ∷ map protocol_step (process_protocol_packet_table_init cfg hostifs)
