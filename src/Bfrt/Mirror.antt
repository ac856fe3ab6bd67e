-- ===== src/Bfrt/Mirror.antt =====
-- The tables that the start-up fills with a few fixed entries: mirroring, meters, the access list of
-- the egress, and the outer header of elastic addresses (igw-h/init_setup/switchapi/
-- switch_mirror_table.c, switch_meter_drop_table.c, switch_acl_table_init.c,
-- switch_eip_{in,out}_jd_vxlan_table.c, over their wrappers in switchbfrt).

use igw_p.Prelude.{ℕ, Bool, true, List, [], ◌∷◌, if◌then◌else◌, ◌==◌}
use igw_p.Bfrt.{BfEntry, Setting, set_field, boolean, text}
use igw_p.Bfrt.Setup.{TableSetup, data_of, ternary, plain, with_action, entry, Step, set_up, write}
use igw_p.IpType.{Ternary, masked}
use igw_p.Ecmp.{wedge_100bf_32x}
use Prim.Native.String.{String}

-- `mirror_drop_table_setup`
unfoldable pub mirror_drop_table_setup : TableSetup
mirror_drop_table_setup = record {
  setup_table = "P02_Egress.mirror.mirror_drop";
  action_names = "P02_Egress.mirror.drop_packet" ∷ [];
  key_names = "meter_packet_color" ∷ [];
  data_names = [];
}

-- `mirror_drop_key_setup`
mirror_drop_key_setup : ℕ → List Setting
mirror_drop_key_setup color = plain "meter_packet_color" color ∷ []

-- `entry_add_with_mirror_drop`
unfoldable pub entry_add_with_mirror_drop : ℕ → BfEntry
unfolding mirror_drop_key_setup
entry_add_with_mirror_drop color =
    entry "P02_Egress.mirror.mirror_drop" (mirror_drop_key_setup color)
      (with_action "P02_Egress.mirror.drop_packet" ([]))

-- `mirror_meter_table_setup`
unfoldable pub mirror_meter_table_setup : TableSetup
mirror_meter_table_setup = record {
  setup_table = "P02_Egress.mirror.mirror";
  action_names = "P02_Egress.mirror.clone_to_cpu" ∷ [];
  key_names = "meta.mirror.flag" ∷ [];
  data_names = [];
}

-- `mirror_meter_key_setup`
mirror_meter_key_setup : ℕ → List Setting
mirror_meter_key_setup mirror_flag = plain "meta.mirror.flag" mirror_flag ∷ []

-- `entry_add_with_mirror_clone_to_cpu`
unfoldable pub entry_add_with_mirror_clone_to_cpu : ℕ → BfEntry
unfolding mirror_meter_key_setup
entry_add_with_mirror_clone_to_cpu mirror_flag =
    entry "P02_Egress.mirror.mirror" (mirror_meter_key_setup mirror_flag)
      (with_action "P02_Egress.mirror.clone_to_cpu" ([]))

-- `eip_in_meter_drop_table_setup`
unfoldable pub eip_in_meter_drop_table_setup : TableSetup
eip_in_meter_drop_table_setup = record {
  setup_table = "P13_Ingress.eip_in_shared_meter.ratelimit_drop";
  action_names = "P13_Ingress.eip_in_shared_meter.drop_packet" ∷ [];
  key_names = "hdr.bg_md.meter_packet_color" ∷ [];
  data_names = [];
}

-- `meter_drop_key_setup`
meter_drop_key_setup : ℕ → List Setting
meter_drop_key_setup color = plain "hdr.bg_md.meter_packet_color" color ∷ []

-- `entry_add_with_eip_in_drop_packet`
unfoldable pub entry_add_with_eip_in_drop_packet : ℕ → BfEntry
unfolding meter_drop_key_setup
entry_add_with_eip_in_drop_packet color =
    entry "P13_Ingress.eip_in_shared_meter.ratelimit_drop" (meter_drop_key_setup color)
      (with_action "P13_Ingress.eip_in_shared_meter.drop_packet" ([]))

-- `mirror_rl_table_setup`
unfoldable pub mirror_rl_table_setup : TableSetup
mirror_rl_table_setup = record {
  setup_table = "P02_Egress.mirror.mirror_rl";
  action_names = "P02_Egress.mirror.ratelimit" ∷ [];
  key_names = "meta.mirror.flag" ∷ [];
  data_names =
      data_of "P02_Egress.mirror.ratelimit" "$METER_SPEC_CIR_PPS"
      ∷ data_of "P02_Egress.mirror.ratelimit" "$METER_SPEC_PIR_PPS"
      ∷ data_of "P02_Egress.mirror.ratelimit" "$METER_SPEC_CBS_PKTS"
      ∷ data_of "P02_Egress.mirror.ratelimit" "$METER_SPEC_PBS_PKTS"
      ∷ [];
}

-- `mirror_rl_Data`
pub record MirrorRlData : Type 0 where
  pub cir_pps : ℕ
  pub pir_pps : ℕ
  pub cbs_pkts : ℕ
  pub pbs_pkts : ℕ

-- `mirror_rl_key_setup`
mirror_rl_key_setup : ℕ → List Setting
mirror_rl_key_setup mirror_flag = plain "meta.mirror.flag" mirror_flag ∷ []

-- `data_setup_for_mirror_rl`
data_setup_for_mirror_rl : MirrorRlData → List Setting
data_setup_for_mirror_rl v =
    plain "$METER_SPEC_CIR_PPS" v.cir_pps
    ∷ plain "$METER_SPEC_PIR_PPS" v.pir_pps
    ∷ plain "$METER_SPEC_CBS_PKTS" v.cbs_pkts
    ∷ plain "$METER_SPEC_PBS_PKTS" v.pbs_pkts
    ∷ []

-- `entry_add_with_mirror_rl`
unfoldable pub entry_add_with_mirror_rl : ℕ → MirrorRlData → BfEntry
unfolding mirror_rl_key_setup data_setup_for_mirror_rl
entry_add_with_mirror_rl mirror_flag v =
    entry "P02_Egress.mirror.mirror_rl" (mirror_rl_key_setup mirror_flag)
      (with_action "P02_Egress.mirror.ratelimit" (data_setup_for_mirror_rl v))

-- `mirror_cfg_table_setup`
unfoldable pub mirror_cfg_table_setup : TableSetup
mirror_cfg_table_setup = record {
  setup_table = "$mirror.cfg";
  action_names = "$normal" ∷ [];
  key_names = "$sid" ∷ [];
  data_names =
      data_of "$normal" "$direction"
      ∷ data_of "$normal" "$ucast_egress_port"
      ∷ data_of "$normal" "$ucast_egress_port_valid"
      ∷ data_of "$normal" "$session_enable"
      ∷ data_of "$normal" "$max_pkt_len"
      ∷ [];
}

-- `normalData`
pub record NormalData : Type 0 where
  pub session_enable : Bool
  pub direction : String
  pub ucast_egress_port : ℕ
  pub ucast_egress_port_valid : Bool
  pub max_pkt_len : ℕ

-- `mirror_cfg_key_setup`
mirror_cfg_key_setup : ℕ → List Setting
mirror_cfg_key_setup sid = plain "$sid" sid ∷ []

-- `data_setup_for_normal`
data_setup_for_normal : NormalData → List Setting
data_setup_for_normal v =
    plain "$ucast_egress_port" v.ucast_egress_port
    ∷ plain "$max_pkt_len" v.max_pkt_len
    ∷ set_field "$session_enable" (boolean v.session_enable)
    ∷ set_field "$ucast_egress_port_valid" (boolean v.ucast_egress_port_valid)
    ∷ set_field "$direction" (text v.direction)
    ∷ []

-- `entry_add_with_normal`
unfoldable pub entry_add_with_normal : ℕ → NormalData → BfEntry
unfolding mirror_cfg_key_setup data_setup_for_normal
entry_add_with_normal sid v =
    entry "$mirror.cfg" (mirror_cfg_key_setup sid) (with_action "$normal" (data_setup_for_normal v))

-- `egress_acl_table_setup`
unfoldable pub egress_acl_table_setup : TableSetup
egress_acl_table_setup = record {
  setup_table = "P02_Egress.egress_system_acl.egress_system_acl";
  action_names = "P02_Egress.egress_system_acl.system_acl_drop_packet" ∷ [];
  key_names =
      "$MATCH_PRIORITY" ∷ "hdr.bg_md.meter_packet_color" ∷ "hdr.ipv4.$valid" ∷ "hdr.bg_md.need_drop"
      ∷ [];
  data_names = [];
}

-- `egressAclKey`
pub record EgressAclKey : Type 0 where
  pub priority : ℕ
  pub ipv4_isvalid : Ternary
  pub meter_packet_color : Ternary
  pub need_drop : Ternary

-- `egressAcl_key_setup`
egress_acl_key_setup : EgressAclKey → List Setting
egress_acl_key_setup k =
    plain "$MATCH_PRIORITY" k.priority
    ∷ ternary "hdr.ipv4.$valid" k.ipv4_isvalid
    ∷ ternary "hdr.bg_md.meter_packet_color" k.meter_packet_color
    ∷ ternary "hdr.bg_md.need_drop" k.need_drop
    ∷ []

-- `add_with_system_acl_drop_packet`
unfoldable pub add_with_system_acl_drop_packet : EgressAclKey → BfEntry
unfolding egress_acl_key_setup
add_with_system_acl_drop_packet k =
    entry "P02_Egress.egress_system_acl.egress_system_acl" (egress_acl_key_setup k)
      (with_action "P02_Egress.egress_system_acl.system_acl_drop_packet" ([]))

-- `mirror_table_init`
unfoldable pub mirror_table_init : ℕ → List Step
unfolding mirror_drop_table_setup mirror_meter_table_setup mirror_rl_table_setup
    mirror_cfg_table_setup entry_add_with_mirror_drop entry_add_with_mirror_clone_to_cpu
    entry_add_with_mirror_rl entry_add_with_normal
mirror_table_init hardware_model =
    set_up mirror_drop_table_setup
    ∷ write (entry_add_with_mirror_drop 3) true
    ∷ set_up mirror_meter_table_setup
    ∷ write (entry_add_with_mirror_clone_to_cpu 1) true
    ∷ set_up mirror_rl_table_setup
    ∷ write
        (entry_add_with_mirror_rl 1
          (record { cir_pps = 5000; pir_pps = 5000; cbs_pkts = 5000; pbs_pkts = 5000 }))
        true
    ∷ set_up mirror_cfg_table_setup
    ∷ write
        (entry_add_with_normal 10 (record {
          session_enable = true;
          direction = "BOTH";
          ucast_egress_port = if hardware_model == wedge_100bf_32x then 192 else 320;
          ucast_egress_port_valid = true;
          max_pkt_len = 1600;
        }))
        true
    ∷ []

-- `meter_drop_table_init`
unfoldable pub meter_drop_table_init : List Step
unfolding eip_in_meter_drop_table_setup entry_add_with_eip_in_drop_packet
meter_drop_table_init =
    set_up eip_in_meter_drop_table_setup ∷ write (entry_add_with_eip_in_drop_packet 3) true ∷ []

-- `acl_table_init`
unfoldable pub acl_table_init : List Step
unfolding egress_acl_table_setup add_with_system_acl_drop_packet
acl_table_init =
    set_up egress_acl_table_setup
    ∷ write
        (add_with_system_acl_drop_packet (record {
          priority = 20;
          ipv4_isvalid = masked 1 0x1;
          meter_packet_color = masked 0 0;
          need_drop = masked 1 0x1;
        }))
        true
    ∷ write
        (add_with_system_acl_drop_packet (record {
          priority = 0;
          ipv4_isvalid = masked 0 0;
          meter_packet_color = masked 3 0x3;
          need_drop = masked 0 0;
        }))
        true
    ∷ []
