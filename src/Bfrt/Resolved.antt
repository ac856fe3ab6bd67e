-- ===== src/Bfrt/Resolved.antt =====
-- The set-ups and the entries of the start-up's components (igw-h/init_setup/switchbfrt): each entry
-- names what its own file's set-up resolved.
use igw_p.Prelude.{ℕ, true, List, [], ◌∷◌, ◌++◌, map, ◌≡◌, refl}
use igw_p.IpType.{
  SwitchCfgIp, Action, IgwIpTypeKey, ip_from_internet_in_hit, ip_from_internet_in_dl_hit,
  ip_from_internet_out_hit, ip_from_internet_out_dl_hit, need_drop,
}
use igw_p.IpType.Table.{igw_ip_type_table_init, pipelinefix_init}
use igw_p.Ecmp.{Call, profile_add, selector_entry, group_add, ecmp_group02_init}
use igw_p.EipDl.{eip_in_ecmp_dl_table_init, eip_out_ecmp_dl_table_init}
use igw_p.PacketTable.{
  PacketCfg, ProtocolPacketKey, ProtocolAction, process_protocol_packet_table_init,
  receive_from_cpu_lldp, receive_from_cpu_nos, copy_to_cpu_nos,
}
use igw_p.Hostif.{Hostif}
use igw_p.Bfrt.Setup.{TableSetup, resolves}
use igw_p.Bfrt.Mirror
use igw_p.Bfrt.JdVxlan
use igw_p.Bfrt.IpTypeTable
use igw_p.Bfrt.PacketTable as Wrappers
use igw_p.Bfrt.Eip
use igw_p.Bfrt.Ecmp as Groups
use igw_p.Bfrt.Startup.{StartCfg, start_up, eip_ecmp_dl_steps, vxlan_cfg}
use igw_p.Bfrt.Resolve.{resolved, resolved-append, resolved-map, resolved-map_all}

mirror-resolved : (m : ℕ) → resolved [] (Mirror.mirror_table_init m) ≡ true
unfolding resolved resolves Mirror.mirror_table_init
mirror-resolved m = refl

vxlan_in-resolved :
    (c : JdVxlan.VxlanCfg) → resolved [] (JdVxlan.eip_in_jd_vxlan_table_init c) ≡ true
unfolding resolved resolves JdVxlan.eip_in_jd_vxlan_table_init
vxlan_in-resolved c = refl

vxlan_out-resolved :
    (c : JdVxlan.VxlanCfg) → resolved [] (JdVxlan.eip_out_jd_vxlan_table_init c) ≡ true
unfolding resolved resolves JdVxlan.eip_out_jd_vxlan_table_init
vxlan_out-resolved c = refl

meter-resolved : resolved [] Mirror.meter_drop_table_init ≡ true
unfolding resolved resolves Mirror.meter_drop_table_init
meter-resolved = refl

acl-resolved : resolved [] Mirror.acl_table_init ≡ true
unfolding resolved resolves Mirror.acl_table_init
acl-resolved = refl

ip_type_step-resolved :
    (k : IgwIpTypeKey) (a : Action)
    → resolved
        (IpTypeTable.igw_ip_type_table_setup ∷ [])
        (IpTypeTable.ip_type_step (record { key = k; action = a }) ∷ [])
      ≡ true
unfolding resolved resolves IpTypeTable.ip_type_step IpTypeTable.igw_ip_type_table_setup
ip_type_step-resolved k (ip_from_internet_in_hit p) = refl
ip_type_step-resolved k (ip_from_internet_in_dl_hit p) = refl
ip_type_step-resolved k (ip_from_internet_out_hit p) = refl
ip_type_step-resolved k (ip_from_internet_out_dl_hit p) = refl
ip_type_step-resolved k need_drop = refl

ip_type-resolved : (cfg : SwitchCfgIp) → resolved [] (IpTypeTable.ip_type_steps cfg) ≡ true
unfolding resolved resolves IpTypeTable.ip_type_steps IpTypeTable.pipeline_step pipelinefix_init
ip_type-resolved cfg =
    resolved-map (IpTypeTable.igw_ip_type_table_setup ∷ []) IpTypeTable.ip_type_step
      (igw_ip_type_table_init cfg) _ (λ e. ip_type_step-resolved e.key e.action) refl

eip_in-resolved : (cfg : SwitchCfgIp) → resolved [] (Eip.eip_in_steps cfg) ≡ true
unfolding resolved resolves Eip.eip_in_steps Eip.member_step_in Eip.group_steps_in
eip_in-resolved cfg =
    let t = eip_in_ecmp_dl_table_init cfg in
    resolved-map (Eip.eip_in_action_profile_table_setup ∷ []) Eip.member_step_in t.profile
      (Eip.group_steps_in t) (λ x. refl) refl

eip_out-resolved : (cfg : SwitchCfgIp) → resolved [] (Eip.eip_out_steps cfg) ≡ true
unfolding resolved resolves Eip.eip_out_steps Eip.member_step_out Eip.group_steps_out
eip_out-resolved cfg =
    let t = eip_out_ecmp_dl_table_init cfg in
    resolved-map (Eip.eip_out_action_profile_table_setup ∷ []) Eip.member_step_out t.profile
      (Eip.group_steps_out t) (λ x. refl) refl

group_setups : List TableSetup
group_setups =
    Groups.p02_ecmp_group_table_setup ∷ Groups.ecmp_group_selector_table_setup
    ∷ Groups.ecmp_group_action_profile_table_setup ∷ []

call_step-resolved : (c : Call) → resolved group_setups (Groups.call_step c ∷ []) ≡ true
unfolding resolved resolves Groups.call_step group_setups Groups.p02_ecmp_group_table_setup
    Groups.ecmp_group_selector_table_setup Groups.ecmp_group_action_profile_table_setup
call_step-resolved (profile_add memberid egress_port) = refl
call_step-resolved (selector_entry group size ids statuses add) = refl
call_step-resolved (group_add priority egr_pipeline shared shared_mask group) = refl

calls-resolved : (calls : List Call) → resolved group_setups (map Groups.call_step calls) ≡ true
unfolding resolved
calls-resolved calls = resolved-map_all group_setups Groups.call_step calls call_step-resolved

ecmp-resolved : (m : ℕ) → resolved [] (Groups.ecmp_group02_steps m) ≡ true
unfolding resolved Groups.ecmp_group02_steps group_setups
ecmp-resolved m = calls-resolved (ecmp_group02_init m)

-- In the start-up, every table, action and field that an entry names was resolved by a set-up before.
pub start_up-resolved : (cfg : StartCfg) → resolved [] (start_up cfg) ≡ true
unfolding start_up eip_ecmp_dl_steps
start_up-resolved cfg =
    let c = cfg.ip_cfg in
    let v = vxlan_cfg cfg in
    let m = cfg.hardware_model in
    resolved-append [] (Mirror.mirror_table_init m) _ (mirror-resolved m) (
      resolved-append [] (IpTypeTable.ip_type_steps c) _ (ip_type-resolved c) (
        resolved-append [] (JdVxlan.eip_in_jd_vxlan_table_init v) _ (vxlan_in-resolved v) (
          resolved-append [] (JdVxlan.eip_out_jd_vxlan_table_init v) _ (vxlan_out-resolved v) (
            resolved-append [] (Eip.eip_in_steps c ++ Eip.eip_out_steps c) _
              (resolved-append [] (Eip.eip_in_steps c) (Eip.eip_out_steps c) (eip_in-resolved c)
                (eip_out-resolved c))
              (resolved-append [] Mirror.meter_drop_table_init _ meter-resolved (
                resolved-append [] Mirror.acl_table_init (Groups.ecmp_group02_steps m) acl-resolved
                  (ecmp-resolved m)))))))

protocol_step-resolved :
    (k : ProtocolPacketKey) (a : ProtocolAction)
    → resolved
        (Wrappers.protocol_packet_table_setup ∷ [])
        (Wrappers.protocol_step (record { protocol_key = k; protocol_action = a }) ∷ [])
      ≡ true
unfolding resolved resolves Wrappers.protocol_step Wrappers.protocol_packet_table_setup
protocol_step-resolved k receive_from_cpu_lldp = refl
protocol_step-resolved k receive_from_cpu_nos = refl
protocol_step-resolved k (copy_to_cpu_nos egress_port) = refl

-- In the run that fills the table of protocol packets, too.
pub protocol_packet_steps-resolved :
    (cfg : PacketCfg) (hostifs : List Hostif)
    → resolved [] (Wrappers.protocol_packet_steps cfg hostifs) ≡ true
unfolding resolved Wrappers.protocol_packet_steps
protocol_packet_steps-resolved cfg hostifs =
    resolved-map_all (Wrappers.protocol_packet_table_setup ∷ []) Wrappers.protocol_step
      (process_protocol_packet_table_init cfg hostifs)
      (λ e. protocol_step-resolved e.protocol_key e.protocol_action)
