-- ===== src/Bfrt/IpTypeTable.antt =====
-- The wrappers of the table that sorts packets, and of the one that fixes the pipeline
-- (igw-h/init_setup/switchbfrt/bf_igw_ip_type_table.c, bf_pipeline_fix.c).

use igw_p.Prelude.{ℕ, true, List, [], ◌∷◌, ◌++◌, map}
use igw_p.Bfrt.{BfEntry, Setting, set_field, bytes_with_mask}
use igw_p.Bfrt.Setup.{TableSetup, data_of, ternary, plain, with_action, entry, Step, set_up, write}
use igw_p.IpType.{
  SwitchCfgIp, Entry, IgwIpTypeKey, Action, ip_from_internet_in_hit, ip_from_internet_in_dl_hit,
  ip_from_internet_out_hit, ip_from_internet_out_dl_hit, need_drop,
}
use igw_p.IpType.Table.{igw_ip_type_table_init, pipelinefix_init, SetPipelineEntry}

-- `igw_ip_type_table_setup`
unfoldable pub igw_ip_type_table_setup : TableSetup
igw_ip_type_table_setup = record {
  setup_table = "P02_Ingress.igw_ip_type.igw_ip_type";
  action_names =
      "P02_Ingress.igw_ip_type.ip_from_internet_in_hit"
      ∷ "P02_Ingress.igw_ip_type.ip_from_internet_in_dl_hit"
      ∷ "P02_Ingress.igw_ip_type.ip_from_internet_out_hit"
      ∷ "P02_Ingress.igw_ip_type.ip_from_internet_out_dl_hit" ∷ "P02_Ingress.igw_ip_type.need_drop"
      ∷ [];
  key_names =
      "$MATCH_PRIORITY" ∷ "hdr.ipv4.$valid" ∷ "hdr.ipv4.dstAddr" ∷ "hdr.vxlan.$valid"
      ∷ "hdr.inner_ipv4.$valid" ∷ "hdr.inner_ipv4.dstAddr" ∷ "hdr.inner_ipv6.$valid"
      ∷ "inner_ipv6_dstaddr" ∷ "inner_ipv6_srcaddr" ∷ "meta.tunnel.vxlan_type" ∷ "hdr.vxlan.tof"
      ∷ "hdr.ipv6.$valid" ∷ "hdr.ipv6.dstAddr" ∷ [];
  data_names =
      data_of "P02_Ingress.igw_ip_type.ip_from_internet_in_hit" "egr_pipeline"
      ∷ data_of "P02_Ingress.igw_ip_type.ip_from_internet_in_dl_hit" "egr_pipeline"
      ∷ data_of "P02_Ingress.igw_ip_type.ip_from_internet_out_hit" "egr_pipeline"
      ∷ data_of "P02_Ingress.igw_ip_type.ip_from_internet_out_dl_hit" "egr_pipeline"
      ∷ [];
}

-- `igwIpType_key_setup`
unfoldable pub igw_ip_type_key_setup : IgwIpTypeKey → List Setting
igw_ip_type_key_setup k =
    plain "$MATCH_PRIORITY" k.priority
    ∷ ternary "hdr.ipv4.$valid" k.ipv4_isvalid
    ∷ ternary "hdr.ipv4.dstAddr" k.ipv4_dstaddr
    ∷ ternary "hdr.vxlan.$valid" k.vxlan_isvalid
    ∷ ternary "hdr.inner_ipv4.$valid" k.inner_ipv4_isvalid
    ∷ ternary "hdr.inner_ipv4.dstAddr" k.inner_ipv4_dstaddr
    ∷ ternary "hdr.inner_ipv6.$valid" k.inner_ipv6_isvalid
    ∷ ternary "inner_ipv6_dstaddr" k.inner_ipv6_dstaddr
    ∷ ternary "inner_ipv6_srcaddr" k.inner_ipv6_srcaddr
    ∷ ternary "meta.tunnel.vxlan_type" k.vxlan_type
    ∷ ternary "hdr.vxlan.tof" k.vxlan_tof
    ∷ ternary "hdr.ipv6.$valid" k.ipv6_isvalid
    ∷ set_field "hdr.ipv6.dstAddr"
        (bytes_with_mask (map (λ t. t.value) k.ipv6_dstaddr) (map (λ t. t.mask) k.ipv6_dstaddr))
    ∷ []

-- `data_setup_for_internet_in_hit`
data_setup_for_internet_in_hit : ℕ → List Setting
data_setup_for_internet_in_hit egr_pipeline = plain "egr_pipeline" egr_pipeline ∷ []

-- `data_setup_for_internet_in_dl_hit`
data_setup_for_internet_in_dl_hit : ℕ → List Setting
data_setup_for_internet_in_dl_hit egr_pipeline = plain "egr_pipeline" egr_pipeline ∷ []

-- `data_setup_for_internet_out_hit`
data_setup_for_internet_out_hit : ℕ → List Setting
data_setup_for_internet_out_hit egr_pipeline = plain "egr_pipeline" egr_pipeline ∷ []

-- `data_setup_for_internet_out_dl_hit`
data_setup_for_internet_out_dl_hit : ℕ → List Setting
data_setup_for_internet_out_dl_hit egr_pipeline = plain "egr_pipeline" egr_pipeline ∷ []

-- `entry_add_with_ip_from_internet_in_hit`
unfoldable pub entry_add_with_ip_from_internet_in_hit : IgwIpTypeKey → ℕ → BfEntry
unfolding igw_ip_type_key_setup data_setup_for_internet_in_hit
entry_add_with_ip_from_internet_in_hit k egr_pipeline =
    entry "P02_Ingress.igw_ip_type.igw_ip_type" (igw_ip_type_key_setup k) (
      with_action "P02_Ingress.igw_ip_type.ip_from_internet_in_hit"
        (data_setup_for_internet_in_hit egr_pipeline))

-- `entry_add_with_ip_from_internet_in_dl_hit`
unfoldable pub entry_add_with_ip_from_internet_in_dl_hit : IgwIpTypeKey → ℕ → BfEntry
unfolding igw_ip_type_key_setup data_setup_for_internet_in_dl_hit
entry_add_with_ip_from_internet_in_dl_hit k egr_pipeline =
    entry "P02_Ingress.igw_ip_type.igw_ip_type" (igw_ip_type_key_setup k) (
      with_action "P02_Ingress.igw_ip_type.ip_from_internet_in_dl_hit"
        (data_setup_for_internet_in_dl_hit egr_pipeline))

-- `entry_add_with_ip_from_internet_out_hit`
unfoldable pub entry_add_with_ip_from_internet_out_hit : IgwIpTypeKey → ℕ → BfEntry
unfolding igw_ip_type_key_setup data_setup_for_internet_out_hit
entry_add_with_ip_from_internet_out_hit k egr_pipeline =
    entry "P02_Ingress.igw_ip_type.igw_ip_type" (igw_ip_type_key_setup k) (
      with_action "P02_Ingress.igw_ip_type.ip_from_internet_out_hit"
        (data_setup_for_internet_out_hit egr_pipeline))

-- `entry_add_with_ip_from_internet_out_dl_hit`
unfoldable pub entry_add_with_ip_from_internet_out_dl_hit : IgwIpTypeKey → ℕ → BfEntry
unfolding igw_ip_type_key_setup data_setup_for_internet_out_dl_hit
entry_add_with_ip_from_internet_out_dl_hit k egr_pipeline =
    entry "P02_Ingress.igw_ip_type.igw_ip_type" (igw_ip_type_key_setup k) (
      with_action "P02_Ingress.igw_ip_type.ip_from_internet_out_dl_hit"
        (data_setup_for_internet_out_dl_hit egr_pipeline))

-- `entry_add_with_need_drop`
unfoldable pub entry_add_with_need_drop : IgwIpTypeKey → BfEntry
unfolding igw_ip_type_key_setup
entry_add_with_need_drop k =
    entry "P02_Ingress.igw_ip_type.igw_ip_type" (igw_ip_type_key_setup k)
      (with_action "P02_Ingress.igw_ip_type.need_drop" ([]))

-- The wrapper that is called for an entry
unfoldable pub entry_of : IgwIpTypeKey → Action → BfEntry
unfolding entry_add_with_ip_from_internet_in_hit entry_add_with_ip_from_internet_in_dl_hit
    entry_add_with_ip_from_internet_out_hit entry_add_with_ip_from_internet_out_dl_hit
    entry_add_with_need_drop
entry_of k (ip_from_internet_in_hit p) = entry_add_with_ip_from_internet_in_hit k p
entry_of k (ip_from_internet_in_dl_hit p) = entry_add_with_ip_from_internet_in_dl_hit k p
entry_of k (ip_from_internet_out_hit p) = entry_add_with_ip_from_internet_out_hit k p
entry_of k (ip_from_internet_out_dl_hit p) = entry_add_with_ip_from_internet_out_dl_hit k p
entry_of k need_drop = entry_add_with_need_drop k

-- `pipeline_fix_table_setup`
unfoldable pub pipeline_fix_table_setup : TableSetup
pipeline_fix_table_setup = record {
  setup_table = "P02_Ingress.pipelinefix.pipeline_fix";
  action_names = "P02_Ingress.pipelinefix.set_pipeline" ∷ [];
  key_names = "$MATCH_PRIORITY" ∷ "hdr.inner_ipv4.$valid" ∷ "hdr.inner_ipv4.srcAddr" ∷ [];
  data_names = data_of "P02_Ingress.pipelinefix.set_pipeline" "egr_pipeline" ∷ [];
}

-- `setpipeline_key_setup`
setpipeline_key_setup : SetPipelineEntry → List Setting
setpipeline_key_setup k =
    plain "$MATCH_PRIORITY" k.fix_priority
    ∷ ternary "hdr.inner_ipv4.$valid" k.fix_inner_ipv4_isvalid
    ∷ ternary "hdr.inner_ipv4.srcAddr" k.fix_inner_ipv4_srcaddr
    ∷ []

-- `data_setup_for_setpipeline`
data_setup_for_setpipeline : ℕ → List Setting
data_setup_for_setpipeline egr_pipeline = plain "egr_pipeline" egr_pipeline ∷ []

-- `entry_add_with_setpipeline`
unfoldable pub entry_add_with_setpipeline : SetPipelineEntry → BfEntry
unfolding setpipeline_key_setup data_setup_for_setpipeline
entry_add_with_setpipeline k =
    entry "P02_Ingress.pipelinefix.pipeline_fix" (setpipeline_key_setup k) (
      with_action "P02_Ingress.pipelinefix.set_pipeline"
        (data_setup_for_setpipeline k.fix_egr_pipeline))

unfoldable pub ip_type_step : Entry → Step
unfolding entry_of
ip_type_step e = write (entry_of e.key e.action) true

unfoldable pub pipeline_step : SetPipelineEntry → Step
unfolding entry_add_with_setpipeline
pipeline_step e = write (entry_add_with_setpipeline e) true

-- `igw_ip_type_table_init`
unfoldable pub ip_type_steps : SwitchCfgIp → List Step
unfolding ip_type_step pipeline_step igw_ip_type_table_setup pipeline_fix_table_setup
    igw_ip_type_table_init pipelinefix_init
ip_type_steps cfg =
    set_up igw_ip_type_table_setup
    ∷ (map ip_type_step (igw_ip_type_table_init cfg)
        ++ (set_up pipeline_fix_table_setup ∷ map pipeline_step pipelinefix_init))
