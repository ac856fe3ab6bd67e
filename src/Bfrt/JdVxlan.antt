-- ===== src/Bfrt/JdVxlan.antt =====
-- The tables that rewrite the outer header of elastic addresses, on the way in and out (igw-h/
-- init_setup/switchapi/switch_eip_{in,out}_jd_vxlan_table.c, over switchbfrt/bf_eip_{in,out}_jd_vxlan_table.c).

use igw_p.Prelude.{ℕ, true, List, [], ◌∷◌}
use igw_p.Bfrt.{BfEntry, Setting}
use igw_p.Bfrt.Setup.{TableSetup, data_of, ternary, plain, with_action, entry, Step, set_up, write}
use igw_p.IpType.{Ternary, masked}
use igw_p.IpType.{highest_pri, tof_az_in, tof_az_out}

-- `eipInJdVxlanKey`, and `eipOutJdVxlanKey`, which has the same fields
pub record JdVxlanKey : Type 0 where
  pub priority : ℕ
  pub vxlan_isvalid : Ternary
  pub vxlan_tof : Ternary
  pub between_cluster : Ternary
  pub within_cluster : Ternary

-- The fields of `switch_cfg` that the two tables read
pub record VxlanCfg : Type 0 where
  pub vip : ℕ
  pub shared_bw_vip : ℕ

-- The keys of the entries, which the way in and the way out share but for `vxlan_tof` of the second
within_key : JdVxlanKey
within_key = record {
  priority = highest_pri;
  vxlan_isvalid = masked 1 0x1;
  vxlan_tof = masked 0 0xF;
  between_cluster = masked 0 0x1;
  within_cluster = masked 1 0x1;
}

az_key : ℕ → JdVxlanKey
az_key tof = record {
  priority = highest_pri;
  vxlan_isvalid = masked 1 0x1;
  vxlan_tof = masked tof 0xF;
  between_cluster = masked 0 0;
  within_cluster = masked 1 0x1;
}

between_key : JdVxlanKey
between_key = record {
  priority = highest_pri;
  vxlan_isvalid = masked 1 0x1;
  vxlan_tof = masked 0 0xF;
  between_cluster = masked 1 0x1;
  within_cluster = masked 0 0;
}

-- `eip_in_jd_vxlan_table_setup`
unfoldable pub eip_in_jd_vxlan_table_setup : TableSetup
eip_in_jd_vxlan_table_setup = record {
  setup_table = "P13_Egress.eip_in_redirect.modify_jd_vxlan";
  action_names =
      "P13_Egress.eip_in_redirect.rewrite_az_in_jd_vxlan"
      ∷ "P13_Egress.eip_in_redirect.rewrite_eip_in_jd_vxlan" ∷ [];
  key_names =
      "$MATCH_PRIORITY" ∷ "hdr.vxlan.$valid" ∷ "hdr.vxlan.tof" ∷ "meta.ratelimit.between_cluster"
      ∷ "meta.ratelimit.within_cluster" ∷ [];
  data_names =
      data_of "P13_Egress.eip_in_redirect.rewrite_az_in_jd_vxlan" "shared_bw_vip"
      ∷ data_of "P13_Egress.eip_in_redirect.rewrite_eip_in_jd_vxlan" "srcip"
      ∷ [];
}

-- `eipInJdVxlan_key_setup`
eip_in_jd_vxlan_key_setup : JdVxlanKey → List Setting
eip_in_jd_vxlan_key_setup k =
    plain "$MATCH_PRIORITY" k.priority
    ∷ ternary "hdr.vxlan.$valid" k.vxlan_isvalid
    ∷ ternary "hdr.vxlan.tof" k.vxlan_tof
    ∷ ternary "meta.ratelimit.between_cluster" k.between_cluster
    ∷ ternary "meta.ratelimit.within_cluster" k.within_cluster
    ∷ []

-- `data_setup_for_rewrite_az_in`
data_setup_for_rewrite_az_in : ℕ → List Setting
data_setup_for_rewrite_az_in shared_bw_vip = plain "shared_bw_vip" shared_bw_vip ∷ []

-- `data_setup_for_rewrite_eip_in`
data_setup_for_rewrite_eip_in : ℕ → List Setting
data_setup_for_rewrite_eip_in srcip = plain "srcip" srcip ∷ []

-- `entry_add_with_rewrite_az_in_jd_vxlan`
unfoldable pub entry_add_with_rewrite_az_in_jd_vxlan : JdVxlanKey → ℕ → BfEntry
unfolding eip_in_jd_vxlan_key_setup data_setup_for_rewrite_az_in
entry_add_with_rewrite_az_in_jd_vxlan k shared_bw_vip =
    entry "P13_Egress.eip_in_redirect.modify_jd_vxlan" (eip_in_jd_vxlan_key_setup k) (
      with_action "P13_Egress.eip_in_redirect.rewrite_az_in_jd_vxlan"
        (data_setup_for_rewrite_az_in shared_bw_vip))

-- `entry_add_with_rewrite_eip_in_jd_vxlan`
unfoldable pub entry_add_with_rewrite_eip_in_jd_vxlan : JdVxlanKey → ℕ → BfEntry
unfolding eip_in_jd_vxlan_key_setup data_setup_for_rewrite_eip_in
entry_add_with_rewrite_eip_in_jd_vxlan k srcip =
    entry "P13_Egress.eip_in_redirect.modify_jd_vxlan" (eip_in_jd_vxlan_key_setup k) (
      with_action "P13_Egress.eip_in_redirect.rewrite_eip_in_jd_vxlan"
        (data_setup_for_rewrite_eip_in srcip))

-- `eip_in_jd_vxlan_table_init`
unfoldable pub eip_in_jd_vxlan_table_init : VxlanCfg → List Step
unfolding eip_in_jd_vxlan_table_setup entry_add_with_rewrite_az_in_jd_vxlan
    entry_add_with_rewrite_eip_in_jd_vxlan within_key az_key between_key
eip_in_jd_vxlan_table_init cfg =
    set_up eip_in_jd_vxlan_table_setup
    ∷ write (entry_add_with_rewrite_eip_in_jd_vxlan within_key cfg.vip) true
    ∷ write (entry_add_with_rewrite_eip_in_jd_vxlan (az_key tof_az_in) cfg.vip) true
    ∷ write (entry_add_with_rewrite_az_in_jd_vxlan between_key cfg.shared_bw_vip) true
    ∷ []

-- `eip_out_jd_vxlan_table_setup`
unfoldable pub eip_out_jd_vxlan_table_setup : TableSetup
eip_out_jd_vxlan_table_setup = record {
  setup_table = "P02_Ingress.eip_out_redirect.modify_jd_vxlan";
  action_names =
      "P02_Ingress.eip_out_redirect.rewrite_az_out_jd_vxlan"
      ∷ "P02_Ingress.eip_out_redirect.rewrite_eip_out_jd_vxlan" ∷ [];
  key_names =
      "$MATCH_PRIORITY" ∷ "hdr.vxlan.$valid" ∷ "hdr.vxlan.tof" ∷ "meta.ratelimit.between_cluster"
      ∷ "meta.ratelimit.within_cluster" ∷ [];
  data_names =
      data_of "P02_Ingress.eip_out_redirect.rewrite_az_out_jd_vxlan" "shared_bw_vip"
      ∷ data_of "P02_Ingress.eip_out_redirect.rewrite_eip_out_jd_vxlan" "srcip"
      ∷ [];
}

-- `eipOutJdVxlan_key_setup`
eip_out_jd_vxlan_key_setup : JdVxlanKey → List Setting
eip_out_jd_vxlan_key_setup k =
    plain "$MATCH_PRIORITY" k.priority
    ∷ ternary "hdr.vxlan.$valid" k.vxlan_isvalid
    ∷ ternary "hdr.vxlan.tof" k.vxlan_tof
    ∷ ternary "meta.ratelimit.between_cluster" k.between_cluster
    ∷ ternary "meta.ratelimit.within_cluster" k.within_cluster
    ∷ []

-- `data_setup_for_rewrite_az_out`
data_setup_for_rewrite_az_out : ℕ → List Setting
data_setup_for_rewrite_az_out shared_bw_vip = plain "shared_bw_vip" shared_bw_vip ∷ []

-- `data_setup_for_rewrite_eip_out`
data_setup_for_rewrite_eip_out : ℕ → List Setting
data_setup_for_rewrite_eip_out srcip = plain "srcip" srcip ∷ []

-- `entry_add_with_rewrite_az_out_jd_vxlan`
unfoldable pub entry_add_with_rewrite_az_out_jd_vxlan : JdVxlanKey → ℕ → BfEntry
unfolding eip_out_jd_vxlan_key_setup data_setup_for_rewrite_az_out
entry_add_with_rewrite_az_out_jd_vxlan k shared_bw_vip =
    entry "P02_Ingress.eip_out_redirect.modify_jd_vxlan" (eip_out_jd_vxlan_key_setup k) (
      with_action "P02_Ingress.eip_out_redirect.rewrite_az_out_jd_vxlan"
        (data_setup_for_rewrite_az_out shared_bw_vip))

-- `entry_add_with_rewrite_eip_out_jd_vxlan`
unfoldable pub entry_add_with_rewrite_eip_out_jd_vxlan : JdVxlanKey → ℕ → BfEntry
unfolding eip_out_jd_vxlan_key_setup data_setup_for_rewrite_eip_out
entry_add_with_rewrite_eip_out_jd_vxlan k srcip =
    entry "P02_Ingress.eip_out_redirect.modify_jd_vxlan" (eip_out_jd_vxlan_key_setup k) (
      with_action "P02_Ingress.eip_out_redirect.rewrite_eip_out_jd_vxlan"
        (data_setup_for_rewrite_eip_out srcip))

-- `eip_out_jd_vxlan_table_init`
unfoldable pub eip_out_jd_vxlan_table_init : VxlanCfg → List Step
unfolding eip_out_jd_vxlan_table_setup entry_add_with_rewrite_az_out_jd_vxlan
    entry_add_with_rewrite_eip_out_jd_vxlan within_key az_key between_key
eip_out_jd_vxlan_table_init cfg =
    set_up eip_out_jd_vxlan_table_setup
    ∷ write (entry_add_with_rewrite_eip_out_jd_vxlan within_key cfg.vip) true
    ∷ write (entry_add_with_rewrite_eip_out_jd_vxlan (az_key tof_az_out) cfg.vip) true
    ∷ write (entry_add_with_rewrite_az_out_jd_vxlan between_key cfg.shared_bw_vip) true
    ∷ []
