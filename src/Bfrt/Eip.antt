-- ===== src/Bfrt/Eip.antt =====
-- The tables that spread elastic addresses over the direct-link members, on the way in and on the way
-- out (igw-h/init_setup/switchbfrt/bf_eip_{in,out}_{action_profile,selector,select_redirect_ip}.c).

use igw_p.Prelude.{ℕ, Bool, true, List, [], ◌∷◌, ◌++◌, map}
use igw_p.Bfrt.{BfEntry, Setting, set_field, array, bool_array}
use igw_p.Bfrt.Setup.{
  TableSetup, data_of, data_plain, plain, with_action, no_action, entry, Step, set_up, write,
}
use igw_p.IpType.{SwitchCfgIp}
use igw_p.EipDl.{Member, EipTables, eip_in_ecmp_dl_table_init, eip_out_ecmp_dl_table_init}

-- `eip_in_action_profile_table_setup`
unfoldable pub eip_in_action_profile_table_setup : TableSetup
eip_in_action_profile_table_setup = record {
  setup_table = "P13_Egress.eip_in_redirect.dl_ip_group_action_profile";
  action_names = "P13_Egress.eip_in_redirect.ecmp_dl_ip" ∷ [];
  key_names = "$ACTION_MEMBER_ID" ∷ [];
  data_names = data_of "P13_Egress.eip_in_redirect.ecmp_dl_ip" "dl_ip" ∷ [];
}

-- `eip_in_action_profile_key_setup`
eip_in_action_profile_key_setup : ℕ → List Setting
eip_in_action_profile_key_setup memberid = plain "$ACTION_MEMBER_ID" memberid ∷ []

-- `eip_in_action_profile_data_setup`
eip_in_action_profile_data_setup : ℕ → List Setting
eip_in_action_profile_data_setup dl_ip = plain "dl_ip" dl_ip ∷ []

-- `eip_in_action_profile_entry_add`
unfoldable pub eip_in_action_profile_entry_add : ℕ → ℕ → BfEntry
unfolding eip_in_action_profile_key_setup eip_in_action_profile_data_setup
eip_in_action_profile_entry_add memberid dl_ip =
    entry "P13_Egress.eip_in_redirect.dl_ip_group_action_profile"
      (eip_in_action_profile_key_setup memberid)
      (with_action "P13_Egress.eip_in_redirect.ecmp_dl_ip" (eip_in_action_profile_data_setup dl_ip))

-- `eip_in_selector_table_setup`
unfoldable pub eip_in_selector_table_setup : TableSetup
eip_in_selector_table_setup = record {
  setup_table = "P13_Egress.eip_in_redirect.dl_ip_group_selector";
  action_names = [];
  key_names = "$SELECTOR_GROUP_ID" ∷ [];
  data_names =
      data_plain "$ACTION_MEMBER_ID"
      ∷ data_plain "$ACTION_MEMBER_STATUS"
      ∷ data_plain "$MAX_GROUP_SIZE"
      ∷ [];
}

-- `eip_in_selector_key_setup`
eip_in_selector_key_setup : ℕ → List Setting
eip_in_selector_key_setup selector_groupid = plain "$SELECTOR_GROUP_ID" selector_groupid ∷ []

-- `eip_in_selector_data_setup`
eip_in_selector_data_setup : ℕ → List ℕ → List Bool → List Setting
eip_in_selector_data_setup max_group_size memberid_val memberstatus_val =
    plain "$MAX_GROUP_SIZE" max_group_size
    ∷ set_field "$ACTION_MEMBER_ID" (array memberid_val)
    ∷ set_field "$ACTION_MEMBER_STATUS" (bool_array memberstatus_val)
    ∷ []

-- `eip_in_selector_entry_add`
unfoldable pub eip_in_selector_entry : ℕ → ℕ → List ℕ → List Bool → BfEntry
unfolding eip_in_selector_key_setup eip_in_selector_data_setup
eip_in_selector_entry selector_groupid max_group_size memberid_val memberstatus_val =
    entry "P13_Egress.eip_in_redirect.dl_ip_group_selector"
      (eip_in_selector_key_setup selector_groupid)
      (no_action (eip_in_selector_data_setup max_group_size memberid_val memberstatus_val))

-- `eip_in_select_redirect_ip_table_setup`
unfoldable pub eip_in_select_redirect_ip_table_setup : TableSetup
eip_in_select_redirect_ip_table_setup = record {
  setup_table = "P13_Egress.eip_in_redirect.select_redirect_ip";
  action_names = [];
  key_names = "hdr.vxlan.$valid" ∷ [];
  data_names = data_plain "$SELECTOR_GROUP_ID" ∷ [];
}

-- `eip_in_seletct_dl_ip_key_setup`
eip_in_seletct_dl_ip_key_setup : ℕ → List Setting
eip_in_seletct_dl_ip_key_setup vxlan_valid = plain "hdr.vxlan.$valid" vxlan_valid ∷ []

-- `eip_in_seletct_dl_ip_data_setup`
eip_in_seletct_dl_ip_data_setup : ℕ → List Setting
eip_in_seletct_dl_ip_data_setup selector_group_id =
    plain "$SELECTOR_GROUP_ID" selector_group_id ∷ []

-- `eip_in_select_redirect_ip_entry_add`
unfoldable pub eip_in_select_redirect_ip_entry_add : ℕ → ℕ → BfEntry
unfolding eip_in_seletct_dl_ip_key_setup eip_in_seletct_dl_ip_data_setup
eip_in_select_redirect_ip_entry_add vxlan_valid selector_group_id =
    entry "P13_Egress.eip_in_redirect.select_redirect_ip"
      (eip_in_seletct_dl_ip_key_setup vxlan_valid)
      (no_action (eip_in_seletct_dl_ip_data_setup selector_group_id))

unfoldable pub member_step_in : Member → Step
unfolding eip_in_action_profile_entry_add
member_step_in x = write (eip_in_action_profile_entry_add x.memberid x.member_ip) true

-- The selector of `eip_in_ecmp_dl_table_init`, and the entry that redirects to its group
unfoldable pub group_steps_in : EipTables → List Step
unfolding eip_in_selector_entry eip_in_select_redirect_ip_entry_add eip_in_selector_table_setup
    eip_in_select_redirect_ip_table_setup
group_steps_in t =
    set_up eip_in_selector_table_setup
    ∷ write
        (eip_in_selector_entry t.selector.selector_groupid t.selector.max_group_size
          t.selector.memberid_val t.selector.memberstatus_val)
        true
    ∷ set_up eip_in_select_redirect_ip_table_setup
    ∷ write (eip_in_select_redirect_ip_entry_add 1 t.redirect) true
    ∷ []

-- `eip_in_ecmp_dl_table_init`
unfoldable pub eip_in_steps : SwitchCfgIp → List Step
unfolding member_step_in group_steps_in eip_in_action_profile_table_setup eip_in_ecmp_dl_table_init
eip_in_steps cfg =
    let t = eip_in_ecmp_dl_table_init cfg in
    set_up eip_in_action_profile_table_setup ∷ (map member_step_in t.profile ++ group_steps_in t)

-- `eip_out_action_profile_table_setup`
unfoldable pub eip_out_action_profile_table_setup : TableSetup
eip_out_action_profile_table_setup = record {
  setup_table = "P02_Ingress.eip_out_redirect.dl_ip_group_action_profile";
  action_names = "P02_Ingress.eip_out_redirect.ecmp_dl_ip" ∷ [];
  key_names = "$ACTION_MEMBER_ID" ∷ [];
  data_names = data_of "P02_Ingress.eip_out_redirect.ecmp_dl_ip" "dl_ip" ∷ [];
}

-- `eip_out_action_profile_key_setup`
eip_out_action_profile_key_setup : ℕ → List Setting
eip_out_action_profile_key_setup memberid = plain "$ACTION_MEMBER_ID" memberid ∷ []

-- `eip_out_action_profile_data_setup`
eip_out_action_profile_data_setup : ℕ → List Setting
eip_out_action_profile_data_setup dl_ip = plain "dl_ip" dl_ip ∷ []

-- `eip_out_action_profile_entry_add`
unfoldable pub eip_out_action_profile_entry_add : ℕ → ℕ → BfEntry
unfolding eip_out_action_profile_key_setup eip_out_action_profile_data_setup
eip_out_action_profile_entry_add memberid dl_ip =
    entry "P02_Ingress.eip_out_redirect.dl_ip_group_action_profile"
      (eip_out_action_profile_key_setup memberid)
      (with_action "P02_Ingress.eip_out_redirect.ecmp_dl_ip"
        (eip_out_action_profile_data_setup dl_ip))

-- `eip_out_selector_table_setup`
unfoldable pub eip_out_selector_table_setup : TableSetup
eip_out_selector_table_setup = record {
  setup_table = "P02_Ingress.eip_out_redirect.dl_ip_group_selector";
  action_names = [];
  key_names = "$SELECTOR_GROUP_ID" ∷ [];
  data_names =
      data_plain "$ACTION_MEMBER_ID"
      ∷ data_plain "$ACTION_MEMBER_STATUS"
      ∷ data_plain "$MAX_GROUP_SIZE"
      ∷ [];
}

-- `eip_out_selector_key_setup`
eip_out_selector_key_setup : ℕ → List Setting
eip_out_selector_key_setup selector_groupid = plain "$SELECTOR_GROUP_ID" selector_groupid ∷ []

-- `eip_out_selector_data_setup`
eip_out_selector_data_setup : ℕ → List ℕ → List Bool → List Setting
eip_out_selector_data_setup max_group_size memberid_val memberstatus_val =
    plain "$MAX_GROUP_SIZE" max_group_size
    ∷ set_field "$ACTION_MEMBER_ID" (array memberid_val)
    ∷ set_field "$ACTION_MEMBER_STATUS" (bool_array memberstatus_val)
    ∷ []

-- `eip_out_selector_entry_add`
unfoldable pub eip_out_selector_entry : ℕ → ℕ → List ℕ → List Bool → BfEntry
unfolding eip_out_selector_key_setup eip_out_selector_data_setup
eip_out_selector_entry selector_groupid max_group_size memberid_val memberstatus_val =
    entry "P02_Ingress.eip_out_redirect.dl_ip_group_selector"
      (eip_out_selector_key_setup selector_groupid)
      (no_action (eip_out_selector_data_setup max_group_size memberid_val memberstatus_val))

-- `eip_out_select_redirect_ip_table_setup`
unfoldable pub eip_out_select_redirect_ip_table_setup : TableSetup
eip_out_select_redirect_ip_table_setup = record {
  setup_table = "P02_Ingress.eip_out_redirect.select_redirect_ip";
  action_names = [];
  key_names = "hdr.vxlan.$valid" ∷ [];
  data_names = data_plain "$SELECTOR_GROUP_ID" ∷ [];
}

-- `eip_out_seletct_dl_ip_key_setup`
eip_out_seletct_dl_ip_key_setup : ℕ → List Setting
eip_out_seletct_dl_ip_key_setup vxlan_valid = plain "hdr.vxlan.$valid" vxlan_valid ∷ []

-- `eip_out_seletct_dl_ip_data_setup`
eip_out_seletct_dl_ip_data_setup : ℕ → List Setting
eip_out_seletct_dl_ip_data_setup selector_group_id =
    plain "$SELECTOR_GROUP_ID" selector_group_id ∷ []

-- `eip_out_select_redirect_ip_entry_add`
unfoldable pub eip_out_select_redirect_ip_entry_add : ℕ → ℕ → BfEntry
unfolding eip_out_seletct_dl_ip_key_setup eip_out_seletct_dl_ip_data_setup
eip_out_select_redirect_ip_entry_add vxlan_valid selector_group_id =
    entry "P02_Ingress.eip_out_redirect.select_redirect_ip"
      (eip_out_seletct_dl_ip_key_setup vxlan_valid)
      (no_action (eip_out_seletct_dl_ip_data_setup selector_group_id))

unfoldable pub member_step_out : Member → Step
unfolding eip_out_action_profile_entry_add
member_step_out x = write (eip_out_action_profile_entry_add x.memberid x.member_ip) true

-- The selector of `eip_out_ecmp_dl_table_init`, and the entry that redirects to its group
unfoldable pub group_steps_out : EipTables → List Step
unfolding eip_out_selector_entry eip_out_select_redirect_ip_entry_add eip_out_selector_table_setup
    eip_out_select_redirect_ip_table_setup
group_steps_out t =
    set_up eip_out_selector_table_setup
    ∷ write
        (eip_out_selector_entry t.selector.selector_groupid t.selector.max_group_size
          t.selector.memberid_val t.selector.memberstatus_val)
        true
    ∷ set_up eip_out_select_redirect_ip_table_setup
    ∷ write (eip_out_select_redirect_ip_entry_add 1 t.redirect) true
    ∷ []

-- `eip_out_ecmp_dl_table_init`
unfoldable pub eip_out_steps : SwitchCfgIp → List Step
unfolding member_step_out group_steps_out eip_out_action_profile_table_setup
    eip_out_ecmp_dl_table_init
eip_out_steps cfg =
    let t = eip_out_ecmp_dl_table_init cfg in
    set_up eip_out_action_profile_table_setup ∷ (map member_step_out t.profile ++ group_steps_out t)
