-- ===== src/Bfrt/Ecmp.antt =====
-- The three tables of an ECMP group (igw-h/init_setup/switchbfrt/bf_ecmp_group_action_profile.c,
-- bf_ecmp_group_selector.c, bf_ecmp_group_02_v2.c), and the calls of the ECMP start-up over them.

use igw_p.Prelude.{ℕ, Bool, true, List, [], ◌∷◌, map}
use igw_p.Bfrt.{BfEntry, Setting, set_field, array, bool_array}
use igw_p.Bfrt.Setup.{
  TableSetup, data_of, data_plain, ternary, plain, with_action, no_action, entry, Step, set_up,
  write,
}
use igw_p.IpType.{Ternary, masked}
use igw_p.Ecmp.{Call, profile_add, selector_entry, group_add, ecmp_group02_init}

-- `ecmp_group_action_profile_table_setup`
unfoldable pub ecmp_group_action_profile_table_setup : TableSetup
ecmp_group_action_profile_table_setup = record {
  setup_table = "P02_Ingress.ecmp_group.pipe02_group_action_profile";
  action_names = "P02_Ingress.ecmp_group.ecmp_group_entry_lag_v2" ∷ [];
  key_names = "$ACTION_MEMBER_ID" ∷ [];
  data_names = data_of "P02_Ingress.ecmp_group.ecmp_group_entry_lag_v2" "egress_port" ∷ [];
}

-- `ecmp_group_action_profile_key_setup`
ecmp_group_action_profile_key_setup : ℕ → List Setting
ecmp_group_action_profile_key_setup memberid = plain "$ACTION_MEMBER_ID" memberid ∷ []

-- `ecmp_group_action_profile_data_setup`
ecmp_group_action_profile_data_setup : ℕ → List Setting
ecmp_group_action_profile_data_setup egress_port = plain "egress_port" egress_port ∷ []

-- `ecmp_group_action_profile_entry_add`
unfoldable pub ecmp_group_action_profile_entry_add : ℕ → ℕ → BfEntry
unfolding ecmp_group_action_profile_key_setup ecmp_group_action_profile_data_setup
ecmp_group_action_profile_entry_add memberid egress_port =
    entry "P02_Ingress.ecmp_group.pipe02_group_action_profile"
      (ecmp_group_action_profile_key_setup memberid)
      (with_action "P02_Ingress.ecmp_group.ecmp_group_entry_lag_v2"
        (ecmp_group_action_profile_data_setup egress_port))

-- `ecmp_group_selector_table_setup`
unfoldable pub ecmp_group_selector_table_setup : TableSetup
ecmp_group_selector_table_setup = record {
  setup_table = "P02_Ingress.ecmp_group.pipe02_group_selector";
  action_names = [];
  key_names = "$SELECTOR_GROUP_ID" ∷ [];
  data_names =
      data_plain "$ACTION_MEMBER_ID"
      ∷ data_plain "$ACTION_MEMBER_STATUS"
      ∷ data_plain "$MAX_GROUP_SIZE"
      ∷ [];
}

-- `ecmp_group_selector_key_setup`
ecmp_group_selector_key_setup : ℕ → List Setting
ecmp_group_selector_key_setup selector_groupid = plain "$SELECTOR_GROUP_ID" selector_groupid ∷ []

-- `ecmp_group_selector_data_setup`
ecmp_group_selector_data_setup : ℕ → List ℕ → List Bool → List Setting
ecmp_group_selector_data_setup max_group_size memberid_val memberstatus_val =
    plain "$MAX_GROUP_SIZE" max_group_size
    ∷ set_field "$ACTION_MEMBER_ID" (array memberid_val)
    ∷ set_field "$ACTION_MEMBER_STATUS" (bool_array memberstatus_val)
    ∷ []

-- `ecmp_group_selector_entry_add`
unfoldable pub ecmp_group_selector_entry : ℕ → ℕ → List ℕ → List Bool → BfEntry
unfolding ecmp_group_selector_key_setup ecmp_group_selector_data_setup
ecmp_group_selector_entry selector_groupid max_group_size memberid_val memberstatus_val =
    entry "P02_Ingress.ecmp_group.pipe02_group_selector"
      (ecmp_group_selector_key_setup selector_groupid)
      (no_action (ecmp_group_selector_data_setup max_group_size memberid_val memberstatus_val))

-- `p02_ecmp_group_table_setup`
unfoldable pub p02_ecmp_group_table_setup : TableSetup
p02_ecmp_group_table_setup = record {
  setup_table = "P02_Ingress.ecmp_group.ecmp_group_02_v2";
  action_names = [];
  key_names = "$MATCH_PRIORITY" ∷ "meta.l3.egr_pipeline" ∷ "meta.ratelimit.have_shared_bd" ∷ [];
  data_names = data_plain "$SELECTOR_GROUP_ID" ∷ [];
}

-- `ecmpGroupKey`
pub record EcmpGroupKey : Type 0 where
  pub priority : ℕ
  pub egr_pipeline : ℕ
  pub have_shared_bd : Ternary

-- `p02_ecmp_group_key_setup`
p02_ecmp_group_key_setup : EcmpGroupKey → List Setting
p02_ecmp_group_key_setup k =
    plain "$MATCH_PRIORITY" k.priority
    ∷ plain "meta.l3.egr_pipeline" k.egr_pipeline
    ∷ ternary "meta.ratelimit.have_shared_bd" k.have_shared_bd
    ∷ []

-- `p02_ecmp_group_data_setup`
p02_ecmp_group_data_setup : ℕ → List Setting
p02_ecmp_group_data_setup selector_group_id = plain "$SELECTOR_GROUP_ID" selector_group_id ∷ []

-- `p02_ecmp_group_entry_add`
unfoldable pub p02_ecmp_group_entry_add : EcmpGroupKey → ℕ → BfEntry
unfolding p02_ecmp_group_key_setup p02_ecmp_group_data_setup
p02_ecmp_group_entry_add k selector_group_id =
    entry "P02_Ingress.ecmp_group.ecmp_group_02_v2" (p02_ecmp_group_key_setup k)
      (no_action (p02_ecmp_group_data_setup selector_group_id))

-- A call of `ecmp_group02_init_2p` or `_4p` as a step
unfoldable pub call_step : Call → Step
unfolding ecmp_group_action_profile_entry_add ecmp_group_selector_entry p02_ecmp_group_entry_add
call_step (profile_add memberid egress_port) =
    write (ecmp_group_action_profile_entry_add memberid egress_port) true
call_step (selector_entry group size ids statuses add) =
    write (ecmp_group_selector_entry group size ids statuses) add
call_step (group_add priority egr_pipeline shared shared_mask group) =
    write
      (p02_ecmp_group_entry_add
        (record {
          priority = priority;
          egr_pipeline = egr_pipeline;
          have_shared_bd = masked shared shared_mask;
        })
        group)
      true

-- `ecmp_group02_init`
unfoldable pub ecmp_group02_steps : ℕ → List Step
unfolding call_step ecmp_group_action_profile_table_setup ecmp_group_selector_table_setup
    p02_ecmp_group_table_setup ecmp_group02_init
ecmp_group02_steps hardware_model =
    set_up ecmp_group_action_profile_table_setup
    ∷ set_up ecmp_group_selector_table_setup
    ∷ set_up p02_ecmp_group_table_setup
    ∷ map call_step (ecmp_group02_init hardware_model)
