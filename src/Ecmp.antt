-- ===== src/Ecmp.antt =====
-- The ECMP groups (igw-h/init_setup/switchapi/switch_ecmp_group2.c): the members that are added to
-- the action profile, the selector groups over them, and the entries that pick a group.
--
-- A run is the list of the driver calls that it makes, in order. Each call stands under an `assert`,
-- so the process ends at the first that the driver refuses.
pub mod Members
use igw_p.Prelude.{
  ℕ, zero, suc, ◌+◌, ◌-◌, ◌*◌, Bool, true, false, List, [], ◌∷◌, ◌++◌, ◌==◌, if◌then◌else◌,
  replicate,
}

abbrev pub per_pipe_port_nums : ℕ
per_pipe_port_nums = 16

abbrev pub pipe0_selectorcid : ℕ
pipe0_selectorcid = 1

abbrev pub pipe1_selectorcid : ℕ
pipe1_selectorcid = 2

abbrev pub pipe2_selectorcid : ℕ
pipe2_selectorcid = 3

abbrev pub pipe3_selectorcid : ℕ
pipe3_selectorcid = 4

-- `EGR_PIPELINE_0` to `EGR_PIPELINE_3`
abbrev pub egr_pipeline : ℕ → ℕ
egr_pipeline n = n + 1

-- `ecmp_group_action_profile_entry_add` with member id and egress port,
-- `ecmp_group_selector_entry_add` with group, group size, member ids, statuses and `add`, and
-- `p02_ecmp_group_entry_add` with priority, pipeline, shared-bd bit, its mask and the group.
pub data Call : Type 0 where
  profile_add : ℕ → ℕ → Call
  selector_entry : ℕ → ℕ → List ℕ → List Bool → Bool → Call
  group_add : ℕ → ℕ → ℕ → ℕ → ℕ → Call

-- `for (i = first; i < first + 16; i++)`, with the egress port `base + (i - first) * 4`
unfoldable pub profile_loop : ℕ → ℕ → ℕ → ℕ → List Call
profile_loop zero i first base = []
profile_loop (suc left) i first base =
    profile_add i (base + (i - first) * 4) ∷ profile_loop left (i + 1) first base

unfoldable pub memberid_loop : ℕ → ℕ → List ℕ
memberid_loop zero i = []
memberid_loop (suc left) i = i ∷ memberid_loop left (i + 1)

unfoldable pub devport_loop : ℕ → ℕ → ℕ → ℕ → List ℕ
devport_loop zero i first base = []
devport_loop (suc left) i first base =
    (base + (i - first) * 4) ∷ devport_loop left (i + 1) first base

-- The four global arrays, as the loops of `ecmp_group02_init_4p` leave them
unfoldable pub pipe0_memberid_val : List ℕ
unfolding memberid_loop
pipe0_memberid_val = memberid_loop per_pipe_port_nums 33

unfoldable pub pipe2_memberid_val : List ℕ
unfolding memberid_loop
pipe2_memberid_val = memberid_loop per_pipe_port_nums 49

unfoldable pub pipe0_devport_val : List ℕ
unfolding devport_loop
pipe0_devport_val = devport_loop per_pipe_port_nums 33 33 0

unfoldable pub pipe2_devport_val : List ℕ
unfolding devport_loop
pipe2_devport_val = devport_loop per_pipe_port_nums 49 49 256

unfoldable pub ecmp_group02_init_2p : List Call
unfolding profile_loop memberid_loop
ecmp_group02_init_2p =
    profile_loop 16 1 1 0
    ++ (selector_entry 1 16 (memberid_loop 16 1) (replicate 16 true) true
        ∷ group_add 0 (egr_pipeline 1) 0 0 1
        ∷ group_add 0 (egr_pipeline 3) 0 0 1
        ∷ [])

unfoldable pub group_entries_4p : List Call
group_entries_4p =
    group_add 0 (egr_pipeline 1) 0 0x1 pipe1_selectorcid
    ∷ group_add 0 (egr_pipeline 1) 1 0x1 pipe3_selectorcid
    ∷ group_add 0 (egr_pipeline 3) 0 0 pipe3_selectorcid
    ∷ group_add 0 (egr_pipeline 0) 0 0x1 pipe0_selectorcid
    ∷ group_add 0 (egr_pipeline 0) 1 0x1 pipe2_selectorcid
    ∷ group_add 0 (egr_pipeline 2) 0 0 pipe2_selectorcid
    ∷ []

unfoldable pub ecmp_group02_init_4p : List Call
unfolding profile_loop memberid_loop pipe0_memberid_val pipe2_memberid_val group_entries_4p
ecmp_group02_init_4p =
    profile_loop 16 1 1 128
    ++ (selector_entry pipe1_selectorcid 16 (memberid_loop 16 1) (replicate 16 true) true
        ∷ (profile_loop 16 17 17 384
            ++ (selector_entry pipe3_selectorcid 16 (memberid_loop 16 17) (replicate 16 true) true
                ∷ (profile_loop 16 33 33 0
                    ++ (selector_entry pipe0_selectorcid 16 pipe0_memberid_val (replicate 16 false)
                          true
                        ∷ (profile_loop 16 49 49 256
                            ++ (selector_entry pipe2_selectorcid 16 pipe2_memberid_val
                                  (replicate 16 false) true
                                ∷ group_entries_4p)))))))

-- `switch_device_hardware_modle_t`
abbrev pub wedge_100bf_65x : ℕ
wedge_100bf_65x = 1

abbrev pub wedge_100bf_32x : ℕ
wedge_100bf_32x = 2

unfoldable pub ecmp_group02_init : ℕ → List Call
unfolding ecmp_group02_init_2p ecmp_group02_init_4p
ecmp_group02_init hardware_model =
    if hardware_model == wedge_100bf_32x then ecmp_group02_init_2p else ecmp_group02_init_4p
