-- ===== src/Bfrt/Started.antt =====
-- What the start-up of main.c (igw-h/init_setup) leaves in the tables, over any driver that does what
-- it documents.
use igw_p.Prelude.{
  ℕ, zero, suc, true, Option, none, some, List, [], ◌∷◌, ◌++◌, map, ◌≡◌, refl, sym, inl, inr, ◌==◌,
  Bool-cases, ◌≢◌,
}
use igw_p.IpType.{SwitchCfgIp}
use igw_p.IpType.Table.{igw_ip_type_table_init, pipelinefix_init}
use igw_p.IpType.Out.{internet_out_entry_init}
use igw_p.IpType.{for_both_vips}
use igw_p.Ecmp.{ecmp_group02_init, wedge_100bf_32x}
use igw_p.EipDl.{eip_in_ecmp_dl_table_init, eip_out_ecmp_dl_table_init}
use igw_p.Bfrt.{BfRt, BfEntry, BfData, Setting, IsFaithful}
use igw_p.Bfrt.Setup.{set_up, write, run}
use igw_p.Bfrt.Mirror.{mirror_table_init, meter_drop_table_init, acl_table_init}
use igw_p.Bfrt.JdVxlan.{VxlanCfg, eip_in_jd_vxlan_table_init, eip_out_jd_vxlan_table_init}
use igw_p.Bfrt.IpTypeTable.{ip_type_steps, ip_type_step, igw_ip_type_table_setup}
use igw_p.Bfrt.Eip.{
  eip_in_steps, eip_out_steps, member_step_in, member_step_out, group_steps_in, group_steps_out,
}
use igw_p.Bfrt.Ecmp.{ecmp_group02_steps}
use igw_p.Bfrt.Startup.{StartCfg, start_up, eip_ecmp_dl_steps, vxlan_cfg}
use igw_p.Bfrt.Adds.{is_adds, is_adds-append, is_adds-map, Occurs, run-adds_read, run-twice}
use mathlib.Core.Path.{subst}
use Prim.Native.String.{String}

mirror-adds : (m : ℕ) → is_adds (mirror_table_init m) ≡ true
unfolding is_adds mirror_table_init
mirror-adds m = refl

vxlan_in-adds : (c : VxlanCfg) → is_adds (eip_in_jd_vxlan_table_init c) ≡ true
unfolding is_adds eip_in_jd_vxlan_table_init
vxlan_in-adds c = refl

vxlan_out-adds : (c : VxlanCfg) → is_adds (eip_out_jd_vxlan_table_init c) ≡ true
unfolding is_adds eip_out_jd_vxlan_table_init
vxlan_out-adds c = refl

meter-adds : is_adds meter_drop_table_init ≡ true
unfolding is_adds meter_drop_table_init
meter-adds = refl

acl-adds : is_adds acl_table_init ≡ true
unfolding is_adds acl_table_init
acl-adds = refl

ip_type-adds : (cfg : SwitchCfgIp) → is_adds (ip_type_steps cfg) ≡ true
unfolding is_adds ip_type_steps pipelinefix_init
ip_type-adds cfg =
    is_adds-append (map ip_type_step (igw_ip_type_table_init cfg)) _
      (is_adds-map ip_type_step (igw_ip_type_table_init cfg) (λ e. refl)) refl

eip_in-adds : (cfg : SwitchCfgIp) → is_adds (eip_in_steps cfg) ≡ true
unfolding is_adds eip_in_steps group_steps_in
eip_in-adds cfg =
    let t = eip_in_ecmp_dl_table_init cfg in
    is_adds-append (map member_step_in t.profile) (group_steps_in t)
      (is_adds-map member_step_in t.profile (λ e. refl)) refl

eip_out-adds : (cfg : SwitchCfgIp) → is_adds (eip_out_steps cfg) ≡ true
unfolding is_adds eip_out_steps group_steps_out
eip_out-adds cfg =
    let t = eip_out_ecmp_dl_table_init cfg in
    is_adds-append (map member_step_out t.profile) (group_steps_out t)
      (is_adds-map member_step_out t.profile (λ e. refl)) refl

ecmp-adds : (m : ℕ) → is_adds (ecmp_group02_steps m) ≡ true
unfolding is_adds ecmp_group02_steps ecmp_group02_init
ecmp-adds m = elim (Bool-cases (m == wedge_100bf_32x)) [ inl e ↦ rw e refl | inr e ↦ rw e refl ]

start_up-adds : (cfg : StartCfg) → is_adds (start_up cfg) ≡ true
unfolding start_up eip_ecmp_dl_steps
start_up-adds cfg =
    let c = cfg.ip_cfg in
    let v = vxlan_cfg cfg in
    let m = cfg.hardware_model in
    is_adds-append (mirror_table_init m) _ (mirror-adds m) (
      is_adds-append (ip_type_steps c) _ (ip_type-adds c) (
        is_adds-append (eip_in_jd_vxlan_table_init v) _ (vxlan_in-adds v) (
          is_adds-append (eip_out_jd_vxlan_table_init v) _ (vxlan_out-adds v) (
            is_adds-append (eip_in_steps c ++ eip_out_steps c) _
              (is_adds-append (eip_in_steps c) (eip_out_steps c) (eip_in-adds c) (eip_out-adds c))
              (is_adds-append meter_drop_table_init _ meter-adds
                (is_adds-append acl_table_init (ecmp_group02_steps m) acl-adds (ecmp-adds m)))))))

abbrev with_vips : StartCfg → ℕ → ℕ → StartCfg
with_vips cfg vip backup_vip = record cfg {
  ip_cfg = record (cfg.ip_cfg) { vip = vip; backup_vip = backup_vip };
}

module _ (d : BfRt) (read : d.State → String → List Setting → Option BfData)
    (f : IsFaithful d read) where
  -- Over a driver that does what it documents: if the start-up goes through, every entry that it adds
  -- is in its table with the data that it was added with.
  pub start_up-installs :
      (s s' : d.State) (cfg : StartCfg) (e : BfEntry)
      → run d s (start_up cfg) ≡ some s'
      → Occurs (write e true) (start_up cfg)
      → read s' e.table e.bf_key ≡ some e.bf_data
  start_up-installs s s' cfg e h o =
      run-adds_read d read f s s' (start_up cfg) e (start_up-adds cfg) h o

  start_up_twice :
      (s : d.State) (cfg : StartCfg) (vip : ℕ)
      → vip ≢ 0
      → run d s (start_up (with_vips cfg vip vip)) ≡ none
  unfolding start_up ip_type_steps igw_ip_type_table_init internet_out_entry_init for_both_vips
      mirror_table_init
  start_up_twice s cfg zero nonzero = absurd (nonzero refl)
  start_up_twice s cfg (suc n) nonzero =
      run-twice d read f s
        (mirror_table_init cfg.hardware_model ++ (set_up igw_ip_type_table_setup ∷ [])) [] _ _ _
        refl refl

  -- Over a driver that does what it documents: a configuration that names one address as both vip and
  -- backup_vip ends the start-up at an assert, whatever the tables hold.
  pub start_up_same_vip :
      (s : d.State) (cfg : StartCfg)
      → cfg.ip_cfg.backup_vip ≡ cfg.ip_cfg.vip
      → cfg.ip_cfg.vip ≢ 0
      → run d s (start_up cfg) ≡ none
  start_up_same_vip s cfg same some_vip =
      subst (λ b. run d s (start_up (with_vips cfg cfg.ip_cfg.vip b)) ≡ none) (sym same)
        (start_up_twice s cfg cfg.ip_cfg.vip some_vip)
