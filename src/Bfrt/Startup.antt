-- ===== src/Bfrt/Startup.antt =====
-- The part of `main` (igw-h/init_setup/main.c) that fills the tables before the kernel's routes and
-- neighbours are followed: the runs of the components in its order.
use igw_p.Prelude.{ℕ, List, ◌++◌}
use igw_p.IpType.{SwitchCfgIp}
use igw_p.Bfrt.Setup.{Step}
use igw_p.Bfrt.Mirror.{mirror_table_init, meter_drop_table_init, acl_table_init}
use igw_p.Bfrt.IpTypeTable.{ip_type_steps}
use igw_p.Bfrt.JdVxlan.{VxlanCfg, eip_in_jd_vxlan_table_init, eip_out_jd_vxlan_table_init}
use igw_p.Bfrt.Eip.{eip_in_steps, eip_out_steps}
use igw_p.Bfrt.Ecmp.{ecmp_group02_steps}

-- The fields of `switch_cfg` that the tables read
pub record StartCfg : Type 0 where
  pub ip_cfg : SwitchCfgIp
  pub shared_bw_vip : ℕ
  pub hardware_model : ℕ

pub vxlan_cfg : StartCfg → VxlanCfg
vxlan_cfg cfg = record { vip = cfg.ip_cfg.vip; shared_bw_vip = cfg.shared_bw_vip }

-- `eip_ecmp_dl_table_init`
unfoldable pub eip_ecmp_dl_steps : SwitchCfgIp → List Step
unfolding eip_in_steps eip_out_steps
eip_ecmp_dl_steps cfg = eip_in_steps cfg ++ eip_out_steps cfg

-- `mirror_table_init()` to `ecmp_group02_init()`
unfoldable pub start_up : StartCfg → List Step
unfolding vxlan_cfg
start_up cfg =
    mirror_table_init cfg.hardware_model
    ++ (ip_type_steps cfg.ip_cfg
        ++ (eip_in_jd_vxlan_table_init (vxlan_cfg cfg)
            ++ (eip_out_jd_vxlan_table_init (vxlan_cfg cfg)
                ++ (eip_ecmp_dl_steps cfg.ip_cfg
                    ++ (meter_drop_table_init
                        ++ (acl_table_init ++ ecmp_group02_steps cfg.hardware_model))))))
