-- ===== src/System.antt =====
-- The order of `main` (igw-h/init_setup/main.c) from the creation of the device to the table of
-- protocol packets, and what each part takes from the parts before it.
--
-- The netlink thread's start is here too (switchlink/switchlink_main.c: switchlink_main up to its
-- semaphore); a SETUP_PANIC of either thread is `none`. What the loop of the netlink thread then writes
-- to the tables, before the last of them is filled, is a parameter, and `none` if a panic of it ends
-- the program. `bf_rt_setup` gets the driver itself.
pub mod Delivers
mod Examples
use igw_p.Prelude.{ℕ, Option, none, some, List, [], ◌∷◌, map}
use igw_p.Prelude.Chain.{◌>>=◌}
use igw_p.Ether.Aton.{Libc}
use igw_p.Config.{Jansson, SwitchConfig}
use igw_p.Port.{Stray}
use igw_p.Hostif.{Hostif, Inet}
use igw_p.Hostif.Filters.{Answers}
use igw_p.Device.{Queries, CpuifAnswers, Device, g_cpu_pcie_port, switch_device_create}
use Prim.Native.String.{String}
use igw_p.Hashed.{Table}
use igw_p.Neigh.{MacRewriteEntry, neigh_system_init}
use igw_p.Route.{GatewayEntry, route_system_init}
use igw_p.MacRewrite.Tables.{mac_rewrite_table_setup}
use igw_p.Bfrt.{BfRt}
use igw_p.Bfrt.Setup.{set_up, run}
use igw_p.Bfrt.Startup.{StartCfg, start_up}
use igw_p.Bfrt.PacketTable.{protocol_packet_steps}
use igw_p.PacketTable.{PacketCfg}
use igw_p.Attributes.{AttributeDriver, attribute_steps, run_attribute_steps}

-- What the tables take from `switch_cfg`
unfoldable pub start_cfg : SwitchConfig → StartCfg
start_cfg cfg = record {
  ip_cfg = record {
    vip = cfg.vip;
    backup_vip = cfg.backup_vip;
    dl_ip = cfg.dl_ip;
    dl_ip_prefix_len = cfg.dl_ip_prefix_len;
  };
  shared_bw_vip = cfg.shared_bw_vip;
  hardware_model = cfg.hardware_model;
}

-- What the table of protocol packets takes from `switch_cfg` and from the device
unfoldable pub packet_cfg : Device → PacketCfg
packet_cfg dev = record {
  cpu_pcie_port = g_cpu_pcie_port dev.device_ctx;
  mgt_ip = dev.device_cfg.mgt_ip;
  vip = dev.device_cfg.vip;
  backup_vip = dev.device_cfg.backup_vip;
}

-- The `hostif` of each entry of `g_hostif_info_array`
unfoldable pub packet_hostifs : Device → List Hostif
packet_hostifs dev = map (λ i. i.info_hostif) dev.hostif_infos

-- What `main` has set up once the table of protocol packets is filled
pub record SetUp (d : BfRt) (a : AttributeDriver) : Type 0 where
  pub device : Device
  pub tables : d.State
  pub attributes : a.State
  pub mac_entries : Table MacRewriteEntry
  pub gateway_entries : Table GatewayEntry

-- `switchlink_main` up to `sem_post`
unfoldable pub switchlink_start :
    (d : BfRt)
    → (String → ℕ)
    → Device
    → d.State
    → Option (d.State × Table MacRewriteEntry × Table GatewayEntry)
unfolding packet_hostifs
switchlink_start d if_nametoindex dev s = do
  s' ← run d s (set_up mac_rewrite_table_setup ∷ [])
  macs ← neigh_system_init if_nametoindex (packet_hostifs dev)
  gateways ←
      route_system_init dev.device_ctx.dev_port_to_pipe dev.device_cfg.hardware_model
        (packet_hostifs dev)
  some (s', macs, gateways)

module _ (j : Jansson) (c : Libc) (inet : Inet) (q : Queries) (stray : Stray) (cpuif : CpuifAnswers)
    (answers : ℕ → Answers) (mirror : Answers) (d : BfRt) (a : AttributeDriver)
    (if_nametoindex : String → ℕ) (received : d.State → Option d.State) where
  -- `switch_device_create()` to `process_protocol_packet_table_init()`
  unfoldable pub main : d.State → a.State → Option (SetUp d a)
  unfolding start_cfg packet_cfg switchlink_start
  main s attrs = do
    dev ← switch_device_create j c inet q stray cpuif answers mirror
    s1 ← run d s (start_up (start_cfg dev.device_cfg))
    attrs' ← run_attribute_steps a attribute_steps attrs
    (s2, macs, gateways) ← switchlink_start d if_nametoindex dev s1
    s3 ← received s2
    s4 ← run d s3 (protocol_packet_steps (packet_cfg dev) (packet_hostifs dev))
    some (record {
      device = dev;
      tables = s4;
      attributes = attrs';
      mac_entries = macs;
      gateway_entries = gateways;
    })
