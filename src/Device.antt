-- ===== src/Device.antt =====
-- The creation of the device (igw-h/init_setup/switchapi/switch_device.c: switch_device_create, with
-- the queries of switch_port.c and the CPU's interface of switch_packet.c): configuration, ports, host
-- interfaces and their hash table, in the order of the code.
--
-- SETUP_PANIC and `assert` are `none`. The two port lists have max_ports entries and are filled up to
-- 512 with SWITCH_PORT_INVALID; the driver has no more ports than that.
pub mod Serves
pub mod Chain
pub mod Examples
use igw_p.Prelude.{
  ℕ, zero, suc, ◌+◌, ◌-◌, ◌^◌, Bool, true, false, Option, none, some, List, [], ◌∷◌, ◌++◌, ◌==◌,
  leb, not, if◌then◌else◌, replicate, take,
}
use igw_p.Prelude.Chain.{◌>>=◌}
use igw_p.Ether.{Mac, zero_mac}
use igw_p.Ether.Aton.{Libc}
use igw_p.Config.{Jansson, SwitchConfig, switch_config_init}
use igw_p.Config.Steps.{Outcome, refused, aborted, done}
use igw_p.Port.{DeviceCtx, Stray, Call, PortCfg, switch_device_init}
use igw_p.Hashed.{Table}
use igw_p.Hostif.{Hostif, Inet, hostif_array_size, parser_switch_config_to_hostif}
use igw_p.Hostif.Filters.{Knet, Answers, Result, panicked, failed}
use igw_p.Hostif.Create.{HostifInfo, opened, closed, mirror_hostif_create, Job, create_hostif}
use igw_p.Hostif.Events.{HostifEntry, hostif_hash_table_init}

-- What the driver answers to the queries; `none` and `false` are a status other than BF_SUCCESS.
pub record Queries : Type 0 where
  pub num_pipes : Option ℕ
  pub num_ports : Option ℕ
  pub fp_to_dev : ℕ → Option ℕ
  pub to_pipe : ℕ → ℕ
  pub module_is_inited : Bool
  pub port_status_notif_reg : Bool

-- What the calls for the CPU's interface return
pub record CpuifAnswers : Type 0 where
  pub netdev_name_get : Bool
  pub ndev_add : Bool
  pub cpuif_socket : Bool
  pub cpuif_set_flags : Bool

-- `set_interface_admin_state`, true where it returns 0
unfoldable pub set_interface_admin_state : CpuifAnswers → Knet → Knet × Bool
set_interface_admin_state a k =
    if a.cpuif_socket then (closed (opened k), a.cpuif_set_flags) else (k, false)

-- `switch_pkt_cpuif_add` under switch_pktdriver_knet_device_add, which panics where it returns -1
unfoldable pub switch_pktdriver_knet_device_add : CpuifAnswers → Knet → Option Knet
unfolding set_interface_admin_state
switch_pktdriver_knet_device_add a k =
    if a.netdev_name_get
    then (if a.ndev_add
        then (let (k', up) = set_interface_admin_state a k in if up then some k' else none)
        else none)
    else none

abbrev pub switch_max_ports : ℕ
switch_max_ports = 512

-- SWITCH_PORT_INVALID, as `uint32_t`
abbrev pub switch_port_invalid : ℕ
switch_port_invalid = 2 ^ 32 - 1

-- The loop of `switch_port_list_get` from an index on: the front-panel ports and their device ports
unfoldable pub port_list_loop : (ℕ → Option ℕ) → ℕ → ℕ → Option (List ℕ × List ℕ)
port_list_loop to_dev zero index = some ([], [])
port_list_loop to_dev (suc left) index = do
  dev_port ← to_dev index
  (fps, dps) ← port_list_loop to_dev left (index + 1)
  some (index ∷ fps, dev_port ∷ dps)

abbrev padded : ℕ → List ℕ → List ℕ
padded used xs = xs ++ replicate (switch_max_ports - used) switch_port_invalid

unfoldable pub switch_port_list_get : (ℕ → Option ℕ) → ℕ → Option (List ℕ × List ℕ)
unfolding port_list_loop
switch_port_list_get to_dev max_ports = do
  (fps, dps) ← port_list_loop to_dev max_ports 0
  some (padded max_ports fps, padded max_ports dps)

-- `device_ctx`, which starts as all zero: there are no recirculation ports in it.
unfoldable pub device_context : Queries → Option DeviceCtx
unfolding switch_port_list_get
device_context q = do
  pipes ← q.num_pipes
  ports ← q.num_ports
  (fps, dps) ← (if ports == 0 then none else switch_port_list_get q.fp_to_dev ports)
  some (record {
    max_pipes = pipes;
    max_ports = ports;
    fp_list = fps;
    dp_list = dps;
    recirc_port_list = [];
    eth_cpu_dev_port = 0;
    pcie_cpu_dev_port = 0;
    dev_port_to_pipe = q.to_pipe;
  })

abbrev pub two_pipeline : ℕ
two_pipeline = 2

-- `g_cpu_pcie_port`
unfoldable pub g_cpu_pcie_port : DeviceCtx → ℕ
g_cpu_pcie_port ctx = if ctx.max_pipes == two_pipeline then 192 else 320

-- The interface "higw-dump", with the address that the code gives it
abbrev pub mirror_hostif : Hostif
mirror_hostif = record {
  intf_name = "higw-dump";
  mac = record { b0 = 0x00; b1 = 0x0c; b2 = 0x29; b3 = 0x71; b4 = 0x17; b5 = 0x8e };
  v4addr_len = 0;
  v4addr_ip4 = 0;
  ip6 = replicate 16 0;
  ip6_mc = replicate 16 0;
  ip6_linklocal = replicate 16 0;
  ip6_linklocal_mc = replicate 16 0;
  ip6_prefix_len = 0;
  admin_state = true;
  fake_fp_port = 0;
  fp_port = 0;
  dev_port = 0;
  gw_ip = 0;
  ipv6_enable = false;
}

abbrev pub or_panic : Result HostifInfo → Option (Knet × HostifInfo)
or_panic panicked = none
or_panic (failed k) = none
or_panic (Result.done k i) = some (k, i)

-- `switch_mirror_hostif_create`
unfoldable pub switch_mirror_hostif_create : Answers → Knet → Option (Knet × HostifInfo)
switch_mirror_hostif_create a k = or_panic (mirror_hostif_create a mirror_hostif 1 k)

-- The array `g_hostif_info_array` of the first hostif_num entries of `switch_cfg`
unfoldable pub hostif_array : Inet → SwitchConfig → Option (List Hostif)
hostif_array inet cfg =
    if leb cfg.hostif_num hostif_array_size
    then parser_switch_config_to_hostif inet (take cfg.hostif_num cfg.hostifs)
    else none

-- The calls for one interface, its device port being the driver's for its front-panel port
abbrev pub job : Queries → Answers → Hostif → Job
job q a h = record {
  answers = record a { fp_idx_to_dev_port = q.fp_to_dev h.fp_port };
  job_hostif = h;
}

unfoldable pub jobs : Queries → (ℕ → Answers) → ℕ → List Hostif → List Job
jobs q answers i [] = []
jobs q answers i (h ∷ hs) = job q (answers i) h ∷ jobs q answers (i + 1) hs

abbrev pub no_device : Knet
no_device = record { kndevs = []; rx_filters = []; tx_actions = []; sockets = 0; buffers = 0 }

abbrev pub config_of : Outcome SwitchConfig → Option SwitchConfig
config_of (done cfg) = some cfg
config_of refused = none
config_of aborted = none

abbrev pub port_cfg : SwitchConfig → PortCfg
port_cfg cfg = record { cfg_port_speed = cfg.port_speed; fec_model = cfg.fec_model }

-- What the creation leaves
pub record Device : Type 0 where
  pub device_cfg : SwitchConfig
  pub device_ctx : DeviceCtx
  pub port_calls_made : List Call
  pub knet : Knet
  pub hostif_infos : List HostifInfo
  pub mirror_info : HostifInfo
  pub hostif_hash_table : Table HostifEntry

-- Both hardware models create the mirror's interface.
unfoldable pub switch_device_create :
    Jansson → Libc → Inet → Queries → Stray → CpuifAnswers → (ℕ → Answers) → Answers → Option Device
unfolding device_context hostif_array jobs switch_mirror_hostif_create
    switch_pktdriver_knet_device_add
switch_device_create j c inet q stray cpuif answers mirror = do
  cfg ← config_of (switch_config_init j c inet)
  ctx ← device_context q
  calls ← switch_device_init ctx (port_cfg cfg) stray
  hostifs ← hostif_array inet cfg
  k1 ← (if q.module_is_inited then switch_pktdriver_knet_device_add cpuif no_device else none)
  (k2, infos) ← create_hostif (jobs q answers 0 hostifs) k1
  (k3, info) ← switch_mirror_hostif_create mirror k2
  (if q.port_status_notif_reg
      then some (record {
        device_cfg = cfg;
        device_ctx = ctx;
        port_calls_made = calls;
        knet = k3;
        hostif_infos = infos;
        mirror_info = info;
        hostif_hash_table = hostif_hash_table_init infos;
      })
      else none)
