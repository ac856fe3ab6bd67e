-- ===== src/Port.antt =====
-- The ports that start-up adds (igw-h/init_setup/switchapi/switch_port.c: switch_api_port_add,
-- set_loopback_mode; switch_device.c: switch_device_init), as the sequence of calls of the driver,
-- each of which a SETUP_PANIC guards.
pub mod Settings
pub mod Driver
pub mod Startup
pub mod Recirc
mod Examples
use igw_p.Prelude.{
  ℕ, zero, suc, ◌+◌, ◌-◌, ◌*◌, ◌/◌, ◌%◌, ◌^◌, Bool, true, false, ◌||◌, Option, none, some, List, [],
  ◌∷◌, ◌++◌, ◌==◌, ltb, not, if◌then◌else◌, get_elem?,
}
use mathlib.Core.Option

-- `switch_port_speed_t`
pub data SwitchPortSpeed : Type 0 where
  speed_none speed_10g speed_25g speed_40g speed_50g speed_100g : SwitchPortSpeed

-- `bf_port_speed_t` and `bf_fec_type_t`, as far as they are used
pub data BfPortSpeed : Type 0 where
  bf_speed_none bf_speed_10g bf_speed_25g bf_speed_40g bf_speed_50g bf_speed_100g : BfPortSpeed

pub data BfFecType : Type 0 where
  fec_none fec_firecode fec_reed_solomon : BfFecType

-- What of the device's context is read; DEV_PORT_TO_PIPE is the driver's.
pub record DeviceCtx : Type 0 where
  pub max_pipes : ℕ
  pub max_ports : ℕ
  pub fp_list : List ℕ
  pub dp_list : List ℕ
  pub recirc_port_list : List ℕ
  pub eth_cpu_dev_port : ℕ
  pub pcie_cpu_dev_port : ℕ
  pub dev_port_to_pipe : ℕ → ℕ

-- `switch_api_port_info_t`; a FEC mode is a number, since the configuration's is taken as it is.
pub record ApiPortInfo : Type 0 where
  pub port : ℕ
  pub port_speed : SwitchPortSpeed
  pub initial_admin_state : Bool
  pub tx_mtu : ℕ
  pub rx_mtu : ℕ
  pub fec_mode : ℕ

-- What the uninitialised locals of switch_api_port_add hold
pub record Stray : Type 0 where
  pub stray_dev_port : ℕ
  pub stray_tx_mtu : ℕ
  pub stray_rx_mtu : ℕ

-- The calls of the driver, by device port; a port is added with a FEC type of 0, which is none.
pub data Call : Type 0 where
  port_add : ℕ → BfPortSpeed → BfFecType → Call
  port_mtu_set : ℕ → ℕ → ℕ → Call
  port_fec_set : ℕ → BfFecType → Call
  port_enable : ℕ → Call
  port_loopback : ℕ → Call

unfoldable pub switch_port_speed_to_pd_port_speed : SwitchPortSpeed → BfPortSpeed
switch_port_speed_to_pd_port_speed speed_none = bf_speed_none
switch_port_speed_to_pd_port_speed speed_10g = bf_speed_10g
switch_port_speed_to_pd_port_speed speed_25g = bf_speed_25g
switch_port_speed_to_pd_port_speed speed_40g = bf_speed_40g
switch_port_speed_to_pd_port_speed speed_50g = bf_speed_50g
switch_port_speed_to_pd_port_speed speed_100g = bf_speed_100g

unfoldable pub switch_fec_mode_to_bf_fec_type : ℕ → BfFecType
switch_fec_mode_to_bf_fec_type mode =
    if mode == 1 then fec_firecode else (if mode == 2 then fec_reed_solomon else fec_none)

abbrev pub mtu_default : ℕ
mtu_default = 2000

abbrev pub mtu_adjust : ℕ
mtu_adjust = 40

-- `set_loopback`, for two and for four pipelines
unfoldable pub is_loopback : DeviceCtx → ℕ → Bool
is_loopback ctx dev_port =
    let log_pipe = ctx.dev_port_to_pipe dev_port in
    if ctx.max_pipes == 2
    then log_pipe == 0
    else (if ctx.max_pipes == 4 then (log_pipe == 1) || (log_pipe == 3) else false)

unfoldable pub set_loopback_mode : DeviceCtx → ℕ → List Call
unfolding is_loopback
set_loopback_mode ctx dev_port =
    if is_loopback ctx dev_port
    then (port_mtu_set dev_port (mtu_default + mtu_adjust) (mtu_default + mtu_adjust)
        ∷ port_fec_set dev_port fec_none
        ∷ port_loopback dev_port
        ∷ [])
    else []

unfoldable pub listed : ℕ → List ℕ → Bool
listed port [] = false
listed port (p ∷ ps) = if port == p then true else listed port ps

unfoldable pub switch_device_recirc_port : DeviceCtx → ℕ → Bool
unfolding listed
switch_device_recirc_port ctx port = listed port ctx.recirc_port_list

-- `none` is the assert; -1, which no caller looks at, leaves the variable as it was. A port past the
-- arrays' 512 entries counts as the assert too.
unfoldable pub switch_device_dev_port_get : DeviceCtx → ℕ → ℕ → Option ℕ
unfolding switch_device_recirc_port
switch_device_dev_port_get ctx port before =
    if port == 501
    then some ctx.eth_cpu_dev_port
    else (if port == 502
        then some ctx.pcie_cpu_dev_port
        else (if switch_device_recirc_port ctx port
            then some before
            else (elim (get_elem? ctx.fp_list port) [
              | none ↦ none
              | some fp ↦ if fp == port then get_elem? ctx.dp_list port else none
            ])))

abbrev or_stray : ℕ → ℕ → ℕ
or_stray given stray = if given == 0 then stray else given

unfoldable pub port_calls : DeviceCtx → ApiPortInfo → Bool → Stray → ℕ → List Call
unfolding set_loopback_mode switch_fec_mode_to_bf_fec_type
port_calls ctx info skip_lpbk stray dev_port =
    port_add dev_port (switch_port_speed_to_pd_port_speed info.port_speed) fec_none
    ∷ port_mtu_set dev_port (or_stray info.tx_mtu stray.stray_tx_mtu)
        (or_stray info.rx_mtu stray.stray_rx_mtu)
    ∷ ((if info.fec_mode == 0
          then []
          else port_fec_set dev_port (switch_fec_mode_to_bf_fec_type info.fec_mode) ∷ [])
        ++ ((if info.initial_admin_state then port_enable dev_port ∷ [] else [])
            ++ (if skip_lpbk then [] else set_loopback_mode ctx dev_port)))

unfoldable pub switch_api_port_add : DeviceCtx → ApiPortInfo → Bool → Stray → Option (List Call)
unfolding switch_device_dev_port_get port_calls
switch_api_port_add ctx info skip_lpbk stray =
    Option.map (port_calls ctx info skip_lpbk stray)
      (switch_device_dev_port_get ctx info.port stray.stray_dev_port)

-- The two settings of `switch_cfg` that the ports take
pub record PortCfg : Type 0 where
  pub cfg_port_speed : ℕ
  pub fec_model : ℕ

unfoldable pub api_port_info : PortCfg → ℕ → ApiPortInfo
api_port_info cfg port = record {
  port = port;
  port_speed = if cfg.cfg_port_speed == 40 then speed_40g else speed_100g;
  initial_admin_state = true;
  tx_mtu = mtu_default;
  rx_mtu = mtu_default;
  fec_mode = cfg.fec_model;
}

-- `max_ports - 4`, on `uint32_t`
abbrev pub port_limit : DeviceCtx → ℕ
port_limit ctx = (ctx.max_ports + 2 ^ 32 - 4) % 2 ^ 32

-- The loop from a port on, for at most `turns` turns
unfoldable pub device_loop : DeviceCtx → PortCfg → Stray → ℕ → ℕ → Option (List Call)
unfolding api_port_info
device_loop ctx cfg stray zero port = some []
device_loop ctx cfg stray (suc turns) port =
    let rest = device_loop ctx cfg stray turns (port + 4) in
    if ltb port (port_limit ctx)
    then (elim (switch_api_port_add ctx (api_port_info cfg port) false stray) [
      | none ↦ none
      | some calls ↦ elim rest [ none ↦ none | some more ↦ some (calls ++ more) ]
    ])
    else some []

unfoldable pub switch_device_init : DeviceCtx → PortCfg → Stray → Option (List Call)
unfolding device_loop
switch_device_init ctx cfg stray = device_loop ctx cfg stray (port_limit ctx / 4 + 1) 0
