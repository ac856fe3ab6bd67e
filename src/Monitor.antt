-- ===== src/Monitor.antt =====
-- The monitor thread (igw-h/init_setup/switchapi/switch_monitor.c): per-port error counters, and
-- the switching of the whole gateway down and up by the state of the two port groups.
--
-- What the driver reports in one round enters as a `Readings`; `none` is a status other than
-- BF_SUCCESS. The scripts that are run and the lines that are logged are the list `log`, newest
-- first. The `uint32_t` counters wrap.
pub mod Rounds
pub mod Settle
pub mod Outage
pub mod Trace
pub mod Ports
mod Examples
use igw_p.Prelude.{
  ℕ, ◌+◌, ◌%◌, ◌^◌, Bool, true, false, ◌&&◌, not, List, [], ◌∷◌, Option, none, some, ltb, leb, ◌==◌,
  if◌then◌else◌,
}

pub data OperState : Type 0 where
  down up : OperState

pub data MacStat : Type 0 where
  crc_error_stomped frames_received_with_fcs_error : MacStat

pub data Event : Type 0 where
  crc_changed fcs_changed eg_drop_changed ig_drop_changed : ℕ → ℕ → Event
  port_down : ℕ → ℕ → Event
  pipe0_all_down pipe2_all_down : Event
  run_set_igw_down run_set_igw_up : Event

-- `monitor_devport_t`
pub record MonitorDevport : Type 0 where
  pub fp_port : ℕ
  pub pipe : ℕ
  pub dev_port : ℕ
  pub crc_error : ℕ
  pub fcs_error : ℕ
  pub ig_tm_count : ℕ
  pub eg_tm_count : ℕ

-- `bf_pal_port_this_stat_get`, `bf_tm_port_drop_get` (ingress count first) and
-- `bf_pal_port_oper_state_get`
pub record Readings : Type 0 where
  pub stat : ℕ → MacStat → Option ℕ
  pub drop : ℕ → ℕ → Option (ℕ × ℕ)
  pub oper : ℕ → Option OperState

pub record Monitor : Type 0 where
  pub devports : List MonitorDevport
  pub pipe0_port_group_down_count : ℕ
  pub pipe2_port_group_down_count : ℕ
  pub up_retry_count : ℕ
  pub igw_oper_state : OperState
  pub log : List Event

abbrev pub max_down_count : ℕ
max_down_count = 15

abbrev pub u32 : ℕ → ℕ
u32 n = n % 2 ^ 32

-- The fields of `switch_hostif_t` that `monitor_devports_init` reads.
pub record HostifPort : Type 0 where
  pub hostif_dev_port : ℕ
  pub fake_fp_port : ℕ

-- `monitor_devports_init`, over the driver's `DEV_PORT_TO_PIPE`
pub monitor_devports_init : (ℕ → ℕ) → List HostifPort → List MonitorDevport
monitor_devports_init dev_port_to_pipe [] = []
monitor_devports_init dev_port_to_pipe (h ∷ hs) =
    record {
      fp_port = h.fake_fp_port;
      pipe = dev_port_to_pipe h.hostif_dev_port % 256;
      dev_port = h.hostif_dev_port;
      crc_error = 0;
      fcs_error = 0;
      ig_tm_count = 0;
      eg_tm_count = 0;
    }
    ∷ monitor_devports_init dev_port_to_pipe hs

pub initial : List MonitorDevport → Monitor
initial ps = record {
  devports = ps;
  pipe0_port_group_down_count = 0;
  pipe2_port_group_down_count = 0;
  up_retry_count = 0;
  igw_oper_state = up;
  log = [];
}

-- One port's turn in the loop of `port_syncd_monitor`; a failed read is the `continue`.
observe_crc : ℕ → MonitorDevport → List Event → MonitorDevport × List Event
observe_crc value mdp log =
    if ltb 0 value && not (value == mdp.crc_error)
    then (record mdp { crc_error = value }, crc_changed mdp.fp_port value ∷ log)
    else (mdp, log)

observe_fcs : ℕ → MonitorDevport → List Event → MonitorDevport × List Event
observe_fcs value mdp log =
    if ltb 0 value && not (value == mdp.fcs_error)
    then (record mdp { fcs_error = value }, fcs_changed mdp.fp_port value ∷ log)
    else (mdp, log)

syncd_fcs : Option ℕ → MonitorDevport × List Event → MonitorDevport × List Event
unfolding observe_fcs
syncd_fcs none s = s
syncd_fcs (some value) s = observe_fcs value s.0 s.1

syncd_crc : Option ℕ → Option ℕ → MonitorDevport → List Event → MonitorDevport × List Event
unfolding observe_crc syncd_fcs
syncd_crc none fcs mdp log = (mdp, log)
syncd_crc (some value) fcs mdp log = syncd_fcs fcs (observe_crc value mdp log)

pub syncd_port : Readings → MonitorDevport → List Event → MonitorDevport × List Event
unfolding syncd_crc
syncd_port r mdp log =
    syncd_crc (r.stat mdp.dev_port crc_error_stomped)
      (r.stat mdp.dev_port frames_received_with_fcs_error) mdp log

-- One port's turn in the loop of `tm_port_drop_monitor`
observe_eg : ℕ → MonitorDevport → List Event → MonitorDevport × List Event
observe_eg eg_count mdp log =
    if ltb 0 eg_count && not (eg_count == mdp.eg_tm_count)
    then (record mdp { eg_tm_count = eg_count }, eg_drop_changed mdp.fp_port eg_count ∷ log)
    else (mdp, log)

observe_ig : ℕ → MonitorDevport × List Event → MonitorDevport × List Event
observe_ig ig_count s =
    if ltb 0 ig_count && not (ig_count == s.0.ig_tm_count)
    then (record s.0 { ig_tm_count = ig_count }, ig_drop_changed s.0.fp_port ig_count ∷ s.1)
    else s

drop_counts : Option (ℕ × ℕ) → MonitorDevport → List Event → MonitorDevport × List Event
unfolding observe_eg observe_ig
drop_counts none mdp log = (mdp, log)
drop_counts (some (ig_count, eg_count)) mdp log = observe_ig ig_count (observe_eg eg_count mdp log)

pub drop_port : Readings → MonitorDevport → List Event → MonitorDevport × List Event
unfolding drop_counts
drop_port r mdp log = drop_counts (r.drop mdp.pipe mdp.dev_port) mdp log

-- `for (i = 0; i < devport_num; i++)`, each turn on the port's own entry
for_ports :
    (MonitorDevport → List Event → MonitorDevport × List Event)
    → List MonitorDevport
    → List Event
    → List MonitorDevport × List Event
for_ports turn [] log = ([], log)
for_ports turn (p ∷ ps) log =
    let (p', log') = turn p log in let (ps', log'') = for_ports turn ps log' in (p' ∷ ps', log'')

pub port_syncd_monitor : Readings → Monitor → Monitor
unfolding for_ports syncd_port
port_syncd_monitor r s =
    let (ps, log) = for_ports (syncd_port r) s.devports s.log in
    record s { devports = ps; log = log }

pub tm_port_drop_monitor : Readings → Monitor → Monitor
unfolding for_ports drop_port
tm_port_drop_monitor r s =
    let (ps, log) = for_ports (drop_port r) s.devports s.log in
    record s { devports = ps; log = log }

-- The two group states and the log, after the loop of `igw_monitor_all_devports_oper_state`
pub record Groups : Type 0 where
  pub pipe0_port_group_state : OperState
  pub pipe2_port_group_state : OperState
  pub events : List Event

seen : MonitorDevport → OperState → Groups → Groups
seen mdp down g = record g { events = port_down mdp.fp_port mdp.pipe ∷ g.events }
seen mdp up g =
    if mdp.pipe == 0
    then record g { pipe0_port_group_state = up }
    else if mdp.pipe == 2
    then record g { pipe2_port_group_state = up }
    else g

-- `none` in the second part is the early return, after which only the log has changed.
scan : Readings → List MonitorDevport → Groups → Groups × Bool
unfolding seen
scan r [] g = (g, true)
scan r (p ∷ ps) g = elim (r.oper p.dev_port) [
  | none ↦ (g, false)
  | some state ↦ scan r ps (seen p state g)
]

-- The two `if`s that count how long a group has been down; `count++` compares the old value.
count_pipe0 : OperState → Monitor → Monitor
count_pipe0 up s = record s { pipe0_port_group_down_count = 0 }
count_pipe0 down s =
    let t = record s {
      pipe0_port_group_down_count = u32 (s.pipe0_port_group_down_count + 1);
      log = pipe0_all_down ∷ s.log;
    } in
    if leb max_down_count s.pipe0_port_group_down_count
    then record t { igw_oper_state = down; log = run_set_igw_down ∷ t.log }
    else t

count_pipe2 : OperState → Monitor → Monitor
count_pipe2 up s = record s { pipe2_port_group_down_count = 0 }
count_pipe2 down s =
    let t = record s {
      pipe2_port_group_down_count = u32 (s.pipe2_port_group_down_count + 1);
      log = pipe2_all_down ∷ s.log;
    } in
    if leb max_down_count s.pipe2_port_group_down_count
    then record t { igw_oper_state = down; log = run_set_igw_down ∷ t.log }
    else t

-- The retry of `set_igw_up` while both groups are up
recover : OperState → OperState → OperState → Monitor → Monitor
recover up up down s =
    let t = record s {
      up_retry_count = u32 (s.up_retry_count + 1);
      log = run_set_igw_up ∷ s.log;
    } in
    if leb 3 t.up_retry_count then record t { igw_oper_state = up; up_retry_count = 0 } else t
recover _ _ _ s = s

pub settle : OperState → OperState → Monitor → Monitor
unfolding count_pipe0 count_pipe2 recover
settle p0 p2 s = let t = count_pipe2 p2 (count_pipe0 p0 s) in recover p0 p2 t.igw_oper_state t

pub igw_monitor_all_devports_oper_state : Readings → Monitor → Monitor
unfolding scan settle
igw_monitor_all_devports_oper_state r s =
    let (g, done) =
      scan r s.devports
        (record { pipe0_port_group_state = down; pipe2_port_group_state = down; events = s.log }) in
    let t = record s { log = g.events } in
    if done then settle g.pipe0_port_group_state g.pipe2_port_group_state t else t

-- The body of the `while (1)` of `switch_monitor_main`; `is_igw_65x` is its test of the hardware
-- model and of P4_NAME.
pub switch_monitor_round : Bool → Readings → Monitor → Monitor
unfolding port_syncd_monitor tm_port_drop_monitor igw_monitor_all_devports_oper_state
switch_monitor_round is_igw_65x r s =
    let t = tm_port_drop_monitor r (port_syncd_monitor r s) in
    if is_igw_65x then igw_monitor_all_devports_oper_state r t else t

-- The thread: one round for each `Readings` that the driver gives.
pub switch_monitor_main : Bool → List Readings → Monitor → Monitor
switch_monitor_main is_igw_65x [] s = s
switch_monitor_main is_igw_65x (r ∷ rs) s =
    switch_monitor_main is_igw_65x rs (switch_monitor_round is_igw_65x r s)
