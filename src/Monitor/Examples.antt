-- ===== src/Monitor/Examples.antt =====
-- The monitor on a gateway of two ports, one of each external pipe.
use igw_p.Prelude.{
  ℕ, zero, suc, ◌+◌, ◌≤◌, true, List, [], ◌∷◌, none, some, ◌≡◌, refl, ◌↔◌, inl, inr, arith,
  if◌then◌else◌, ◌==◌, All, length, replicate,
}
use igw_p.Monitor.{
  down, up, MonitorDevport, Readings, Monitor, initial, syncd_port, drop_port, port_syncd_monitor,
  tm_port_drop_monitor, settle, igw_monitor_all_devports_oper_state, switch_monitor_round,
  switch_monitor_main, for_ports, scan, seen, count_pipe0, count_pipe2, recover, syncd_crc,
  syncd_fcs, observe_crc, observe_fcs, observe_eg, observe_ig, drop_counts,
}
use igw_p.Monitor.Settle.{IsConsistent}
use igw_p.Monitor.Trace.{
  Pipe0Dark, BothLit, switch_monitor_main_outage, switch_monitor_main_recovery,
}

abbrev port : ℕ → ℕ → MonitorDevport
port k dev = record {
  fp_port = dev;
  pipe = k;
  dev_port = dev;
  crc_error = 0;
  fcs_error = 0;
  ig_tm_count = 0;
  eg_tm_count = 0;
}

abbrev two_ports : List MonitorDevport
two_ports = port 0 8 ∷ port 2 264 ∷ []

-- The port of pipe 0 is down, and errors are counted.
abbrev dark : Readings
dark = record {
  stat = λ dev st. some 3;
  drop = λ pipe dev. some (1, 2);
  oper = λ dev. if dev == 8 then some down else some up;
}

abbrev lit : Readings
lit = record { stat = λ dev st. none; drop = λ pipe dev. none; oper = λ dev. some up }

-- Fifteen rounds into an outage
abbrev nearly_down : Monitor
nearly_down = record {
  devports = two_ports;
  pipe0_port_group_down_count = 15;
  pipe2_port_group_down_count = 0;
  up_retry_count = 0;
  igw_oper_state = up;
  log = [];
}

abbrev is_down : Monitor
is_down = record {
  devports = two_ports;
  pipe0_port_group_down_count = 0;
  pipe2_port_group_down_count = 0;
  up_retry_count = 2;
  igw_oper_state = down;
  log = [];
}

dark-Pipe0Dark : Pipe0Dark two_ports dark
dark-Pipe0Dark = (((down, refl), ((up, refl), tt)), ground arith)

lit-BothLit : BothLit two_ports lit
lit-BothLit = (((up, refl), ((up, refl), tt)), inl (refl, refl), inr (inl (refl, refl)))

is_down-IsConsistent : IsConsistent is_down
is_down-IsConsistent = ground arith

replicate-All : {A : Type 0} (P : A → Type 0) (a : A) (n : ℕ) → P a → All P (replicate n a)
replicate-All P a zero p = tt
replicate-All P a (suc n) p = (p, replicate-All P a n p)

switch_monitor_main_outage_example :
    ((switch_monitor_main true (replicate 16 dark) (initial two_ports)).igw_oper_state ≡ down)
    ↔ (16 ≤ length (replicate 16 dark))
switch_monitor_main_outage_example =
    switch_monitor_main_outage two_ports (replicate 16 dark) (omega arith)
      (replicate-All (Pipe0Dark two_ports) dark 16 dark-Pipe0Dark)

switch_monitor_main_recovery_example :
    ((switch_monitor_main true (replicate 1 lit) is_down).igw_oper_state ≡ up)
    ↔ (3 ≤ length (replicate 1 lit) + is_down.up_retry_count)
switch_monitor_main_recovery_example =
    switch_monitor_main_recovery (replicate 1 lit) is_down is_down-IsConsistent refl
      (replicate-All (BothLit two_ports) lit 1 lit-BothLit)

dark_falls : (switch_monitor_round true dark nearly_down).igw_oper_state ≡ down
unfolding syncd_port drop_port port_syncd_monitor tm_port_drop_monitor settle
    igw_monitor_all_devports_oper_state switch_monitor_round for_ports scan seen count_pipe0
    count_pipe2 recover syncd_crc syncd_fcs observe_crc observe_fcs observe_eg observe_ig
    drop_counts initial
dark_falls = refl

lit_rises : (switch_monitor_round true lit is_down).igw_oper_state ≡ up
unfolding syncd_port drop_port port_syncd_monitor tm_port_drop_monitor settle
    igw_monitor_all_devports_oper_state switch_monitor_round for_ports scan seen count_pipe0
    count_pipe2 recover syncd_crc syncd_fcs observe_crc observe_fcs observe_eg observe_ig
    drop_counts initial
lit_rises = refl
