-- ===== src/Monitor/Settle.antt =====
-- One decision of the monitor on the state of the two port groups, and the invariant it keeps.
use igw_p.Prelude.{ℕ, ◌+◌, ◌^◌, ◌≤◌, ◌<◌, ◌≡◌, ◌⊎◌, ◌↔◌, arith}
use igw_p.Monitor.{OperState, down, up, Monitor, max_down_count, settle, initial, MonitorDevport}
use igw_p.Prelude.{List}

-- Between two rounds: fewer than three retries are pending, and none while the gateway is up; a
-- group of a gateway that is up has been down for at most `max_down_count` rounds.
pub record IsConsistent (s : Monitor) : Type 0 where
  pub retries_few : s.up_retry_count < 3
  pub retries_done : s.igw_oper_state ≡ up → s.up_retry_count ≡ 0
  pub pipe0_recent : s.igw_oper_state ≡ up → s.pipe0_port_group_down_count ≤ max_down_count
  pub pipe2_recent : s.igw_oper_state ≡ up → s.pipe2_port_group_down_count ≤ max_down_count

pub initial-IsConsistent : (ps : List MonitorDevport) → IsConsistent (initial ps)
unfolding initial
initial-IsConsistent ps = ground arith

module _ (p0 p2 : OperState) (s : Monitor) where
  pub settle-IsConsistent : IsConsistent s → IsConsistent (settle p0 p2 s)
  unfolding settle
  settle-IsConsistent v = ground arith

  pub settle_ports : (settle p0 p2 s).devports ≡ s.devports
  unfolding settle
  settle_ports = ground arith

  -- The gateway goes down only on a group that is down now and was at each of fifteen rounds before.
  pub settle_falls :
      s.igw_oper_state ≡ up
      → (settle p0 p2 s).igw_oper_state ≡ down
      → ((p0 ≡ down) × (max_down_count ≤ s.pipe0_port_group_down_count))
        ⊎ ((p2 ≡ down) × (max_down_count ≤ s.pipe2_port_group_down_count))
  unfolding settle
  settle_falls u d = ground arith

  -- It comes up only at the third retry.
  pub settle_rises :
      IsConsistent s
      → s.igw_oper_state ≡ down
      → (settle p0 p2 s).igw_oper_state ≡ up
      → (p0 ≡ up) × (p2 ≡ up) × (s.up_retry_count ≡ 2)
  unfolding settle
  settle_rises v d u = ground arith

  pub settle_both_up :
      IsConsistent s
      → p0 ≡ up
      → p2 ≡ up
      → s.igw_oper_state ≡ down
      → ((s.up_retry_count ≡ 2) × ((settle p0 p2 s).igw_oper_state ≡ up))
        ⊎ (((settle p0 p2 s).up_retry_count ≡ s.up_retry_count + 1)
            × ((settle p0 p2 s).igw_oper_state ≡ down))
  unfolding settle
  settle_both_up v e f d = ground arith

  pub settle_stays_up :
      p0 ≡ up → p2 ≡ up → s.igw_oper_state ≡ up → (settle p0 p2 s).igw_oper_state ≡ up
  unfolding settle
  settle_stays_up e f u = ground arith

-- `n` rounds into an outage of pipe 0.
pub record OutageAt (n : ℕ) (s : Monitor) : Type 0 where
  pub counted : s.pipe0_port_group_down_count ≡ n
  pub pipe2_later : s.pipe2_port_group_down_count ≤ n
  pub fallen : (s.igw_oper_state ≡ down) ↔ (max_down_count < n)

pub initial-OutageAt : (ps : List MonitorDevport) → OutageAt 0 (initial ps)
unfolding initial
initial-OutageAt ps = ground arith

pub settle-OutageAt :
    (p2 : OperState) (n : ℕ) (s : Monitor)
    → n + 1 < 2 ^ 32
    → OutageAt n s
    → OutageAt (n + 1) (settle down p2 s)
unfolding settle
settle-OutageAt p2 n s fits v = ground arith
