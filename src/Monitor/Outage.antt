-- ===== src/Monitor/Outage.antt =====
-- When the monitor takes the whole gateway down, and when it brings it back.
use igw_p.Prelude.{ℕ, ◌+◌, ◌^◌, ◌≤◌, ◌<◌, true, ◌≡◌, sym, ap, ◌∙◌, ◌⊎◌, inl, inr, arith}
use igw_p.Monitor.Rounds.{AllRead, AnyUp, round-cases}
use igw_p.Monitor.Settle.{
  IsConsistent, settle-IsConsistent, settle_falls, settle_rises, settle_both_up, settle_stays_up,
  OutageAt, settle-OutageAt,
}
use igw_p.Monitor.{down, up, Readings, Monitor, max_down_count, switch_monitor_round}

module _ (r : Readings) (s : Monitor) where
  -- Every round of the IGW's monitor, whatever it reads or fails to read, keeps the invariant: fewer
  -- than three retries are pending, none while the gateway is up, and a group of a gateway that is
  -- up has been down for at most fifteen rounds.
  pub switch_monitor_round-IsConsistent :
      IsConsistent s → IsConsistent (switch_monitor_round true r s)
  switch_monitor_round-IsConsistent v = elim (round-cases r s) [
    | inl d ↦ rw d.settled (settle-IsConsistent d.p0 d.p2 d.before (ground (arith, d.same)))
    | inr (k, _) ↦ ground (arith, k)
  ]

  -- A round takes a gateway that is up down only if every port could be read and some group (pipe 0
  -- or pipe 2) has no port up and was counted down in at least fifteen rounds before.
  switch_monitor_round_falls :
      s.igw_oper_state ≡ up
      → (switch_monitor_round true r s).igw_oper_state ≡ down
      → AllRead r s.devports
        × (((AnyUp r 0 s.devports → ⊥) × (max_down_count ≤ s.pipe0_port_group_down_count))
            ⊎ ((AnyUp r 2 s.devports → ⊥) × (max_down_count ≤ s.pipe2_port_group_down_count)))
  switch_monitor_round_falls u h = elim (round-cases r s) [
    | inl d ↦ (
      d.all_read,
      ground (
        arith,
        d.same,
        d.pipe0_seen,
        d.pipe2_seen,
        settle_falls d.p0 d.p2 d.before (d.same.oper ∙ u)
            (sym (ap (λ t. t.igw_oper_state) d.settled) ∙ h),
      ),
    )
    | inr (k, _) ↦ absurd (ground (arith, k))
  ]

  -- From a consistent state, a round brings a gateway that is down up only if every port could be read, both groups have a
  -- port up, and two retries were pending.
  switch_monitor_round_rises :
      IsConsistent s
      → s.igw_oper_state ≡ down
      → (switch_monitor_round true r s).igw_oper_state ≡ up
      → AllRead r s.devports × AnyUp r 0 s.devports × AnyUp r 2 s.devports × (s.up_retry_count ≡ 2)
  switch_monitor_round_rises v e h = elim (round-cases r s) [
    | inl d ↦
        let (p0_up, p2_up, retries) =
          settle_rises d.p0 d.p2 d.before (ground (arith, d.same)) (d.same.oper ∙ e)
            (sym (ap (λ t. t.igw_oper_state) d.settled) ∙ h) in
        (d.all_read, d.pipe0_seen.0 p0_up, d.pipe2_seen.0 p2_up, sym d.same.retries ∙ retries)
    | inr (k, _) ↦ absurd (ground (arith, k))
  ]

  pub round-OutageAt :
      (n : ℕ)
      → n + 1 < 2 ^ 32
      → AllRead r s.devports
      → (AnyUp r 0 s.devports → ⊥)
      → OutageAt n s
      → OutageAt (n + 1) (switch_monitor_round true r s)
  round-OutageAt n fits read dark v = elim (round-cases r s) [
    | inl d ↦
        let p0_down : d.p0 ≡ down = ground (arith, d.pipe0_seen) in
        rw (d.settled, p0_down) (settle-OutageAt d.p2 n d.before fits (ground (arith, d.same, v)))
    | inr (_, unread) ↦ absurd (unread read)
  ]

  -- A round in which both groups have a port up
  pub round_recovers :
      IsConsistent s
      → AllRead r s.devports
      → AnyUp r 0 s.devports
      → AnyUp r 2 s.devports
      → s.igw_oper_state ≡ down
      → ((s.up_retry_count ≡ 2) × ((switch_monitor_round true r s).igw_oper_state ≡ up))
        ⊎ (((switch_monitor_round true r s).up_retry_count ≡ s.up_retry_count + 1)
            × ((switch_monitor_round true r s).igw_oper_state ≡ down))
  round_recovers v read a b e = elim (round-cases r s) [
    | inl d ↦
        let step =
          settle_both_up d.p0 d.p2 d.before (ground (arith, d.same)) (d.pipe0_seen.1 a)
            (d.pipe2_seen.1 b) (d.same.oper ∙ e) in
        rw d.settled (ground (arith, step, d.same))
    | inr (_, unread) ↦ absurd (unread read)
  ]

  pub round_stays_up :
      AllRead r s.devports
      → AnyUp r 0 s.devports
      → AnyUp r 2 s.devports
      → s.igw_oper_state ≡ up
      → (switch_monitor_round true r s).igw_oper_state ≡ up
  round_stays_up read a b e = elim (round-cases r s) [
    | inl d ↦
        rw d.settled (
          settle_stays_up d.p0 d.p2 d.before (d.pipe0_seen.1 a) (d.pipe2_seen.1 b)
            (d.same.oper ∙ e))
    | inr (_, unread) ↦ absurd (unread read)
  ]
