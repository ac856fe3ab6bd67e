-- ===== src/Monitor/Trace.antt =====
-- Whole runs of the monitor: how long an outage lasts before the gateway is taken down, and how
-- many good rounds bring it back.
use igw_p.Prelude.{
  ℕ, ◌+◌, ◌^◌, ◌≤◌, ◌<◌, true, List, [], ◌∷◌, ◌≡◌, inl, inr, ◌↔◌, arith, length, All,
}
use igw_p.Monitor.Rounds.{AllRead, AnyUp, round-SamePorts}
use igw_p.Monitor.Settle.{IsConsistent, OutageAt, initial-OutageAt}
use igw_p.Monitor.Outage.{
  switch_monitor_round-IsConsistent, round-OutageAt, round_recovers, round_stays_up,
}
use igw_p.Monitor.{
  down, up, MonitorDevport, Readings, Monitor, initial, switch_monitor_round, switch_monitor_main,
}

-- Every port was read, and no port of pipe 0 is up.
abbrev pub Pipe0Dark : List MonitorDevport → Readings → Type 0
Pipe0Dark ps r = AllRead r ps × (AnyUp r 0 ps → ⊥)

-- Every port was read, and both groups have a port up.
abbrev pub BothLit : List MonitorDevport → Readings → Type 0
BothLit ps r = AllRead r ps × AnyUp r 0 ps × AnyUp r 2 ps

-- The monitor keeps its invariant from the start, over any readings at all.
switch_monitor_main-IsConsistent :
    (rs : List Readings) (s : Monitor)
    → IsConsistent s
    → IsConsistent (switch_monitor_main true rs s)
unfolding switch_monitor_main
switch_monitor_main-IsConsistent [] s v = v
switch_monitor_main-IsConsistent (r ∷ rs) s v =
    switch_monitor_main-IsConsistent rs (switch_monitor_round true r s)
      (switch_monitor_round-IsConsistent r s v)

All-map :
    {P Q : Readings → Type 0}
    → ((r : Readings) → P r → Q r)
    → (rs : List Readings) → All P rs
    → All Q rs
All-map f [] h = tt
All-map f (r ∷ rs) h = (f r h.0, All-map f rs h.1)

module _ (s : Monitor) (r : Readings) (rs : List Readings) where
  Dark-round :
      All (Pipe0Dark s.devports) rs → All (Pipe0Dark (switch_monitor_round true r s).devports) rs
  Dark-round =
      let ports = round-SamePorts true r s in
      All-map (λ q h. ((ports.read q).1 h.0, λ u. h.1 ((ports.any_up q 0).0 u))) rs

  Lit-round :
      All (BothLit s.devports) rs → All (BothLit (switch_monitor_round true r s).devports) rs
  Lit-round =
      let ports = round-SamePorts true r s in
      All-map (λ q h. ((ports.read q).1 h.0, (ports.any_up q 0).1 h.1, (ports.any_up q 2).1 h.2)) rs

main-OutageAt :
    (rs : List Readings) (n k : ℕ) (s : Monitor)
    → n + length rs ≡ k
    → k < 2 ^ 32
    → All (Pipe0Dark s.devports) rs
    → OutageAt n s
    → OutageAt k (switch_monitor_main true rs s)
unfolding switch_monitor_main
main-OutageAt [] n k s e fits dark v = let e' : n ≡ k = omega arith in rw (← e') v
main-OutageAt (r ∷ rs) n k s e fits dark v =
    main-OutageAt rs (n + 1) k (switch_monitor_round true r s) (omega arith) fits
      (Dark-round s r rs dark.1) (round-OutageAt r s n (omega arith) dark.0.0 dark.0.1 v)

-- From the start, after fewer than 2 ^ 32 rounds that read every port and see none of pipe 0 up, the
-- gateway has been taken down exactly if there were at least sixteen of them.
pub switch_monitor_main_outage :
    (ps : List MonitorDevport) (rs : List Readings)
    → length rs < 2 ^ 32
    → All (Pipe0Dark ps) rs
    → ((switch_monitor_main true rs (initial ps)).igw_oper_state ≡ down) ↔ (16 ≤ length rs)
unfolding initial
switch_monitor_main_outage ps rs fits dark =
    (main-OutageAt rs 0 (length rs) (initial ps) (omega arith) fits dark
      (initial-OutageAt ps)).fallen

lit_stays_up :
    (rs : List Readings) (s : Monitor)
    → All (BothLit s.devports) rs
    → s.igw_oper_state ≡ up
    → (switch_monitor_main true rs s).igw_oper_state ≡ up
unfolding switch_monitor_main
lit_stays_up [] s lit e = e
lit_stays_up (r ∷ rs) s lit e =
    lit_stays_up rs (switch_monitor_round true r s) (Lit-round s r rs lit.1)
      (round_stays_up r s lit.0.0 lit.0.1 lit.0.2 e)

-- From a consistent state, a gateway that is down, over rounds that read every port and see both groups up, comes up exactly
-- if those rounds and the retries already pending make three, and then stays up.
pub switch_monitor_main_recovery :
    (rs : List Readings) (s : Monitor)
    → IsConsistent s
    → s.igw_oper_state ≡ down
    → All (BothLit s.devports) rs
    → ((switch_monitor_main true rs s).igw_oper_state ≡ up) ↔ (3 ≤ length rs + s.up_retry_count)
unfolding switch_monitor_main
switch_monitor_main_recovery [] s v e lit =
    (λ u. absurd (cc (e, u)), λ h. absurd (omega (arith, v.retries_few)))
switch_monitor_main_recovery (r ∷ rs) s v e lit =
    elim (round_recovers r s v lit.0.0 lit.0.1 lit.0.2 e) [
      | inl (two, u) ↦ (
        λ _. omega arith,
        λ _. lit_stays_up rs (switch_monitor_round true r s) (Lit-round s r rs lit.1) u,
      )
      | inr (more, d) ↦
          let ih =
            switch_monitor_main_recovery rs (switch_monitor_round true r s)
              (switch_monitor_round-IsConsistent r s v) d (Lit-round s r rs lit.1) in
          (λ u. omega (arith, ih.0 u, more), λ h. ih.1 (omega (arith, more)))
    ]
