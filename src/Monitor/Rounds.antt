-- ===== src/Monitor/Rounds.antt =====
-- The gateway's operational state over the rounds of the monitor.
use igw_p.Prelude.{
  ℕ, Bool, true, false, List, [], ◌∷◌, some, ◌≡◌, refl, ◌⊎◌, inl, inr, ◌↔◌, arith, All, Bool-cases,
  Option-cases,
}
use igw_p.Monitor.Ports.{KeepsPort, syncd_port-KeepsPort, drop_port-KeepsPort}
use igw_p.Monitor.Settle.{settle_ports}
use igw_p.Monitor.{
  OperState, down, up, MonitorDevport, Event, Readings, Monitor, Groups, seen, for_ports,
  syncd_port, drop_port, port_syncd_monitor, tm_port_drop_monitor, scan, settle,
  igw_monitor_all_devports_oper_state, switch_monitor_round,
}

-- Every port's state can be read.
abbrev pub AllRead : Readings → List MonitorDevport → Type 0
AllRead r = All (λ p. (st : OperState) × (r.oper p.dev_port ≡ some st))

-- Some port of the pipe is up.
abbrev pub AnyUp : Readings → ℕ → List MonitorDevport → Type 0
AnyUp r k [] = ⊥
AnyUp r k (p ∷ ps) = ((p.pipe ≡ k) × (r.oper p.dev_port ≡ some up)) ⊎ AnyUp r k ps

-- What one port adds to a group's state.
seen_pipe0 :
    (p : MonitorDevport) (st : OperState) (g : Groups)
    → ((seen p st g).pipe0_port_group_state ≡ up)
      ↔ ((g.pipe0_port_group_state ≡ up) ⊎ ((p.pipe ≡ 0) × (st ≡ up)))
unfolding seen
seen_pipe0 p st g = ground arith

seen_pipe2 :
    (p : MonitorDevport) (st : OperState) (g : Groups)
    → ((seen p st g).pipe2_port_group_state ≡ up)
      ↔ ((g.pipe2_port_group_state ≡ up) ⊎ ((p.pipe ≡ 2) × (st ≡ up)))
unfolding seen
seen_pipe2 p st g = ground arith

module _ (r : Readings) where
  scan-AllRead : (ps : List MonitorDevport) (g : Groups) → AllRead r ps → (scan r ps g).1 ≡ true
  unfolding scan
  scan-AllRead [] g h = refl
  scan-AllRead (p ∷ ps) g ((st, e), h) = rw (e, scan) (scan-AllRead ps (seen p st g) h)

  scan-pipe0 :
      (ps : List MonitorDevport) (g : Groups)
      → AllRead r ps
      → ((scan r ps g).0.pipe0_port_group_state ≡ up)
        ↔ ((g.pipe0_port_group_state ≡ up) ⊎ AnyUp r 0 ps)
  unfolding scan
  scan-pipe0 [] g h = (λ e. inl e, elim [ inl e ↦ e | inr e ↦ absurd e ])
  scan-pipe0 (p ∷ ps) g ((st, e), h) =
      rw e (ground (arith, scan-pipe0 ps (seen p st g) h, seen_pipe0 p st g))

  scan-pipe2 :
      (ps : List MonitorDevport) (g : Groups)
      → AllRead r ps
      → ((scan r ps g).0.pipe2_port_group_state ≡ up)
        ↔ ((g.pipe2_port_group_state ≡ up) ⊎ AnyUp r 2 ps)
  unfolding scan
  scan-pipe2 [] g h = (λ e. inl e, elim [ inl e ↦ e | inr e ↦ absurd e ])
  scan-pipe2 (p ∷ ps) g ((st, e), h) =
      rw e (ground (arith, scan-pipe2 ps (seen p st g) h, seen_pipe2 p st g))

-- A round leaves the ports as they are, so what the readings say of them stays.
module _ (turn : MonitorDevport → List Event → MonitorDevport × List Event) (keeps : KeepsPort turn)
    (r : Readings) where
  for_ports-AllRead :
      (ps : List MonitorDevport) (log : List Event)
      → AllRead r (for_ports turn ps log).0 ↔ AllRead r ps
  unfolding for_ports
  for_ports-AllRead [] log = (λ h. h, λ h. h)
  for_ports-AllRead (p ∷ ps) log =
      rw (keeps p log).1 (ground (arith, for_ports-AllRead ps (turn p log).1))

  for_ports-AnyUp :
      (k : ℕ) (ps : List MonitorDevport) (log : List Event)
      → AnyUp r k (for_ports turn ps log).0 ↔ AnyUp r k ps
  unfolding for_ports
  for_ports-AnyUp k [] log = (λ h. h, λ h. h)
  for_ports-AnyUp k (p ∷ ps) log =
      rw ((keeps p log).0, (keeps p log).1) (ground (arith, for_ports-AnyUp k ps (turn p log).1))

module _ (r : Readings) where
  AllRead-scan : (ps : List MonitorDevport) (g : Groups) → (scan r ps g).1 ≡ true → AllRead r ps
  unfolding scan
  AllRead-scan [] g h = tt
  AllRead-scan (p ∷ ps) g h = elim (Option-cases (r.oper p.dev_port)) [
    | inl e ↦ absurd (cc (rw (e, scan) at h))
    | inr (st, e) ↦ ((st, e), AllRead-scan ps (seen p st g) (rw (e, scan) at h))
  ]

-- The fields that only `igw_monitor_all_devports_oper_state` writes.
pub record SameState (s t : Monitor) : Type 0 where
  pub pipe0 : t.pipe0_port_group_down_count ≡ s.pipe0_port_group_down_count
  pub pipe2 : t.pipe2_port_group_down_count ≡ s.pipe2_port_group_down_count
  pub retries : t.up_retry_count ≡ s.up_retry_count
  pub oper : t.igw_oper_state ≡ s.igw_oper_state

-- The round read every port and decided on what it saw.
pub record Decides (r : Readings) (s t : Monitor) : Type 0 where
  pub p0 : OperState
  pub p2 : OperState
  pub before : Monitor
  pub same : SameState s before
  pub all_read : AllRead r s.devports
  pub pipe0_seen : (p0 ≡ up) ↔ AnyUp r 0 s.devports
  pub pipe2_seen : (p2 ≡ up) ↔ AnyUp r 2 s.devports
  pub settled : t ≡ settle p0 p2 before

-- The same ports, as the readings see them
pub record SamePorts (s t : Monitor) : Type 0 where
  pub read : (r : Readings) → AllRead r t.devports ↔ AllRead r s.devports
  pub any_up : (r : Readings) (k : ℕ) → AnyUp r k t.devports ↔ AnyUp r k s.devports

igw-cases :
    (r : Readings) (s : Monitor)
    → Decides r s (igw_monitor_all_devports_oper_state r s)
      ⊎ (SameState s (igw_monitor_all_devports_oper_state r s) × (AllRead r s.devports → ⊥))
unfolding igw_monitor_all_devports_oper_state
igw-cases r s =
    let g₀ : Groups = record {
      pipe0_port_group_state = down;
      pipe2_port_group_state = down;
      events = s.log;
    } in
    elim (Bool-cases (scan r s.devports g₀).1) [
      | inl e ↦
          let read : AllRead r s.devports = AllRead-scan r s.devports g₀ e in
          inl (record {
            p0 = (scan r s.devports g₀).0.pipe0_port_group_state;
            p2 = (scan r s.devports g₀).0.pipe2_port_group_state;
            before = record s { log = (scan r s.devports g₀).0.events };
            same = record { pipe0 = refl; pipe2 = refl; retries = refl; oper = refl };
            all_read = read;
            pipe0_seen = ground (arith, scan-pipe0 r s.devports g₀ read);
            pipe2_seen = ground (arith, scan-pipe2 r s.devports g₀ read);
            settled = rw e;
          })
      | inr e ↦ inr (
        rw e (record { pipe0 = refl; pipe2 = refl; retries = refl; oper = refl }),
        λ read. cc (e, scan-AllRead r s.devports g₀ read),
      )
    ]

SamePorts-trans : {s t u : Monitor} → SamePorts s t → SamePorts t u → SamePorts s u
SamePorts-trans a b = record {
  read = λ r. ground (arith, a.read r, b.read r);
  any_up = λ r k. ground (arith, a.any_up r k, b.any_up r k);
}

port_syncd_monitor-SamePorts : (r : Readings) (s : Monitor) → SamePorts s (port_syncd_monitor r s)
unfolding port_syncd_monitor
port_syncd_monitor-SamePorts r s =
    let keeps = syncd_port-KeepsPort r in
    record {
      read = λ q. for_ports-AllRead (syncd_port r) keeps q s.devports s.log;
      any_up = λ q k. for_ports-AnyUp (syncd_port r) keeps q k s.devports s.log;
    }

tm_port_drop_monitor-SamePorts :
    (r : Readings) (s : Monitor) → SamePorts s (tm_port_drop_monitor r s)
unfolding tm_port_drop_monitor
tm_port_drop_monitor-SamePorts r s =
    let keeps = drop_port-KeepsPort r in
    record {
      read = λ q. for_ports-AllRead (drop_port r) keeps q s.devports s.log;
      any_up = λ q k. for_ports-AnyUp (drop_port r) keeps q k s.devports s.log;
    }

igw_ports :
    (r : Readings) (s : Monitor) → (igw_monitor_all_devports_oper_state r s).devports ≡ s.devports
unfolding igw_monitor_all_devports_oper_state
igw_ports r s =
    let g₀ : Groups = record {
      pipe0_port_group_state = down;
      pipe2_port_group_state = down;
      events = s.log;
    } in
    let g = (scan r s.devports g₀).0 in
    elim (Bool-cases (scan r s.devports g₀).1) [
      | inl e ↦ rw e (
          settle_ports g.pipe0_port_group_state g.pipe2_port_group_state
            (record s { log = g.events }))
      | inr e ↦ rw e
    ]

igw-SamePorts : (r : Readings) (s : Monitor) → SamePorts s (igw_monitor_all_devports_oper_state r s)
igw-SamePorts r s = record {
  read = λ q. rw (igw_ports r s) ((λ h. h), (λ h. h));
  any_up = λ q k. rw (igw_ports r s) ((λ h. h), (λ h. h));
}

pub round-SamePorts :
    (b : Bool) (r : Readings) (s : Monitor) → SamePorts s (switch_monitor_round b r s)
unfolding switch_monitor_round
round-SamePorts false r s =
    SamePorts-trans (port_syncd_monitor-SamePorts r s) (tm_port_drop_monitor-SamePorts r _)
round-SamePorts true r s =
    SamePorts-trans
      (SamePorts-trans (port_syncd_monitor-SamePorts r s) (tm_port_drop_monitor-SamePorts r _))
      (igw-SamePorts r _)

-- What a round of the IGW does to the gateway's state: it decides on what it read, or a read
-- failed and the state stays.
pub round-cases :
    (r : Readings) (s : Monitor)
    → Decides r s (switch_monitor_round true r s)
      ⊎ (SameState s (switch_monitor_round true r s) × (AllRead r s.devports → ⊥))
unfolding switch_monitor_round
round-cases r s =
    let t = tm_port_drop_monitor r (port_syncd_monitor r s) in
    let ports =
      SamePorts-trans (port_syncd_monitor-SamePorts r s)
        (tm_port_drop_monitor-SamePorts r (port_syncd_monitor r s)) in
    elim (igw-cases r t) [
      | inl d ↦ inl (record {
        p0 = d.p0;
        p2 = d.p2;
        before = d.before;
        same = record {
          pipe0 = d.same.pipe0;
          pipe2 = d.same.pipe2;
          retries = d.same.retries;
          oper = d.same.oper;
        };
        all_read = (ports.read r).0 d.all_read;
        pipe0_seen = ground (arith, ports.any_up r 0, d.pipe0_seen);
        pipe2_seen = ground (arith, ports.any_up r 2, d.pipe2_seen);
        settled = d.settled;
      })
      | inr (k, unread) ↦ inr (
        record { pipe0 = k.pipe0; pipe2 = k.pipe2; retries = k.retries; oper = k.oper },
        λ read. unread ((ports.read r).1 read),
      )
    ]
