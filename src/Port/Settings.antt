-- ===== src/Port/Settings.antt =====
-- What the start-up leaves of each device port's settings (switch_port.c, switch_device.c).
use igw_p.Prelude.{
  ℕ, Bool, true, false, Option, some, List, [], ◌∷◌, ◌++◌, ◌≡◌, refl, sym, ◌∙◌, ap, inl, inr, ◌==◌,
  All, ==_iff, if◌then◌else◌, Bool-cases,
}
use igw_p.Port.{
  DeviceCtx, ApiPortInfo, Stray, Call, port_add, port_mtu_set, port_fec_set, port_enable,
  port_loopback, BfPortSpeed, bf_speed_40g, bf_speed_100g, BfFecType, fec_none, PortCfg,
  is_loopback, set_loopback_mode, switch_fec_mode_to_bf_fec_type,
  switch_port_speed_to_pd_port_speed, port_calls, api_port_info,
}

-- The settings of a port
pub record Port : Type 0 where
  pub speed : Option BfPortSpeed
  pub set_tx_mtu : ℕ
  pub set_rx_mtu : ℕ
  pub fec : BfFecType
  pub enabled : Bool
  pub loopback : Bool

-- What a call sets of its port, where the driver does what Driver says that it documents
unfoldable pub set_port : Call → Port → Port
set_port (port_add d speed fec) p = record p {
  speed = some speed;
  fec = fec;
  enabled = false;
  loopback = false;
}
set_port (port_mtu_set d tx rx) p = record p { set_tx_mtu = tx; set_rx_mtu = rx }
set_port (port_fec_set d fec) p = record p { fec = fec }
set_port (port_enable d) p = record p { enabled = true }
set_port (port_loopback d) p = record p { loopback = true }

unfoldable pub port_of : Call → ℕ
port_of (port_add d speed fec) = d
port_of (port_mtu_set d tx rx) = d
port_of (port_fec_set d fec) = d
port_of (port_enable d) = d
port_of (port_loopback d) = d

-- What the calls leave of one device port
unfoldable pub after_calls : ℕ → List Call → Port → Port
unfolding set_port port_of
after_calls d [] p = p
after_calls d (c ∷ cs) p = after_calls d cs (if port_of c == d then set_port c p else p)

-- A looped port has the larger frame size and no FEC.
unfoldable pub expected : DeviceCtx → PortCfg → ℕ → Port
expected ctx cfg d =
    let loops = is_loopback ctx d in
    record {
      speed = some (if cfg.cfg_port_speed == 40 then bf_speed_40g else bf_speed_100g);
      set_tx_mtu = if loops then 2040 else 2000;
      set_rx_mtu = if loops then 2040 else 2000;
      fec = if loops then fec_none else switch_fec_mode_to_bf_fec_type cfg.fec_model;
      enabled = true;
      loopback = loops;
    }

pub after_calls-append :
    (d : ℕ) (cs more : List Call) (p : Port)
    → after_calls d (cs ++ more) p ≡ after_calls d more (after_calls d cs p)
unfolding after_calls
after_calls-append d [] more p = refl
after_calls-append d (c ∷ cs) more p =
    after_calls-append d cs more (if port_of c == d then set_port c p else p)

no_fec : (mode : ℕ) → (mode == 0) ≡ true → switch_fec_mode_to_bf_fec_type mode ≡ fec_none
unfolding switch_fec_mode_to_bf_fec_type
no_fec mode h =
    let zero_mode : mode ≡ 0 = (==_iff mode 0).0 h in ap switch_fec_mode_to_bf_fec_type zero_mode

unfoldable set_all : List Call → Port → Port
unfolding set_port
set_all [] p = p
set_all (c ∷ cs) p = set_all cs (set_port c p)

after_calls-same :
    (d : ℕ) (cs : List Call) (p : Port)
    → All (λ c. (port_of c == d) ≡ true) cs
    → after_calls d cs p ≡ set_all cs p
unfolding after_calls set_all
after_calls-same d [] p at = refl
after_calls-same d (c ∷ cs) p (here, at) =
    ap (λ b. after_calls d cs (if b then set_port c p else p)) here
    ∙ after_calls-same d cs (set_port c p) at

after_calls-other :
    (d : ℕ) (cs : List Call) (p : Port)
    → All (λ c. (port_of c == d) ≡ false) cs
    → after_calls d cs p ≡ p
unfolding after_calls
after_calls-other d [] p at = refl
after_calls-other d (c ∷ cs) p (here, at) =
    ap (λ b. after_calls d cs (if b then set_port c p else p)) here ∙ after_calls-other d cs p at

-- Every call is for the port's own device port.
port_calls-All :
    (Q : ℕ → Type 0) (ctx : DeviceCtx) (info : ApiPortInfo) (stray : Stray) (e : ℕ)
    → Q e
    → All (λ c. Q (port_of c)) (port_calls ctx info false stray e)
unfolding port_calls port_of set_loopback_mode
port_calls-All Q ctx info stray e q = elim (Bool-cases (info.fec_mode == 0)) [
  | inl f ↦ elim (Bool-cases info.initial_admin_state) [
    | inl a ↦ elim (Bool-cases (is_loopback ctx e)) [
      | inl l ↦ rw (f, a, l) (q, (q, (q, (q, (q, (q, tt))))))
      | inr l ↦ rw (f, a, l) (q, (q, (q, tt)))
    ]
    | inr a ↦ elim (Bool-cases (is_loopback ctx e)) [
      | inl l ↦ rw (f, a, l) (q, (q, (q, (q, (q, tt)))))
      | inr l ↦ rw (f, a, l) (q, (q, tt))
    ]
  ]
  | inr f ↦ elim (Bool-cases info.initial_admin_state) [
    | inl a ↦ elim (Bool-cases (is_loopback ctx e)) [
      | inl l ↦ rw (f, a, l) (q, (q, (q, (q, (q, (q, (q, tt)))))))
      | inr l ↦ rw (f, a, l) (q, (q, (q, (q, tt))))
    ]
    | inr a ↦ elim (Bool-cases (is_loopback ctx e)) [
      | inl l ↦ rw (f, a, l) (q, (q, (q, (q, (q, (q, tt))))))
      | inr l ↦ rw (f, a, l) (q, (q, (q, tt)))
    ]
  ]
]

-- The calls of one port lead to its expected settings, whatever they were.
set_all-port_calls :
    (ctx : DeviceCtx) (cfg : PortCfg) (stray : Stray) (port e : ℕ) (p : Port)
    → set_all (port_calls ctx (api_port_info cfg port) false stray e) p ≡ expected ctx cfg e
unfolding set_all port_calls expected api_port_info switch_port_speed_to_pd_port_speed
    set_loopback_mode
set_all-port_calls ctx cfg stray port e p = elim (Bool-cases (cfg.fec_model == 0)) [
  | inl f ↦ elim (Bool-cases (is_loopback ctx e)) [
    | inl l ↦ elim (Bool-cases (cfg.cfg_port_speed == 40)) [
      | inl s ↦ rw (f, l, s) refl
      | inr s ↦ rw (f, l, s) refl
    ]
    | inr l ↦ elim (Bool-cases (cfg.cfg_port_speed == 40)) [
      | inl s ↦ rw (no_fec cfg.fec_model f, f, l, s) refl
      | inr s ↦ rw (no_fec cfg.fec_model f, f, l, s) refl
    ]
  ]
  | inr f ↦ elim (Bool-cases (is_loopback ctx e)) [
    | inl l ↦ elim (Bool-cases (cfg.cfg_port_speed == 40)) [
      | inl s ↦ rw (f, l, s) refl
      | inr s ↦ rw (f, l, s) refl
    ]
    | inr l ↦ elim (Bool-cases (cfg.cfg_port_speed == 40)) [
      | inl s ↦ rw (f, l, s) refl
      | inr s ↦ rw (f, l, s) refl
    ]
  ]
]

pub port_calls-after :
    (ctx : DeviceCtx) (cfg : PortCfg) (stray : Stray) (port d e : ℕ) (p : Port)
    → after_calls d (port_calls ctx (api_port_info cfg port) false stray e) p
      ≡ (if e == d then expected ctx cfg e else p)
port_calls-after ctx cfg stray port d e p = elim (Bool-cases (e == d)) [
  | inl same ↦
      after_calls-same d (port_calls ctx (api_port_info cfg port) false stray e) p
        (port_calls-All (λ x. (x == d) ≡ true) ctx (api_port_info cfg port) stray e same)
      ∙ set_all-port_calls ctx cfg stray port e p
      ∙ ap (λ b. if b then expected ctx cfg e else p) (sym same)
  | inr other ↦
      after_calls-other d (port_calls ctx (api_port_info cfg port) false stray e) p
        (port_calls-All (λ x. (x == d) ≡ false) ctx (api_port_info cfg port) stray e other)
      ∙ ap (λ b. if b then expected ctx cfg e else p) (sym other)
]
