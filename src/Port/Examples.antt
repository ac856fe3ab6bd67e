-- ===== src/Port/Examples.antt =====
-- A device of four ports and two pipelines.
use igw_p.Prelude.{
  ℕ, ◌==◌, ==_iff, ◌≢◌, if◌then◌else◌, ◌/◌, true, false, Bool, Option, none, some, List, [], ◌∷◌,
  ◌≡◌, refl, arith,
}
use igw_p.Port.{
  DeviceCtx, Stray, PortCfg, Call, fec_none, switch_device_dev_port_get, switch_api_port_add,
  switch_device_init,
}
use igw_p.Port.Settings.{Port, set_port, port_of, expected}
use igw_p.Port.Driver.{PortDriver, IsDocumentedPorts, run_calls}
use igw_p.Port.Startup.{switch_device_init-expected}

abbrev ctx : DeviceCtx
ctx = record {
  max_pipes = 2;
  max_ports = 12;
  fp_list = 0 ∷ 1 ∷ 2 ∷ 3 ∷ 4 ∷ 5 ∷ 6 ∷ 7 ∷ 8 ∷ [];
  dp_list = 128 ∷ 129 ∷ 130 ∷ 131 ∷ 4 ∷ 5 ∷ 6 ∷ 7 ∷ 8 ∷ [];
  recirc_port_list = [];
  eth_cpu_dev_port = 0;
  pcie_cpu_dev_port = 0;
  dev_port_to_pipe = λ d. d / 128;
}

abbrev cfg : PortCfg
cfg = record { cfg_port_speed = 100; fec_model = 2 }

abbrev stray : Stray
stray = record { stray_dev_port = 9; stray_tx_mtu = 9; stray_rx_mtu = 9 }

abbrev before : Port
before = record {
  speed = none;
  set_tx_mtu = 0;
  set_rx_mtu = 0;
  fec = fec_none;
  enabled = false;
  loopback = false;
}

calls_of : Option (List Call) → List Call
calls_of none = []
calls_of (some cs) = cs

is_some : Option (List Call) → Bool
is_some none = false
is_some (some cs) = true

is_some-calls_of : (o : Option (List Call)) → is_some o ≡ true → o ≡ some (calls_of o)
unfolding is_some calls_of
is_some-calls_of none h = absurd (cc h)
is_some-calls_of (some cs) h = refl

abbrev calls : List Call
calls = calls_of (switch_device_init ctx cfg stray)

calls_lem : switch_device_init ctx cfg stray ≡ some calls
unfolding switch_device_init switch_api_port_add is_some
calls_lem = is_some-calls_of (switch_device_init ctx cfg stray) refl

port_4 : switch_device_dev_port_get ctx 4 9 ≡ some 4
unfolding switch_device_dev_port_get
port_4 = refl

-- A driver that keeps the settings of each port
abbrev keeper : PortDriver
keeper = record {
  State = ℕ → Port;
  apply = λ c s q. if port_of c == q then set_port c (s q) else s q;
  read = λ s q. s q;
}

self-equal : (p : ℕ) → (p == p) ≡ true
self-equal p = (==_iff p p).1 refl

other : (b : Bool) (x y : Port) → b ≢ true → (if b then x else y) ≡ y
other true x y h = absurd (h refl)
other false x y h = refl

keeper-IsDocumentedPorts : IsDocumentedPorts keeper
unfolding set_port port_of
keeper-IsDocumentedPorts = record {
  adds = λ s p v f. rw (self-equal p) refl;
  sets_mtu = λ s p tx rx. rw (self-equal p) refl;
  sets_fec = λ s p f. rw (self-equal p) refl;
  enables = λ s p. rw (self-equal p) refl;
  loops = λ s p. rw (self-equal p) refl;
  others = λ s c q apart.
      other (port_of c == q) (set_port c (s q)) (s q) (λ h. apart ((==_iff (port_of c) q).0 h));
}

-- Every port was up and looped back.
abbrev start : ℕ → Port
start q = record before { enabled = true; loopback = true }

switch_device_init-expected_example : run_calls keeper calls start 4 ≡ expected ctx cfg 4
switch_device_init-expected_example =
    switch_device_init-expected ctx cfg stray keeper 1 4 calls start keeper-IsDocumentedPorts
      (omega arith) port_4 calls_lem
