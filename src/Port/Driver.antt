-- ===== src/Port/Driver.antt =====
-- What the driver documents of its calls for ports (the `bf_pal_port_*` that switch_port.c calls), and
-- what a sequence of them leaves.
use igw_p.Prelude.{
  ℕ, Bool, true, false, some, List, [], ◌∷◌, ◌≡◌, ◌≢◌, refl, ◌∙◌, ap, ◌==◌, ==_iff, if◌then◌else◌,
}
use mathlib.Core.Path.{subst}
use igw_p.Port.{
  Call, port_add, port_mtu_set, port_fec_set, port_enable, port_loopback, BfPortSpeed, BfFecType,
}
use igw_p.Port.Settings.{Port, set_port, port_of, after_calls}

-- The driver: what a call does to its state, and the settings of a port
pub record PortDriver : Type 1 where
  pub State : Type 0
  pub apply : Call → State → State
  pub read : State → ℕ → Port

-- Adding a port starts it afresh: with the speed and the FEC given, down, and not looped back. The
-- other calls change the setting that they name. No call changes another port.
pub record IsDocumentedPorts (d : PortDriver) : Type 0 where
  pub adds :
      (s : d.State) (p : ℕ) (v : BfPortSpeed) (f : BfFecType)
      → d.read (d.apply (port_add p v f) s) p
        ≡ record (d.read s p) { speed = some v; fec = f; enabled = false; loopback = false }
  pub sets_mtu :
      (s : d.State) (p tx rx : ℕ)
      → d.read (d.apply (port_mtu_set p tx rx) s) p
        ≡ record (d.read s p) { set_tx_mtu = tx; set_rx_mtu = rx }
  pub sets_fec :
      (s : d.State) (p : ℕ) (f : BfFecType)
      → d.read (d.apply (port_fec_set p f) s) p ≡ record (d.read s p) { fec = f }
  pub enables :
      (s : d.State) (p : ℕ)
      → d.read (d.apply (port_enable p) s) p ≡ record (d.read s p) { enabled = true }
  pub loops :
      (s : d.State) (p : ℕ)
      → d.read (d.apply (port_loopback p) s) p ≡ record (d.read s p) { loopback = true }
  pub others :
      (s : d.State) (c : Call) (q : ℕ) → port_of c ≢ q → d.read (d.apply c s) q ≡ d.read s q

-- The calls, one after the other
unfoldable pub run_calls : (d : PortDriver) → List Call → d.State → d.State
run_calls d [] s = s
run_calls d (c ∷ cs) s = run_calls d cs (d.apply c s)

module _ (d : PortDriver) (doc : IsDocumentedPorts d) where
  own_port :
      (c : Call) (s : d.State)
      → d.read (d.apply c s) (port_of c) ≡ set_port c (d.read s (port_of c))
  unfolding set_port port_of
  own_port (port_add p v f) s = doc.adds s p v f
  own_port (port_mtu_set p tx rx) s = doc.sets_mtu s p tx rx
  own_port (port_fec_set p f) s = doc.sets_fec s p f
  own_port (port_enable p) s = doc.enables s p
  own_port (port_loopback p) s = doc.loops s p

  one_call :
      (b : Bool) (c : Call) (s : d.State) (q : ℕ)
      → (port_of c == q) ≡ b
      → d.read (d.apply c s) q ≡ (if b then set_port c (d.read s q) else d.read s q)
  one_call true c s q h =
      subst (λ x. d.read (d.apply c s) x ≡ set_port c (d.read s x)) ((==_iff (port_of c) q).0 h)
        (own_port c s)
  one_call false c s q h = doc.others s c q (λ e.
      let same : (port_of c == q) ≡ true = (==_iff (port_of c) q).1 e in absurd (cc (h, same)))

  -- The calls leave of a port what its own calls set, in order.
  pub run_calls-after_calls :
      (cs : List Call) (s : d.State) (q : ℕ)
      → d.read (run_calls d cs s) q ≡ after_calls q cs (d.read s q)
  unfolding run_calls after_calls
  run_calls-after_calls [] s q = refl
  run_calls-after_calls (c ∷ cs) s q =
      run_calls-after_calls cs (d.apply c s) q
      ∙ ap (after_calls q cs) (one_call (port_of c == q) c s q refl)
