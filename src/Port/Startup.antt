-- ===== src/Port/Startup.antt =====
-- The loop of switch_device_init over the front-panel ports (switch_device.c).
use igw_p.Prelude.{
  ℕ, zero, suc, ◌+◌, ◌*◌, ◌/◌, ◌<◌, Bool, true, false, Option, none, some, List, [], ◌++◌, ◌≡◌,
  refl, sym, ◌∙◌, ap, ◌⊎◌, inl, inr, arith, ◌==◌, ==_iff, ltb, if◌then◌else◌, Bool-cases,
}
use mathlib.Core.Option
use mathlib.Core.Path.{subst}
use igw_p.Port.{
  DeviceCtx, Stray, Call, PortCfg, port_calls, switch_device_dev_port_get, switch_api_port_add,
  api_port_info, device_loop, switch_device_init, port_limit,
}
use igw_p.Port.Driver.{PortDriver, IsDocumentedPorts, run_calls, run_calls-after_calls}
use igw_p.Port.Settings.{Port, after_calls, expected, after_calls-append, port_calls-after}

loop-step :
    (o : Option ℕ) (f : ℕ → List Call) (r : Option (List Call)) (cs : List Call)
    → Path
        (Option (List Call))
        (elim (Option.map f o) [
          | none ↦ none
          | some calls ↦ elim r [ none ↦ none | some more ↦ some (calls ++ more) ]
        ])
        (some cs)
    → (e : ℕ) × (more : List Call) × (o ≡ some e) × (r ≡ some more) × ((f e ++ more) ≡ cs)
loop-step none f r cs h = absurd (cc h)
loop-step (some e) f none cs h = absurd (cc h)
loop-step (some e) f (some more) cs h = (e, more, refl, refl, cc h)

-- A turn that is taken, and what is left of one that is not
loop-cases :
    (b : Bool) (o : Option ℕ) (f : ℕ → List Call) (r : Option (List Call)) (cs : List Call)
    → Path
        (Option (List Call))
        (if b
          then (elim (Option.map f o) [
            | none ↦ none
            | some calls ↦ elim r [ none ↦ none | some more ↦ some (calls ++ more) ]
          ])
          else some [])
        (some cs)
    → ((b ≡ false) × ([] ≡ cs))
      ⊎ ((e : ℕ) × (more : List Call) × (o ≡ some e) × (r ≡ some more) × ((f e ++ more) ≡ cs))
loop-cases true o f r cs h = inr (loop-step o f r cs h)
loop-cases false o f r cs h = inl (refl, cc h)

module _ (ctx : DeviceCtx) (cfg : PortCfg) (stray : Stray) where
  turn-cases :
      (n port : ℕ) (cs : List Call)
      → device_loop ctx cfg stray (suc n) port ≡ some cs
      → ((ltb port (port_limit ctx) ≡ false) × ([] ≡ cs))
        ⊎ ((e : ℕ) × (more : List Call) × (switch_device_dev_port_get ctx port stray.stray_dev_port
              ≡ some e)
            × (device_loop ctx cfg stray n (port + 4) ≡ some more)
            × ((port_calls ctx (api_port_info cfg port) false stray e ++ more) ≡ cs))
  unfolding device_loop switch_api_port_add
  turn-cases n port cs h =
      loop-cases (ltb port (port_limit ctx)) _ (port_calls ctx (api_port_info cfg port) false stray)
        _ cs h

  expected-kept :
      (d e : ℕ) → (if e == d then expected ctx cfg e else expected ctx cfg d) ≡ expected ctx cfg d
  expected-kept d e = elim (Bool-cases (e == d)) [
    | inl same ↦
        ap (λ b. if b then expected ctx cfg e else expected ctx cfg d) same
        ∙ ap (expected ctx cfg) ((==_iff e d).0 same)
    | inr other ↦ ap (λ b. if b then expected ctx cfg e else expected ctx cfg d) other
  ]

  -- A port that has its settings keeps them.
  device_loop-keeps :
      (n port d : ℕ) (cs : List Call)
      → device_loop ctx cfg stray n port ≡ some cs
      → after_calls d cs (expected ctx cfg d) ≡ expected ctx cfg d
  unfolding device_loop after_calls
  device_loop-keeps zero port d cs h =
      let nothing : [] ≡ cs = cc h in ap (λ l. after_calls d l (expected ctx cfg d)) (sym nothing)
  device_loop-keeps (suc n) port d cs h = elim (turn-cases n port cs h) [
    | inl (past, nothing) ↦ ap (λ l. after_calls d l (expected ctx cfg d)) (sym nothing)
    | inr (e, more, got, rest, whole) ↦
        let here = port_calls ctx (api_port_info cfg port) false stray e in
        ap (λ l. after_calls d l (expected ctx cfg d)) (sym whole)
        ∙ after_calls-append d here more (expected ctx cfg d)
        ∙ ap (after_calls d more)
            (port_calls-after ctx cfg stray port d e (expected ctx cfg d) ∙ expected-kept d e)
        ∙ device_loop-keeps n (port + 4) d more rest
  ]

  port-expected :
      (port d e : ℕ) (p : Port)
      → some e ≡ some d
      → after_calls d (port_calls ctx (api_port_info cfg port) false stray e) p ≡ expected ctx cfg d
  port-expected port d e p h =
      let same : e ≡ d = cc h in
      port_calls-after ctx cfg stray port d e p
      ∙ ap (λ b. if b then expected ctx cfg e else p) ((==_iff e d).1 same)
      ∙ ap (expected ctx cfg) same

  device_loop-expected :
      (n port j d : ℕ) (cs : List Call) (p : Port)
      → j < n
      → port + 4 * j < port_limit ctx
      → switch_device_dev_port_get ctx (port + 4 * j) stray.stray_dev_port ≡ some d
      → device_loop ctx cfg stray n port ≡ some cs
      → after_calls d cs p ≡ expected ctx cfg d
  device_loop-expected zero port j d cs p lt in_range at h = absurd (omega (arith, lt))
  device_loop-expected (suc n) port zero d cs p lt in_range at h = elim (turn-cases n port cs h) [
    | inl (past, nothing) ↦ absurd (ground (arith, past, in_range))
    | inr (e, more, got, rest, whole) ↦
        let here = port_calls ctx (api_port_info cfg port) false stray e in
        let first : port + 4 * 0 ≡ port = omega arith in
        let there : switch_device_dev_port_get ctx port stray.stray_dev_port ≡ some d =
          subst (λ x. switch_device_dev_port_get ctx x stray.stray_dev_port ≡ some d) first at in
        ap (λ l. after_calls d l p) (sym whole)
        ∙ after_calls-append d here more p
        ∙ ap (after_calls d more) (port-expected port d e p (sym got ∙ there))
        ∙ device_loop-keeps n (port + 4) d more rest
  ]
  device_loop-expected (suc n) port (suc j) d cs p lt in_range at h =
      elim (turn-cases n port cs h) [
        | inl (past, nothing) ↦ absurd (ground (arith, past, in_range))
        | inr (e, more, got, rest, whole) ↦
            let here = port_calls ctx (api_port_info cfg port) false stray e in
            let next : port + 4 * suc j ≡ port + 4 + 4 * j = omega arith in
            ap (λ l. after_calls d l p) (sym whole)
            ∙ after_calls-append d here more p
            ∙ device_loop-expected n (port + 4) j d more (after_calls d here p) (omega (arith, lt))
                (omega (arith, in_range))
                (subst (λ x. switch_device_dev_port_get ctx x stray.stray_dev_port ≡ some d) next
                  at)
                rest
      ]

  -- Over a driver that does what it documents, where adding a port starts it afresh, down and not
  -- looped back: if the start-up of the ports goes through, its calls leave the device port of every
  -- fourth front-panel port below the limit with the settings expected of it, whatever they were: its
  -- speed, up, and, where it is one of the looped pipes, looped back with the larger frame size and no
  -- FEC.
  pub switch_device_init-expected :
      (d : PortDriver) (j dev_port : ℕ) (cs : List Call) (s : d.State)
      → IsDocumentedPorts d
      → 4 * j < port_limit ctx
      → switch_device_dev_port_get ctx (4 * j) stray.stray_dev_port ≡ some dev_port
      → switch_device_init ctx cfg stray ≡ some cs
      → d.read (run_calls d cs s) dev_port ≡ expected ctx cfg dev_port
  unfolding switch_device_init
  switch_device_init-expected d j dev_port cs s doc lt at h =
      let from_zero : 4 * j ≡ 0 + 4 * j = omega arith in
      run_calls-after_calls d doc cs s dev_port
      ∙ device_loop-expected (port_limit ctx / 4 + 1) 0 j dev_port cs (d.read s dev_port)
          (omega (arith, lt)) (omega (arith, lt))
          (subst (λ x. switch_device_dev_port_get ctx x stray.stray_dev_port ≡ some dev_port)
            from_zero at)
          h
