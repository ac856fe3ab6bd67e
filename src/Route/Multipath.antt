-- ===== src/Route/Multipath.antt =====
-- What `process_ecmp` makes of a list of next hops.
use igw_p.Prelude.{
  ℕ, zero, suc, ◌+◌, true, false, List, [], ◌∷◌, ◌++◌, ◌≡◌, refl, sym, ◌∙◌, ap, arith, leb,
  if◌then◌else◌, length, take, All, Bool-cases, inl, inr, length-append,
}
use mathlib.Core.List.{append-nil, append_assoc}
use igw_p.Route.{max_gateway, Rtnexthop, Links, rtnh_ok, nexthop_gateway, ecmp_loop, process_ecmp}

module _ (l : Links) (attrlen : ℕ) where
  -- The gateways over interfaces that are up, of the records before the first that is not in order
  pub usable : List Rtnexthop → List ℕ
  usable [] = []
  usable (rnh ∷ mem) =
      let rest = usable mem in
      if rtnh_ok rnh attrlen
      then (if nexthop_gateway l rnh then rnh.rta_ip ∷ rest else rest)
      else []

  ecmp_loop-usable :
      (mem : List Rtnexthop) (gws : List ℕ) (room : ℕ)
      → length gws + suc room ≡ max_gateway
      → ecmp_loop l attrlen mem gws ≡ gws ++ take (suc room) (usable mem)
  unfolding ecmp_loop usable
  ecmp_loop-usable [] gws room h = sym (append-nil gws)
  ecmp_loop-usable (rnh ∷ mem) gws zero h = elim (Bool-cases (rtnh_ok rnh attrlen)) [
    | inr stop ↦ rw stop (sym (append-nil gws))
    | inl go ↦ elim (Bool-cases (nexthop_gateway l rnh)) [
      | inr skip ↦ rw (go, skip) (ecmp_loop-usable mem gws zero h)
      | inl add ↦
          let full : leb max_gateway (length (gws ++ rnh.rta_ip ∷ [])) ≡ true =
            ground (arith, length-append gws (rnh.rta_ip ∷ [])) in
          rw (go, add, full)
    ]
  ]
  ecmp_loop-usable (rnh ∷ mem) gws (suc room) h = elim (Bool-cases (rtnh_ok rnh attrlen)) [
    | inr stop ↦ rw stop (sym (append-nil gws))
    | inl go ↦ elim (Bool-cases (nexthop_gateway l rnh)) [
      | inr skip ↦ rw (go, skip) (ecmp_loop-usable mem gws (suc room) h)
      | inl add ↦
          let size : length (gws ++ rnh.rta_ip ∷ []) ≡ length gws + 1 =
            length-append gws (rnh.rta_ip ∷ []) in
          let free : leb max_gateway (length (gws ++ rnh.rta_ip ∷ [])) ≡ false = ground arith in
          rw (go, add, free)
            (ecmp_loop-usable mem (gws ++ rnh.rta_ip ∷ []) room (omega arith)
              ∙ append_assoc gws (rnh.rta_ip ∷ []) (take (suc room) (usable mem)))
    ]
  ]

  -- The gateways taken are the first 64 of the usable next hops, in order: the array never overflows.
  pub process_ecmp-usable :
      (mem : List Rtnexthop) → (process_ecmp l attrlen mem).0 ≡ take max_gateway (usable mem)
  unfolding process_ecmp
  process_ecmp-usable mem = ecmp_loop-usable mem [] 63 refl

  usable-append :
      (hops behind : List Rtnexthop)
      → All (λ rnh. rtnh_ok rnh attrlen ≡ true) hops
      → usable (hops ++ behind) ≡ usable hops ++ usable behind
  unfolding usable
  usable-append [] behind ok = refl
  usable-append (rnh ∷ hops) behind (ok, oks) = elim (Bool-cases (nexthop_gateway l rnh)) [
    | inl add ↦ rw (ok, add) (ap (λ gws. rnh.rta_ip ∷ gws) (usable-append hops behind oks))
    | inr skip ↦ rw (ok, skip) (usable-append hops behind oks)
  ]

  -- When an attribute's next hops are in order, what lies in memory behind them is read on as next
  -- hops, whatever `attrlen` is: its usable gateways follow the attribute's own.
  pub process_ecmp_reads_on :
      (hops behind : List Rtnexthop)
      → All (λ rnh. rtnh_ok rnh attrlen ≡ true) hops
      → (process_ecmp l attrlen (hops ++ behind)).0
        ≡ take max_gateway (usable hops ++ usable behind)
  process_ecmp_reads_on hops behind ok =
      process_ecmp-usable (hops ++ behind)
      ∙ ap (λ gws. take max_gateway gws) (usable-append hops behind ok)
