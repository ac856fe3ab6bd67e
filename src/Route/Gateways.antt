-- ===== src/Route/Gateways.antt =====
-- The table of gateways that route_system_init fills (switchlink_route.c), against the members of
-- the ECMP groups.
use igw_p.Prelude.{
  ℕ, suc, ◌+◌, ◌%◌, ◌^◌, ◌≤◌, ◌<◌, Bool, true, false, List, [], ◌∷◌, none, some, ◌≡◌, refl, sym,
  ◌∙◌, ap, arith, ◌⊎◌, inl, inr, get_or, length, ◌==◌, if◌then◌else◌, ltb, not, ◌&&◌, Bool-cases,
  Option-cases,
}
use mathlib.Core.Path.{subst}
use igw_p.Ecmp.{
  pipe0_memberid_val, pipe2_memberid_val, pipe0_devport_val, pipe2_devport_val,
  ecmp_group02_init_4p, per_pipe_port_nums,
}
use igw_p.Ecmp.Members.{port_of_member, pipe0_member_port, pipe2_member_port}
use igw_p.Hashed.{Table, init_heads, entry_add}
use igw_p.Hashed.Lookup.{
  IsWide, init_heads-IsWide, entry_get-entry_add, entry_get-init_heads, entry_get-key,
  entry_add-IsWide,
}
use igw_p.Hostif.{Hostif}
use igw_p.Route.{
  GatewayEntry, key_gw_ip, gw_entry_get, index_loop, get_member_index_from_port, gateway,
  add_gateways, route_system_init,
}

-- The search through a port array stops at the port, or at the end.
index_loop-finds :
    (ps : List ℕ) (i d : ℕ)
    → (k : ℕ) × (index_loop ps i d ≡ i + k) × (k ≤ length ps) × (k < length ps → get_or ps k 0 ≡ d)
unfolding index_loop
index_loop-finds [] i d = (0, omega arith, omega arith, λ h. absurd (omega arith))
index_loop-finds (p ∷ ps) i d = elim (Bool-cases (p == d)) [
  | inl here ↦ (0, rw here (omega arith), omega arith, λ _. ground arith)
  | inr later ↦
      let (k, at, le, finds) = index_loop-finds ps (i + 1) d in
      (suc k, rw later (omega arith), omega arith, λ h. finds (omega arith))
]

-- An entry of pipe 0 or 2, with the member of that pipe's group that sends to the entry's port
abbrev pub IsMember : GatewayEntry → Type 0
IsMember g =
    (g.member_index < per_pipe_port_nums)
    × (((g.gw_pipe ≡ 0)
          × (port_of_member (get_or pipe0_memberid_val g.member_index 0) ecmp_group02_init_4p
              ≡ some (g.gw_dev_port % 2 ^ 16)))
        ⊎ ((g.gw_pipe ≡ 2)
            × (port_of_member (get_or pipe2_memberid_val g.member_index 0) ecmp_group02_init_4p
                ≡ some (g.gw_dev_port % 2 ^ 16))))

pipe0_devport_val-length : length pipe0_devport_val ≡ 16
unfolding pipe0_devport_val
pipe0_devport_val-length = refl

pipe0_index :
    (d : ℕ)
    → index_loop pipe0_devport_val 0 d < 16
    → port_of_member
        (get_or pipe0_memberid_val (index_loop pipe0_devport_val 0 d) 0)
        ecmp_group02_init_4p
      ≡ some d
pipe0_index d h =
    let (k, at, le, finds) = index_loop-finds pipe0_devport_val 0 d in
    let at' : index_loop pipe0_devport_val 0 d ≡ k = omega arith in
    let (member, port) = pipe0_member_port k (omega arith) in
    rw at' (member ∙ ap some (sym port ∙ finds (omega (arith, pipe0_devport_val-length))))

pipe2_devport_val-length : length pipe2_devport_val ≡ 16
unfolding pipe2_devport_val
pipe2_devport_val-length = refl

pipe2_index :
    (d : ℕ)
    → index_loop pipe2_devport_val 0 d < 16
    → port_of_member
        (get_or pipe2_memberid_val (index_loop pipe2_devport_val 0 d) 0)
        ecmp_group02_init_4p
      ≡ some d
pipe2_index d h =
    let (k, at, le, finds) = index_loop-finds pipe2_devport_val 0 d in
    let at' : index_loop pipe2_devport_val 0 d ≡ k = omega arith in
    let (member, port) = pipe2_member_port k (omega arith) in
    rw at' (member ∙ ap some (sym port ∙ finds (omega (arith, pipe2_devport_val-length))))

index_pipe0 :
    (p d : ℕ) → p ≡ 0 → get_member_index_from_port p d ≡ index_loop pipe0_devport_val 0 (d % 2 ^ 16)
unfolding get_member_index_from_port
index_pipe0 p d z = rw z

index_pipe2 :
    (p d : ℕ) → p ≡ 2 → get_member_index_from_port p d ≡ index_loop pipe2_devport_val 0 (d % 2 ^ 16)
unfolding get_member_index_from_port
index_pipe2 p d z = rw z

member :
    (p d : ℕ) (g : GatewayEntry)
    → g.gw_pipe ≡ p
    → g.member_index ≡ get_member_index_from_port p d
    → g.gw_dev_port ≡ d
    → g.member_index < 16
    → (p ≡ 0) ⊎ (p ≡ 2)
    → IsMember g
member p d g pipe i q lt (inl z) =
    let at = i ∙ index_pipe0 p d z in
    (lt, inl (pipe ∙ z, rw (at, q) (pipe0_index (d % 2 ^ 16) (omega arith))))
member p d g pipe i q lt (inr z) =
    let at = i ∙ index_pipe2 p d z in
    (lt, inr (pipe ∙ z, rw (at, q) (pipe2_index (d % 2 ^ 16) (omega arith))))

passes_both_tests :
    {A : Type 0} (zero? two? lt : Bool) (a b : A)
    → (if not zero? && not two? then none else if lt then some a else none) ≡ some b
    → (a ≡ b) × (lt ≡ true) × ((zero? ≡ true) ⊎ (two? ≡ true))
passes_both_tests true two? true a b e = (cc, refl, inl refl)
passes_both_tests false true true a b e = (cc, refl, inr refl)
passes_both_tests true two? false a b e = absurd cc
passes_both_tests false true false a b e = absurd cc
passes_both_tests false false lt a b e = absurd cc

-- A host interface that becomes a gateway, without a panic, names the member of its pipe's group
-- whose egress port in the four-pipe set-up is the interface's device port.
gateway-IsMember :
    (dev_port_to_pipe : ℕ → ℕ) (h : Hostif) (g : GatewayEntry)
    → gateway dev_port_to_pipe h ≡ some g
    → (g.gw_addr ≡ h.gw_ip) × (g.gw_dev_port ≡ h.dev_port) × IsMember g
unfolding gateway
gateway-IsMember dev_port_to_pipe h g e =
    let pipe = dev_port_to_pipe h.dev_port % 2 ^ 8 in
    let index = get_member_index_from_port pipe h.dev_port in
    let (same, lt, two) =
      passes_both_tests (pipe == 0) (pipe == 2) (ltb index per_pipe_port_nums) _ g e in
    let at : g.member_index ≡ index = ap (λ x. x.member_index) (sym same) in
    (
      ap (λ x. x.gw_addr) (sym same),
      ap (λ x. x.gw_dev_port) (sym same),
      member pipe h.dev_port g (ap (λ x. x.gw_pipe) (sym same)) at
          (ap (λ x. x.gw_dev_port) (sym same)) (ground arith) (ground arith),
    )

-- A table in which whatever a lookup finds is a member of its pipe's group
abbrev pub AreMembers : Table GatewayEntry → Type 0
AreMembers t = (ip : ℕ) (g : GatewayEntry) → gw_entry_get t ip ≡ some g → IsMember g

add-AreMembers :
    (t : Table GatewayEntry) (g : GatewayEntry)
    → IsWide t
    → IsMember g
    → AreMembers t
    → AreMembers (entry_add key_gw_ip g t)
unfolding gw_entry_get
add-AreMembers t g w m all ip f e =
    let at = entry_get-entry_add key_gw_ip g t ip w in
    elim (Bool-cases (g.gw_addr == ip)) [
      | inl new ↦
          let same : some g ≡ some f = sym (at ∙ rw new) ∙ e in
          let it : g ≡ f = (cc same) in subst IsMember it m
      | inr old ↦ all ip f (sym (at ∙ rw old) ∙ e)
    ]

add_gateways-AreMembers :
    (dev_port_to_pipe : ℕ → ℕ) (hs : List Hostif) (t u : Table GatewayEntry)
    → IsWide t
    → AreMembers t
    → add_gateways dev_port_to_pipe hs t ≡ some u
    → AreMembers u
unfolding add_gateways
add_gateways-AreMembers f [] t u w all e ip g h =
    let same : t ≡ u = cc in all ip g (ap (λ x. gw_entry_get x ip) same ∙ h)
add_gateways-AreMembers f (h ∷ hs) t u w all e ip g found = elim (Option-cases (gateway f h)) [
  | inl panics ↦ absurd (ground arith)
  | inr (new, made) ↦
      let (addr, port, m) = gateway-IsMember f h new made in
      add_gateways-AreMembers f hs (entry_add key_gw_ip new t) u
        (entry_add-IsWide key_gw_ip new t w) (add-AreMembers t new w m all)
        (sym (rw (made, add_gateways)) ∙ e) ip g found
]

init_heads-AreMembers : AreMembers init_heads
unfolding gw_entry_get
init_heads-AreMembers ip g e = absurd (ground (arith, entry_get-init_heads key_gw_ip ip))

-- The table that the start-up makes, when it does not panic, holds no entry but of the gateways'
-- own addresses, each naming the member of its pipe's group that sends to the entry's device port.
pub route_system_init-AreMembers :
    (dev_port_to_pipe : ℕ → ℕ) (hardware_model : ℕ) (hs : List Hostif) (t : Table GatewayEntry)
    → route_system_init dev_port_to_pipe hardware_model hs ≡ some t
    → (ip : ℕ) (g : GatewayEntry) → gw_entry_get t ip ≡ some g
    → (g.gw_addr ≡ ip) × IsMember g
unfolding route_system_init gw_entry_get
route_system_init-AreMembers f model hs t e ip g found =
    let made : add_gateways f hs init_heads ≡ some t = ground arith in
    (
      entry_get-key key_gw_ip ip t g found,
      add_gateways-AreMembers f hs init_heads t (init_heads-IsWide GatewayEntry)
          init_heads-AreMembers made ip g found,
    )
