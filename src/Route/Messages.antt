-- ===== src/Route/Messages.antt =====
-- What a message makes of the statuses of the two groups' members, and of the groups.
use igw_p.Prelude.{
  ℕ, zero, suc, ◌≤◌, ◌<◌, Bool, true, false, ◌&&◌, ◌||◌, not, List, [], ◌∷◌, ◌++◌, none, some, ◌≡◌,
  refl, sym, ◌∙◌, ap, arith, ◌≢◌, ◌⊎◌, ◌==◌, if◌then◌else◌, get_or, set, replicate, drop, length,
  Bool-cases, Option-cases, inl, inr, get_or-set_self, get_or-set_ne, length-set, get_or-replicate,
}
use mathlib.Core.Path.{subst}
use igw_p.Ecmp.{
  per_pipe_port_nums, pipe0_memberid_val, pipe2_memberid_val, pipe0_selectorcid, pipe2_selectorcid,
}
use igw_p.Hashed.{Table}
use igw_p.Route.{
  GatewayEntry, gw_entry_get, Links, RouteMsg, RouteState, SelectorMod, Marks, mark, mark_all,
  apply, switch_to, init_members_state, Nexthops, no_nexthops, RtAttr, rta_dst, rta_gw,
  rta_multipath, rta_other, read_attrs, accepted, process_route_msg,
}

-- Whether one of the addresses is that of a gateway that passes a test
pub some_gateway : (GatewayEntry → Bool) → Table GatewayEntry → List ℕ → Bool
some_gateway test t [] = false
some_gateway test t (ip ∷ ips) =
    elim (gw_entry_get t ip) [ none ↦ false | some g ↦ test g ] || some_gateway test t ips

abbrev pub in_pipe0 : GatewayEntry → Bool
in_pipe0 g = g.gw_pipe == 0

abbrev pub in_pipe2 : GatewayEntry → Bool
in_pipe2 g = not (g.gw_pipe == 0)

abbrev pub member0 : ℕ → GatewayEntry → Bool
member0 j g = in_pipe0 g && (g.member_index == j)

abbrev pub member2 : ℕ → GatewayEntry → Bool
member2 j g = in_pipe2 g && (g.member_index == j)

set-true :
    (xs : List Bool) (i j : ℕ)
    → j < length xs
    → get_or (set xs i true) j false ≡ ((i == j) || get_or xs j false)
set-true xs i j h = elim (Bool-cases (i == j)) [
  | inl e ↦
      let same : j ≡ i = ground arith in
      rw e (
        subst (λ n. get_or (set xs i true) n false ≡ true) (sym same)
          (get_or-set_self xs i true false (omega arith)))
  | inr e ↦ rw e (get_or-set_ne xs i j true false (ground arith))
]

or-swap : (x y z : Bool) → ((x || y) || z) ≡ (y || (x || z))
or-swap true true z = refl
or-swap true false z = refl
or-swap false y z = refl

module _ (j : ℕ) where
  -- What marks say of member `j`, and of the groups
  Says : Marks → Bool → Bool → Bool → Bool → Type 0
  Says m a b c d =
      (j < length m.p0_status)
      × (j < length m.p2_status)
      × (get_or m.p0_status j false ≡ a)
      × (get_or m.p2_status j false ≡ b)
      × (m.p0_need_change ≡ c)
      × (m.p2_need_change ≡ d)

  mark-Says :
      (g : GatewayEntry) (m : Marks) (a b c d : Bool)
      → Says m a b c d
      → Says (mark g m) (member0 j g || a) (member2 j g || b) (in_pipe0 g || c) (in_pipe2 g || d)
  unfolding mark Says
  mark-Says g m a b c d (l, k, x, y, z, w) = elim (Bool-cases (g.gw_pipe == 0)) [
    | inl e ↦ rw e (
      rw (length-set m.p0_status g.member_index true) l,
      k,
      set-true m.p0_status g.member_index j l ∙ ap (λ v. (g.member_index == j) || v) x,
      y,
      refl,
      w,
    )
    | inr e ↦ rw e (
      l,
      rw (length-set m.p2_status g.member_index true) k,
      x,
      set-true m.p2_status g.member_index j k ∙ ap (λ v. (g.member_index == j) || v) y,
      z,
      refl,
    )
  ]

  mark_all-Says :
      (t : Table GatewayEntry) (ips : List ℕ) (m : Marks) (a b c d : Bool)
      → Says m a b c d
      → Says
          (mark_all t ips m)
          (some_gateway (member0 j) t ips || a)
          (some_gateway (member2 j) t ips || b)
          (some_gateway in_pipe0 t ips || c)
          (some_gateway in_pipe2 t ips || d)
  unfolding mark_all some_gateway
  mark_all-Says t [] m a b c d h = h
  mark_all-Says t (ip ∷ ips) m a b c d h = elim (Option-cases (gw_entry_get t ip)) [
    | inl e ↦ rw (e, mark_all, some_gateway) (mark_all-Says t ips m a b c d h)
    | inr (g, e) ↦
        rw (e, mark_all, some_gateway)
          (rw
            (
              or-swap (member0 j g) (some_gateway (member0 j) t ips) a,
              or-swap (member2 j g) (some_gateway (member2 j) t ips) b,
              or-swap (in_pipe0 g) (some_gateway in_pipe0 t ips) c,
              or-swap (in_pipe2 g) (some_gateway in_pipe2 t ips) d,
            )
            (mark_all-Says t ips (mark g m) _ _ _ _ (mark-Says g m a b c d h)))
  ]

  switch_to-marks :
      (start : ℕ) (gws : List ℕ) (t : Table GatewayEntry)
      → j < per_pipe_port_nums
      → Says
          (mark_all t (drop start gws) init_members_state)
          (some_gateway (member0 j) t (drop start gws))
          (some_gateway (member2 j) t (drop start gws))
          (some_gateway in_pipe0 t (drop start gws))
          (some_gateway in_pipe2 t (drop start gws))
  unfolding init_members_state Says
  switch_to-marks start gws t lt =
      let fresh = get_or-replicate per_pipe_port_nums j false in
      let says =
        mark_all-Says t (drop start gws) init_members_state false false false false
          (lt, lt, fresh, fresh, refl, refl) in
      ground (arith, says)

apply-statuses :
    (m : Marks) (s : RouteState)
    → ((apply m s).pipe0_memberstatus ≡ m.p0_status)
      × ((apply m s).pipe2_memberstatus ≡ m.p2_status)
unfolding apply
apply-statuses m s = elim (Bool-cases m.p0_need_change) [
  | inl a ↦ elim (Bool-cases m.p2_need_change) [
    | inl b ↦ rw (a, b) (refl, refl)
    | inr b ↦ rw (a, b) (refl, refl)
  ]
  | inr a ↦ elim (Bool-cases m.p2_need_change) [
    | inl b ↦ rw (a, b) (refl, refl)
    | inr b ↦ rw (a, b) (refl, refl)
  ]
]

-- `ecmp_group_selector_entry_add`'s arguments for a group, when the group's flag is set
abbrev pub group_mod : Bool → ℕ → List ℕ → List Bool → List SelectorMod
group_mod need id ids sts =
    if need then record { groupid = id; memberids = ids; statuses = sts } ∷ [] else []

apply-mods :
    (m : Marks) (s : RouteState)
    → (apply m s).mods
      ≡ group_mod m.p2_need_change pipe2_selectorcid pipe2_memberid_val
          (apply m s).pipe2_memberstatus
        ++ group_mod m.p0_need_change pipe0_selectorcid pipe0_memberid_val
            (apply m s).pipe0_memberstatus
        ++ s.mods
unfolding apply
apply-mods m s = elim (Bool-cases m.p0_need_change) [
  | inl a ↦ elim (Bool-cases m.p2_need_change) [ inl b ↦ rw (a, b) refl | inr b ↦ rw (a, b) refl ]
  | inr a ↦ elim (Bool-cases m.p2_need_change) [ inl b ↦ rw (a, b) refl | inr b ↦ rw (a, b) refl ]
]

drop-all : {A : Type 0} (xs : List A) (n : ℕ) → length xs ≤ n → drop n xs ≡ []
drop-all [] zero h = refl
drop-all [] (suc n) h = refl
drop-all (x ∷ xs) zero h = absurd (omega arith)
drop-all (x ∷ xs) (suc n) h = drop-all xs n (omega arith)

taken :
    (l : Links) (start : ℕ) (msg : RouteMsg) (s : RouteState) (gws : List ℕ)
    → accepted l msg ≡ some gws
    → process_route_msg l start msg s
      ≡ apply (mark_all s.gateways (drop start gws) init_members_state) s
unfolding process_route_msg switch_to
taken l start msg s gws e = rw (e, process_route_msg) refl

-- A message that is taken leaves in `pipe0_memberstatus_val` and `pipe2_memberstatus_val` the
-- members of the gateways it lists, from index `start` on, that are in the table, and no others.
pub process_route_msg-statuses :
    (l : Links) (start : ℕ) (msg : RouteMsg) (s : RouteState) (gws : List ℕ) (j : ℕ)
    → accepted l msg ≡ some gws
    → j < per_pipe_port_nums
    → (get_or (process_route_msg l start msg s).pipe0_memberstatus j false
        ≡ some_gateway (member0 j) s.gateways (drop start gws))
      × (get_or (process_route_msg l start msg s).pipe2_memberstatus j false
          ≡ some_gateway (member2 j) s.gateways (drop start gws))
unfolding Says
process_route_msg-statuses l start msg s gws j e lt =
    let (a, b, x, y, c, d) = switch_to-marks j start gws s.gateways lt in
    let (p, q) = apply-statuses (mark_all s.gateways (drop start gws) init_members_state) s in
    rw (taken l start msg s gws e) (rw (p, q) (x, y))

-- The modifications a taken message issues: one of pipe 0's group if it lists a gateway of that
-- pipe, from index `start` on, then one of pipe 2's under the same condition; each with the statuses
-- that the message leaves.
pub process_route_msg-mods :
    (l : Links) (start : ℕ) (msg : RouteMsg) (s : RouteState) (gws : List ℕ)
    → accepted l msg ≡ some gws
    → (process_route_msg l start msg s).mods
      ≡ group_mod
          (some_gateway in_pipe2 s.gateways (drop start gws))
          pipe2_selectorcid
          pipe2_memberid_val
          (process_route_msg l start msg s).pipe2_memberstatus
        ++ group_mod
            (some_gateway in_pipe0 s.gateways (drop start gws))
            pipe0_selectorcid
            pipe0_memberid_val
            (process_route_msg l start msg s).pipe0_memberstatus
        ++ s.mods
unfolding Says
process_route_msg-mods l start msg s gws e =
    let (a, b, x, y, c, d) = switch_to-marks 0 start gws s.gateways (omega arith) in
    rw (taken l start msg s gws e, sym c, sym d)
      (apply-mods (mark_all s.gateways (drop start gws) init_members_state) s)

-- When the index that the last loop starts from is past the addresses listed, a message that is
-- taken issues no modification and leaves every member's status unset.
pub process_route_msg_stray_start :
    (l : Links) (start : ℕ) (msg : RouteMsg) (s : RouteState) (gws : List ℕ)
    → accepted l msg ≡ some gws
    → length gws ≤ start
    → ((process_route_msg l start msg s).mods ≡ s.mods)
      × ((process_route_msg l start msg s).pipe0_memberstatus ≡ replicate per_pipe_port_nums false)
      × ((process_route_msg l start msg s).pipe2_memberstatus ≡ replicate per_pipe_port_nums false)
unfolding init_members_state mark_all apply
process_route_msg_stray_start l start msg s gws e out =
    rw (taken l start msg s gws e, drop-all gws start out) (refl, refl, refl)

-- Whether an attribute gives a destination other than 0
pub names_destination : List RtAttr → Bool
names_destination [] = false
names_destination (rta_dst ip ∷ as') = not (ip == 0) || names_destination as'
names_destination (rta_gw ip ∷ as') = names_destination as'
names_destination (rta_multipath attrlen mem ∷ as') = names_destination as'
names_destination (rta_other ∷ as') = names_destination as'

read_attrs-none :
    (l : Links) (as' : List RtAttr) (n : Nexthops)
    → names_destination as' ≡ true
    → read_attrs l as' n ≡ none
unfolding read_attrs names_destination
read_attrs-none l [] n h = absurd cc
read_attrs-none l (rta_dst ip ∷ as') n h = elim (Bool-cases (ip == 0)) [
  | inl z ↦ rw z (read_attrs-none l as' n (ground arith))
  | inr o ↦ rw o refl
]
read_attrs-none l (rta_gw ip ∷ as') n h = read_attrs-none l as' _ h
read_attrs-none l (rta_multipath attrlen mem ∷ as') n h = read_attrs-none l as' _ h
read_attrs-none l (rta_other ∷ as') n h = read_attrs-none l as' n h

-- A message of another family than IPv4, of a prefix longer than 0 or of a destination other than 0
-- changes nothing.
process_route_msg_ignored :
    (l : Links) (start : ℕ) (msg : RouteMsg) (s : RouteState)
    → (msg.rtm_family ≢ 2) ⊎ (msg.rtm_dst_len ≢ 0) ⊎ (names_destination msg.rt_attrs ≡ true)
    → process_route_msg l start msg s ≡ s
unfolding process_route_msg accepted
process_route_msg_ignored l start msg s (inl family) =
    let e : msg.rtm_family == 2 ≡ false = ground arith in rw (e, process_route_msg, accepted) refl
process_route_msg_ignored l start msg s (inr (inl len)) =
    let e : msg.rtm_dst_len == 0 ≡ false = ground arith in
    elim (Bool-cases (msg.rtm_family == 2)) [
      | inr f ↦ rw (f, process_route_msg, accepted) refl
      | inl f ↦ elim (Option-cases (read_attrs l msg.rt_attrs no_nexthops)) [
        | inl r ↦ rw (f, r, process_route_msg, accepted) refl
        | inr (n, r) ↦ rw (f, r, e, process_route_msg, accepted) refl
      ]
    ]
process_route_msg_ignored l start msg s (inr (inr dst)) = elim (Bool-cases (msg.rtm_family == 2)) [
  | inr f ↦ rw (f, process_route_msg, accepted) refl
  | inl f ↦ rw (f, read_attrs-none l msg.rt_attrs no_nexthops dst, process_route_msg, accepted) refl
]
