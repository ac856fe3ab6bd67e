-- ===== src/Route/Examples.antt =====
-- The default route over two gateways, one of each external pipe.
use igw_p.Prelude.{
  ℕ, ◌+◌, true, false, List, [], ◌∷◌, ◌++◌, some, ◌≡◌, refl, arith, if◌then◌else◌, All, get_or,
  take, drop, replicate, leb,
}
use igw_p.Ether.{zero_mac}
use igw_p.Ecmp.{
  per_pipe_port_nums, pipe0_memberid_val, pipe2_memberid_val, pipe0_devport_val, pipe2_devport_val,
  pipe0_selectorcid, pipe2_selectorcid, wedge_100bf_65x,
}
use igw_p.Hashed.{Table, init_heads, entry_add}
use igw_p.Hashed.Lookup.{entry_get-entry_add, entry_add-IsWide, init_heads-IsWide}
use igw_p.Hostif.{Hostif}
use igw_p.Route.{
  max_gateway, GatewayEntry, key_gw_ip, gw_entry_get, gateway, index_loop,
  get_member_index_from_port, add_gateways, route_system_init, Rtnexthop, Links, rta_gateway,
  rtnh_ok, nexthop_gateway, ecmp_loop, process_ecmp, rta_gw, rta_multipath, RouteMsg, RouteState,
  read_attrs, chosen, accepted, process_route_msg, get_intf_up,
}
use igw_p.Route.Gateways.{IsMember, route_system_init-AreMembers}
use igw_p.Route.Multipath.{usable, process_ecmp-usable, process_ecmp_reads_on}
use igw_p.Route.Messages.{
  some_gateway, in_pipe0, in_pipe2, member0, member2, group_mod, process_route_msg-statuses,
  process_route_msg-mods, process_route_msg_stray_start,
}

abbrev hostif : ℕ → ℕ → Hostif
hostif gw dev = record {
  intf_name = "eth";
  mac = zero_mac;
  v4addr_len = 31;
  v4addr_ip4 = gw + 1;
  ip6 = [];
  ip6_mc = [];
  ip6_linklocal = [];
  ip6_linklocal_mc = [];
  ip6_prefix_len = 0;
  admin_state = true;
  fake_fp_port = 1;
  fp_port = 0;
  dev_port = dev;
  gw_ip = gw;
  ipv6_enable = false;
}

-- Device ports from 256 on are of pipe 2.
abbrev to_pipe : ℕ → ℕ
to_pipe dev = if leb 256 dev then 2 else 0

abbrev links : Links
links = record { if_indextoname = λ i. some "eth"; if_flags = λ n. some 1 }

abbrev hop : ℕ → Rtnexthop
hop ip = record { rtnh_len = 16; rtnh_ifindex = 3; rta_type = rta_gateway; rta_ip = ip }

abbrev two_hops : List Rtnexthop
two_hops = hop 10 ∷ hop 20 ∷ []

abbrev gateway_10 : GatewayEntry
gateway_10 = record { member_index = 2; gw_pipe = 0; gw_fp_port = 0; gw_addr = 10; gw_dev_port = 8 }

abbrev gateway_20 : GatewayEntry
gateway_20 = record {
  member_index = 1;
  gw_pipe = 2;
  gw_fp_port = 0;
  gw_addr = 20;
  gw_dev_port = 260;
}

abbrev table : Table GatewayEntry
table = entry_add key_gw_ip gateway_20 (entry_add key_gw_ip gateway_10 init_heads)

abbrev state : RouteState
state = record { gateways = table; pipe0_memberstatus = []; pipe2_memberstatus = []; mods = [] }

abbrev msg : RouteMsg
msg = record { rtm_family = 2; rtm_dst_len = 0; rt_attrs = rta_multipath 32 two_hops ∷ [] }

abbrev other_msg : RouteMsg
other_msg = record { rtm_family = 2; rtm_dst_len = 24; rt_attrs = rta_gw 10 ∷ [] }

msg-accepted : accepted links msg ≡ some (10 ∷ 20 ∷ [])
unfolding accepted read_attrs chosen process_ecmp ecmp_loop rtnh_ok nexthop_gateway get_intf_up
msg-accepted = refl

gateway_example : gateway to_pipe (hostif 10 8) ≡ some gateway_10
unfolding gateway get_member_index_from_port index_loop pipe0_devport_val pipe2_devport_val
gateway_example = refl

process_route_msg-statuses_example :
    (get_or (process_route_msg links 0 msg state).pipe0_memberstatus 2 false
      ≡ some_gateway (member0 2) state.gateways (drop 0 (10 ∷ 20 ∷ [])))
    × (get_or (process_route_msg links 0 msg state).pipe2_memberstatus 2 false
        ≡ some_gateway (member2 2) state.gateways (drop 0 (10 ∷ 20 ∷ [])))
process_route_msg-statuses_example =
    process_route_msg-statuses links 0 msg state (10 ∷ 20 ∷ []) 2 msg-accepted (omega arith)

process_route_msg-mods_example :
    (process_route_msg links 0 msg state).mods
    ≡ group_mod
        (some_gateway in_pipe2 state.gateways (drop 0 (10 ∷ 20 ∷ [])))
        pipe2_selectorcid
        pipe2_memberid_val
        (process_route_msg links 0 msg state).pipe2_memberstatus
      ++ group_mod
          (some_gateway in_pipe0 state.gateways (drop 0 (10 ∷ 20 ∷ [])))
          pipe0_selectorcid
          pipe0_memberid_val
          (process_route_msg links 0 msg state).pipe0_memberstatus
      ++ state.mods
process_route_msg-mods_example =
    process_route_msg-mods links 0 msg state (10 ∷ 20 ∷ []) msg-accepted

process_route_msg_stray_start_example :
    ((process_route_msg links 4294967295 msg state).mods ≡ state.mods)
    × ((process_route_msg links 4294967295 msg state).pipe0_memberstatus
        ≡ replicate per_pipe_port_nums false)
    × ((process_route_msg links 4294967295 msg state).pipe2_memberstatus
        ≡ replicate per_pipe_port_nums false)
process_route_msg_stray_start_example =
    process_route_msg_stray_start links 4294967295 msg state (10 ∷ 20 ∷ []) msg-accepted
      (omega arith)

process_ecmp-usable_example :
    (process_ecmp links 32 two_hops).0 ≡ take max_gateway (usable links 32 two_hops)
process_ecmp-usable_example = process_ecmp-usable links 32 two_hops

two_hops_ok : All (λ rnh. rtnh_ok rnh 32 ≡ true) two_hops
unfolding rtnh_ok
two_hops_ok = (refl, (refl, tt))

process_ecmp_reads_on_example :
    (process_ecmp links 32 (two_hops ++ hop 30 ∷ [])).0
    ≡ take max_gateway (usable links 32 two_hops ++ usable links 32 (hop 30 ∷ []))
process_ecmp_reads_on_example = process_ecmp_reads_on links 32 two_hops (hop 30 ∷ []) two_hops_ok

table-made :
    route_system_init to_pipe wedge_100bf_65x (hostif 10 8 ∷ hostif 20 260 ∷ []) ≡ some table
unfolding route_system_init add_gateways gateway get_member_index_from_port index_loop
    pipe0_devport_val pipe2_devport_val
table-made = refl

found_20 : gw_entry_get table 20 ≡ some gateway_20
unfolding gw_entry_get
found_20 =
    entry_get-entry_add key_gw_ip gateway_20 (entry_add key_gw_ip gateway_10 init_heads) 20
      (entry_add-IsWide key_gw_ip gateway_10 init_heads (init_heads-IsWide GatewayEntry))

route_system_init-AreMembers_example : (gateway_20.gw_addr ≡ 20) × IsMember gateway_20
route_system_init-AreMembers_example =
    route_system_init-AreMembers to_pipe wedge_100bf_65x (hostif 10 8 ∷ hostif 20 260 ∷ []) table
      table-made 20 gateway_20 found_20
