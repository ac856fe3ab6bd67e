-- ===== src/Route.antt =====
-- Route messages (igw-h/init_setup/switchlink/switchlink_route.c): the table of gateways, and what a
-- change of the default route does to the two ECMP groups of the external pipes.
--
-- The attributes of a message enter decoded, addresses in host order. The list of a RTA_MULTIPATH is
-- what memory holds from the attribute's data on, one `Rtnexthop` at each step of RTNH_NEXT: the
-- loop of `process_ecmp` never shortens `attrlen`, so it may read past the attribute's end. The last
-- loop of `process_route_msg` starts at an `i` that is never set (`for (i == 0; ..`): its first
-- value is the argument `start`.
pub mod Gateways
pub mod Multipath
pub mod Messages
mod Examples
use igw_p.Prelude.{
  ℕ, zero, suc, ◌+◌, ◌%◌, ◌^◌, Bool, true, false, ◌&&◌, ◌||◌, not, List, [], ◌∷◌, ◌++◌, Option,
  none, some, ltb, leb, ◌==◌, if◌then◌else◌, set, replicate, drop, length, bit_and,
}
use Prim.Native.String.{String}
use igw_p.Ecmp.{
  per_pipe_port_nums, pipe0_memberid_val, pipe2_memberid_val, pipe0_devport_val, pipe2_devport_val,
  pipe0_selectorcid, pipe2_selectorcid, wedge_100bf_65x,
}
use igw_p.Hashed.{Table, init_heads, entry_get, entry_add}
use igw_p.Hostif.{Hostif}

abbrev pub max_gateway : ℕ
max_gateway = 64

-- `gateway_entry_t`
pub record GatewayEntry : Type 0 where
  pub member_index : ℕ
  pub gw_pipe : ℕ
  pub gw_fp_port : ℕ
  pub gw_addr : ℕ
  pub gw_dev_port : ℕ

abbrev pub key_gw_ip : GatewayEntry → ℕ
key_gw_ip g = g.gw_addr

-- `gw_entry_get`
pub gw_entry_get : Table GatewayEntry → ℕ → Option GatewayEntry
gw_entry_get = entry_get key_gw_ip

-- The loop of `get_member_index_from_pipe0_port` and of its twin, at index `i`
unfoldable pub index_loop : List ℕ → ℕ → ℕ → ℕ
index_loop [] i devport = i
index_loop (p ∷ ps) i devport = if p == devport then i else index_loop ps (i + 1) devport

unfoldable pub get_member_index_from_port : ℕ → ℕ → ℕ
unfolding index_loop pipe0_devport_val pipe2_devport_val
get_member_index_from_port pipe dev_port =
    if pipe == 0
    then index_loop pipe0_devport_val 0 (dev_port % 2 ^ 16)
    else if pipe == 2
    then index_loop pipe2_devport_val 0 (dev_port % 2 ^ 16)
    else per_pipe_port_nums

-- One turn of the loop of `hostif_array_to_gateways`, over the driver's `DEV_PORT_TO_PIPE`; `none`
-- is its panic or its failed `assert`.
unfoldable pub gateway : (ℕ → ℕ) → Hostif → Option GatewayEntry
unfolding get_member_index_from_port
gateway dev_port_to_pipe h =
    let pipe = dev_port_to_pipe h.dev_port % 2 ^ 8 in
    let index = get_member_index_from_port pipe h.dev_port in
    if not (pipe == 0) && not (pipe == 2)
    then none
    else if ltb index per_pipe_port_nums
    then some (record {
      member_index = index;
      gw_pipe = pipe;
      gw_fp_port = h.fp_port;
      gw_addr = h.gw_ip;
      gw_dev_port = h.dev_port;
    })
    else none

unfoldable pub add_gateways :
    (ℕ → ℕ) → List Hostif → Table GatewayEntry → Option (Table GatewayEntry)
add_gateways dev_port_to_pipe [] t = some t
add_gateways dev_port_to_pipe (h ∷ hs) t = elim (gateway dev_port_to_pipe h) [
  | none ↦ none
  | some g ↦ add_gateways dev_port_to_pipe hs (entry_add key_gw_ip g t)
]

-- `hostif_array_to_gateways` into fresh chains, as `route_system_init` calls it; `none` is a panic.
unfoldable pub route_system_init : (ℕ → ℕ) → ℕ → List Hostif → Option (Table GatewayEntry)
unfolding add_gateways
route_system_init dev_port_to_pipe hardware_model hs =
    if ltb max_gateway (length hs)
    then none
    else if not (hardware_model == wedge_100bf_65x)
    then none
    else add_gateways dev_port_to_pipe hs init_heads

-- `struct rtnexthop`, with the type of the first attribute behind it and that attribute's address
pub record Rtnexthop : Type 0 where
  pub rtnh_len : ℕ
  pub rtnh_ifindex : ℕ
  pub rta_type : ℕ
  pub rta_ip : ℕ

-- `if_indextoname`, and the flags that `ioctl(SIOCGIFFLAGS)` reads; `none` is a failure.
pub record Links : Type 0 where
  pub if_indextoname : ℕ → Option String
  pub if_flags : String → Option ℕ

abbrev pub rta_gateway : ℕ
rta_gateway = 5

abbrev pub sizeof_rtnexthop : ℕ
sizeof_rtnexthop = 8

pub get_intf_up : Links → Option String → Bool
get_intf_up l none = false
get_intf_up l (some ifname) = elim (l.if_flags ifname) [
  | none ↦ false
  | some flags ↦ not (bit_and flags 1 == 0)
]

-- `RTNH_OK`
pub rtnh_ok : Rtnexthop → ℕ → Bool
rtnh_ok rnh attrlen = leb sizeof_rtnexthop rnh.rtnh_len && leb rnh.rtnh_len attrlen

-- The gateway that a next hop adds, if it adds one
pub nexthop_gateway : Links → Rtnexthop → Bool
unfolding get_intf_up
nexthop_gateway l rnh =
    rnh.rta_type == rta_gateway && get_intf_up l (l.if_indextoname rnh.rtnh_ifindex)

-- The loop of `process_ecmp`; `gws` is `gw_ip[0 .. nums)`.
pub ecmp_loop : Links → ℕ → List Rtnexthop → List ℕ → List ℕ
ecmp_loop l attrlen [] gws = gws
ecmp_loop l attrlen (rnh ∷ mem) gws =
    let rest = ecmp_loop l attrlen mem gws in
    let taken = gws ++ (rnh.rta_ip ∷ []) in
    let more = ecmp_loop l attrlen mem taken in
    if rtnh_ok rnh attrlen
    then (if nexthop_gateway l rnh
        then (if leb max_gateway (length taken) then taken else more)
        else rest)
    else gws

-- `process_ecmp`: the list, and whether it returns 1
pub process_ecmp : Links → ℕ → List Rtnexthop → List ℕ × Bool
unfolding ecmp_loop
process_ecmp l attrlen mem = let gws = ecmp_loop l attrlen mem [] in (gws, not (length gws == 0))

pub data RtAttr : Type 0 where
  rta_dst : ℕ → RtAttr
  rta_gw : ℕ → RtAttr
  rta_multipath : ℕ → List Rtnexthop → RtAttr
  rta_other : RtAttr

pub record RouteMsg : Type 0 where
  pub rtm_family : ℕ
  pub rtm_dst_len : ℕ
  pub rt_attrs : List RtAttr

-- `ecmp_group_selector_entry_add` with `add` false: the group, its member ids and their statuses
pub record SelectorMod : Type 0 where
  pub groupid : ℕ
  pub memberids : List ℕ
  pub statuses : List Bool

-- `mods` are the modifications issued, newest first.
pub record RouteState : Type 0 where
  pub gateways : Table GatewayEntry
  pub pipe0_memberstatus : List Bool
  pub pipe2_memberstatus : List Bool
  pub mods : List SelectorMod

-- The local variables that the attribute loop sets
pub record Nexthops : Type 0 where
  pub gateway_valid : Option ℕ
  pub ecmp_valid : Bool
  pub gw_list : List ℕ

abbrev pub no_nexthops : Nexthops
no_nexthops = record { gateway_valid = none; ecmp_valid = false; gw_list = [] }

-- The `while (nla_ok(..))`; `none` is the return at a destination other than 0.
pub read_attrs : Links → List RtAttr → Nexthops → Option Nexthops
read_attrs l [] n = some n
read_attrs l (rta_dst ip ∷ as') n = let rest = read_attrs l as' n in if ip == 0 then rest else none
read_attrs l (rta_gw ip ∷ as') n = read_attrs l as' (record n { gateway_valid = some ip })
read_attrs l (rta_multipath attrlen mem ∷ as') n =
    let (gws, valid) = process_ecmp l attrlen mem in
    read_attrs l as' (record n { ecmp_valid = valid; gw_list = gws })
read_attrs l (rta_other ∷ as') n = read_attrs l as' n

-- The gateways to switch to; `none` is the return with neither.
pub chosen : Nexthops → Option (List ℕ)
chosen n =
    if n.ecmp_valid
    then some n.gw_list
    else elim n.gateway_valid [ none ↦ none | some ip ↦ some (ip ∷ []) ]

-- The two flags and the two arrays, in the last loop
pub record Marks : Type 0 where
  pub p0_need_change : Bool
  pub p2_need_change : Bool
  pub p0_status : List Bool
  pub p2_status : List Bool

pub init_members_state : Marks
init_members_state = record {
  p0_need_change = false;
  p2_need_change = false;
  p0_status = replicate per_pipe_port_nums false;
  p2_status = replicate per_pipe_port_nums false;
}

pub mark : GatewayEntry → Marks → Marks
mark g m =
    if g.gw_pipe == 0
    then record m { p0_need_change = true; p0_status = set m.p0_status g.member_index true }
    else record m { p2_need_change = true; p2_status = set m.p2_status g.member_index true }

pub mark_all : Table GatewayEntry → List ℕ → Marks → Marks
mark_all t [] m = m
mark_all t (ip ∷ ips) m = mark_all t ips (elim (gw_entry_get t ip) [ none ↦ m | some g ↦ mark g m ])

-- The two calls at the end
pub apply : Marks → RouteState → RouteState
apply m s =
    let t = record s { pipe0_memberstatus = m.p0_status; pipe2_memberstatus = m.p2_status } in
    let t0 =
      if m.p0_need_change
      then record t {
        mods =
            record {
              groupid = pipe0_selectorcid;
              memberids = pipe0_memberid_val;
              statuses = m.p0_status;
            }
            ∷ t.mods;
      }
      else t in
    if m.p2_need_change
    then record t0 {
      mods =
          record {
            groupid = pipe2_selectorcid;
            memberids = pipe2_memberid_val;
            statuses = m.p2_status;
          }
          ∷ t0.mods;
    }
    else t0

-- `i < gw_list.nums` compares as unsigned, so `start` is the 32-bit pattern of the first `i`.
pub switch_to : ℕ → List ℕ → RouteState → RouteState
unfolding mark_all apply init_members_state
switch_to start gws s = apply (mark_all s.gateways (drop start gws) init_members_state) s

pub accepted : Links → RouteMsg → Option (List ℕ)
unfolding read_attrs chosen
accepted l msg =
    if not (msg.rtm_family == 2) then none else elim (read_attrs l msg.rt_attrs no_nexthops) [
      | none ↦ none
      | some n ↦ if msg.rtm_dst_len == 0 then chosen n else none
    ]

-- `process_route_msg`; the message's type is not looked at.
pub process_route_msg : Links → ℕ → RouteMsg → RouteState → RouteState
unfolding accepted switch_to
process_route_msg l start msg s = elim (accepted l msg) [
  | none ↦ s
  | some gws ↦ switch_to start gws s
]
