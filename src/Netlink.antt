-- ===== src/Netlink.antt =====
-- The netlink thread (igw-h/init_setup/switchlink/switchlink_main.c): how a buffer of messages is
-- walked, and which handler each message goes to.
--
-- A buffer is what memory holds at each offset from its start, read as a message. `status` is the
-- 64-bit pattern of the `ssize_t`, as the loop compares it as a `size_t`. The walk is recursion on
-- fuel, `none` being that the fuel ran out.
pub mod Framing
pub mod Coherence
mod Examples
use igw_p.Prelude.{
  ℕ, zero, suc, ◌+◌, ◌-◌, ◌*◌, ◌/◌, ◌%◌, ◌^◌, Bool, true, false, ◌&&◌, ◌||◌, not, List, [], ◌∷◌,
  Option, none, some, ltb, leb, ◌==◌, if◌then◌else◌,
}
use igw_p.MacRewrite.{MacDriver, Stack}
use igw_p.Neigh.{NdAttr, NeighMsg, NeighState, process_neigh_msg}
use igw_p.Route.{Links, RouteMsg, RouteState, process_route_msg}

abbrev pub rtm_newroute : ℕ
rtm_newroute = 24

abbrev pub rtm_delroute : ℕ
rtm_delroute = 25

abbrev pub rtm_newneigh : ℕ
rtm_newneigh = 28

abbrev pub rtm_delneigh : ℕ
rtm_delneigh = 29

-- `sizeof(struct nlmsghdr)`
abbrev pub sizeof_nlmsghdr : ℕ
sizeof_nlmsghdr = 16

-- `struct nlmsghdr` and what is behind it, read as a neighbour message and as a route message;
-- `first_i` is the word that `process_route_msg` finds in its `i`.
pub record NlMsg : Type 0 where
  pub hdr_type : ℕ
  pub hdr_len : ℕ
  pub nd_family : ℕ
  pub nd_ifindex : ℕ
  pub nd_attrs : List NdAttr
  pub rt_msg : RouteMsg
  pub first_i : ℕ

-- The state of the two handlers
pub record LinkState : Type 0 where
  pub neigh : NeighState
  pub route : RouteState

pub neigh_msg : NlMsg → NeighMsg
neigh_msg m = record {
  nlmsg_type = m.hdr_type;
  nlmsg_len = m.hdr_len;
  ndm_family = m.nd_family;
  ndm_ifindex = m.nd_ifindex;
  attrs = m.nd_attrs;
}

-- `NLMSG_ALIGN(len)`, on `unsigned int`
pub nlmsg_align : ℕ → ℕ
nlmsg_align len = (len + 3) % 2 ^ 32 / 4 * 4

-- One readiness of the socket: the poll failed or found nothing to read, `recvmsg` failed, or it
-- returned `status` bytes with the flags and the address length as they are.
pub data Round : Type 0 where
  poll_failed no_input recv_failed : Round
  received : (namelen_ok : Bool) (truncated : Bool) (status : ℕ) (buffer : ℕ → NlMsg) → Round

abbrev pub sizeof_buf : ℕ
sizeof_buf = 8192

-- `status == 0`, at which `process_netlink_loop` returns
pub is_closed : Round → Bool
is_closed poll_failed = false
is_closed no_input = false
is_closed recv_failed = false
is_closed (received namelen_ok truncated status buffer) = status == 0

module _ (d : MacDriver) (stack : Stack) (l : Links) where
  pub process_netlink_message : NlMsg → LinkState → LinkState
  unfolding neigh_msg
  process_netlink_message m s =
      if m.hdr_type == rtm_newneigh || m.hdr_type == rtm_delneigh
      then record s { neigh = process_neigh_msg d stack (neigh_msg m) s.neigh }
      else if m.hdr_type == rtm_newroute || m.hdr_type == rtm_delroute
      then record s { route = process_route_msg l m.first_i m.rt_msg s.route }
      else s

  -- The `for` over the messages, from offset `at` on
  pub message_loop : ℕ → (ℕ → NlMsg) → ℕ → ℕ → LinkState → Option LinkState
  unfolding nlmsg_align
  message_loop zero buffer status at s = none
  message_loop (suc fuel) buffer status at s =
      let len = nlmsg_align (buffer at).hdr_len in
      let rest =
        message_loop fuel buffer ((status + 2 ^ 64 - len) % 2 ^ 64) (at + len)
          (process_netlink_message (buffer at) s) in
      if leb sizeof_nlmsghdr status then rest else some s

  -- One turn of the `while (1)`, when it does not leave the loop
  pub netlink_round : ℕ → Round → LinkState → Option LinkState
  netlink_round fuel poll_failed s = some s
  netlink_round fuel no_input s = some s
  netlink_round fuel recv_failed s = some s
  netlink_round fuel (received namelen_ok truncated status buffer) s =
      if not namelen_ok || (ltb sizeof_buf status || truncated)
      then some s
      else message_loop fuel buffer status 0 s

  pub process_netlink_loop : ℕ → List Round → LinkState → Option LinkState
  unfolding netlink_round is_closed
  process_netlink_loop fuel [] s = some s
  process_netlink_loop fuel (r ∷ rs) s =
      let rest : Option LinkState = elim (netlink_round fuel r s) [
        | none ↦ none
        | some t ↦ process_netlink_loop fuel rs t
      ] in
      if is_closed r then some s else rest
