-- ===== src/Netlink/Examples.antt =====
-- Buffers of messages, one that a neighbour is learnt from, and one whose message has no length.
use igw_p.Prelude.{
  ℕ, ◌<◌, if◌then◌else◌, ◌==◌, All, true, false, List, [], ◌∷◌, none, some, ◌≡◌, refl, arith,
}
use igw_p.Hashed.{init_heads}
use igw_p.MacRewrite.{MacDriver, Stack}
use igw_p.Neigh.{nda_dst, nda_lladdr}
use igw_p.Neigh.Examples.{before, before-IsCoherent, driver-IsDocumented, driver as learner, theirs}
use igw_p.Neigh.Coherence.{IsCoherent}
use igw_p.Route.{Links}
use igw_p.Netlink.{
  NlMsg, LinkState, Round, received, no_input, nlmsg_align, message_loop, process_netlink_loop,
}
use igw_p.Netlink.Framing.{Holds, span, process_all, message_loop-process_all, message_loop_stuck}
use igw_p.Netlink.Coherence.{IsFramedRound, process_netlink_loop-IsCoherent}

-- A driver that refuses every write
abbrev driver : MacDriver
driver = record {
  key_set = λ k. false;
  data_set = λ v. false;
  entry_get = λ hw k. false;
  entry_add = λ hw k v. none;
  entry_mod = λ hw k v. none;
}

abbrev stack : Stack
stack = record { above_src = 0; above_dst = 0 }

abbrev links : Links
links = record { if_indextoname = λ i. none; if_flags = λ n. none }

abbrev empty : LinkState
empty = record {
  neigh = record { table = init_heads; hw = λ k. none };
  route = record {
    gateways = init_heads;
    pipe0_memberstatus = [];
    pipe2_memberstatus = [];
    mods = [];
  };
}

-- A neighbour message of a given length, of an interface that is not known
abbrev msg : ℕ → NlMsg
msg len = record {
  hdr_type = 28;
  hdr_len = len;
  nd_family = 2;
  nd_ifindex = 3;
  nd_attrs = [];
  rt_msg = record { rtm_family = 2; rtm_dst_len = 24; rt_attrs = [] };
  first_i = 0;
}

abbrev buffer : ℕ → ℕ → NlMsg
buffer len at = msg len

buffer-Holds : Holds (buffer 30) 0 (msg 30 ∷ msg 30 ∷ [])
unfolding Holds
buffer-Holds = (refl, (refl, tt))

buffer-span : span (msg 30 ∷ msg 30 ∷ []) ≡ 64
unfolding span nlmsg_align
buffer-span = refl

message_loop-process_all_example :
    message_loop driver stack links 3 (buffer 30) 67 0 empty
    ≡ some (process_all driver stack links (msg 30 ∷ msg 30 ∷ []) empty)
message_loop-process_all_example =
    message_loop-process_all driver stack links (msg 30 ∷ msg 30 ∷ []) (buffer 30) 67 0 3 empty
      buffer-Holds (omega arith) (omega arith) (omega (arith, buffer-span)) (omega arith)

message_loop_stuck_example : message_loop driver stack links 1000 (buffer 0) 64 0 empty ≡ none
message_loop_stuck_example =
    message_loop_stuck driver stack links 1000 (buffer 0) 64 0 empty refl (omega arith)
      (omega arith)

long-span : 64 < nlmsg_align (buffer 100 0).hdr_len
unfolding nlmsg_align
long-span = omega arith

-- The neighbour of the only interface, in a buffer with another message behind it
abbrev neighbour : NlMsg
neighbour = record {
  hdr_type = 28;
  hdr_len = 60;
  nd_family = 2;
  nd_ifindex = 3;
  nd_attrs = nda_dst 10 ∷ nda_lladdr theirs ∷ [];
  rt_msg = record { rtm_family = 2; rtm_dst_len = 24; rt_attrs = [] };
  first_i = 0;
}

abbrev learning : ℕ → NlMsg
learning at = if at == 0 then neighbour else msg 30

learning-Holds : Holds learning 0 (neighbour ∷ msg 30 ∷ [])
unfolding Holds nlmsg_align
learning-Holds = (refl, (refl, tt))

learning-span : span (neighbour ∷ msg 30 ∷ []) ≡ 92
unfolding span nlmsg_align
learning-span = refl

abbrev rounds : List Round
rounds = no_input ∷ received true false 95 learning ∷ received true true 95 learning ∷ []

framed : IsFramedRound 3 (received true false 95 learning)
unfolding IsFramedRound
framed = (
  neighbour ∷ msg 30 ∷ [],
  3,
  learning-Holds,
  ((omega arith, omega arith), ((omega arith, omega arith), tt)),
  omega arith,
  omega (arith, learning-span),
  omega arith,
  omega arith,
)

framed_cut : IsFramedRound 3 (received true true 95 learning)
unfolding IsFramedRound
framed_cut = (
  neighbour ∷ msg 30 ∷ [],
  3,
  learning-Holds,
  ((omega arith, omega arith), ((omega arith, omega arith), tt)),
  omega arith,
  omega (arith, learning-span),
  omega arith,
  omega arith,
)

rounds-framed : All (IsFramedRound 3) rounds
unfolding IsFramedRound
rounds-framed = (tt, (framed, (framed_cut, tt)))

abbrev start : LinkState
start = record { neigh = before; route = empty.route }

process_netlink_loop-IsCoherent_example :
    (t : LinkState) × (process_netlink_loop learner stack links 3 rounds start ≡ some t)
    × IsCoherent t.neigh
process_netlink_loop-IsCoherent_example =
    process_netlink_loop-IsCoherent learner stack links 3 rounds start driver-IsDocumented
      rounds-framed before-IsCoherent
