-- ===== src/Netlink/Coherence.antt =====
-- The two handlers behind one socket (switchlink_main.c): what whole buffers leave in the tables of
-- the neighbours.
use igw_p.Prelude.{
  ◌+◌, ◌^◌, ◌<◌, Bool, true, false, none, refl, All, length, if◌then◌else◌, ℕ, zero, suc, ◌||◌, not,
  List, [], ◌∷◌, Option, some, ◌≡◌, ltb, leb, ◌==◌, Bool-cases, Option-cases, inl, inr,
}
use mathlib.Core.Path.{subst}
use igw_p.MacRewrite.{MacDriver, Stack, IsDocumented}
use igw_p.Neigh.Coherence.{IsCoherent, process_neigh_msg-IsCoherent}
use igw_p.Route.{Links}
use igw_p.Netlink.Framing.{Holds, IsFramed, span, process_all, message_loop-enough}
use igw_p.Netlink.{
  NlMsg, LinkState, Round, poll_failed, no_input, recv_failed, received, neigh_msg, sizeof_nlmsghdr,
  sizeof_buf, rtm_newneigh, rtm_delneigh, rtm_newroute, rtm_delroute, process_netlink_message,
  message_loop, netlink_round, is_closed, process_netlink_loop,
}

kept :
    (s t : LinkState)
    → IsCoherent s.neigh
    → ◌≡◌ {A = Option LinkState} (some s) (some t)
    → IsCoherent t.neigh
kept s t c e = let same : s ≡ t = cc e in subst (λ u. IsCoherent u.neigh) same c

-- A round whose buffer, if there is one, is filled with framed messages, fewer than there is fuel, and
-- with fewer bytes behind them than a header has
unfoldable pub IsFramedRound : ℕ → Round → Type 0
IsFramedRound fuel poll_failed = Unit
IsFramedRound fuel no_input = Unit
IsFramedRound fuel recv_failed = Unit
IsFramedRound fuel (received namelen_ok truncated status buffer) =
    (ms : List NlMsg) × (rest : ℕ) × Holds buffer 0 ms
    × All IsFramed ms
    × (rest < sizeof_nlmsghdr)
    × (status ≡ span ms + rest)
    × (status < 2 ^ 63)
    × (length ms < fuel)

module _ (d : MacDriver) (stack : Stack) (l : Links) where
  message-IsCoherent :
      (m : NlMsg) (s : LinkState)
      → IsDocumented d
      → IsCoherent s.neigh
      → IsCoherent (process_netlink_message d stack l m s).neigh
  unfolding process_netlink_message
  message-IsCoherent m s doc c =
      elim (Bool-cases (m.hdr_type == rtm_newneigh || m.hdr_type == rtm_delneigh)) [
        | inl neigh ↦ rw neigh (process_neigh_msg-IsCoherent d stack (neigh_msg m) s.neigh doc c)
        | inr other ↦ elim (Bool-cases (m.hdr_type == rtm_newroute || m.hdr_type == rtm_delroute)) [
          | inl route ↦ rw (other, route) c
          | inr none' ↦ rw (other, none') c
        ]
      ]

  loop-IsCoherent :
      (fuel : ℕ) (buffer : ℕ → NlMsg) (status at : ℕ) (s t : LinkState)
      → IsDocumented d
      → IsCoherent s.neigh
      → message_loop d stack l fuel buffer status at s ≡ some t
      → IsCoherent t.neigh
  unfolding message_loop
  loop-IsCoherent zero buffer status at s t doc c e = absurd cc
  loop-IsCoherent (suc fuel) buffer status at s t doc c e =
      elim (Bool-cases (leb sizeof_nlmsghdr status)) [
        | inl more ↦
            loop-IsCoherent fuel buffer _ _ (process_netlink_message d stack l (buffer at) s) t doc
              (message-IsCoherent (buffer at) s doc c) (rw (more, message_loop) at e)
        | inr done ↦ kept s t c (rw (done, message_loop) at e)
      ]

  round-IsCoherent :
      (fuel : ℕ) (r : Round) (s t : LinkState)
      → IsDocumented d
      → IsCoherent s.neigh
      → netlink_round d stack l fuel r s ≡ some t
      → IsCoherent t.neigh
  unfolding netlink_round
  round-IsCoherent fuel poll_failed s t doc c e = kept s t c e
  round-IsCoherent fuel no_input s t doc c e = kept s t c e
  round-IsCoherent fuel recv_failed s t doc c e = kept s t c e
  round-IsCoherent fuel (received namelen_ok truncated status buffer) s t doc c e =
      elim (Bool-cases (not namelen_ok || (ltb sizeof_buf status || truncated))) [
        | inl skip ↦ kept s t c (rw (skip, netlink_round) at e)
        | inr take ↦ loop-IsCoherent fuel buffer status 0 s t doc c (rw (take, netlink_round) at e)
      ]

  loop-IsCoherent-all :
      (fuel : ℕ) (rs : List Round) (s t : LinkState)
      → IsDocumented d
      → IsCoherent s.neigh
      → process_netlink_loop d stack l fuel rs s ≡ some t
      → IsCoherent t.neigh
  unfolding process_netlink_loop
  loop-IsCoherent-all fuel [] s t doc c e = kept s t c e
  loop-IsCoherent-all fuel (r ∷ rs) s t doc c e = elim (Bool-cases (is_closed r)) [
    | inl closed ↦ kept s t c (rw (closed, process_netlink_loop) at e)
    | inr open' ↦ elim (Option-cases (netlink_round d stack l fuel r s)) [
      | inl out ↦ absurd (cc (rw (open', out, process_netlink_loop) at e))
      | inr (u, turn) ↦
          loop-IsCoherent-all fuel rs u t doc (round-IsCoherent fuel r s u doc c turn)
            (rw (open', turn, process_netlink_loop) at e)
    ]
  ]

  skipped :
      (b : Bool) (s : LinkState) (o : Option LinkState)
      → ((t : LinkState) × (o ≡ some t))
      → (t : LinkState) × ((if b then some s else o) ≡ some t)
  skipped true s o h = (s, refl)
  skipped false s o h = h

  round-ends :
      (fuel : ℕ) (r : Round) (s : LinkState)
      → IsFramedRound fuel r
      → (t : LinkState) × (netlink_round d stack l fuel r s ≡ some t)
  unfolding netlink_round IsFramedRound
  round-ends fuel poll_failed s h = (s, refl)
  round-ends fuel no_input s h = (s, refl)
  round-ends fuel recv_failed s h = (s, refl)
  round-ends fuel (received namelen_ok truncated status buffer) s
        (ms, rest, holds, framed, lt, e, fits, more) =
      skipped (not namelen_ok || (ltb sizeof_buf status || truncated)) s _ (
        process_all d stack l ms s,
        message_loop-enough d stack l ms buffer status 0 rest fuel s holds framed lt e fits more,
      )

  after-round :
      (o : Option LinkState) (next : LinkState → Option LinkState)
      → ((t : LinkState) × (o ≡ some t))
      → ((t : LinkState) → (u : LinkState) × (next t ≡ some u))
      → (u : LinkState) × (Path
          (Option LinkState)
          (elim o [ none ↦ none | some t ↦ next t ])
          (some u))
  after-round (some t) next h goes = goes t
  after-round none next (t, h) goes = absurd (cc h)

  loop-ends :
      (fuel : ℕ) (rs : List Round) (s : LinkState)
      → All (IsFramedRound fuel) rs
      → (t : LinkState) × (process_netlink_loop d stack l fuel rs s ≡ some t)
  unfolding process_netlink_loop
  loop-ends fuel [] s h = (s, refl)
  loop-ends fuel (r ∷ rs) s (framed, h) = skipped (is_closed r) s _ (
      after-round (netlink_round d stack l fuel r s) (process_netlink_loop d stack l fuel rs)
        (round-ends fuel r s framed) (λ t. loop-ends fuel rs t h))

  -- Where the buffers that the netlink thread receives are filled with framed messages, fewer of them
  -- than there is fuel, and over a driver that does what it documents: the thread gets through them,
  -- and leaves the neighbours' two tables in agreement if they were. They agree if the
  -- software table has its 64 chains, the interfaces have egress ports of their own, and the port of
  -- every valid entry is programmed with the entry's two addresses.
  pub process_netlink_loop-IsCoherent :
      (fuel : ℕ) (rs : List Round) (s : LinkState)
      → IsDocumented d
      → All (IsFramedRound fuel) rs
      → IsCoherent s.neigh
      → (t : LinkState) × (process_netlink_loop d stack l fuel rs s ≡ some t) × IsCoherent t.neigh
  process_netlink_loop-IsCoherent fuel rs s doc framed c =
      let (t, ends) = loop-ends fuel rs s framed in
      (t, ends, loop-IsCoherent-all fuel rs s t doc c ends)
