-- ===== src/Netlink/Framing.antt =====
-- The walk over a buffer (switchlink_main.c, process_netlink_loop), against the list of messages
-- that the buffer was filled with.
use igw_p.Prelude.{
  ℕ, zero, suc, ◌+◌, ◌-◌, ◌%◌, ◌^◌, ◌≤◌, ◌<◌, true, false, List, [], ◌∷◌, none, some, ◌≡◌, refl,
  ◌∙◌, arith, leb, length, All,
}
use igw_p.MacRewrite.{MacDriver, Stack}
use igw_p.Route.{Links}
use igw_p.Netlink.{
  NlMsg, LinkState, nlmsg_align, sizeof_nlmsghdr, process_netlink_message, message_loop,
}

-- The messages lie in the buffer one behind the other, each from a multiple of 4 on, from `at` on.
unfoldable pub Holds : (ℕ → NlMsg) → ℕ → List NlMsg → Type 0
Holds buffer at [] = Unit
Holds buffer at (m ∷ ms) = (buffer at ≡ m) × Holds buffer (at + nlmsg_align m.hdr_len) ms

-- The bytes that the messages take
unfoldable pub span : List NlMsg → ℕ
span [] = 0
span (m ∷ ms) = nlmsg_align m.hdr_len + span ms

-- A length that a header at least has room for, and that does not wrap when it is rounded up
abbrev pub IsFramed : NlMsg → Type 0
IsFramed m = (sizeof_nlmsghdr ≤ m.hdr_len) × (m.hdr_len + 3 < 2 ^ 32)

nlmsg_align-le :
    (m : NlMsg)
    → IsFramed m
    → (sizeof_nlmsghdr ≤ nlmsg_align m.hdr_len) × (nlmsg_align m.hdr_len < 2 ^ 32)
unfolding nlmsg_align
nlmsg_align-le m (lo, hi) = (omega arith, omega arith)

nlmsg_align-lt : (len : ℕ) → nlmsg_align len < 2 ^ 32
unfolding nlmsg_align
nlmsg_align-lt len = omega arith

module _ (d : MacDriver) (stack : Stack) (l : Links) where
  -- Every message handled, in order
  pub process_all : List NlMsg → LinkState → LinkState
  process_all [] s = s
  process_all (m ∷ ms) s = process_all ms (process_netlink_message d stack l m s)

  pub loop_stops :
      (fuel : ℕ) (buffer : ℕ → NlMsg) (status at : ℕ) (s : LinkState)
      → status < sizeof_nlmsghdr
      → message_loop d stack l (suc fuel) buffer status at s ≡ some s
  unfolding message_loop
  loop_stops fuel buffer status at s h =
      let e : leb sizeof_nlmsghdr status ≡ false = ground arith in rw e refl

  loop_goes_on :
      (fuel : ℕ) (buffer : ℕ → NlMsg) (status at left : ℕ) (m : NlMsg) (s : LinkState)
      → sizeof_nlmsghdr ≤ status
      → buffer at ≡ m
      → (status + 2 ^ 64 - nlmsg_align m.hdr_len) % 2 ^ 64 ≡ left
      → message_loop d stack l (suc fuel) buffer status at s
        ≡ message_loop d stack l fuel buffer left
            (at + nlmsg_align m.hdr_len)
            (process_netlink_message d stack l m s)
  unfolding message_loop
  loop_goes_on fuel buffer status at left m s h here e =
      let more : leb sizeof_nlmsghdr status ≡ true = ground arith in rw (more, here, e) refl

  -- A buffer filled with framed messages, and with fewer bytes behind them than a header has, is
  -- walked to its end, in one turn for each message and one more; each message is handled once, in
  -- order, and nothing else is.
  pub message_loop-process_all :
      (ms : List NlMsg) (buffer : ℕ → NlMsg) (status at rest : ℕ) (s : LinkState)
      → Holds buffer at ms
      → All IsFramed ms
      → rest < sizeof_nlmsghdr
      → status ≡ span ms + rest
      → status < 2 ^ 63
      → message_loop d stack l (suc (length ms)) buffer status at s ≡ some (process_all ms s)
  unfolding Holds span process_all
  message_loop-process_all [] buffer status at rest s h f lt e fits =
      loop_stops 0 buffer status at s (omega arith)
  message_loop-process_all (m ∷ ms) buffer status at rest s (here, h) (framed, f) lt e fits =
      let (lo, hi) = nlmsg_align-le m framed in
      loop_goes_on (suc (length ms)) buffer status at (span ms + rest) m s (omega arith) here
        (omega arith)
      ∙ message_loop-process_all ms buffer (span ms + rest) (at + nlmsg_align m.hdr_len) rest
          (process_netlink_message d stack l m s) h f lt refl (omega arith)

  -- More turns than that change nothing.
  pub message_loop-enough :
      (ms : List NlMsg) (buffer : ℕ → NlMsg) (status at rest fuel : ℕ) (s : LinkState)
      → Holds buffer at ms
      → All IsFramed ms
      → rest < sizeof_nlmsghdr
      → status ≡ span ms + rest
      → status < 2 ^ 63
      → length ms < fuel
      → message_loop d stack l fuel buffer status at s ≡ some (process_all ms s)
  unfolding Holds span process_all
  message_loop-enough ms buffer status at rest zero s h f lt e fits more =
      absurd (omega (arith, more))
  message_loop-enough [] buffer status at rest (suc fuel) s h f lt e fits more =
      loop_stops fuel buffer status at s (omega arith)
  message_loop-enough (m ∷ ms) buffer status at rest (suc fuel) s (here, h) (framed, f) lt e fits
        more =
      let (lo, hi) = nlmsg_align-le m framed in
      loop_goes_on fuel buffer status at (span ms + rest) m s (omega arith) here (omega arith)
      ∙ message_loop-enough ms buffer (span ms + rest) (at + nlmsg_align m.hdr_len) rest fuel
          (process_netlink_message d stack l m s) h f lt refl (omega arith) (omega (arith, more))

  -- A message whose length is given as 0 is handled again and again: no fuel is enough.
  pub message_loop_stuck :
      (fuel : ℕ) (buffer : ℕ → NlMsg) (status at : ℕ) (s : LinkState)
      → (buffer at).hdr_len ≡ 0
      → sizeof_nlmsghdr ≤ status
      → status < 2 ^ 64
      → message_loop d stack l fuel buffer status at s ≡ none
  unfolding message_loop nlmsg_align
  message_loop_stuck zero buffer status at s e h fits = refl
  message_loop_stuck (suc fuel) buffer status at s e h fits =
      let none' : nlmsg_align (buffer at).hdr_len ≡ 0 = rw e refl in
      let same : (status + 2 ^ 64 - 0) % 2 ^ 64 ≡ status = omega arith in
      let stay : at + 0 ≡ at = omega arith in
      let more : leb sizeof_nlmsghdr status ≡ true = ground arith in
      rw (more, none', same, stay)
        (message_loop_stuck fuel buffer status at (process_netlink_message d stack l (buffer at) s)
          e h fits)

  -- A message that is longer than what is left does not end the walk:
  -- the two turns that follow handle it and then what lies behind the buffer's end.
  message_loop_overruns :
      (fuel : ℕ) (buffer : ℕ → NlMsg) (status at : ℕ) (s : LinkState)
      → sizeof_nlmsghdr ≤ status
      → status < nlmsg_align (buffer at).hdr_len
      → status < 2 ^ 63
      → (left : ℕ) × (message_loop d stack l (suc (suc fuel)) buffer status at s
          ≡ message_loop d stack l fuel buffer left
              (at
                + nlmsg_align (buffer at).hdr_len
                + nlmsg_align (buffer (at + nlmsg_align (buffer at).hdr_len)).hdr_len)
              (process_netlink_message d stack l
                (buffer (at + nlmsg_align (buffer at).hdr_len))
                (process_netlink_message d stack l (buffer at) s)))
  message_loop_overruns fuel buffer status at s more long fits =
      let len = nlmsg_align (buffer at).hdr_len in
      let small : len < 2 ^ 32 = nlmsg_align-lt (buffer at).hdr_len in
      (
        _,
        loop_goes_on (suc fuel) buffer status at (status + 2 ^ 64 - len) (buffer at) s more refl
              (omega arith)
            ∙ loop_goes_on fuel buffer (status + 2 ^ 64 - len) (at + len) _ (buffer (at + len)) _
                (omega arith) refl refl,
      )
