-- ===== src/IpType/Agree.antt =====
-- The entries that one packet passes: when two keys exclude each other, and what that makes of the
-- table of igw_ip_type_table_init (switch_igw_ip_type_table.c).
use igw_p.Prelude.{
  ℕ, zero, suc, Bool, true, false, ◌&&◌, ◌||◌, not, List, [], ◌∷◌, some, ◌≡◌, refl, sym, ◌∙◌, ◌⊎◌,
  ap, arith, ◌==◌, bit_and, get_elem?, Bool-cases, inl, inr,
}
use igw_p.IpType.{
  SwitchCfgIp, Ternary, IgwIpTypeKey, Action, ip_from_internet_in_hit, ip_from_internet_in_dl_hit,
  ip_from_internet_out_hit, ip_from_internet_out_dl_hit, need_drop, Entry, Packet, passes_field,
  passes_bytes, passes, for_both_vips,
}
use igw_p.IpType.Table.{igw_ip_type_table_init}
use igw_p.IpType.Out.{
  internet_out_entry_init, internet_out_between_cluster_dl_entry_init,
  internet_out_within_cluster_dl_entry_init,
}
use igw_p.IpType.In.{
  internet_in_entry_init, internet_in_between_cluster_dl_entry_init,
  internet_in_within_cluster_dl_entry_init,
}

-- The same bits are asked for, with other values.
conflict : Ternary → Ternary → Bool
conflict t u = (t.mask == u.mask) && not (bit_and t.value t.mask == bit_and u.value u.mask)

conflict-passes :
    (x : ℕ) (t u : Ternary)
    → passes_field x t ≡ true
    → passes_field x u ≡ true
    → conflict t u ≡ false
unfolding conflict
conflict-passes x t u a b = elim (Bool-cases (t.mask == u.mask)) [
  | inr e ↦ rw e refl
  | inl e ↦
      let same : t.mask ≡ u.mask = ground arith in
      let mm : bit_and x t.mask ≡ bit_and x u.mask = ap (λ m. bit_and x m) same in ground arith
]

conflict_bytes : List Ternary → List Ternary → Bool
conflict_bytes [] us = false
conflict_bytes (t ∷ ts) [] = false
conflict_bytes (t ∷ ts) (u ∷ us) = conflict t u || conflict_bytes ts us

conflict_bytes-passes :
    (xs : List ℕ) (ts us : List Ternary)
    → passes_bytes xs ts ≡ true
    → passes_bytes xs us ≡ true
    → conflict_bytes ts us ≡ false
unfolding conflict_bytes
conflict_bytes-passes xs [] us a b = refl
conflict_bytes-passes xs (t ∷ ts) [] a b = refl
conflict_bytes-passes [] (t ∷ ts) (u ∷ us) a b = absurd cc
conflict_bytes-passes (x ∷ xs) (t ∷ ts) (u ∷ us) a b =
    rw (conflict-passes x t u (ground arith) (ground arith))
      (conflict_bytes-passes xs ts us (ground arith) (ground arith))

-- A field that asks for a valid header
wants_valid : Ternary → Bool
wants_valid t = (t.mask == 1) && (bit_and t.value 1 == 1)

-- A packet that has no two inner headers
abbrev pub IsOneInner : Packet → Type 0
IsOneInner p = (bit_and p.p_inner_ipv4_isvalid 1 ≡ 0) ⊎ (bit_and p.p_inner_ipv6_isvalid 1 ≡ 0)

both_valid :
    (x y : ℕ) (t u : Ternary)
    → (bit_and x 1 ≡ 0) ⊎ (bit_and y 1 ≡ 0)
    → passes_field x t ≡ true
    → passes_field y u ≡ true
    → (wants_valid t && wants_valid u) ≡ false
unfolding wants_valid
both_valid x y t u none' a b = elim (Bool-cases (t.mask == 1)) [
  | inr m ↦ rw m refl
  | inl m ↦ elim (Bool-cases (u.mask == 1)) [
    | inr n ↦ ground arith
    | inl n ↦
        let tm : bit_and x t.mask ≡ bit_and x 1 = ap (λ m. bit_and x m) (ground arith) in
        let um : bit_and y u.mask ≡ bit_and y 1 = ap (λ m. bit_and y m) (ground arith) in
        let tv : bit_and t.value t.mask ≡ bit_and t.value 1 =
          ap (λ m. bit_and t.value m) (ground arith) in
        let uv : bit_and u.value u.mask ≡ bit_and u.value 1 =
          ap (λ m. bit_and u.value m) (ground arith) in
        ground arith
  ]
]

-- One asks for an inner IPv4 header and the other for an inner IPv6 header.
conflict_inner : IgwIpTypeKey → IgwIpTypeKey → Bool
conflict_inner k l =
    (wants_valid k.inner_ipv4_isvalid && wants_valid l.inner_ipv6_isvalid)
    || (wants_valid l.inner_ipv4_isvalid && wants_valid k.inner_ipv6_isvalid)

-- Fields that the entries for the addresses of the configuration need not be told apart by
conflict_fixed : IgwIpTypeKey → IgwIpTypeKey → Bool
conflict_fixed k l =
    conflict k.ipv4_isvalid l.ipv4_isvalid
    || (conflict k.inner_ipv4_isvalid l.inner_ipv4_isvalid
        || (conflict k.inner_ipv4_dstaddr l.inner_ipv4_dstaddr
            || (conflict k.inner_ipv6_isvalid l.inner_ipv6_isvalid
                || (conflict k.inner_ipv6_dstaddr l.inner_ipv6_dstaddr
                    || (conflict k.inner_ipv6_srcaddr l.inner_ipv6_srcaddr
                        || (conflict k.vxlan_type l.vxlan_type
                            || (conflict k.vxlan_tof l.vxlan_tof
                                || (conflict_bytes k.ipv6_dstaddr l.ipv6_dstaddr
                                    || (conflict_inner k l
                                        || conflict k.ipv4_dstaddr l.ipv4_dstaddr)))))))))

and-true : (x y : Bool) → (x && y) ≡ true → (x ≡ true) × (y ≡ true)
and-true true true h = (refl, refl)
and-true true false h = absurd cc
and-true false y h = absurd cc

-- What it takes to pass a key, field by field
PassesFields : Packet → IgwIpTypeKey → Type 0
PassesFields p k =
    (passes_field p.p_ipv4_isvalid k.ipv4_isvalid ≡ true)
    × (passes_field p.p_ipv4_dstaddr k.ipv4_dstaddr ≡ true)
    × (passes_field p.p_vxlan_isvalid k.vxlan_isvalid ≡ true)
    × (passes_field p.p_inner_ipv4_isvalid k.inner_ipv4_isvalid ≡ true)
    × (passes_field p.p_inner_ipv4_dstaddr k.inner_ipv4_dstaddr ≡ true)
    × (passes_field p.p_inner_ipv6_isvalid k.inner_ipv6_isvalid ≡ true)
    × (passes_field p.p_inner_ipv6_dstaddr k.inner_ipv6_dstaddr ≡ true)
    × (passes_field p.p_inner_ipv6_srcaddr k.inner_ipv6_srcaddr ≡ true)
    × (passes_field p.p_vxlan_type k.vxlan_type ≡ true)
    × (passes_field p.p_vxlan_tof k.vxlan_tof ≡ true)
    × (passes_field p.p_ipv6_isvalid k.ipv6_isvalid ≡ true)
    × (passes_bytes p.p_ipv6_dstaddr k.ipv6_dstaddr ≡ true)

passes-PassesFields : (p : Packet) (k : IgwIpTypeKey) → passes p k ≡ true → PassesFields p k
unfolding passes PassesFields
passes-PassesFields p k h =
    let (h0, r0) = and-true _ _ h in
    let (h1, r1) = and-true _ _ r0 in
    let (h2, r2) = and-true _ _ r1 in
    let (h3, r3) = and-true _ _ r2 in
    let (h4, r4) = and-true _ _ r3 in
    let (h5, r5) = and-true _ _ r4 in
    let (h6, r6) = and-true _ _ r5 in
    let (h7, r7) = and-true _ _ r6 in
    let (h8, r8) = and-true _ _ r7 in
    let (h9, r9) = and-true _ _ r8 in
    let (h10, r10) = and-true _ _ r9 in (h0, h1, h2, h3, h4, h5, h6, h7, h8, h9, h10, r10)

conflict_fixed-passes :
    (p : Packet) (k l : IgwIpTypeKey)
    → IsOneInner p
    → PassesFields p k
    → PassesFields p l
    → conflict_fixed k l ≡ false
unfolding conflict_fixed conflict_inner PassesFields
conflict_fixed-passes p k l one (a0, a1, a2, a3, a4, a5, a6, a7, a8, a9, a10, a11)
      (b0, b1, b2, b3, b4, b5, b6, b7, b8, b9, b10, b11) =
    rw
      (
        conflict-passes p.p_ipv4_isvalid k.ipv4_isvalid l.ipv4_isvalid a0 b0,
        conflict-passes p.p_inner_ipv4_isvalid k.inner_ipv4_isvalid l.inner_ipv4_isvalid a3 b3,
        conflict-passes p.p_inner_ipv4_dstaddr k.inner_ipv4_dstaddr l.inner_ipv4_dstaddr a4 b4,
        conflict-passes p.p_inner_ipv6_isvalid k.inner_ipv6_isvalid l.inner_ipv6_isvalid a5 b5,
        conflict-passes p.p_inner_ipv6_dstaddr k.inner_ipv6_dstaddr l.inner_ipv6_dstaddr a6 b6,
        conflict-passes p.p_inner_ipv6_srcaddr k.inner_ipv6_srcaddr l.inner_ipv6_srcaddr a7 b7,
        conflict-passes p.p_vxlan_type k.vxlan_type l.vxlan_type a8 b8,
        conflict-passes p.p_vxlan_tof k.vxlan_tof l.vxlan_tof a9 b9,
        conflict_bytes-passes p.p_ipv6_dstaddr k.ipv6_dstaddr l.ipv6_dstaddr a11 b11,
        both_valid p.p_inner_ipv4_isvalid p.p_inner_ipv6_isvalid k.inner_ipv4_isvalid
            l.inner_ipv6_isvalid one a3 b5,
        both_valid p.p_inner_ipv4_isvalid p.p_inner_ipv6_isvalid l.inner_ipv4_isvalid
            k.inner_ipv6_isvalid one b3 a5,
      )
      (conflict-passes p.p_ipv4_dstaddr k.ipv4_dstaddr l.ipv4_dstaddr a1 b1)

action_code : Action → ℕ × ℕ
action_code (ip_from_internet_in_hit e) = (0, e)
action_code (ip_from_internet_in_dl_hit e) = (1, e)
action_code (ip_from_internet_out_hit e) = (2, e)
action_code (ip_from_internet_out_dl_hit e) = (3, e)
action_code need_drop = (4, 0)

action_of : ℕ → ℕ → Action
action_of zero e = ip_from_internet_in_hit e
action_of (suc zero) e = ip_from_internet_in_dl_hit e
action_of (suc (suc zero)) e = ip_from_internet_out_hit e
action_of (suc (suc (suc zero))) e = ip_from_internet_out_dl_hit e
action_of (suc (suc (suc (suc n)))) e = need_drop

action_of-action_code : (a : Action) → action_of (action_code a).0 (action_code a).1 ≡ a
unfolding action_of action_code
action_of-action_code (ip_from_internet_in_hit e) = refl
action_of-action_code (ip_from_internet_in_dl_hit e) = refl
action_of-action_code (ip_from_internet_out_hit e) = refl
action_of-action_code (ip_from_internet_out_dl_hit e) = refl
action_of-action_code need_drop = refl

-- One action, or different priorities, or keys that no packet passes both of
agree : Entry → Entry → Bool
unfolding action_code
agree a b =
    ((action_code a.action).0 == (action_code b.action).0
      && ((action_code a.action).1 == (action_code b.action).1))
    || (not (a.key.priority == b.key.priority) || conflict_fixed a.key b.key)

agree_lem :
    (a b : Entry) (p : Packet)
    → agree a b ≡ true
    → IsOneInner p
    → a.key.priority ≡ b.key.priority
    → passes p a.key ≡ true
    → passes p b.key ≡ true
    → a.action ≡ b.action
unfolding agree
agree_lem a b p h one pri x y =
    let apart =
      conflict_fixed-passes p a.key b.key one (passes-PassesFields p a.key x)
        (passes-PassesFields p b.key y) in
    let m : (action_code a.action).0 ≡ (action_code b.action).0 = ground arith in
    let e : (action_code a.action).1 ≡ (action_code b.action).1 = ground arith in
    sym (action_of-action_code a.action)
    ∙ (ap (λ n. action_of n (action_code a.action).1) m
        ∙ (ap (λ n. action_of (action_code b.action).0 n) e ∙ action_of-action_code b.action))

all : {A : Type 0} → (A → Bool) → List A → Bool
all test [] = true
all test (x ∷ xs) = test x && all test xs

all-get :
    {A : Type 0} (test : A → Bool) (xs : List A) (i : ℕ) (x : A)
    → all test xs ≡ true
    → get_elem? xs i ≡ some x
    → test x ≡ true
unfolding all
all-get test [] i x h e = absurd cc
all-get test (y ∷ ys) zero x h e =
    let (a, b) = and-true (test y) (all test ys) h in
    let same : y ≡ x = cc in sym (ap test same) ∙ a
all-get test (y ∷ ys) (suc i) x h e =
    let (a, b) = and-true (test y) (all test ys) h in all-get test ys i x b e

all_agree : List Entry → Bool
unfolding all
all_agree es = all (λ a. all (λ b. agree a b) es) es

all_agree-get :
    (es : List Entry) (i j : ℕ) (a b : Entry)
    → all_agree es ≡ true
    → get_elem? es i ≡ some a
    → get_elem? es j ≡ some b
    → agree a b ≡ true
unfolding all_agree
all_agree-get es i j a b h x y =
    all-get (λ b'. agree a b') es j b (all-get (λ a'. all (λ b'. agree a' b') es) es i a h x) y

table-all_agree :
    (v w d q : ℕ)
    → all_agree (
        igw_ip_type_table_init
          (record { vip = v; backup_vip = w; dl_ip = d; dl_ip_prefix_len = q }))
      ≡ true
unfolding igw_ip_type_table_init internet_out_entry_init internet_out_between_cluster_dl_entry_init
    internet_out_within_cluster_dl_entry_init internet_in_entry_init
    internet_in_between_cluster_dl_entry_init internet_in_within_cluster_dl_entry_init for_both_vips
    all_agree all agree action_code conflict_fixed conflict conflict_bytes conflict_inner
    wants_valid
table-all_agree v zero d q = refl
table-all_agree v (suc w) d q = refl

-- Whatever addresses are configured, two entries of the table that have one priority and that a
-- packet without two inner headers passes both of have one action, with one egress pipeline: which
-- of them the hardware takes makes no difference.
pub igw_ip_type_table_init-agree :
    (cfg : SwitchCfgIp) (i j : ℕ) (a b : Entry) (p : Packet)
    → get_elem? (igw_ip_type_table_init cfg) i ≡ some a
    → get_elem? (igw_ip_type_table_init cfg) j ≡ some b
    → IsOneInner p
    → a.key.priority ≡ b.key.priority
    → passes p a.key ≡ true
    → passes p b.key ≡ true
    → a.action ≡ b.action
igw_ip_type_table_init-agree cfg i j a b p x y one pri =
    let ok = table-all_agree cfg.vip cfg.backup_vip cfg.dl_ip cfg.dl_ip_prefix_len in
    agree_lem a b p (all_agree-get (igw_ip_type_table_init cfg) i j a b ok x y) one pri
