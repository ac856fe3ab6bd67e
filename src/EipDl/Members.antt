-- ===== src/EipDl/Members.antt =====
-- The members and the selector that eip_in_ecmp_dl_table_init and its twin add (switch_eip_dl.c).
use igw_p.Prelude.{
  ℕ, zero, suc, ◌+◌, ◌-◌, ◌%◌, ◌^◌, ◌≤◌, ◌<◌, true, false, ◌&&◌, List, [], ◌∷◌, Option, none, some,
  ◌≡◌, refl, sym, ◌∙◌, ap, arith, ltb, leb, if◌then◌else◌, map, length, get_elem?, Bool-cases, inl,
  inr, replicate,
}
use igw_p.IpType.{SwitchCfgIp}
use igw_p.EipDl.{max_dl_ip_num, Member, first_ip, last_ip, dl_loop, member_ids, ecmp_dl_table}

dl_loop-length : (room a b i : ℕ) → length (dl_loop room a b i) ≤ room
unfolding dl_loop
dl_loop-length zero a b i = omega arith
dl_loop-length (suc room) a b i = elim (Bool-cases (leb a b)) [
  | inl e ↦ rw e (omega (arith, dl_loop-length room ((a + 1) % 2 ^ 32) b (i + 1)))
  | inr e ↦ rw e (omega arith)
]

dl_loop-ids :
    (room a b i : ℕ)
    → map (λ m. m.memberid) (dl_loop room a b i) ≡ member_ids (length (dl_loop room a b i)) i
unfolding dl_loop member_ids
dl_loop-ids zero a b i = refl
dl_loop-ids (suc room) a b i = elim (Bool-cases (leb a b)) [
  | inl e ↦ rw e (ap (λ ids. (i + 1) ∷ ids) (dl_loop-ids room ((a + 1) % 2 ^ 32) b (i + 1)))
  | inr e ↦ rw e refl
]

same-member :
    (m n a b : ℕ)
    → m ≡ n
    → a ≡ b
    → ◌≡◌ {A = Option Member}
        (some (record { memberid = m; member_ip = a }))
        (some (record { memberid = n; member_ip = b }))
same-member m n a b x y = rw (x, y) refl

dl_loop-get :
    (room a b i k : ℕ)
    → b + 1 < 2 ^ 32
    → k < room
    → a + k ≤ b
    → get_elem? (dl_loop room a b i) k ≡ some (record { memberid = i + k + 1; member_ip = a + k })
unfolding dl_loop
dl_loop-get zero a b i k h lt le = absurd (omega arith)
dl_loop-get (suc room) a b i zero h lt le =
    let e : leb a b ≡ true = ground arith in
    rw e (same-member (i + 1) (i + 0 + 1) a (a + 0) (omega arith) (omega arith))
dl_loop-get (suc room) a b i (suc k) h lt le =
    let e : leb a b ≡ true = ground arith in
    let next : (a + 1) % 2 ^ 32 ≡ a + 1 = omega arith in
    rw (e, next)
      (dl_loop-get room (a + 1) b (i + 1) k h (omega arith) (omega arith)
        ∙ same-member (i + 1 + k + 1) (i + suc k + 1) (a + 1 + k) (a + suc k) (omega arith)
            (omega arith))

dl_loop-end :
    (room a b i k : ℕ) → b + 1 < 2 ^ 32 → b < a + k → get_elem? (dl_loop room a b i) k ≡ none
unfolding dl_loop
dl_loop-end zero a b i k h lt = refl
dl_loop-end (suc room) a b i zero h lt = let e : leb a b ≡ false = ground arith in rw e refl
dl_loop-end (suc room) a b i (suc k) h lt = elim (Bool-cases (leb a b)) [
  | inr e ↦ rw e refl
  | inl e ↦
      let next : (a + 1) % 2 ^ 32 ≡ a + 1 = ground arith in
      rw (e, next) (dl_loop-end room (a + 1) b (i + 1) k h (omega arith))
]

dl_loop_wraps : (room a i : ℕ) → a < 2 ^ 32 → length (dl_loop room a (2 ^ 32 - 1) i) ≡ room
unfolding dl_loop
dl_loop_wraps zero a i h = refl
dl_loop_wraps (suc room) a i h =
    let e : leb a (2 ^ 32 - 1) ≡ true = ground arith in
    rw e (ap suc (dl_loop_wraps room ((a + 1) % 2 ^ 32) (i + 1) (omega arith)))

below : (m n : ℕ) → ltb m n ≡ true → m < n
below m n h = ground arith

upto : (m n : ℕ) → leb m n ≡ true → m ≤ n
upto m n h = ground arith

past : (m n : ℕ) → leb m n ≡ false → n < m
past m n h = ground arith

not_below : (m n : ℕ) → ltb m n ≡ false → n ≤ m
not_below m n h = ground arith

get_elem?-none : {A : Type 0} (xs : List A) (k : ℕ) → length xs ≤ k → get_elem? xs k ≡ none
get_elem?-none [] k h = refl
get_elem?-none (x ∷ xs) zero h = absurd (omega arith)
get_elem?-none (x ∷ xs) (suc k) h = get_elem?-none xs k (omega arith)

beyond : (room a b k : ℕ) → room ≤ k → get_elem? (dl_loop room a b 0) k ≡ none
beyond room a b k h =
    get_elem?-none (dl_loop room a b 0) k (omega (arith, dl_loop-length room a b 0))

-- When the subnet ends before the last address of all, the `k`-th member has the id `k + 1` and is
-- the subnet's `k`-th address, for each `k` below 120 that the subnet has an address for; and there
-- are no other members.
pub ecmp_dl_table-profile :
    (group : ℕ) (cfg : SwitchCfgIp) (k : ℕ)
    → last_ip cfg + 1 < 2 ^ 32
    → get_elem? (ecmp_dl_table group cfg).profile k ≡ (
        if ltb k max_dl_ip_num && leb (first_ip cfg + k) (last_ip cfg)
        then some (record { memberid = k + 1; member_ip = first_ip cfg + k })
        else none)
unfolding ecmp_dl_table
ecmp_dl_table-profile group cfg k h =
    let a = first_ip cfg in
    let b = last_ip cfg in
    elim (Bool-cases (ltb k max_dl_ip_num)) [
      | inr full ↦ rw full (beyond max_dl_ip_num a b k (not_below k max_dl_ip_num full))
      | inl room ↦ elim (Bool-cases (leb (a + k) b)) [
        | inl in' ↦
            rw (room, in')
              (dl_loop-get max_dl_ip_num a b 0 k h (below k max_dl_ip_num room) (upto (a + k) b in')
                ∙ same-member (0 + k + 1) (k + 1) (a + k) (a + k) (omega arith) refl)
        | inr out ↦ rw (room, out) (dl_loop-end max_dl_ip_num a b 0 k h (past (a + k) b out))
      ]
    ]

-- The selector's group is of exactly the members of the action profile, in their order, all of them
-- active, and of no more than the 120 that the arrays have room for.
ecmp_dl_table-selector :
    (group : ℕ) (cfg : SwitchCfgIp)
    → ((ecmp_dl_table group cfg).selector.memberid_val
        ≡ map (λ m. m.memberid) (ecmp_dl_table group cfg).profile)
      × ((ecmp_dl_table group cfg).selector.memberstatus_val
          ≡ replicate (length (ecmp_dl_table group cfg).profile) true)
      × (length (ecmp_dl_table group cfg).profile ≤ max_dl_ip_num)
unfolding ecmp_dl_table
ecmp_dl_table-selector group cfg = (
  sym (dl_loop-ids max_dl_ip_num (first_ip cfg) (last_ip cfg) 0),
  refl,
  dl_loop-length max_dl_ip_num (first_ip cfg) (last_ip cfg) 0,
)

-- When the subnet ends at the last address of all, there are 120 members, however few addresses the
-- subnet has.
ecmp_dl_table_wraps :
    (group : ℕ) (cfg : SwitchCfgIp)
    → last_ip cfg ≡ 2 ^ 32 - 1
    → first_ip cfg < 2 ^ 32
    → length (ecmp_dl_table group cfg).profile ≡ max_dl_ip_num
unfolding ecmp_dl_table
ecmp_dl_table_wraps group cfg e h = rw e (dl_loop_wraps max_dl_ip_num (first_ip cfg) 0 h)
