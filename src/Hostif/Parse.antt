-- ===== src/Hostif/Parse.antt =====
-- From the configuration to the array of host interfaces.
use igw_p.Prelude.{
  ℕ, ◌-◌, ◌*◌, ◌^◌, ◌≤◌, ◌<◌, List, [], ◌∷◌, some, ◌≡◌, arith, length, get_elem?, Option-cases,
  Bool-cases, inl, inr, zero, suc, leb,
}
use igw_p.Hostif.{
  SwitchCfgHostif, Hostif, Inet, hostif_array_size, front_panel_index, parse_hostif, parse_hostifs,
  parser_switch_config_to_hostif,
}

-- A panel number from 1 on gives its index without wrapping, and two panel numbers never share one.
pub front_panel_index_lem :
    (a b : ℕ)
    → 1 ≤ a
    → a < 2 ^ 16
    → 1 ≤ b
    → b < 2 ^ 16
    → front_panel_index a ≡ front_panel_index b
    → (front_panel_index a ≡ (a - 1) * 4) × (a ≡ b)
unfolding front_panel_index
front_panel_index_lem a b pa ha pb hb e = omega arith

pub parse_hostifs-cons :
    (inet : Inet) (c : SwitchCfgHostif) (cs : List SwitchCfgHostif) (hs : List Hostif)
    → parse_hostifs inet (c ∷ cs) ≡ some hs
    → (h : Hostif) × (rest : List Hostif) × (parse_hostif inet c ≡ some h)
      × (parse_hostifs inet cs ≡ some rest)
      × (hs ≡ h ∷ rest)
unfolding parse_hostifs
parse_hostifs-cons inet c cs hs e = elim (Option-cases (parse_hostif inet c)) [
  | inl bad ↦ absurd (cc (rw (bad, parse_hostifs) at e))
  | inr (h, good) ↦ elim (Option-cases (parse_hostifs inet cs)) [
    | inl worse ↦ absurd (cc (rw (good, worse, parse_hostifs) at e))
    | inr (rest, better) ↦
        (h, rest, good, better, ground (arith, rw (good, better, parse_hostifs) at e))
  ]
]

parse_hostifs-get :
    (inet : Inet) (cs : List SwitchCfgHostif) (hs : List Hostif)
    → parse_hostifs inet cs ≡ some hs
    → (length hs ≡ length cs)
      × ((i : ℕ) (c : SwitchCfgHostif)
          → get_elem? cs i ≡ some c
          → get_elem? hs i ≡ parse_hostif inet c)
unfolding parse_hostifs
parse_hostifs-get inet [] hs e = (ground arith, λ i c h. cc)
parse_hostifs-get inet (c ∷ cs) hs e =
    let (h, rest, good, better, shape) = parse_hostifs-cons inet c cs hs e in
    let (lens, items) = parse_hostifs-get inet cs rest better in
    (rw (shape, lens), rw shape (nth h rest good items))
  where
    nth :
        (h : Hostif) (rest : List Hostif)
        → parse_hostif inet c ≡ some h
        → ((i : ℕ) (d : SwitchCfgHostif)
            → get_elem? cs i ≡ some d
            → get_elem? rest i ≡ parse_hostif inet d)
        → (i : ℕ) (d : SwitchCfgHostif) → get_elem? (c ∷ cs) i ≡ some d
        → get_elem? (h ∷ rest) i ≡ parse_hostif inet d
    nth h rest good items zero d found = cc
    nth h rest good items (suc i) d found = items i d found

-- If the parse goes through, the array has at most 128 entries, one for each interface of the
-- configuration and in its order, each made from its own section alone.
parser_switch_config_to_hostif-items :
    (inet : Inet) (cfg : List SwitchCfgHostif) (hs : List Hostif) (i : ℕ) (c : SwitchCfgHostif)
    → parser_switch_config_to_hostif inet cfg ≡ some hs
    → get_elem? cfg i ≡ some c
    → (length hs ≤ hostif_array_size)
      × (length hs ≡ length cfg)
      × (get_elem? hs i ≡ parse_hostif inet c)
unfolding parser_switch_config_to_hostif
parser_switch_config_to_hostif-items inet cfg hs i c e found =
    elim (Bool-cases (leb (length cfg) hostif_array_size)) [
      | inl fits ↦
          let (lens, items) = parse_hostifs-get inet cfg hs (rw fits at e) in
          (ground arith, lens, items i c found)
      | inr big ↦ absurd (cc (rw big at e))
    ]
