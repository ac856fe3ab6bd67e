-- ===== src/Hostif/Sources.antt =====
-- Each host interface of the array has the name and the front-panel port of its section
-- (switch_hostif.c: parser_switch_config_to_hostif).
use igw_p.Prelude.{
  ℕ, zero, suc, Bool, true, false, Option, none, some, List, [], ◌∷◌, ◌≡◌, refl, ◌∙◌, ap,
  if◌then◌else◌, get_elem?,
}
use igw_p.Hostif.{
  SwitchCfgHostif, Hostif, Inet, front_panel_index, base_hostif, with_ip6, parse_hostif,
  parse_hostifs, parser_switch_config_to_hostif,
}
use igw_p.Hostif.Parse.{parse_hostifs-cons}

parsed-source :
    (b : Bool) (o : Option (List ℕ)) (h x : Hostif) (f : List ℕ → Hostif)
    → ((a : List ℕ) → ((f a).intf_name ≡ h.intf_name) × ((f a).fp_port ≡ h.fp_port))
    → Path
        (Option Hostif)
        (if b then elim o [ none ↦ none | some addr ↦ some (f addr) ] else some h)
        (some x)
    → (x.intf_name ≡ h.intf_name) × (x.fp_port ≡ h.fp_port)
parsed-source true (some addr) h x f same e =
    let made : x ≡ f addr = cc e in
    (ap (λ y. y.intf_name) made ∙ (same addr).0, ap (λ y. y.fp_port) made ∙ (same addr).1)
parsed-source true none h x f same e = absurd (cc e)
parsed-source false o h x f same e =
    let made : x ≡ h = cc e in (ap (λ y. y.intf_name) made, ap (λ y. y.fp_port) made)

parse_hostif-source :
    (inet : Inet) (c : SwitchCfgHostif) (x : Hostif)
    → parse_hostif inet c ≡ some x
    → (x.intf_name ≡ c.cfg_intf_name) × (x.fp_port ≡ front_panel_index c.cfg_fp_port)
unfolding parse_hostif base_hostif with_ip6
parse_hostif-source inet c x e =
    parsed-source c.cfg_ipv6_enable (inet.pton6 c.ip6_addr) (base_hostif inet c) x
      (λ a. with_ip6 (base_hostif inet c) c.cfg_ip6_prefix_len a) (λ a. (refl, refl)) e

parse_hostifs-source :
    (inet : Inet) (cs : List SwitchCfgHostif) (hs : List Hostif) (n : ℕ) (c : SwitchCfgHostif)
    → parse_hostifs inet cs ≡ some hs
    → get_elem? cs n ≡ some c
    → (h : Hostif) × (get_elem? hs n ≡ some h)
      × (h.intf_name ≡ c.cfg_intf_name)
      × (h.fp_port ≡ front_panel_index c.cfg_fp_port)
parse_hostifs-source inet [] hs n c e at = absurd (cc at)
parse_hostifs-source inet (x ∷ cs) hs zero c e at =
    let (h, rest, good, better, shape) = parse_hostifs-cons inet x cs hs e in
    let same : x ≡ c = cc at in
    let (name, port) = parse_hostif-source inet x h good in
    (
      h,
      ap (λ l. get_elem? l 0) shape,
      name ∙ ap (λ y. y.cfg_intf_name) same,
      port ∙ ap (λ y. front_panel_index y.cfg_fp_port) same,
    )
parse_hostifs-source inet (x ∷ cs) hs (suc n) c e at =
    let (h, rest, good, better, shape) = parse_hostifs-cons inet x cs hs e in
    let (h', found, name, port) = parse_hostifs-source inet cs rest n c better at in
    (h', ap (λ l. get_elem? l (suc n)) shape ∙ found, name, port)

pub guarded-some {ℓ} :
    {A : Type ℓ} (b : Bool) (o : Option A) (a : A) → (if b then o else none) ≡ some a → o ≡ some a
guarded-some true o a e = e
guarded-some false o a e = absurd (cc e)

-- Where the parse goes through, the entry at each place has the name of the section at that place, and
-- the index of its front-panel port.
pub parser_switch_config_to_hostif-source :
    (inet : Inet) (cs : List SwitchCfgHostif) (hs : List Hostif) (n : ℕ) (c : SwitchCfgHostif)
    → parser_switch_config_to_hostif inet cs ≡ some hs
    → get_elem? cs n ≡ some c
    → (h : Hostif) × (get_elem? hs n ≡ some h)
      × (h.intf_name ≡ c.cfg_intf_name)
      × (h.fp_port ≡ front_panel_index c.cfg_fp_port)
unfolding parser_switch_config_to_hostif
parser_switch_config_to_hostif-source inet cs hs n c e at =
    parse_hostifs-source inet cs hs n c (guarded-some _ (parse_hostifs inet cs) hs e) at
