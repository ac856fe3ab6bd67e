-- ===== src/Config/Sections.antt =====
-- The host interfaces that an accepted configuration holds, and how many it says there are
-- (switch_config.c).
use igw_p.Prelude.{
  ℕ, zero, suc, ◌+◌, ◌/◌, ◌^◌, ◌≤◌, ◌<◌, true, false, some, List, [], ◌∷◌, ◌≡◌, ap, sym, ◌∙◌, arith,
  ◌==◌, ==_iff, Bool-cases, inl, inr, if◌then◌else◌, length, get_elem?, All,
}
use igw_p.Hostif.{SwitchCfgHostif, Inet}
use igw_p.Ether.{zero_mac}
use igw_p.Ether.Aton.{Libc, codes, ether_aton}
use igw_p.Config.Steps.{Outcome, done, >>=-eq-done}
use igw_p.Config.{
  Jansson, SwitchConfig, or_refuse, or_assert, checked_mac, strncpy, ip6_fields,
  get_field_of_string, Field, field, missing, wrong, get_field_of_int, switch_config_set_hostif,
  switch_config_init, set_sections, spill_into,
}
use igw_p.Config.Section.{HoldsSection, switch_config_set_hostif-HoldsSection}
use igw_p.Config.Valid.{
  switch_config_set_hostifs-sections, switch_config_init-chain, set_sections-length,
}

some-inj {ℓ} : {A : Type ℓ} (a b : A) → some a ≡ some b → a ≡ b
some-inj a b h = cc h

second-inj {ℓ} :
    {A : Type ℓ} (a b : A) (n m : ℕ) → Path (Outcome (A × ℕ)) (done (a, n)) (done (b, m)) → n ≡ m
second-inj a b n m h = cc h

module _ (j : Jansson) (c : Libc) (inet : Inet) where
  -- The number that a section gives for its port fits in 16 bits.
  abbrev pub Fits : j.Json → Type 0
  Fits x = (v : ℕ) → get_field_of_int j c inet x "fp_port" true ≡ field v → v < 2 ^ 16

  -- The numbers that the sections of the file give for their ports fit in 16 bits.
  abbrev pub SectionsFit : Type 0
  SectionsFit =
      (root section : j.Json) (items : List j.Json)
      → j.load_file ≡ some root
      → j.object_get root "hostifs" ≡ some section
      → j.array_items section ≡ some items
      → All Fits items

  -- The loop's turn taken apart
  set_sections-turn :
      (x : j.Json) (xs : List j.Json) (i num num' : ℕ) (hs : List SwitchCfgHostif)
      → set_sections j c inet (x ∷ xs) i num ≡ done (hs, num')
      → (h : SwitchCfgHostif) × (spill : ℕ) × (rest : List SwitchCfgHostif)
        × (switch_config_set_hostif j c inet x ≡ done (h, spill))
        × (set_sections j c inet xs (i + 1) (spill_into j c inet i spill num) ≡ done (rest, num'))
        × (hs ≡ (h ∷ rest))
  unfolding set_sections
  set_sections-turn x xs i num num' hs e =
      let (a, made, e2) = >>=-eq-done (switch_config_set_hostif j c inet x) _ e in
      let (b, others, e3) = >>=-eq-done (set_sections j c inet xs (i + 1) _) _ e2 in
      let same : b.1 ≡ num' = cc e3 in
      (a.0, a.1, b.0, made, others ∙ ap (λ n. done (b.0, n)) same, cc e3)

  -- Each host interface comes from the section at its place.
  set_sections-get_elem? :
      (xs : List j.Json) (i num num' : ℕ) (hs : List SwitchCfgHostif) (k : ℕ) (x : j.Json)
      → set_sections j c inet xs i num ≡ done (hs, num')
      → get_elem? xs k ≡ some x
      → (h : SwitchCfgHostif) × (spill : ℕ) × (switch_config_set_hostif j c inet x
          ≡ done (h, spill))
        × (get_elem? hs k ≡ some h)
  set_sections-get_elem? [] i num num' hs k x e there = absurd (cc there)
  set_sections-get_elem? (y ∷ xs) i num num' hs zero x e there =
      let (h, spill, rest, made, others, whole) = set_sections-turn y xs i num num' hs e in
      let same : y ≡ x = cc there in
      (
        h,
        spill,
        ap (switch_config_set_hostif j c inet) (sym same) ∙ made,
        ap (λ l. get_elem? l 0) whole,
      )
  set_sections-get_elem? (y ∷ xs) i num num' hs (suc k) x e there =
      let (h, spill, rest, made, others, whole) = set_sections-turn y xs i num num' hs e in
      let (h', spill', made', at) =
        set_sections-get_elem? xs (i + 1) _ num' rest k x others there in
      (h', spill', made', ap (λ l. get_elem? l (suc k)) whole ∙ at)

  -- The sections before the last of 128 leave the number alone.
  set_sections-before :
      (xs : List j.Json) (i num num' : ℕ) (hs : List SwitchCfgHostif)
      → i + length xs ≤ 127
      → set_sections j c inet xs i num ≡ done (hs, num')
      → num' ≡ num
  unfolding set_sections spill_into
  set_sections-before [] i num num' hs le e = cc e
  set_sections-before (x ∷ xs) i num num' hs le e =
      let (h, spill, rest, made, others, whole) = set_sections-turn x xs i num num' hs e in
      let kept : spill_into j c inet i spill num ≡ num = ground (arith, le) in
      set_sections-before xs (i + 1) (spill_into j c inet i spill num) num' rest (omega (arith, le))
        others
      ∙ kept

  field-done : (f : Field ℕ) (v : ℕ) → or_refuse f ≡ done v → f ≡ field v
  field-done (field w) v h = let same : w ≡ v = cc h in ap field same
  field-done missing v h = absurd (cc h)
  field-done wrong v h = absurd (cc h)

  switch_config_set_hostif-spill :
      (x : j.Json) (h : SwitchCfgHostif) (spill : ℕ)
      → Fits x
      → switch_config_set_hostif j c inet x ≡ done (h, spill)
      → spill ≡ 0
  unfolding switch_config_set_hostif
  switch_config_set_hostif-spill x h spill fits e =
      let (name, _, e1) =
        >>=-eq-done (or_refuse (get_field_of_string j c inet x "intf_name" true)) _ e in
      let (ip, _, e2) = >>=-eq-done (or_refuse (get_field_of_string j c inet x "ip" true)) _ e1 in
      let (mask, _, e3) =
        >>=-eq-done (or_refuse (get_field_of_int j c inet x "net_mask_len" true)) _ e2 in
      let (gw, _, e4) =
        >>=-eq-done (or_refuse (get_field_of_string j c inet x "gw_ip" true)) _ e3 in
      let (ip6, _, e5) =
        >>=-eq-done (ip6_fields j c inet x (get_field_of_string j c inet x "ip6" false)) _ e4 in
      let (mac_str, _, e6) =
        >>=-eq-done (or_refuse (get_field_of_string j c inet x "mac" true)) _ e5 in
      let (mac, _, e7) =
        >>=-eq-done (or_assert (checked_mac (ether_aton c (codes (strncpy 32 mac_str)) zero_mac))) _
          e6 in
      let (fp, port, e8) =
        >>=-eq-done (or_refuse (get_field_of_int j c inet x "fp_port" true)) _ e7 in
      let small : fp < 2 ^ 16 = fits fp (field-done _ fp port) in
      let over : fp / 2 ^ 16 ≡ spill = second-inj _ h (fp / 2 ^ 16) spill e8 in
      omega (arith, small, over)

  -- The last of 128 sections clears the number.
  set_sections_full :
      (xs : List j.Json) (i num' : ℕ) (hs : List SwitchCfgHostif)
      → i + length xs ≡ 128
      → 0 < length xs
      → All Fits xs
      → set_sections j c inet xs i 128 ≡ done (hs, num')
      → num' ≡ 0
  unfolding set_sections spill_into
  set_sections_full [] i num' hs full some_left fits e = absurd (omega (arith, some_left))
  set_sections_full (x ∷ []) i num' hs full some_left (fit, fits) e =
      let (h, spill, rest, made, others, whole) = set_sections-turn x [] i 128 num' hs e in
      let last : spill_into j c inet i spill 128 ≡ num' = cc others in
      let none_left = switch_config_set_hostif-spill x h spill fit made in
      ground (arith, last, none_left, full)
  set_sections_full (x ∷ y ∷ xs) i num' hs full some_left (fit, fits) e =
      let (h, spill, rest, made, others, whole) = set_sections-turn x (y ∷ xs) i 128 num' hs e in
      let kept : spill_into j c inet i spill 128 ≡ 128 = ground (arith, full) in
      set_sections_full (y ∷ xs) (i + 1) num' rest (omega (arith, full)) (omega arith) fits
        (ap (set_sections j c inet (y ∷ xs) (i + 1)) (sym kept) ∙ others)

  -- Where the ports of the sections fit in 16 bits, `hostif_num` is the number of the sections, but for
  -- 128 of them, where it is 0.
  pub switch_config_init-hostif_num :
      (cfg : SwitchConfig)
      → SectionsFit
      → switch_config_init j c inet ≡ done cfg
      → cfg.hostif_num ≡ (if length cfg.hostifs == 128 then 0 else length cfg.hostifs)
  switch_config_init-hostif_num cfg fits h =
      let (root, higw, redirect, loaded, first, second, third) =
        switch_config_init-chain j c inet cfg h in
      let (keeps, same_ip, same_len, (section, items, has, listed, some_item, le, ends)) =
        switch_config_set_hostifs-sections j c inet redirect cfg root third in
      let longer =
        set_sections-length j c inet items 0 (length items) cfg.hostifs cfg.hostif_num ends in
      elim (Bool-cases (length items == 128)) [
        | inl full ↦
            let all : length items ≡ 128 = (==_iff (length items) 128).0 full in
            let cleared =
              set_sections_full items 0 cfg.hostif_num cfg.hostifs (omega (arith, all)) some_item
                (fits root section items loaded has listed)
                (ap (set_sections j c inet items 0) (sym all) ∙ ends) in
            ground (arith, cleared, longer, all)
        | inr fewer ↦
            let kept =
              set_sections-before items 0 (length items) cfg.hostif_num cfg.hostifs
                (ground (arith, le, fewer)) ends in
            ground (arith, kept, longer, fewer)
      ]

  -- An accepted configuration has one host interface for each section of the file, in order: its
  -- name, addresses, mask, MAC address and port are those that the section has under their names, cut
  -- to the sizes of the fields, and IPv6 is on where the section has an IPv6 address.
  pub switch_config_init-sections :
      (cfg : SwitchConfig) (root section : j.Json) (items : List j.Json) (k : ℕ) (x : j.Json)
      → switch_config_init j c inet ≡ done cfg
      → j.load_file ≡ some root
      → j.object_get root "hostifs" ≡ some section
      → j.array_items section ≡ some items
      → get_elem? items k ≡ some x
      → (length cfg.hostifs ≡ length items)
        × ((h : SwitchCfgHostif) × (get_elem? cfg.hostifs k ≡ some h) × HoldsSection j c inet x h)
  switch_config_init-sections cfg root section items k x h file has listed there =
      let (root', higw, redirect, loaded, first, second, third) =
        switch_config_init-chain j c inet cfg h in
      let (keeps, same_ip, same_len, (section', items', has', listed', some_item, le, ends)) =
        switch_config_set_hostifs-sections j c inet redirect cfg root' third in
      let same_root : root' ≡ root = some-inj root' root (sym loaded ∙ file) in
      let same_section : section' ≡ section =
        some-inj section' section (sym has' ∙ ap (λ r. j.object_get r "hostifs") same_root ∙ has) in
      let same : items' ≡ items =
        some-inj items' items (sym listed' ∙ ap j.array_items same_section ∙ listed) in
      let (h', spill, made, at) =
        set_sections-get_elem? items' 0 (length items') cfg.hostif_num cfg.hostifs k x ends
          (ap (λ l. get_elem? l k) same ∙ there) in
      (
        set_sections-length j c inet items' 0 (length items') cfg.hostifs cfg.hostif_num ends
            ∙ ap length same,
        (h', at, switch_config_set_hostif-HoldsSection j c inet x h' spill made),
      )
