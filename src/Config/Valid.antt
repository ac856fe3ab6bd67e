-- ===== src/Config/Valid.antt =====
-- What an accepted configuration is (switch_config.c).
use igw_p.Prelude.{
  ap, sym, ◌∙◌, ℕ, ◌+◌, ◌≤◌, ◌<◌, Bool, true, false, ◌||◌, not, Option, none, some, List, [], ◌∷◌,
  ◌≡◌, ◌≢◌, refl, ◌⊎◌, arith, ◌==◌, ltb, length,
}
use igw_p.Hostif.{SwitchCfgHostif, Inet}
use igw_p.Ether.Aton.{Libc}
use igw_p.Config.Steps.{Outcome, refused, aborted, done, ◌>>=◌, ◌>>◌, guard, >>=-eq-done}
use igw_p.Config.{
  Jansson, SwitchConfig, zero_config, or_return, switch_config_set_hostif,
  switch_config_set_hostifs, switch_config_set_higw, switch_config_set_redirectip,
  switch_config_init, set_sections, hostifs_size,
}

-- What the section `higw` gives
pub record IsHigw (cfg : SwitchConfig) : Type 0 where
  pub has_vip : cfg.vip ≢ 0
  pub has_mgt_ip : cfg.mgt_ip ≢ 0
  pub has_shared : cfg.shared_bw_vip ≢ 0
  pub speeds : (cfg.port_speed ≡ 40) ⊎ (cfg.port_speed ≡ 100)
  pub models : (cfg.hardware_model ≡ 1) ⊎ (cfg.hardware_model ≡ 2)
  pub fecs : cfg.fec_model ≤ 2

guard-true : (b : Bool) (u : Unit {0}) → guard b ≡ done u → b ≡ true
guard-true true u h = refl
guard-true false u h = cc

-- The end of `switch_config_set_hostifs`, by what its loop comes to
hostifs-stored :
    (cfg cfg' : SwitchConfig) (b : Bool) (r : Outcome (List SwitchCfgHostif × ℕ))
    → Path
        (Outcome SwitchConfig)
        (guard b >> (r >>= λ (hs, num). done (record cfg { hostifs = hs; hostif_num = num })))
        (done cfg')
    → (b ≡ true)
      × (r ≡ done (cfg'.hostifs, cfg'.hostif_num))
      × (IsHigw cfg → IsHigw cfg')
      × (cfg'.dl_ip ≡ cfg.dl_ip)
      × (cfg'.dl_ip_prefix_len ≡ cfg.dl_ip_prefix_len)
hostifs-stored cfg cfg' true (done (hs, num)) h = ground arith
hostifs-stored cfg cfg' true refused h = absurd (cc h)
hostifs-stored cfg cfg' true aborted h = absurd (cc h)
hostifs-stored cfg cfg' false r h = absurd (cc h)

or_return-some {ℓ} : {A : Type ℓ} (o : Option A) (a : A) → or_return o ≡ done a → o ≡ some a
or_return-some none a h = absurd (cc h)
or_return-some (some x) a h = let same : x ≡ a = cc h in ap some same

sized : (n : ℕ) → not (n == 0 || ltb hostifs_size n) ≡ true → (0 < n) × (n ≤ 128)
sized n h = ground arith

module _ (j : Jansson) (c : Libc) (inet : Inet) where
  switch_config_set_higw-IsHigw :
      (cfg cfg' : SwitchConfig) (root : j.Json)
      → switch_config_set_higw j c inet cfg root ≡ done cfg'
      → IsHigw cfg'
  unfolding switch_config_set_higw
  switch_config_set_higw-IsHigw cfg cfg' root h = ground arith

  switch_config_set_redirectip-bounds :
      (cfg cfg' : SwitchConfig) (root : j.Json)
      → switch_config_set_redirectip j c inet cfg root ≡ done cfg'
      → (cfg'.dl_ip ≢ 0)
        × (24 ≤ cfg'.dl_ip_prefix_len)
        × (cfg'.dl_ip_prefix_len ≤ 32)
        × (IsHigw cfg → IsHigw cfg')
  unfolding switch_config_set_redirectip
  switch_config_set_redirectip-bounds cfg cfg' root h = ground arith

  pub set_sections-length :
      (xs : List j.Json) (i num : ℕ) (hs : List SwitchCfgHostif) (num' : ℕ)
      → set_sections j c inet xs i num ≡ done (hs, num')
      → length hs ≡ length xs
  unfolding set_sections
  set_sections-length [] i num hs num' h = ground arith
  set_sections-length (x ∷ xs) i num hs num' h =
      let (a, made, h2) = >>=-eq-done (switch_config_set_hostif j c inet x) _ h in
      let (b, rest, h3) = >>=-eq-done (set_sections j c inet xs (i + 1) _) _ h2 in
      ground (arith, set_sections-length xs (i + 1) _ b.0 b.1 rest, h3)

  pub switch_config_set_hostifs-sections :
      (cfg cfg' : SwitchConfig) (root : j.Json)
      → switch_config_set_hostifs j c inet cfg root ≡ done cfg'
      → (IsHigw cfg → IsHigw cfg')
        × (cfg'.dl_ip ≡ cfg.dl_ip)
        × (cfg'.dl_ip_prefix_len ≡ cfg.dl_ip_prefix_len)
        × ((section : j.Json) × (items : List j.Json) × (j.object_get root "hostifs" ≡ some section)
            × (j.array_items section ≡ some items)
            × (0 < length items)
            × (length items ≤ 128)
            × (set_sections j c inet items 0 (length items) ≡ done (cfg'.hostifs, cfg'.hostif_num)))
  unfolding switch_config_set_hostifs
  switch_config_set_hostifs-sections cfg cfg' root h =
      let (section, has, h2) = >>=-eq-done (or_return (j.object_get root "hostifs")) _ h in
      let (items, listed, h3) = >>=-eq-done (or_return (j.array_items section)) _ h2 in
      let (fits, ends, higw, ip, len) =
        hostifs-stored cfg cfg' _ (set_sections j c inet items 0 (length items)) h3 in
      (
        higw,
        ip,
        len,
        (
          section,
          items,
          or_return-some _ section has,
          or_return-some _ items listed,
          (sized (length items) fits).0,
          (sized (length items) fits).1,
          ends,
        ),
      )

  -- A read that goes through, taken apart
  pub switch_config_init-chain :
      (cfg : SwitchConfig)
      → switch_config_init j c inet ≡ done cfg
      → (root : j.Json) × (higw : SwitchConfig) × (redirect : SwitchConfig) × (j.load_file
          ≡ some root)
        × (switch_config_set_higw j c inet zero_config root ≡ done higw)
        × (switch_config_set_redirectip j c inet higw root ≡ done redirect)
        × (switch_config_set_hostifs j c inet redirect root ≡ done cfg)
  unfolding switch_config_init
  switch_config_init-chain cfg h =
      let (root, loaded, h2) = >>=-eq-done (or_return j.load_file) _ h in
      let (u, object, h3) = >>=-eq-done (guard (j.is_object root)) _ h2 in
      let (higw, first, h4) = >>=-eq-done (switch_config_set_higw j c inet zero_config root) _ h3 in
      let (redirect, second, h5) =
        >>=-eq-done (switch_config_set_redirectip j c inet higw root) _ h4 in
      (root, higw, redirect, or_return-some _ root loaded, first, second, h5)

  -- A configuration that is accepted has the three addresses, one of the speeds, models and FEC modes,
  -- a direct-link subnet of 24 to 32 bits, and between 1 and 128 host interfaces.
  pub switch_config_init-IsValid :
      (cfg : SwitchConfig)
      → switch_config_init j c inet ≡ done cfg
      → IsHigw cfg
        × (cfg.dl_ip ≢ 0)
        × (24 ≤ cfg.dl_ip_prefix_len)
        × (cfg.dl_ip_prefix_len ≤ 32)
        × (0 < length cfg.hostifs)
        × (length cfg.hostifs ≤ 128)
  switch_config_init-IsValid cfg h =
      let (root, higw, redirect, loaded, first, second, third) = switch_config_init-chain cfg h in
      let (ip, low, high, kept) = switch_config_set_redirectip-bounds higw redirect root second in
      let (keeps, same_ip, same_len, (section, items, has, listed, some_item, fits, ends)) =
        switch_config_set_hostifs-sections redirect cfg root third in
      let longer = set_sections-length items 0 (length items) cfg.hostifs cfg.hostif_num ends in
      (
        keeps (kept (switch_config_set_higw-IsHigw zero_config higw root first)),
        (λ z. ip (sym same_ip ∙ z)),
        omega (arith, low, same_len),
        omega (arith, high, same_len),
        omega (arith, longer, some_item),
        omega (arith, longer, fits),
      )
