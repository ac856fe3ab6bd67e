-- ===== src/Config/Section.antt =====
-- What a host interface has of its section of the file (switch_config.c: switch_config_set_hostif),
-- said of the section's JSON object.
use igw_p.Prelude.{
  ℕ, ◌%◌, ◌^◌, ◌/◌, Bool, true, false, Option, none, some, ◌≡◌, refl, sym, ◌∙◌, ap, ◌⊎◌, inl, inr,
  arith,
}
use Prim.Native.String.{String}
use igw_p.Hostif.{SwitchCfgHostif, Inet}
use igw_p.Ether.{Mac, zero_mac}
use igw_p.Ether.Aton.{Libc, codes, ether_aton}
use mathlib.Core.Path.{subst}
use igw_p.Config.Steps.{Outcome, done, >>=-eq-done}
use igw_p.Config.{
  Jansson, or_refuse, or_assert, checked_mac, strncpy, ip6_fields, Field, field, missing, wrong,
  typed, get_field_of_string, get_field_of_int, switch_config_set_hostif,
}

of_kind {ℓ} :
    {A : Type ℓ} (v : Option A) (a : A)
    → Path (Field A) (elim v [ none ↦ wrong | some b ↦ field b ]) (field a)
    → v ≡ some a
of_kind none a h = absurd (cc h)
of_kind (some b) a h = let same : b ≡ a = cc h in ap some same

typed-some {ℓ κ} :
    {J : Type κ} {A : Type ℓ} (required : Bool) (o : Option J) (value : J → Option A) (a : A)
    → typed required o value ≡ field a
    → (f : J) × (o ≡ some f) × (value f ≡ some a)
unfolding typed
typed-some true none value a h = absurd (cc h)
typed-some false none value a h = absurd (cc h)
typed-some required (some f) value a h = (f, refl, of_kind (value f) a h)

never-missing {ℓ} :
    {A : Type ℓ} (v : Option A)
    → ¬ (Path (Field A) (elim v [ none ↦ wrong | some b ↦ field b ]) missing)
never-missing none e = cc e
never-missing (some b) e = cc e

typed-missing {ℓ κ} :
    {J : Type κ} {A : Type ℓ} (required : Bool) (o : Option J) (value : J → Option A)
    → typed required o value ≡ missing
    → o ≡ none
unfolding typed
typed-missing required none value h = refl
typed-missing required (some f) value h = absurd (never-missing (value f) h)

given {ℓ} : {A : Type ℓ} (f : Field A) (a : A) → or_refuse f ≡ done a → f ≡ field a
given (field b) a h = let same : b ≡ a = cc h in ap field same
given missing a h = absurd (cc h)
given wrong a h = absurd (cc h)

asserted {ℓ} : {A : Type ℓ} (o : Option A) (a : A) → or_assert o ≡ done a → o ≡ some a
asserted (some b) a h = let same : b ≡ a = cc h in ap some same
asserted none a h = absurd (cc h)

checked_mac-some : (p : Mac × Bool) (m : Mac) → checked_mac p ≡ some m → p ≡ (m, true)
checked_mac-some (a, true) m h = let same : a ≡ m = cc h in ap (λ x. (x, true)) same
checked_mac-some (a, false) m h = absurd (cc h)

first-inj {ℓ} :
    {A : Type ℓ} (a b : A) (n m : ℕ) → Path (Outcome (A × ℕ)) (done (a, n)) (done (b, m)) → a ≡ b
first-inj a b n m h = cc h

wrapped :
    (o : Option ℕ) (v : ℕ)
    → Path (Option ℕ) (elim o [ none ↦ none | some n ↦ some (n % 2 ^ 32) ]) (some v)
    → (n : ℕ) × (o ≡ some n) × (v ≡ n % 2 ^ 32)
wrapped none v h = absurd (cc h)
wrapped (some n) v h = (n, refl, cc h)

module _ (j : Jansson) (c : Libc) (inet : Inet) where
  -- A name of an object has a string, or an integer.
  abbrev pub HasText : j.Json → String → String → Type 0
  HasText x name s = (f : j.Json) × (j.object_get x name ≡ some f) × (j.string_value f ≡ some s)

  abbrev pub HasNumber : j.Json → String → ℕ → Type 0
  HasNumber x name n = (f : j.Json) × (j.object_get x name ≡ some f) × (j.integer_value f ≡ some n)

  -- IPv6 is off without an address; with one, the prefix length is there too.
  abbrev pub HoldsIp6 : j.Json → String × ℕ × Bool → Type 0
  HoldsIp6 x ip6 =
      ((j.object_get x "ip6" ≡ none) × (ip6 ≡ ("", 0, false)))
      ⊎ ((s : String) × (len : ℕ) × HasText x "ip6" s
          × HasNumber x "ip6_prefix_len" len
          × (ip6 ≡ (strncpy 128 s, len % 2 ^ 8, true)))

  -- Every field of an interface is the section's value of its name, cut to the field's size.
  pub record HoldsSection (x : j.Json) (h : SwitchCfgHostif) : Type 0 where
    pub name : (s : String) × HasText x "intf_name" s × (h.cfg_intf_name ≡ strncpy 15 s)
    pub ip : (s : String) × HasText x "ip" s × (h.ip_addr ≡ strncpy 16 s)
    pub mask : (n : ℕ) × HasNumber x "net_mask_len" n × (h.net_mask_len ≡ n % 2 ^ 16)
    pub gw : (s : String) × HasText x "gw_ip" s × (h.gw_ip_addr ≡ strncpy 16 s)
    pub ip6 : HoldsIp6 x (h.ip6_addr, h.cfg_ip6_prefix_len, h.cfg_ipv6_enable)
    pub mac :
        (s : String) × HasText x "mac" s
        × (ether_aton c (codes (strncpy 32 s)) zero_mac ≡ (h.cfg_mac, true))
    pub port : (n : ℕ) × HasNumber x "fp_port" n × (h.cfg_fp_port ≡ n % 2 ^ 16)

  text-read :
      (x : j.Json) (name : String) (required : Bool) (s : String)
      → get_field_of_string j c inet x name required ≡ field s
      → HasText x name s
  unfolding get_field_of_string
  text-read x name required s e = typed-some required (j.object_get x name) j.string_value s e

  number-read :
      (x : j.Json) (name : String) (v : ℕ)
      → or_refuse (get_field_of_int j c inet x name true) ≡ done v
      → (n : ℕ) × HasNumber x name n × (v ≡ n % 2 ^ 32)
  unfolding get_field_of_int
  number-read x name v e =
      let (f, found, read) =
        typed-some true (j.object_get x name) _ v
          (given (get_field_of_int j c inet x name true) v e) in
      let (n, is, wraps) = wrapped (j.integer_value f) v read in (n, (f, found, is), wraps)

  ip6-read :
      (x : j.Json) (g : Field String) (ip6 : String × ℕ × Bool)
      → get_field_of_string j c inet x "ip6" false ≡ g
      → ip6_fields j c inet x g ≡ done ip6
      → HoldsIp6 x ip6
  unfolding ip6_fields get_field_of_string
  ip6-read x (field s) ip6 at e =
      let (v, read, ends) =
        >>=-eq-done (or_refuse (get_field_of_int j c inet x "ip6_prefix_len" true)) _ e in
      let (n, number, wraps) = number-read x "ip6_prefix_len" v read in
      let same : (strncpy 128 s, v % 2 ^ 8, true) ≡ ip6 = cc ends in
      let cut : v % 2 ^ 8 ≡ n % 2 ^ 8 = omega (arith, wraps) in
      inr (
        s,
        n,
        text-read x "ip6" false s at,
        number,
        sym same ∙ ap (λ l. (strncpy 128 s, l, true)) cut,
      )
  ip6-read x missing ip6 at e =
      let same : ("", 0, false) ≡ ip6 = cc e in
      inl (typed-missing false (j.object_get x "ip6") j.string_value at, sym same)
  ip6-read x wrong ip6 at e = absurd (cc e)

  cut_to_16 : (v n : ℕ) → v ≡ n % 2 ^ 32 → v % 2 ^ 16 ≡ n % 2 ^ 16
  cut_to_16 v n h = omega (arith, h)

  -- The interface as the reads of a section make it
  abbrev section_made : String → String → ℕ → String → String × ℕ × Bool → Mac → ℕ → SwitchCfgHostif
  section_made name ip mask gw ip6 mac fp = record {
    cfg_intf_name = strncpy 15 name;
    ip_addr = strncpy 16 ip;
    gw_ip_addr = strncpy 16 gw;
    net_mask_len = mask % 2 ^ 16;
    ip6_addr = ip6.0;
    cfg_ip6_prefix_len = ip6.1;
    cfg_ipv6_enable = ip6.2;
    cfg_mac = mac;
    cfg_fp_port = fp % 2 ^ 16;
  }

  section_made-HoldsSection :
      (x : j.Json) (name ip : String) (mask : ℕ) (gw : String) (ip6 : String × ℕ × Bool)
      (mac_str : String) (mac : Mac) (fp : ℕ)
      → or_refuse (get_field_of_string j c inet x "intf_name" true) ≡ done name
      → or_refuse (get_field_of_string j c inet x "ip" true) ≡ done ip
      → or_refuse (get_field_of_int j c inet x "net_mask_len" true) ≡ done mask
      → or_refuse (get_field_of_string j c inet x "gw_ip" true) ≡ done gw
      → ip6_fields j c inet x (get_field_of_string j c inet x "ip6" false) ≡ done ip6
      → or_refuse (get_field_of_string j c inet x "mac" true) ≡ done mac_str
      → or_assert (checked_mac (ether_aton c (codes (strncpy 32 mac_str)) zero_mac)) ≡ done mac
      → or_refuse (get_field_of_int j c inet x "fp_port" true) ≡ done fp
      → HoldsSection x (section_made name ip mask gw ip6 mac fp)
  section_made-HoldsSection x name ip mask gw ip6 mac_str mac fp n0 i0 m0 g0 six s0 a0 p0 =
      let (mask_n, mask_at, mask_wraps) = number-read x "net_mask_len" mask m0 in
      let (port_n, port_at, port_wraps) = number-read x "fp_port" fp p0 in
      record {
        name = (name, text-read x "intf_name" true name (given _ name n0), refl);
        ip = (ip, text-read x "ip" true ip (given _ ip i0), refl);
        mask = (mask_n, mask_at, cut_to_16 mask mask_n mask_wraps);
        gw = (gw, text-read x "gw_ip" true gw (given _ gw g0), refl);
        ip6 = ip6-read x (get_field_of_string j c inet x "ip6" false) ip6 refl six;
        mac = (
          mac_str,
          text-read x "mac" true mac_str (given _ mac_str s0),
          checked_mac-some _ mac (asserted _ mac a0),
        );
        port = (port_n, port_at, cut_to_16 fp port_n port_wraps);
      }

  -- A section that is accepted is stored field by field.
  pub switch_config_set_hostif-HoldsSection :
      (x : j.Json) (h : SwitchCfgHostif) (spill : ℕ)
      → switch_config_set_hostif j c inet x ≡ done (h, spill)
      → HoldsSection x h
  unfolding switch_config_set_hostif
  switch_config_set_hostif-HoldsSection x h spill e =
      let (name, n0, e1) =
        >>=-eq-done (or_refuse (get_field_of_string j c inet x "intf_name" true)) _ e in
      let (ip, i0, e2) = >>=-eq-done (or_refuse (get_field_of_string j c inet x "ip" true)) _ e1 in
      let (mask, m0, e3) =
        >>=-eq-done (or_refuse (get_field_of_int j c inet x "net_mask_len" true)) _ e2 in
      let (gw, g0, e4) =
        >>=-eq-done (or_refuse (get_field_of_string j c inet x "gw_ip" true)) _ e3 in
      let (ip6, six, e5) =
        >>=-eq-done (ip6_fields j c inet x (get_field_of_string j c inet x "ip6" false)) _ e4 in
      let (mac_str, s0, e6) =
        >>=-eq-done (or_refuse (get_field_of_string j c inet x "mac" true)) _ e5 in
      let (mac, a0, e7) =
        >>=-eq-done (or_assert (checked_mac (ether_aton c (codes (strncpy 32 mac_str)) zero_mac))) _
          e6 in
      let (fp, p0, e8) =
        >>=-eq-done (or_refuse (get_field_of_int j c inet x "fp_port" true)) _ e7 in
      let made = section_made name ip mask gw ip6 mac fp in
      let same = first-inj made h (fp / 2 ^ 16) spill e8 in
      subst (HoldsSection x) same
        (section_made-HoldsSection x name ip mask gw ip6 mac_str mac fp n0 i0 m0 g0 six s0 a0 p0)
