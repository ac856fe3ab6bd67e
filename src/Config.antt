-- ===== src/Config.antt =====
-- The configuration file (igw-h/init_setup/switchapi/switch_config.c), with JSON and the C library as
-- parameters.
--
-- json_int_t is its 64-bit pattern, of which `get_field_of_int` keeps the low 32 bits. It stores them
-- through an `int *` also where the field is narrower: what goes past the field is overwritten or
-- never read, but for `fp_port`, the last field of a section, whose upper half (the spill) of the
-- 128th section lands in the low half of `hostif_num` (little-endian, with the usual alignment).
-- `strncpy` cuts ASCII text.
pub mod Steps
pub mod Section
pub mod Valid
pub mod Sections
pub mod Examples
use igw_p.Prelude.{
  ℕ, zero, suc, ◌+◌, ◌*◌, ◌/◌, ◌%◌, ◌^◌, Bool, true, false, ◌||◌, Option, none, some, List, [], ◌∷◌,
  ◌==◌, ltb, leb, not, if◌then◌else◌, length,
}
use Prim.Native.String.{String, slice}
use igw_p.Ether.{zero_mac}
use igw_p.Ether.Aton.{Libc, codes, ether_aton}
use igw_p.Hostif.{SwitchCfgHostif, Inet, ip_atoi}
use igw_p.Config.Steps.{Outcome, refused, aborted, done, ◌>>=◌, ◌>>◌, guard}

-- What of the JSON library is used: the file's root, `json_object_get`, and the `json_is_` tests
-- together with the value behind them.
pub record Jansson : Type 1 where
  pub Json : Type 0
  pub load_file : Option Json
  pub is_object : Json → Bool
  pub object_get : Json → String → Option Json
  pub string_value : Json → Option String
  pub integer_value : Json → Option ℕ
  pub array_items : Json → Option (List Json)

-- `switch_config_t`
pub record SwitchConfig : Type 0 where
  pub hostifs : List SwitchCfgHostif
  pub hostif_num : ℕ
  pub dl_ip : ℕ
  pub dl_ip_prefix_len : ℕ
  pub mgt_ip : ℕ
  pub vip : ℕ
  pub shared_bw_vip : ℕ
  pub backup_vip : ℕ
  pub port_speed : ℕ
  pub hardware_model : ℕ
  pub fec_model : ℕ

-- `memset(&switch_cfg, 0, ..)`
abbrev pub zero_config : SwitchConfig
zero_config = record {
  hostifs = [];
  hostif_num = 0;
  dl_ip = 0;
  dl_ip_prefix_len = 0;
  mgt_ip = 0;
  vip = 0;
  shared_bw_vip = 0;
  backup_vip = 0;
  port_speed = 0;
  hardware_model = 0;
  fec_model = 0;
}

-- What `get_field_of_string` and `get_field_of_int` return: 0 with the value, 1, or -1
pub data Field {ℓ} (A : Type ℓ) : Type ℓ where
  field : A → Field A
  missing : Field A
  wrong : Field A

abbrev pub hostifs_size : ℕ
hostifs_size = 128

abbrev pub strncpy : ℕ → String → String
strncpy n s = slice s 0 n

-- `if (res == 0) .. else return -1`
abbrev pub or_refuse {ℓ} : {A : Type ℓ} → Field A → Outcome A
or_refuse (field a) = done a
or_refuse missing = refused
or_refuse wrong = refused

abbrev pub or_assert {ℓ} : {A : Type ℓ} → Option A → Outcome A
or_assert (some a) = done a
or_assert none = aborted

-- `assert(ether_aton(..) == 0)`
abbrev pub checked_mac {ℓ} : {A : Type ℓ} → A × Bool → Option A
checked_mac (a, true) = some a
checked_mac (a, false) = none

abbrev pub or_return {ℓ} : {A : Type ℓ} → Option A → Outcome A
or_return (some a) = done a
or_return none = refused

-- Behind a lookup that found nothing, or something of the kind that is wanted or not
unfoldable pub typed {ℓ κ} : {J : Type κ} {A : Type ℓ} → Bool → Option J → (J → Option A) → Field A
typed required none value = if required then wrong else missing
typed required (some f) value = elim (value f) [ none ↦ wrong | some a ↦ field a ]

module _ (j : Jansson) (c : Libc) (inet : Inet) where
  unfoldable pub get_field_of_string : j.Json → String → Bool → Field String
  unfolding typed
  get_field_of_string section name required =
      typed required (j.object_get section name) j.string_value

  abbrev int_value : j.Json → Option ℕ
  int_value f = elim (j.integer_value f) [ none ↦ none | some v ↦ some (v % 2 ^ 32) ]

  unfoldable pub get_field_of_int : j.Json → String → Bool → Field ℕ
  unfolding typed
  get_field_of_int section name required = typed required (j.object_get section name) int_value

  -- The optional IPv6 address with its prefix length, and `ipv6_enable`
  unfoldable pub ip6_fields : j.Json → Field String → Outcome (String × ℕ × Bool)
  unfolding get_field_of_int
  ip6_fields section (field s) = do
    len ← or_refuse (get_field_of_int section "ip6_prefix_len" true)
    done (strncpy 128 s, len % 2 ^ 8, true)
  ip6_fields section missing = done ("", 0, false)
  ip6_fields section wrong = refused

  -- One section, with what is stored past its end
  unfoldable pub switch_config_set_hostif : j.Json → Outcome (SwitchCfgHostif × ℕ)
  unfolding get_field_of_string get_field_of_int ip6_fields ether_aton
  switch_config_set_hostif section = do
    name ← or_refuse (get_field_of_string section "intf_name" true)
    ip ← or_refuse (get_field_of_string section "ip" true)
    mask_len ← or_refuse (get_field_of_int section "net_mask_len" true)
    gw ← or_refuse (get_field_of_string section "gw_ip" true)
    (ip6, ip6_len, ip6_on) ← ip6_fields section (get_field_of_string section "ip6" false)
    mac_str ← or_refuse (get_field_of_string section "mac" true)
    mac ← or_assert (checked_mac (ether_aton c (codes (strncpy 32 mac_str)) zero_mac))
    fp ← or_refuse (get_field_of_int section "fp_port" true)
    done (
      record {
        cfg_intf_name = strncpy 15 name;
        ip_addr = strncpy 16 ip;
        gw_ip_addr = strncpy 16 gw;
        net_mask_len = mask_len % 2 ^ 16;
        ip6_addr = ip6;
        cfg_ip6_prefix_len = ip6_len;
        cfg_ipv6_enable = ip6_on;
        cfg_mac = mac;
        cfg_fp_port = fp % 2 ^ 16;
      },
      fp / 2 ^ 16,
    )

  -- `hostif_num` behind the section with number `i`
  unfoldable pub spill_into : ℕ → ℕ → ℕ → ℕ
  spill_into i spill num = if i == 127 then num / 2 ^ 16 * 2 ^ 16 + spill else num

  -- The loop from section `i` on
  unfoldable pub set_sections : List j.Json → ℕ → ℕ → Outcome (List SwitchCfgHostif × ℕ)
  unfolding switch_config_set_hostif spill_into
  set_sections [] i num = done ([], num)
  set_sections (x ∷ xs) i num = do
    (h, spill) ← switch_config_set_hostif x
    (hs, num') ← set_sections xs (i + 1) (spill_into i spill num)
    done (h ∷ hs, num')

  unfoldable pub switch_config_set_hostifs : SwitchConfig → j.Json → Outcome SwitchConfig
  unfolding set_sections
  switch_config_set_hostifs cfg root = do
    section ← or_return (j.object_get root "hostifs")
    items ← or_return (j.array_items section)
    guard (not (length items == 0 || ltb hostifs_size (length items)))
    (hs, num) ← set_sections items 0 (length items)
    done (record cfg { hostifs = hs; hostif_num = num })

  abbrev address : ℕ → j.Json → String → Outcome ℕ
  address n section name = do
    s ← or_refuse (get_field_of_string section name true)
    done (ip_atoi inet (strncpy n s))

  -- A backup address that is missing or no string is 0.
  unfoldable pub backup_address : Field String → ℕ
  backup_address (field s) = ip_atoi inet (strncpy 16 s)
  backup_address missing = 0
  backup_address wrong = 0

  abbrev short_value : j.Json → String → Outcome ℕ
  short_value section name = do
    v ← or_refuse (get_field_of_int section name true)
    done (v % 2 ^ 16)

  unfoldable pub switch_config_set_higw : SwitchConfig → j.Json → Outcome SwitchConfig
  unfolding get_field_of_string get_field_of_int backup_address
  switch_config_set_higw cfg root = do
    section ← or_return (j.object_get root "higw")
    guard (j.is_object section)
    mgt ← address 16 section "mgt_ip"
    vip ← address 16 section "vip"
    shared ← address 16 section "shared_bandwith_vip"
    let backup = backup_address (get_field_of_string section "backup_vip" true)
    guard (not (vip == 0 || mgt == 0 || shared == 0))
    speed ← short_value section "port_speed"
    guard (speed == 40 || speed == 100)
    model ← short_value section "Hardware"
    guard (model == 1 || model == 2)
    fec ← short_value section "FEC"
    guard (fec == 0 || fec == 1 || fec == 2)
    done (record cfg {
      mgt_ip = mgt;
      vip = vip;
      shared_bw_vip = shared;
      backup_vip = backup;
      port_speed = speed;
      hardware_model = model;
      fec_model = fec;
    })

  unfoldable pub switch_config_set_redirectip : SwitchConfig → j.Json → Outcome SwitchConfig
  unfolding get_field_of_string get_field_of_int
  switch_config_set_redirectip cfg root = do
    section ← or_return (j.object_get root "RedirectIP")
    guard (j.is_object section)
    ip ← address 16 section "addr_prefix"
    guard (not (ip == 0))
    len ← or_refuse (get_field_of_int section "prefix_len" true)
    guard (not (ltb len 24 || ltb 32 len))
    done (record cfg { dl_ip = ip; dl_ip_prefix_len = len })

  unfoldable pub switch_config_init : Outcome SwitchConfig
  unfolding switch_config_set_higw switch_config_set_redirectip switch_config_set_hostifs
  switch_config_init = do
    root ← or_return j.load_file
    guard (j.is_object root)
    higw ← switch_config_set_higw zero_config root
    redirect ← switch_config_set_redirectip higw root
    switch_config_set_hostifs redirect root
