-- ===== src/Hostif.antt =====
-- The host interfaces (igw-h/init_setup/switchapi/switch_hostif.c and switch_config.h): what the
-- configuration file says of one, and the array `g_hostif_info_array` that is made from it.
pub mod Parse
pub mod Sources
pub mod Filters
pub mod Create
pub mod Rollback
pub mod Wiring
pub mod Array
pub mod Names
pub mod Events
pub mod Follows
mod Examples
use igw_p.Prelude.{
  ℕ, ◌+◌, ◌-◌, ◌*◌, ◌%◌, ◌^◌, Bool, true, false, List, [], ◌∷◌, Option, none, some, leb,
  if◌then◌else◌, length, replicate,
}
use Prim.Native.String.{String}
use igw_p.Ether.{Mac, ip6_get_linklocal, ipv6_addr_solict_mult_set}

-- `switch_cfg_hostif_t`
pub record SwitchCfgHostif : Type 0 where
  pub cfg_intf_name : String
  pub ip_addr : String
  pub gw_ip_addr : String
  pub net_mask_len : ℕ
  pub ip6_addr : String
  pub cfg_ip6_prefix_len : ℕ
  pub cfg_ipv6_enable : Bool
  pub cfg_mac : Mac
  pub cfg_fp_port : ℕ

-- `switch_hostif_t`; the IPv6 addresses are lists of sixteen bytes.
pub record Hostif : Type 0 where
  pub intf_name : String
  pub mac : Mac
  pub v4addr_len : ℕ
  pub v4addr_ip4 : ℕ
  pub ip6 : List ℕ
  pub ip6_mc : List ℕ
  pub ip6_linklocal : List ℕ
  pub ip6_linklocal_mc : List ℕ
  pub ip6_prefix_len : ℕ
  pub admin_state : Bool
  pub fake_fp_port : ℕ
  pub fp_port : ℕ
  pub dev_port : ℕ
  pub gw_ip : ℕ
  pub ipv6_enable : Bool

-- `inet_pton` of the C library for the two families, the IPv4 address in host order.
pub record Inet : Type 0 where
  pub pton4 : String → Option ℕ
  pub pton6 : String → Option (List ℕ)

abbrev pub hostif_array_size : ℕ
hostif_array_size = 128

-- `ip_atoi`: 0 for what is no address
unfoldable pub ip_atoi : Inet → String → ℕ
ip_atoi inet str = elim (inet.pton4 str) [ some ip ↦ ip | none ↦ 0 ]

-- `fp_port = (fake_fp_port - 1) * 4`, on `uint32_t`
pub front_panel_index : ℕ → ℕ
front_panel_index fake = (fake + 2 ^ 32 - 1) % 2 ^ 32 * 4 % 2 ^ 32

zero16 : List ℕ
zero16 = replicate 16 0

-- The assignments before `if (hostif->ipv6_enable)`; `dev_port` is filled in later.
unfoldable pub base_hostif : Inet → SwitchCfgHostif → Hostif
unfolding ip_atoi front_panel_index zero16
base_hostif inet c = record {
  intf_name = c.cfg_intf_name;
  mac = c.cfg_mac;
  v4addr_len = c.net_mask_len;
  v4addr_ip4 = ip_atoi inet c.ip_addr;
  ip6 = zero16;
  ip6_mc = zero16;
  ip6_linklocal = zero16;
  ip6_linklocal_mc = zero16;
  ip6_prefix_len = 0;
  admin_state = true;
  fake_fp_port = c.cfg_fp_port;
  fp_port = front_panel_index c.cfg_fp_port;
  dev_port = 0;
  gw_ip = ip_atoi inet c.gw_ip_addr;
  ipv6_enable = c.cfg_ipv6_enable;
}

with_ip6 : Hostif → ℕ → List ℕ → Hostif
unfolding ip6_get_linklocal ipv6_addr_solict_mult_set
with_ip6 h prefix_len addr = record h {
  ip6 = addr;
  ip6_prefix_len = prefix_len;
  ip6_mc = ipv6_addr_solict_mult_set addr;
  ip6_linklocal = ip6_get_linklocal h.mac;
  ip6_linklocal_mc = ipv6_addr_solict_mult_set (ip6_get_linklocal h.mac);
}

-- One turn of the loop of `parser_switch_config_to_hostif`; `none` is the failed `assert` on an
-- IPv6 address that does not parse.
unfoldable pub parse_hostif : Inet → SwitchCfgHostif → Option Hostif
unfolding base_hostif with_ip6
parse_hostif inet c =
    if c.cfg_ipv6_enable
    then elim (inet.pton6 c.ip6_addr) [
      | none ↦ none
      | some addr ↦ some (with_ip6 (base_hostif inet c) c.cfg_ip6_prefix_len addr)
    ]
    else some (base_hostif inet c)

unfoldable pub parse_hostifs : Inet → List SwitchCfgHostif → Option (List Hostif)
parse_hostifs inet [] = some []
parse_hostifs inet (c ∷ cs) = elim (parse_hostif inet c) [
  | none ↦ none
  | some h ↦ elim (parse_hostifs inet cs) [ none ↦ none | some hs ↦ some (h ∷ hs) ]
]

-- `none` is an `assert` that fails: too many interfaces, or a bad IPv6 address.
unfoldable pub parser_switch_config_to_hostif : Inet → List SwitchCfgHostif → Option (List Hostif)
unfolding parse_hostifs
parser_switch_config_to_hostif inet cfg =
    if leb (length cfg) hostif_array_size then parse_hostifs inet cfg else none
