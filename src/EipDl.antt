-- ===== src/EipDl.antt =====
-- The members that elastic addresses are spread over (igw-h/init_setup/switchapi/switch_eip_dl.c):
-- one member for each address of the direct-link subnet, at most 120 of them, and the group of all.
--
-- The driver's tables are kept as the entries they are given; the caller asserts that each addition
-- succeeds. `htonl` and `ntohl` cancel, as the operations between them are bitwise.
pub mod Members
use igw_p.Prelude.{
  ℕ, zero, suc, ◌+◌, ◌-◌, ◌%◌, ◌^◌, Bool, true, List, [], ◌∷◌, leb, if◌then◌else◌, bit_and, bit_or,
  map, length, replicate,
}
use igw_p.Ether.{get_mask_by_prefix_len}
use igw_p.IpType.{SwitchCfgIp}

abbrev pub max_dl_ip_num : ℕ
max_dl_ip_num = 120

abbrev pub eip_in_selector_group_id : ℕ
eip_in_selector_group_id = 1

abbrev pub eip_out_selector_group_id : ℕ
eip_out_selector_group_id = 1

-- `eipInActionProfileKey` with its data, and the twin of the way out
pub record Member : Type 0 where
  pub memberid : ℕ
  pub member_ip : ℕ

-- The arguments of `eip_in_selector_entry_add`, and of its twin
pub record Selector : Type 0 where
  pub selector_groupid : ℕ
  pub max_group_size : ℕ
  pub memberid_val : List ℕ
  pub memberstatus_val : List Bool

-- The action profile, its selector, and the group that redirection is given
pub record EipTables : Type 0 where
  pub profile : List Member
  pub selector : Selector
  pub redirect : ℕ

unfoldable pub first_ip : SwitchCfgIp → ℕ
first_ip cfg = bit_and cfg.dl_ip (get_mask_by_prefix_len cfg.dl_ip_prefix_len)

unfoldable pub last_ip : SwitchCfgIp → ℕ
last_ip cfg = bit_or cfg.dl_ip (2 ^ 32 - 1 - get_mask_by_prefix_len cfg.dl_ip_prefix_len)

-- The loop over the addresses; `room` counts what `member_nums` lacks of its bound, where the loop
-- breaks. `++dl_ip` wraps at 32 bits.
unfoldable pub dl_loop : ℕ → ℕ → ℕ → ℕ → List Member
dl_loop zero dl_ip last i = []
dl_loop (suc room) dl_ip last i =
    let rest = dl_loop room ((dl_ip + 1) % 2 ^ 32) last (i + 1) in
    if leb dl_ip last then record { memberid = i + 1; member_ip = dl_ip } ∷ rest else []

-- The second loop: `memberid_val[i] = i + 1`, from `i` on
unfoldable pub member_ids : ℕ → ℕ → List ℕ
member_ids zero i = []
member_ids (suc n) i = (i + 1) ∷ member_ids n (i + 1)

unfoldable pub ecmp_dl_table : ℕ → SwitchCfgIp → EipTables
unfolding dl_loop member_ids first_ip last_ip
ecmp_dl_table group cfg =
    let members = dl_loop max_dl_ip_num (first_ip cfg) (last_ip cfg) 0 in
    let member_nums = length members in
    record {
      profile = members;
      selector = record {
        selector_groupid = group;
        max_group_size = member_nums;
        memberid_val = member_ids member_nums 0;
        memberstatus_val = replicate member_nums true;
      };
      redirect = group;
    }

unfoldable pub eip_in_ecmp_dl_table_init : SwitchCfgIp → EipTables
unfolding ecmp_dl_table
eip_in_ecmp_dl_table_init cfg = ecmp_dl_table eip_in_selector_group_id cfg

unfoldable pub eip_out_ecmp_dl_table_init : SwitchCfgIp → EipTables
unfolding ecmp_dl_table
eip_out_ecmp_dl_table_init cfg = ecmp_dl_table eip_out_selector_group_id cfg
