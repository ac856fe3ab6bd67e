-- ===== src/Examples.antt =====
-- Small inputs for the tables that carry no example of their own.
use igw_p.Prelude.{
  ℕ, ◌+◌, ◌-◌, ◌^◌, ◌<◌, true, ◌&&◌, none, some, ◌≡◌, refl, inl, arith, if◌then◌else◌, get_elem?,
  replicate, ltb, leb,
}
use igw_p.Ether.{get_mask_by_prefix_len}
use igw_p.IpType.{
  SwitchCfgIp, Entry, Packet, passes, ip_from_internet_in_hit, egr_pipeline_1, zero_key, masked,
  lowest_pri, for_both_vips,
}
use igw_p.IpType.Table.{igw_ip_type_table_init}
use igw_p.IpType.Out.{
  internet_out_entry_init, internet_out_between_cluster_dl_entry_init,
  internet_out_within_cluster_dl_entry_init,
}
use igw_p.IpType.In.{
  internet_in_entry_init, internet_in_between_cluster_dl_entry_init,
  internet_in_within_cluster_dl_entry_init,
}
use igw_p.IpType.Agree.{igw_ip_type_table_init-agree}
use igw_p.EipDl.{max_dl_ip_num, first_ip, last_ip, ecmp_dl_table}
use igw_p.EipDl.Members.{ecmp_dl_table-profile}

-- Entries that are their own keys
abbrev itself : ℕ → ℕ
itself n = n

-- The direct-link subnet 0.0.1.0/24
abbrev config : SwitchCfgIp
config = record { vip = 5; backup_vip = 0; dl_ip = 260; dl_ip_prefix_len = 24 }

abbrev first_entry : Entry
first_entry = record {
  key = record zero_key {
    priority = lowest_pri;
    ipv4_isvalid = masked 1 0x1;
    ipv4_dstaddr = masked 1 0x1;
    ipv6_isvalid = masked 0 0x1;
  };
  action = ip_from_internet_in_hit egr_pipeline_1;
}

first_entry-in_table : get_elem? (igw_ip_type_table_init config) 9 ≡ some first_entry
unfolding igw_ip_type_table_init internet_out_entry_init internet_out_between_cluster_dl_entry_init
    internet_out_within_cluster_dl_entry_init internet_in_entry_init
    internet_in_between_cluster_dl_entry_init internet_in_within_cluster_dl_entry_init for_both_vips
first_entry-in_table = refl

abbrev packet : Packet
packet = record {
  p_ipv4_isvalid = 1;
  p_ipv4_dstaddr = 7;
  p_vxlan_isvalid = 0;
  p_inner_ipv4_isvalid = 0;
  p_inner_ipv4_dstaddr = 0;
  p_inner_ipv6_isvalid = 0;
  p_inner_ipv6_dstaddr = 0;
  p_inner_ipv6_srcaddr = 0;
  p_vxlan_type = 0;
  p_vxlan_tof = 0;
  p_ipv6_isvalid = 0;
  p_ipv6_dstaddr = replicate 16 0;
}

packet-passes : passes packet first_entry.key ≡ true
unfolding passes
packet-passes = refl

igw_ip_type_table_init-agree_example : first_entry.action ≡ first_entry.action
igw_ip_type_table_init-agree_example =
    igw_ip_type_table_init-agree config 9 9 first_entry first_entry packet first_entry-in_table
      first_entry-in_table (inl refl) refl packet-passes packet-passes

config-last_ip : last_ip config ≡ 511
unfolding last_ip get_mask_by_prefix_len
config-last_ip = refl

ecmp_dl_table-profile_example : get_elem? (ecmp_dl_table 1 config).profile 7 ≡ (
    if ltb 7 max_dl_ip_num && leb (first_ip config + 7) (last_ip config)
    then some (record { memberid = 7 + 1; member_ip = first_ip config + 7 })
    else none)
ecmp_dl_table-profile_example = ecmp_dl_table-profile 1 config 7 (omega (arith, config-last_ip))

-- The last eight addresses of all, 255.255.255.248/29
abbrev top_config : SwitchCfgIp
top_config = record { vip = 5; backup_vip = 0; dl_ip = 4294967288; dl_ip_prefix_len = 29 }

top_config-last_ip : last_ip top_config ≡ 2 ^ 32 - 1
unfolding last_ip get_mask_by_prefix_len
top_config-last_ip = refl

top_config-first_ip : first_ip top_config < 2 ^ 32
unfolding first_ip get_mask_by_prefix_len
top_config-first_ip = omega arith
