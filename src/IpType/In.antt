-- ===== src/IpType/In.antt =====
-- The entries for packets from the internet (switch_igw_ip_type_table.c, the internet_in functions).
-- The arrays of 32-bit words are given as the bytes that a little-endian host copies.
use igw_p.Prelude.{ℕ, List, [], ◌∷◌, ◌++◌}
use igw_p.Ether.{get_mask_by_prefix_len}
use igw_p.IpType.{
  SwitchCfgIp, highest_pri, lowest_pri, egr_pipeline_1, egr_pipeline_3, vxlan_type_jd, tof_eip_in,
  tof_az_in, masked, masked_bytes, zero_key, ip_from_internet_in_hit, ip_from_internet_in_dl_hit,
  need_drop, Entry, add, for_both_vips,
}

abbrev ipv6_multicast : List ℕ
ipv6_multicast = 0xFF ∷ 0 ∷ 0 ∷ 0 ∷ 0 ∷ 0 ∷ 0 ∷ 0 ∷ 0 ∷ 0 ∷ 0 ∷ 0 ∷ 0 ∷ 0 ∷ 0 ∷ 0 ∷ []

abbrev ipv6_multicast_mask : List ℕ
ipv6_multicast_mask = 0xFF ∷ 0 ∷ 0 ∷ 0 ∷ 0 ∷ 0 ∷ 0 ∷ 0 ∷ 0 ∷ 0 ∷ 0 ∷ 0 ∷ 0 ∷ 0 ∷ 0 ∷ 0 ∷ []

abbrev ipv6_addr1 : List ℕ
ipv6_addr1 = 0 ∷ 0 ∷ 0 ∷ 0 ∷ 0 ∷ 0 ∷ 0 ∷ 0 ∷ 0 ∷ 0 ∷ 0 ∷ 0 ∷ 0 ∷ 0 ∷ 0 ∷ 0x01 ∷ []

abbrev ipv6_addr2 : List ℕ
ipv6_addr2 = 0 ∷ 0 ∷ 0 ∷ 0 ∷ 0 ∷ 0 ∷ 0 ∷ 0 ∷ 0 ∷ 0 ∷ 0 ∷ 0 ∷ 0 ∷ 0 ∷ 0 ∷ 0 ∷ []

abbrev ipv6_addr_mask : List ℕ
ipv6_addr_mask = 0 ∷ 0 ∷ 0 ∷ 0 ∷ 0 ∷ 0 ∷ 0 ∷ 0 ∷ 0 ∷ 0 ∷ 0 ∷ 0 ∷ 0 ∷ 0 ∷ 0 ∷ 0x01 ∷ []

-- `internet_in_entry_init`
unfoldable pub internet_in_entry_init : SwitchCfgIp → List Entry
internet_in_entry_init cfg =
    add (ip_from_internet_in_hit egr_pipeline_1) (record zero_key {
      priority = lowest_pri;
      ipv4_isvalid = masked 1 0x1;
      ipv4_dstaddr = masked 1 0x1;
      ipv6_isvalid = masked 0 0x1;
    })
    ++ add (ip_from_internet_in_hit egr_pipeline_3) (record zero_key {
      priority = lowest_pri;
      ipv4_isvalid = masked 1 0x1;
      ipv4_dstaddr = masked 0 0x1;
      ipv6_isvalid = masked 0 0x1;
    })
    ++ add need_drop (record zero_key {
      priority = highest_pri;
      ipv4_isvalid = masked 0 0x1;
      ipv6_isvalid = masked 1 0x1;
      ipv6_dstaddr = masked_bytes ipv6_multicast ipv6_multicast_mask;
    })
    ++ add (ip_from_internet_in_hit egr_pipeline_1) (record zero_key {
      priority = lowest_pri;
      ipv4_isvalid = masked 0 0x1;
      ipv6_isvalid = masked 1 0x1;
      ipv6_dstaddr = masked_bytes ipv6_addr1 ipv6_addr_mask;
    })
    ++ add (ip_from_internet_in_hit egr_pipeline_3) (record zero_key {
      priority = lowest_pri;
      ipv4_isvalid = masked 0 0x1;
      ipv6_isvalid = masked 1 0x1;
      ipv6_dstaddr = masked_bytes ipv6_addr2 ipv6_addr_mask;
    })

-- `internet_in_between_cluster_dl_entry_init`
unfoldable pub internet_in_between_cluster_dl_entry_init : SwitchCfgIp → List Entry
internet_in_between_cluster_dl_entry_init cfg =
    for_both_vips cfg (ip_from_internet_in_dl_hit egr_pipeline_1) (record zero_key {
      priority = highest_pri;
      ipv4_isvalid = masked 1 0x1;
      ipv4_dstaddr = masked cfg.vip 0xFFFFFFFF;
      vxlan_isvalid = masked 1 0x1;
      inner_ipv4_isvalid = masked 1 0x1;
      inner_ipv4_dstaddr = masked 1 0x1;
      inner_ipv6_isvalid = masked 0 0x1;
      vxlan_type = masked vxlan_type_jd 0x3;
      vxlan_tof = masked tof_az_in 0xF;
      ipv6_isvalid = masked 0 0x1;
    })
    ++ for_both_vips cfg (ip_from_internet_in_dl_hit egr_pipeline_3) (record zero_key {
      priority = highest_pri;
      ipv4_isvalid = masked 1 0x1;
      ipv4_dstaddr = masked cfg.vip 0xFFFFFFFF;
      vxlan_isvalid = masked 1 0x1;
      inner_ipv4_isvalid = masked 1 0x1;
      inner_ipv4_dstaddr = masked 0 0x1;
      inner_ipv6_isvalid = masked 0 0x1;
      vxlan_type = masked vxlan_type_jd 0x3;
      vxlan_tof = masked tof_az_in 0xF;
      ipv6_isvalid = masked 0 0x1;
    })
    ++ for_both_vips cfg (ip_from_internet_in_dl_hit egr_pipeline_1) (record zero_key {
      priority = highest_pri;
      ipv4_isvalid = masked 1 0x1;
      ipv4_dstaddr = masked cfg.vip 0xFFFFFFFF;
      vxlan_isvalid = masked 1 0x1;
      inner_ipv4_isvalid = masked 0 0x1;
      inner_ipv6_isvalid = masked 1 0x1;
      inner_ipv6_dstaddr = masked 1 0x1;
      vxlan_type = masked vxlan_type_jd 0x3;
      vxlan_tof = masked tof_az_in 0xF;
      ipv6_isvalid = masked 0 0x1;
    })
    ++ for_both_vips cfg (ip_from_internet_in_dl_hit egr_pipeline_3) (record zero_key {
      priority = highest_pri;
      ipv4_isvalid = masked 1 0x1;
      ipv4_dstaddr = masked cfg.vip 0xFFFFFFFF;
      vxlan_isvalid = masked 1 0x1;
      inner_ipv4_isvalid = masked 0 0x1;
      inner_ipv6_isvalid = masked 1 0x1;
      inner_ipv6_dstaddr = masked 0 0x1;
      vxlan_type = masked vxlan_type_jd 0x3;
      vxlan_tof = masked tof_az_in 0xF;
      ipv6_isvalid = masked 0 0x1;
    })

-- `internet_in_within_cluster_dl_entry_init`
unfoldable pub internet_in_within_cluster_dl_entry_init : SwitchCfgIp → List Entry
internet_in_within_cluster_dl_entry_init cfg =
    add (ip_from_internet_in_dl_hit egr_pipeline_1) (record zero_key {
      priority = highest_pri;
      ipv4_isvalid = masked 1 0x1;
      ipv4_dstaddr = masked cfg.dl_ip (get_mask_by_prefix_len cfg.dl_ip_prefix_len);
      vxlan_isvalid = masked 1 0x1;
      inner_ipv4_isvalid = masked 1 0x1;
      inner_ipv4_dstaddr = masked 1 0x1;
      inner_ipv6_isvalid = masked 0 0x1;
      vxlan_type = masked vxlan_type_jd 0x3;
      vxlan_tof = masked tof_eip_in 0xF;
      ipv6_isvalid = masked 0 0x1;
    })
    ++ add (ip_from_internet_in_dl_hit egr_pipeline_3) (record zero_key {
      priority = highest_pri;
      ipv4_isvalid = masked 1 0x1;
      ipv4_dstaddr = masked cfg.dl_ip (get_mask_by_prefix_len cfg.dl_ip_prefix_len);
      vxlan_isvalid = masked 1 0x1;
      inner_ipv4_isvalid = masked 1 0x1;
      inner_ipv4_dstaddr = masked 0 0x1;
      inner_ipv6_isvalid = masked 0 0x1;
      vxlan_type = masked vxlan_type_jd 0x3;
      vxlan_tof = masked tof_eip_in 0xF;
      ipv6_isvalid = masked 0 0x1;
    })
    ++ add (ip_from_internet_in_dl_hit egr_pipeline_1) (record zero_key {
      priority = highest_pri;
      ipv4_isvalid = masked 1 0x1;
      ipv4_dstaddr = masked cfg.dl_ip (get_mask_by_prefix_len cfg.dl_ip_prefix_len);
      vxlan_isvalid = masked 1 0x1;
      inner_ipv4_isvalid = masked 0 0x1;
      inner_ipv6_isvalid = masked 1 0x1;
      inner_ipv6_dstaddr = masked 1 0x1;
      vxlan_type = masked vxlan_type_jd 0x3;
      vxlan_tof = masked tof_eip_in 0xF;
      ipv6_isvalid = masked 0 0x1;
    })
    ++ add (ip_from_internet_in_dl_hit egr_pipeline_3) (record zero_key {
      priority = highest_pri;
      ipv4_isvalid = masked 1 0x1;
      ipv4_dstaddr = masked cfg.dl_ip (get_mask_by_prefix_len cfg.dl_ip_prefix_len);
      vxlan_isvalid = masked 1 0x1;
      inner_ipv4_isvalid = masked 0 0x1;
      inner_ipv6_isvalid = masked 1 0x1;
      inner_ipv6_dstaddr = masked 0 0x1;
      vxlan_type = masked vxlan_type_jd 0x3;
      vxlan_tof = masked tof_eip_in 0xF;
      ipv6_isvalid = masked 0 0x1;
    })
