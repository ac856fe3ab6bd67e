-- ===== src/IpType/Out.antt =====
-- The entries for packets towards the internet (switch_igw_ip_type_table.c, the internet_out functions).
use igw_p.Prelude.{List, ◌++◌}
use igw_p.Ether.{get_mask_by_prefix_len}
use igw_p.IpType.{
  SwitchCfgIp, highest_pri, egr_pipeline_0, egr_pipeline_2, vxlan_type_std, vxlan_type_jd,
  tof_eip_out, tof_az_out, masked, zero_key, ip_from_internet_out_hit, ip_from_internet_out_dl_hit,
  Entry, add, for_both_vips,
}

-- `internet_out_entry_init`
unfoldable pub internet_out_entry_init : SwitchCfgIp → List Entry
internet_out_entry_init cfg =
    for_both_vips cfg (ip_from_internet_out_hit egr_pipeline_2) (record zero_key {
      priority = highest_pri;
      ipv4_isvalid = masked 1 0x1;
      ipv4_dstaddr = masked cfg.vip 0xFFFFFFFF;
      vxlan_isvalid = masked 1 0x1;
      inner_ipv4_isvalid = masked 1 0x1;
      inner_ipv6_isvalid = masked 0 0x1;
      vxlan_type = masked vxlan_type_std 0x3;
      vxlan_tof = masked 0 0xF;
      ipv6_isvalid = masked 0 0x1;
    })
    ++ for_both_vips cfg (ip_from_internet_out_hit egr_pipeline_0) (record zero_key {
      priority = highest_pri;
      ipv4_isvalid = masked 1 0x1;
      ipv4_dstaddr = masked cfg.vip 0xFFFFFFFF;
      vxlan_isvalid = masked 1 0x1;
      inner_ipv4_isvalid = masked 0 0x1;
      inner_ipv6_isvalid = masked 1 0x1;
      inner_ipv6_srcaddr = masked 1 0x1;
      vxlan_type = masked vxlan_type_std 0x3;
      vxlan_tof = masked 0 0xF;
      ipv6_isvalid = masked 0 0x1;
    })
    ++ for_both_vips cfg (ip_from_internet_out_hit egr_pipeline_2) (record zero_key {
      priority = highest_pri;
      ipv4_isvalid = masked 1 0x1;
      ipv4_dstaddr = masked cfg.vip 0xFFFFFFFF;
      vxlan_isvalid = masked 1 0x1;
      inner_ipv4_isvalid = masked 0 0x1;
      inner_ipv6_isvalid = masked 1 0x1;
      inner_ipv6_srcaddr = masked 0 0x1;
      vxlan_type = masked vxlan_type_std 0x3;
      vxlan_tof = masked 0 0xF;
      ipv6_isvalid = masked 0 0x1;
    })

-- `internet_out_between_cluster_dl_entry_init`
unfoldable pub internet_out_between_cluster_dl_entry_init : SwitchCfgIp → List Entry
internet_out_between_cluster_dl_entry_init cfg =
    for_both_vips cfg (ip_from_internet_out_dl_hit egr_pipeline_2) (record zero_key {
      priority = highest_pri;
      ipv4_isvalid = masked 1 0x1;
      ipv4_dstaddr = masked cfg.vip 0xFFFFFFFF;
      vxlan_isvalid = masked 1 0x1;
      inner_ipv4_isvalid = masked 1 0x1;
      inner_ipv6_isvalid = masked 0 0x1;
      vxlan_type = masked vxlan_type_jd 0x3;
      vxlan_tof = masked tof_az_out 0xF;
      ipv6_isvalid = masked 0 0x1;
    })
    ++ for_both_vips cfg (ip_from_internet_out_dl_hit egr_pipeline_0) (record zero_key {
      priority = highest_pri;
      ipv4_isvalid = masked 1 0x1;
      ipv4_dstaddr = masked cfg.vip 0xFFFFFFFF;
      vxlan_isvalid = masked 1 0x1;
      inner_ipv4_isvalid = masked 0 0x1;
      inner_ipv6_isvalid = masked 1 0x1;
      inner_ipv6_srcaddr = masked 1 0x1;
      vxlan_type = masked vxlan_type_jd 0x3;
      vxlan_tof = masked tof_az_out 0xF;
      ipv6_isvalid = masked 0 0x1;
    })
    ++ for_both_vips cfg (ip_from_internet_out_dl_hit egr_pipeline_2) (record zero_key {
      priority = highest_pri;
      ipv4_isvalid = masked 1 0x1;
      ipv4_dstaddr = masked cfg.vip 0xFFFFFFFF;
      vxlan_isvalid = masked 1 0x1;
      inner_ipv4_isvalid = masked 0 0x1;
      inner_ipv6_isvalid = masked 1 0x1;
      inner_ipv6_srcaddr = masked 0 0x1;
      vxlan_type = masked vxlan_type_jd 0x3;
      vxlan_tof = masked tof_az_out 0xF;
      ipv6_isvalid = masked 0 0x1;
    })

-- `internet_out_within_cluster_dl_entry_init`
unfoldable pub internet_out_within_cluster_dl_entry_init : SwitchCfgIp → List Entry
internet_out_within_cluster_dl_entry_init cfg =
    add (ip_from_internet_out_dl_hit egr_pipeline_2) (record zero_key {
      priority = highest_pri;
      ipv4_isvalid = masked 1 0x1;
      ipv4_dstaddr = masked cfg.dl_ip (get_mask_by_prefix_len cfg.dl_ip_prefix_len);
      vxlan_isvalid = masked 1 0x1;
      inner_ipv4_isvalid = masked 1 0x1;
      inner_ipv6_isvalid = masked 0 0;
      vxlan_type = masked vxlan_type_jd 0x3;
      vxlan_tof = masked tof_eip_out 0xF;
      ipv6_isvalid = masked 0 0x1;
    })
    ++ add (ip_from_internet_out_dl_hit egr_pipeline_0) (record zero_key {
      priority = highest_pri;
      ipv4_isvalid = masked 1 0x1;
      ipv4_dstaddr = masked cfg.dl_ip (get_mask_by_prefix_len cfg.dl_ip_prefix_len);
      vxlan_isvalid = masked 1 0x1;
      inner_ipv4_isvalid = masked 0 0;
      inner_ipv6_isvalid = masked 1 0x1;
      inner_ipv6_srcaddr = masked 1 0x1;
      vxlan_type = masked vxlan_type_jd 0x3;
      vxlan_tof = masked tof_eip_out 0xF;
      ipv6_isvalid = masked 0 0x1;
    })
    ++ add (ip_from_internet_out_dl_hit egr_pipeline_2) (record zero_key {
      priority = highest_pri;
      ipv4_isvalid = masked 1 0x1;
      ipv4_dstaddr = masked cfg.dl_ip (get_mask_by_prefix_len cfg.dl_ip_prefix_len);
      vxlan_isvalid = masked 1 0x1;
      inner_ipv4_isvalid = masked 0 0;
      inner_ipv6_isvalid = masked 1 0x1;
      inner_ipv6_srcaddr = masked 0 0x1;
      vxlan_type = masked vxlan_type_jd 0x3;
      vxlan_tof = masked tof_eip_out 0xF;
      ipv6_isvalid = masked 0 0x1;
    })
