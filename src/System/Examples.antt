-- ===== src/System/Examples.antt =====
-- A run of `main` over drivers that keep what they are told, and one whose two addresses are the same.
use igw_p.Prelude.{
  ℕ, Bool, true, false, Option, none, some, List, [], ◌∷◌, ◌≡◌, refl, arith, ==_iff, ◌==◌, length,
  get_elem?,
}
use igw_p.Ether.{get_mask_by_prefix_len}
use igw_p.Ether.Examples.{libc, read_number}
use igw_p.Config.Examples.{file_of, inet, inet_apart, config, accepted, same_vips}
use igw_p.Config.{switch_config_init}
use igw_p.Hostif.{
  SwitchCfgHostif, ip_atoi, base_hostif, parse_hostif, parser_switch_config_to_hostif,
}
use igw_p.Hostif.Filters.{switch_knet_rx_filter_create, switch_knet_tx_filter_create}
use igw_p.Hostif.Create.{
  switch_pkt_hostif_create, switch_api_hostif_create, mirror_hostif_create, create_hostif,
}
use igw_p.Port.{switch_api_port_add, switch_device_init}
use igw_p.Device.{
  device_context, hostif_array, switch_device_create, switch_pktdriver_knet_device_add,
}
use igw_p.Device.Examples.{granted, queries, cpuif, stray}
use igw_p.Attributes.{attribute_steps, run_attribute_steps}
use igw_p.Attributes.Examples.{keeper, fresh}
use igw_p.Bfrt.Store.{empty, store, store_read, store-IsFaithful}
use igw_p.Bfrt.Setup.{run}
use igw_p.Bfrt.Keys.{is_key}
use igw_p.Bfrt.Startup.{start_up, eip_ecmp_dl_steps}
use igw_p.Bfrt.JdVxlan.{eip_in_jd_vxlan_table_init, eip_out_jd_vxlan_table_init}
use igw_p.Bfrt.Ecmp.{ecmp_group02_steps}
use igw_p.Bfrt.Mirror.{mirror_table_init, meter_drop_table_init, acl_table_init}
use igw_p.Bfrt.IpTypeTable.{ip_type_steps}
use igw_p.Bfrt.PacketTable.{protocol_packet_steps}
use igw_p.PacketTable.{process_protocol_packet_table_init}
use igw_p.IpType.{for_both_vips}
use native.Mathlib.Decide.{ℕ_discrete}
use igw_p.Neigh.{neigh_system_init, hostif_array_to_mac_entry_table}
use igw_p.Route.{route_system_init, add_gateways, gateway, get_member_index_from_port}
use igw_p.MacRewrite.Tables.{mac_rewrite_table_setup}
use igw_p.System.{SetUp, switchlink_start, main}
use igw_p.System.Delivers.{Delivers, main_same_vip}

abbrev set_up : Option (SetUp store keeper)
set_up =
    main (file_of 2) libc inet_apart queries stray cpuif granted (granted 9) store keeper
      (λ name. 7) (λ s. some s) empty fresh

abbrev has_sections : ℕ → Option (SetUp store keeper) → Bool
has_sections count none = false
has_sections count (some u) = length u.device.device_cfg.hostifs == count

taken :
    (count : ℕ) (o : Option (SetUp store keeper))
    → has_sections count o ≡ true
    → (u : SetUp store keeper) × (o ≡ some u) × (length u.device.device_cfg.hostifs ≡ count)
taken count none h = absurd (cc h)
taken count (some u) h = (u, refl, (==_iff (length u.device.device_cfg.hostifs) count).0 h)

runs : has_sections 2 set_up ≡ true
unfolding main switch_device_create switch_config_init ip_atoi read_number device_context
    switch_device_init hostif_array create_hostif switch_pktdriver_knet_device_add
    switch_api_port_add parser_switch_config_to_hostif parse_hostif base_hostif
    switch_api_hostif_create switch_pkt_hostif_create switch_knet_rx_filter_create
    switch_knet_tx_filter_create mirror_hostif_create run start_up is_key for_both_vips ℕ_discrete
    get_mask_by_prefix_len mirror_table_init ip_type_steps eip_in_jd_vxlan_table_init
    eip_out_jd_vxlan_table_init eip_ecmp_dl_steps meter_drop_table_init acl_table_init
    ecmp_group02_steps run_attribute_steps attribute_steps protocol_packet_steps
    process_protocol_packet_table_init switchlink_start mac_rewrite_table_setup neigh_system_init
    hostif_array_to_mac_entry_table route_system_init add_gateways gateway
    get_member_index_from_port
runs = refl

abbrev up : (u : SetUp store keeper) × (set_up ≡ some u) × (length u.device.device_cfg.hostifs ≡ 2)
up = taken 2 set_up runs

second :
    (cs : List SwitchCfgHostif) → length cs ≡ 2 → (c : SwitchCfgHostif) × (get_elem? cs 1 ≡ some c)
second [] h = absurd (cc h)
second (c ∷ []) h = absurd (omega (arith, h))
second (c ∷ c' ∷ cs) h = (c', refl)

abbrev section_of : (c : SwitchCfgHostif) × (get_elem? up.0.device.device_cfg.hostifs 1 ≡ some c)
section_of = second up.0.device.device_cfg.hostifs up.2

main_same_vip_example :
    main
      (file_of 128)
      libc
      inet
      queries
      stray
      cpuif
      granted
      (granted 9)
      store
      keeper
      (λ name. 7)
      (λ s. some s)
      empty
      fresh
    ≡ none
main_same_vip_example =
    main_same_vip (file_of 128) libc inet queries stray cpuif granted (granted 9) store keeper
      (λ name. 7) (λ s. some s) store_read config empty fresh store-IsFaithful accepted same_vips
