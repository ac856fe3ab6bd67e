-- ===== src/Device/Examples.antt =====
-- A device with two host interfaces, and one whose configuration has 128 sections.
use igw_p.Prelude.{
  ℕ, suc, Bool, true, false, Option, none, some, List, [], ◌∷◌, ◌≡◌, refl, arith, ==_iff, ◌==◌,
  length, get_elem?,
}
use igw_p.Ether.Examples.{libc, read_number}
use igw_p.Config.Examples.{file_of, inet, fits}
use igw_p.Config.{switch_config_init}
use igw_p.Hostif.{
  SwitchCfgHostif, ip_atoi, base_hostif, parse_hostif, parser_switch_config_to_hostif,
}
use igw_p.Hostif.Filters.{Answers, switch_knet_rx_filter_create, switch_knet_tx_filter_create}
use igw_p.Hostif.Create.{
  switch_pkt_hostif_create, switch_api_hostif_create, mirror_hostif_create, create_hostif,
}
use igw_p.Hostif.Events.{hostif_entry_get}
use igw_p.Port.{Stray, switch_api_port_add, switch_device_init}
use igw_p.Device.{
  Queries, CpuifAnswers, Device, device_context, hostif_array, switch_device_create,
  switch_pktdriver_knet_device_add,
}
use igw_p.Device.Serves.{Serves, switch_device_create-Serves, switch_device_create_full}

-- Every call succeeds.
abbrev pub granted : ℕ → Answers
granted n = record {
  kndev_add = some (suc n);
  socket = true;
  set_addr = true;
  set_netmask = true;
  socket6 = true;
  get_index = true;
  set_addr6 = true;
  set_hwaddr = true;
  set_flags = true;
  kndev_delete = true;
  fp_idx_to_dev_port = none;
  rx_calloc = true;
  rx_filter_add = some 1;
  tx_calloc = true;
  data_bytes_max = 64;
  tx_action_add = true;
  oper_state = true;
}

abbrev pub queries : Queries
queries = record {
  num_pipes = some 4;
  num_ports = some 8;
  fp_to_dev = λ n. some n;
  to_pipe = λ n. 0;
  module_is_inited = true;
  port_status_notif_reg = true;
}

abbrev pub cpuif : CpuifAnswers
cpuif = record {
  netdev_name_get = true;
  ndev_add = true;
  cpuif_socket = true;
  cpuif_set_flags = true;
}

abbrev pub stray : Stray
stray = record { stray_dev_port = 0; stray_tx_mtu = 0; stray_rx_mtu = 0 }

abbrev creation : ℕ → Option Device
creation count =
    switch_device_create (file_of count) libc inet queries stray cpuif granted (granted 9)

abbrev has_sections : ℕ → Option Device → Bool
has_sections count none = false
has_sections count (some d) = length d.device_cfg.hostifs == count

taken :
    (count : ℕ) (o : Option Device)
    → has_sections count o ≡ true
    → (d : Device) × (o ≡ some d) × (length d.device_cfg.hostifs ≡ count)
taken count none h = absurd (cc h)
taken count (some d) h = (d, refl, (==_iff (length d.device_cfg.hostifs) count).0 h)

-- The creation goes through with two sections and with 128.
runs : (has_sections 2 (creation 2) ≡ true) × (has_sections 128 (creation 128) ≡ true)
unfolding switch_device_create switch_config_init ip_atoi read_number device_context
    switch_device_init hostif_array create_hostif switch_pktdriver_knet_device_add
    switch_api_port_add parser_switch_config_to_hostif parse_hostif base_hostif
    switch_api_hostif_create switch_pkt_hostif_create switch_knet_rx_filter_create
    switch_knet_tx_filter_create mirror_hostif_create
runs = (refl, refl)

abbrev two : (d : Device) × (creation 2 ≡ some d) × (length d.device_cfg.hostifs ≡ 2)
two = taken 2 (creation 2) runs.0

abbrev full : (d : Device) × (creation 128 ≡ some d) × (length d.device_cfg.hostifs ≡ 128)
full = taken 128 (creation 128) runs.1

second :
    (cs : List SwitchCfgHostif) → length cs ≡ 2 → (c : SwitchCfgHostif) × (get_elem? cs 1 ≡ some c)
second [] h = absurd (cc h)
second (c ∷ []) h = absurd (omega (arith, h))
second (c ∷ c' ∷ cs) h = (c', refl)

abbrev section_of : (c : SwitchCfgHostif) × (get_elem? two.0.device_cfg.hostifs 1 ≡ some c)
section_of = second two.0.device_cfg.hostifs two.2

switch_device_create-Serves_example :
    Serves (file_of 2) libc inet queries stray cpuif granted (granted 9) two.0 section_of.0 1
switch_device_create-Serves_example =
    switch_device_create-Serves (file_of 2) libc inet queries stray cpuif granted (granted 9) two.0
      section_of.0 1 (fits inet 2) (λ m e. absurd (cc e)) (λ e. absurd (cc e)) two.1
      (omega (arith, two.2)) section_of.1

switch_device_create_full_example :
    (full.0.hostif_infos ≡ [])
    × ((port : ℕ) → hostif_entry_get full.0.hostif_hash_table port ≡ none)
switch_device_create_full_example =
    switch_device_create_full (file_of 128) libc inet queries stray cpuif granted (granted 9) full.0
      (fits inet 128) full.1 full.2
