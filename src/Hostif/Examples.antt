-- ===== src/Hostif/Examples.antt =====
-- The array that a configuration of one interface makes, and the interface made from it.
use igw_p.Prelude.{Bool, true, Option, All, false, List, [], ◌∷◌, none, some, ◌≡◌, refl}
use igw_p.Hostif.{
  SwitchCfgHostif, Hostif, Inet, base_hostif, parse_hostif, parse_hostifs,
  parser_switch_config_to_hostif,
}
use igw_p.Hostif.Filters.{
  Knet, Answers, failed, switch_knet_rx_filter_create, switch_knet_tx_filter_create,
}
use igw_p.Hostif.Create.{
  HostifInfo, Job, switch_pkt_hostif_create, switch_api_hostif_create, create_hostif,
}
use igw_p.Hostif.Rollback.{IsClean, switch_pkt_hostif_create-IsClean}
use igw_p.Hostif.Wiring.{IsWired}
use igw_p.Hostif.Array.{create_hostif-IsWired, IsNumbered}
use igw_p.Prelude.{ℕ, ◌≢◌, Bool-cases, map, if◌then◌else◌, inl, inr}
use Prim.Native.String.{String}
use text.Mathlib.Text.{◌==◌ as str_eq}
use text.Mathlib.TextEquality.{eq_iff}
use igw_p.Hashed.Lookup.{find_last}
use igw_p.Hostif.Events.{
  key_dev_port, hostif_entry, hostif_hash_table_init, Links, port_state_changes,
}
use igw_p.Hostif.Follows.{last_change, port_state_changes-admin}

abbrev inet : Inet
inet = record { pton4 = λ s. some 7; pton6 = λ s. none }

abbrev section_of : SwitchCfgHostif
section_of = record {
  cfg_intf_name = "eth1";
  ip_addr = "0.0.0.7";
  gw_ip_addr = "0.0.0.7";
  net_mask_len = 31;
  ip6_addr = "";
  cfg_ip6_prefix_len = 0;
  cfg_ipv6_enable = false;
  cfg_mac = record { b0 = 2; b1 = 0; b2 = 0; b3 = 0; b4 = 0; b5 = 1 };
  cfg_fp_port = 5;
}

array : List Hostif
unfolding base_hostif
array = base_hostif inet section_of ∷ []

parsed : parser_switch_config_to_hostif inet (section_of ∷ []) ≡ some array
unfolding parser_switch_config_to_hostif parse_hostifs parse_hostif array
parsed = refl

-- Every call succeeds; the driver numbers the device 7, on device port 128.
abbrev granted : Answers
granted = record {
  kndev_add = some 7;
  socket = true;
  set_addr = true;
  set_netmask = true;
  socket6 = true;
  get_index = true;
  set_addr6 = true;
  set_hwaddr = true;
  set_flags = true;
  kndev_delete = true;
  fp_idx_to_dev_port = some 128;
  rx_calloc = true;
  rx_filter_add = some 1;
  tx_calloc = true;
  data_bytes_max = 64;
  tx_action_add = true;
  oper_state = true;
}

-- The address is refused, after the device has been made.
abbrev refused : Answers
refused = record granted { set_netmask = false }

abbrev none_yet : Knet
none_yet = record { kndevs = []; rx_filters = []; tx_actions = []; sockets = 0; buffers = 0 }

abbrev hostif : Hostif
unfolding base_hostif
hostif = base_hostif inet section_of

refused_run : switch_pkt_hostif_create refused hostif 3 none_yet ≡ failed none_yet
unfolding switch_pkt_hostif_create hostif
refused_run = refl

switch_pkt_hostif_create-IsClean_example :
    IsClean refused none_yet (switch_pkt_hostif_create refused hostif 3 none_yet)
switch_pkt_hostif_create-IsClean_example =
    switch_pkt_hostif_create-IsClean refused hostif 3 none_yet

abbrev jobs : List Job
jobs = record { answers = granted; job_hostif = hostif } ∷ []

is_some : Option (Knet × List HostifInfo) → Bool
is_some none = false
is_some (some s) = true

unwrap : Option (Knet × List HostifInfo) → Knet × List HostifInfo
unwrap none = (none_yet, [])
unwrap (some s) = s

is_some-unwrap :
    (o : Option (Knet × List HostifInfo)) → is_some o ≡ true → o ≡ some ((unwrap o).0, (unwrap o).1)
unfolding is_some unwrap
is_some-unwrap none h = absurd (cc h)
is_some-unwrap (some s) h = refl

abbrev made : Knet × List HostifInfo
made = unwrap (create_hostif jobs none_yet)

made_lem : create_hostif jobs none_yet ≡ some (made.0, made.1)
unfolding create_hostif switch_api_hostif_create switch_pkt_hostif_create
    switch_knet_rx_filter_create switch_knet_tx_filter_create is_some hostif
made_lem = is_some-unwrap (create_hostif jobs none_yet) refl

jobs-IsNumbered : All IsNumbered jobs
jobs-IsNumbered = ((λ e. absurd (cc e)), tt)

create_hostif-IsWired_example : All (IsWired made.0) made.1
create_hostif-IsWired_example =
    create_hostif-IsWired jobs none_yet made.0 made.1 jobs-IsNumbered made_lem

-- A kernel that grants what it is asked, as the state of each interface by its name
abbrev link_set : (String → Option Bool) → String → Bool → String → Option Bool
link_set s name up other = if str_eq other name then some up else s other

abbrev links : Links
links = record {
  State = String → Option Bool;
  opens = λ s. true;
  set_if_flags = λ s name up. some (link_set s name up);
}

abbrev admin : (String → Option Bool) → String → Option Bool
admin s name = s name

link_set_self :
    (s : String → Option Bool) (name : String) (up : Bool) → link_set s name up name ≡ some up
link_set_self s name up = rw ((eq_iff name name).1 refl) refl

link_set_others :
    (s : String → Option Bool) (name : String) (up : Bool) (other : String)
    → other ≢ name
    → link_set s name up other ≡ s other
link_set_others s name up other differs = elim (Bool-cases (str_eq other name)) [
  | inl same ↦ absurd (differs ((eq_iff other name).0 same))
  | inr h ↦ rw h refl
]

abbrev on_port : HostifInfo
unfolding hostif
on_port = record {
  info_hostif = record hostif { dev_port = 128 };
  knet_hostif_handle = 7;
  rx_filter_handle = 1;
  tx_filter_handle = 0;
}

abbrev changes : List (ℕ × Bool)
changes = (128, false) ∷ (192, true) ∷ (128, true) ∷ (192, false) ∷ []

found_last :
    find_last key_dev_port 128 (map hostif_entry (on_port ∷ [])) ≡ some (hostif_entry on_port)
unfolding find_last on_port
found_last = refl

port_state_changes-admin_example :
    admin
      (port_state_changes links (hostif_hash_table_init (on_port ∷ [])) changes (λ n. none))
      (hostif_entry on_port).entry_intf_name
    ≡ last_change 128 changes none
unfolding on_port
port_state_changes-admin_example =
    port_state_changes-admin links admin (λ s. refl)
      (λ s name up. (link_set s name up, refl, link_set_self s name up, link_set_others s name up))
      (on_port ∷ []) (hostif_entry on_port) changes (λ n. none) found_last ((λ same. refl), tt)
