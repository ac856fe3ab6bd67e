-- ===== src/Bfrt/Examples.antt =====
-- The start-up over a driver that keeps its tables as a function.
use igw_p.Prelude.{
  ℕ, Bool, true, false, Option, none, some, List, [], ◌∷◌, ◌≡◌, ◌≢◌, refl, inl, inr, get_or,
  replicate, arith,
}
use igw_p.Bfrt.{BfData, BfEntry, Setting}
use igw_p.Bfrt.Setup.{write, run, table_setup}
use igw_p.Bfrt.Keys.{is_key}
use igw_p.Bfrt.Startup.{StartCfg, start_up, eip_ecmp_dl_steps}
use igw_p.Bfrt.JdVxlan.{eip_in_jd_vxlan_table_init, eip_out_jd_vxlan_table_init}
use igw_p.Bfrt.Ecmp.{ecmp_group02_steps}
use igw_p.Bfrt.Mirror.{
  entry_add_with_mirror_drop, mirror_table_init, meter_drop_table_init, acl_table_init,
}
use igw_p.Bfrt.Adds.{Occurs}
use igw_p.Bfrt.IpTypeTable.{ip_type_steps}
use igw_p.Bfrt.PacketTable.{protocol_packet_steps, protocol_packet_table_setup}
use igw_p.Bfrt.Install.{holds_after, run-holds_after}
use igw_p.Bfrt.Started.{start_up-installs}
use igw_p.Bfrt.Sorts.{SaysEntry, start_up-sorts}
use igw_p.Bfrt.Upserts.{IsWilling, protocol_packet_steps-run}
use igw_p.Bfrt.Resolve.{resolved}
use igw_p.Bfrt.Resolved.{start_up-resolved}
use igw_p.PacketTable.{PacketCfg}
use igw_p.Hostif.{Hostif}
use igw_p.IpType.{Entry, zero_key, need_drop, for_both_vips}
use igw_p.IpType.Table.{igw_ip_type_table_init}
use igw_p.Ether.{get_mask_by_prefix_len}
use igw_p.Bfrt.Store.{Store, empty, put, store, store_read, adds, modifies, store-IsFaithful}
use native.Mathlib.Decide.{ℕ_discrete}
use Prim.Native.String.{String}

abbrev one_hostif : Hostif
one_hostif = record {
  intf_name = "eth1";
  mac = record { b0 = 2; b1 = 0; b2 = 0; b3 = 0; b4 = 0; b5 = 1 };
  v4addr_len = 31;
  v4addr_ip4 = 0x0A000101;
  ip6 = replicate 16 1;
  ip6_mc = replicate 16 2;
  ip6_linklocal = replicate 16 3;
  ip6_linklocal_mc = replicate 16 4;
  ip6_prefix_len = 64;
  admin_state = true;
  fake_fp_port = 1;
  fp_port = 0;
  dev_port = 128;
  gw_ip = 0x0A000100;
  ipv6_enable = true;
}

abbrev packet_cfg : PacketCfg
packet_cfg = record { cpu_pcie_port = 320; mgt_ip = 0x0A000901; vip = 1; backup_vip = 2 }

abbrev small_cfg : StartCfg
small_cfg = record {
  ip_cfg = record { vip = 1; backup_vip = 2; dl_ip = 0x0A000000; dl_ip_prefix_len = 31 };
  shared_bw_vip = 3;
  hardware_model = 2;
}

store-IsWilling : IsWilling store store_read protocol_packet_table_setup
unfolding table_setup protocol_packet_table_setup
store-IsWilling = record {
  names_known = refl;
  key_accepted = λ k x. refl;
  data_accepted = λ k a x. refl;
  add_accepted = λ s e absent. (put s e, adds s e absent);
  mod_accepted = λ s e v there. (put s e, modifies s e v there);
}

is_some : Option Store → Bool
is_some none = false
is_some (some s) = true

unwrap : Option Store → Store
unwrap none = empty
unwrap (some s) = s

is_some-unwrap : (o : Option Store) → is_some o ≡ true → o ≡ some (unwrap o)
unfolding is_some unwrap
is_some-unwrap none h = absurd (cc h)
is_some-unwrap (some s) h = refl

started : Store
started = unwrap (run store empty (start_up small_cfg))

runs : is_some (run store empty (start_up small_cfg)) ≡ true
unfolding run start_up is_some is_key for_both_vips ℕ_discrete get_mask_by_prefix_len
    mirror_table_init ip_type_steps eip_in_jd_vxlan_table_init eip_out_jd_vxlan_table_init
    eip_ecmp_dl_steps meter_drop_table_init acl_table_init ecmp_group02_steps
runs = refl

start_up-runs : run store empty (start_up small_cfg) ≡ some started
unfolding started
start_up-runs = is_some-unwrap (run store empty (start_up small_cfg)) runs

drop_red : BfEntry
drop_red = entry_add_with_mirror_drop 3

drop_red-Occurs : Occurs (write drop_red true) (start_up small_cfg)
unfolding Occurs start_up drop_red mirror_table_init
drop_red-Occurs = inr (inl refl)

run-holds_after_example :
    started drop_red.table drop_red.bf_key
    ≡ holds_after (start_up small_cfg) drop_red.table drop_red.bf_key none
run-holds_after_example =
    run-holds_after store store_read store-IsFaithful empty started (start_up small_cfg)
      drop_red.table drop_red.bf_key start_up-runs

first_entry : Entry
first_entry =
    get_or (igw_ip_type_table_init small_cfg.ip_cfg) 0
      (record { key = zero_key; action = need_drop })

start_up-installs_example : started drop_red.table drop_red.bf_key ≡ some drop_red.bf_data
unfolding drop_red
start_up-installs_example =
    start_up-installs store store_read store-IsFaithful empty started small_cfg drop_red
      start_up-runs drop_red-Occurs

start_up-sorts_example :
    (k : List Setting) × (v : BfData) × (store_read started "P02_Ingress.igw_ip_type.igw_ip_type" k
      ≡ some v)
    × SaysEntry k v first_entry
unfolding first_entry igw_ip_type_table_init for_both_vips
start_up-sorts_example =
    start_up-sorts store store_read store-IsFaithful empty started small_cfg 0 first_entry
      start_up-runs refl

one_nonzero : ◌≢◌ {A = ℕ} 1 0
one_nonzero e = omega (arith, e)

abbrev same_vip_cfg : StartCfg
same_vip_cfg = record small_cfg { ip_cfg = record (small_cfg.ip_cfg) { backup_vip = 1 } }

start_up-resolved_example : resolved [] (start_up small_cfg) ≡ true
start_up-resolved_example = start_up-resolved small_cfg

protocol_packet_steps-run_example :
    (s' : Store) × (run store started (protocol_packet_steps packet_cfg (one_hostif ∷ []))
      ≡ some s')
    × ((t : String) (k : List Setting)
        → s' t k
          ≡ holds_after (protocol_packet_steps packet_cfg (one_hostif ∷ [])) t k (started t k))
protocol_packet_steps-run_example =
    protocol_packet_steps-run store store_read store-IsFaithful store-IsWilling started packet_cfg
      (one_hostif ∷ [])
