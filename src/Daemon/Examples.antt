-- ===== src/Daemon/Examples.antt =====
-- A command line with a list of managers.
use igw_p.Prelude.{true, false, ◌||◌, none, some, List, [], ◌∷◌, ◌≡◌, refl, All}
use Prim.Native.String.{String}
use igw_p.Ether.Aton.{codes}
use igw_p.Attributes.{ℤ, pos, negsuc}
use igw_p.Daemon.{
  Opt, opt_installdir, opt_conffile, opt_skip_hld, opt_background, SwitchdContext, SkipHld,
  dev_init_cold, parsed, bf_switchd_parse_hld_mgrs_list, bf_switchd_main, ends,
}
use igw_p.Daemon.Options.{
  contains, IsCommon, is_v2, IsSetting, last_installdir, last_conffile,
  bf_switchd_parse_hld_mgrs_list-skips, bf_switchd_main-agree, bf_switchd_main-files,
}

abbrev cleared : SwitchdContext
cleared = record {
  install_dir = none;
  conf_file = none;
  tcp_port_base = pos 0;
  skip_p4 = false;
  skip_hld = record {
    pipe_mgr = false;
    mc_mgr = false;
    pkt_mgr = false;
    port_mgr = false;
    traffic_mgr = false;
  };
  skip_port_add = false;
  dev_sts_thread = false;
  dev_sts_port = pos 0;
  kernel_pkt = false;
  running_in_background = false;
  shell_set_ucli = false;
  bfshell_local_only = false;
  status_server_local_only = false;
  dma_channel_server_local_only = false;
  regular_channel_server_local_only = false;
  fpga_channel_server_local_only = false;
  bf_rt_server_local_only = false;
  server_listen_local_only = false;
  init_mode = dev_init_cold;
  p4rt_server = none;
  shell_before_dev_add = false;
}

abbrev command_line : List Opt
command_line =
    opt_conffile "old.conf"
    ∷ opt_installdir "/opt/igw"
    ∷ opt_skip_hld "mt"
    ∷ opt_conffile "igw.conf"
    ∷ opt_background
    ∷ []

abbrev atoi : String → ℤ
atoi s = negsuc 0

command_line-IsCommon : All IsCommon command_line
unfolding is_v2
command_line-IsCommon = (refl, (refl, (refl, (refl, (refl, tt)))))

command_line-IsSetting : All IsSetting command_line
unfolding ends
command_line-IsSetting = (refl, (refl, (refl, (refl, (refl, tt)))))

last_dir : last_installdir command_line none ≡ some "/opt/igw"
unfolding last_installdir
last_dir = refl

last_file : last_conffile command_line none ≡ some "igw.conf"
unfolding last_conffile
last_file = refl

bf_switchd_main-agree_example :
    bf_switchd_main atoi true cleared command_line ≡ bf_switchd_main atoi false cleared command_line
bf_switchd_main-agree_example =
    bf_switchd_main-agree atoi cleared command_line command_line-IsCommon

bf_switchd_main-files_example :
    (c : SwitchdContext) × (bf_switchd_main atoi true cleared command_line ≡ parsed c)
    × (c.install_dir ≡ some "/opt/igw")
    × (c.conf_file ≡ some "igw.conf")
    × (c.kernel_pkt ≡ true)
bf_switchd_main-files_example =
    bf_switchd_main-files atoi true cleared command_line "/opt/igw" "igw.conf"
      command_line-IsSetting last_dir last_file

abbrev skipped : SkipHld
skipped = (bf_switchd_parse_hld_mgrs_list cleared "mt").skip_hld

bf_switchd_parse_hld_mgrs_list-skips_example :
    (skipped.pipe_mgr ≡ false || contains b'p' (codes "mt"))
    × (skipped.mc_mgr ≡ false || contains b'm' (codes "mt"))
    × (skipped.pkt_mgr ≡ false || contains b'k' (codes "mt"))
    × (skipped.port_mgr ≡ false || contains b'r' (codes "mt"))
    × (skipped.traffic_mgr ≡ false || contains b't' (codes "mt"))
bf_switchd_parse_hld_mgrs_list-skips_example = bf_switchd_parse_hld_mgrs_list-skips cleared "mt"
