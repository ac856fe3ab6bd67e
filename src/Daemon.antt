-- ===== src/Daemon.antt =====
-- The options of the daemon (igw-h/init_setup/main.c), for both versions of the SDK. `getopt_long` is
-- the C library's: an option list is what it returns, call after call.
pub mod Options
mod Examples
use igw_p.Prelude.{
  ℕ, Bool, true, false, ◌||◌, Option, none, some, List, [], ◌∷◌, ◌==◌, if◌then◌else◌,
}
use Prim.Native.String.{String}
use text.Mathlib.Text.{starts_with}
use igw_p.Ether.Aton.{codes}
use igw_p.Attributes.{ℤ}

-- What `getopt_long` can return; `opt_help` is 'h' and `opt_unknown` is '?'.
pub data Opt : Type 0 where
  opt_installdir opt_conffile opt_tcpportbase opt_skip_hld opt_sts_port opt_init_mode
        opt_p4rt_server :
      String → Opt
  opt_skip_p4 opt_skip_port_add opt_kernel_pkt opt_background opt_ucli opt_bfs_local
        opt_shell_no_wait opt_help opt_unknown :
      Opt
  opt_status_server_localhost_only opt_dma_channel_server_localhost_only
        opt_reg_channel_server_localhost_only opt_fpga_channel_server_localhost_only
        opt_bf_rt_server_localhost_only opt_server_listen_on_localhost_only :
      Opt

pub data InitMode : Type 0 where
  dev_init_cold dev_warm_init_fast_recfg dev_warm_init_hitless : InitMode

pub record SkipHld : Type 0 where
  pub pipe_mgr : Bool
  pub mc_mgr : Bool
  pub pkt_mgr : Bool
  pub port_mgr : Bool
  pub traffic_mgr : Bool

-- `bf_switchd_context_t`, as far as the options set it
pub record SwitchdContext : Type 0 where
  pub install_dir : Option String
  pub conf_file : Option String
  pub tcp_port_base : ℤ
  pub skip_p4 : Bool
  pub skip_hld : SkipHld
  pub skip_port_add : Bool
  pub dev_sts_thread : Bool
  pub dev_sts_port : ℤ
  pub kernel_pkt : Bool
  pub running_in_background : Bool
  pub shell_set_ucli : Bool
  pub bfshell_local_only : Bool
  pub status_server_local_only : Bool
  pub dma_channel_server_local_only : Bool
  pub regular_channel_server_local_only : Bool
  pub fpga_channel_server_local_only : Bool
  pub bf_rt_server_local_only : Bool
  pub server_listen_local_only : Bool
  pub init_mode : InitMode
  pub p4rt_server : Option String
  pub shell_before_dev_add : Bool

-- The options are read, or the program exits with a status.
pub data Parsed : Type 0 where
  parsed : SwitchdContext → Parsed
  exits : ℕ → Parsed

-- One letter of the list; another is reported and passed over.
unfoldable pub skip_mgr : ℕ → SkipHld → SkipHld
skip_mgr mgr s =
    if mgr == b'p'
    then record s { pipe_mgr = true }
    else (if mgr == b'm'
        then record s { mc_mgr = true }
        else (if mgr == b'k'
            then record s { pkt_mgr = true }
            else (if mgr == b'r'
                then record s { port_mgr = true }
                else (if mgr == b't' then record s { traffic_mgr = true } else s))))

unfoldable pub skip_mgrs : List ℕ → SkipHld → SkipHld
unfolding skip_mgr
skip_mgrs [] s = s
skip_mgrs (mgr ∷ mgrs) s = skip_mgrs mgrs (skip_mgr mgr s)

unfoldable pub bf_switchd_parse_hld_mgrs_list : SwitchdContext → String → SwitchdContext
unfolding skip_mgrs
bf_switchd_parse_hld_mgrs_list ctx mgrs_list = record ctx {
  skip_hld = skip_mgrs (codes mgrs_list) ctx.skip_hld;
}

-- Four characters are compared; what is none of the three modes is a cold start.
unfoldable pub init_mode_of : String → InitMode
init_mode_of arg =
    if starts_with arg "cold"
    then dev_init_cold
    else (if starts_with arg "fast"
        then dev_warm_init_fast_recfg
        else (if starts_with arg "hitl" then dev_warm_init_hitless else dev_init_cold))

-- The check behind the loop
unfoldable pub sanity_check : SwitchdContext → Option String → Option String → Parsed
sanity_check ctx (some dir) (some file) = parsed ctx
sanity_check ctx none file = exits 0
sanity_check ctx (some dir) none = exits 0

-- `exit(c == 'h' ? 0 : 1)`
unfoldable pub ends : Opt → Option ℕ
ends opt_help = some 0
ends opt_unknown = some 1
ends o = none

unfoldable pub or_exit : Option ℕ → Parsed → Parsed
or_exit (some status) more = exits status
or_exit none more = more

-- The loop over what `getopt_long` returns, and the check behind it
unfoldable pub option_loop :
    (Opt → SwitchdContext → SwitchdContext) → List Opt → SwitchdContext → Parsed
unfolding sanity_check ends or_exit
option_loop set [] ctx = sanity_check ctx ctx.install_dir ctx.conf_file
option_loop set (o ∷ os) ctx = or_exit (ends o) (option_loop set os (set o ctx))

-- The second version's check, exits and loop
unfoldable pub sanity_check_v2 : SwitchdContext → Option String → Option String → Parsed
sanity_check_v2 ctx (some dir) (some file) = parsed ctx
sanity_check_v2 ctx none file = exits 0
sanity_check_v2 ctx (some dir) none = exits 0

unfoldable pub ends_v2 : Opt → Option ℕ
ends_v2 opt_help = some 0
ends_v2 opt_unknown = some 1
ends_v2 o = none

unfoldable pub option_loop_v2 :
    (Opt → SwitchdContext → SwitchdContext) → List Opt → SwitchdContext → Parsed
unfolding sanity_check_v2 ends_v2 or_exit
option_loop_v2 set [] ctx = sanity_check_v2 ctx ctx.install_dir ctx.conf_file
option_loop_v2 set (o ∷ os) ctx = or_exit (ends_v2 o) (option_loop_v2 set os (set o ctx))

abbrev pub with_kernel_pkt : Parsed → Parsed
with_kernel_pkt (parsed ctx) = parsed (record ctx { kernel_pkt = true })
with_kernel_pkt (exits n) = exits n

-- `atoi` is the C library's.
module _ (atoi : String → ℤ) where
  -- The cases of the first version; 'h' and '?' end the program before they get here, and the last six
  -- are not among its options.
  unfoldable pub set_option : Opt → SwitchdContext → SwitchdContext
  unfolding bf_switchd_parse_hld_mgrs_list init_mode_of
  set_option (opt_installdir arg) ctx = record ctx { install_dir = some arg }
  set_option (opt_conffile arg) ctx = record ctx { conf_file = some arg }
  set_option (opt_tcpportbase arg) ctx = record ctx { tcp_port_base = atoi arg }
  set_option opt_skip_p4 ctx = record ctx { skip_p4 = true }
  set_option (opt_skip_hld arg) ctx = bf_switchd_parse_hld_mgrs_list ctx arg
  set_option opt_skip_port_add ctx = record ctx { skip_port_add = true }
  set_option (opt_sts_port arg) ctx = record ctx { dev_sts_thread = true; dev_sts_port = atoi arg }
  set_option opt_kernel_pkt ctx = record ctx { kernel_pkt = true }
  set_option opt_background ctx = record ctx { running_in_background = true }
  set_option opt_ucli ctx = record ctx { shell_set_ucli = true }
  set_option opt_bfs_local ctx = record ctx { bfshell_local_only = true }
  set_option (opt_init_mode arg) ctx = record ctx { init_mode = init_mode_of arg }
  set_option (opt_p4rt_server arg) ctx = record ctx { p4rt_server = some arg }
  set_option opt_shell_no_wait ctx = record ctx { shell_before_dev_add = true }
  set_option opt_help ctx = ctx
  set_option opt_unknown ctx = ctx
  set_option opt_status_server_localhost_only ctx = ctx
  set_option opt_dma_channel_server_localhost_only ctx = ctx
  set_option opt_reg_channel_server_localhost_only ctx = ctx
  set_option opt_fpga_channel_server_localhost_only ctx = ctx
  set_option opt_bf_rt_server_localhost_only ctx = ctx
  set_option opt_server_listen_on_localhost_only ctx = ctx

  -- The cases of the second version
  unfoldable pub set_option_v2 : Opt → SwitchdContext → SwitchdContext
  unfolding bf_switchd_parse_hld_mgrs_list init_mode_of
  set_option_v2 (opt_installdir arg) ctx = record ctx { install_dir = some arg }
  set_option_v2 (opt_conffile arg) ctx = record ctx { conf_file = some arg }
  set_option_v2 (opt_tcpportbase arg) ctx = record ctx { tcp_port_base = atoi arg }
  set_option_v2 opt_skip_p4 ctx = record ctx { skip_p4 = true }
  set_option_v2 (opt_skip_hld arg) ctx = bf_switchd_parse_hld_mgrs_list ctx arg
  set_option_v2 opt_skip_port_add ctx = record ctx { skip_port_add = true }
  set_option_v2 (opt_sts_port arg) ctx = record ctx {
    dev_sts_thread = true;
    dev_sts_port = atoi arg;
  }
  set_option_v2 opt_kernel_pkt ctx = record ctx { kernel_pkt = true }
  set_option_v2 opt_background ctx = record ctx { running_in_background = true }
  set_option_v2 opt_ucli ctx = record ctx { shell_set_ucli = true }
  set_option_v2 opt_bfs_local ctx = record ctx { bfshell_local_only = true }
  set_option_v2 opt_status_server_localhost_only ctx = record ctx {
    status_server_local_only = true;
  }
  set_option_v2 opt_dma_channel_server_localhost_only ctx = record ctx {
    dma_channel_server_local_only = true;
  }
  set_option_v2 opt_reg_channel_server_localhost_only ctx = record ctx {
    regular_channel_server_local_only = true;
  }
  set_option_v2 opt_fpga_channel_server_localhost_only ctx = record ctx {
    fpga_channel_server_local_only = true;
  }
  set_option_v2 opt_bf_rt_server_localhost_only ctx = record ctx { bf_rt_server_local_only = true }
  set_option_v2 opt_server_listen_on_localhost_only ctx = record ctx {
    server_listen_local_only = true;
  }
  set_option_v2 (opt_init_mode arg) ctx = record ctx { init_mode = init_mode_of arg }
  set_option_v2 (opt_p4rt_server arg) ctx = record ctx { p4rt_server = some arg }
  set_option_v2 opt_shell_no_wait ctx = record ctx { shell_before_dev_add = true }
  set_option_v2 opt_help ctx = ctx
  set_option_v2 opt_unknown ctx = ctx

  unfoldable pub bf_switchd_parse_options : SwitchdContext → List Opt → Parsed
  unfolding option_loop set_option
  bf_switchd_parse_options ctx argv = option_loop set_option argv ctx

  unfoldable pub bf_switchd_parse_options_v2 : SwitchdContext → List Opt → Parsed
  unfolding option_loop_v2 set_option_v2
  bf_switchd_parse_options_v2 ctx argv = option_loop_v2 set_option_v2 argv ctx

  -- `bf_switchd_main` up to the call of the SDK, with USE_SDE_9_7 or without
  unfoldable pub bf_switchd_main : Bool → SwitchdContext → List Opt → Parsed
  unfolding bf_switchd_parse_options bf_switchd_parse_options_v2
  bf_switchd_main true ctx argv = with_kernel_pkt (bf_switchd_parse_options_v2 ctx argv)
  bf_switchd_main false ctx argv = with_kernel_pkt (bf_switchd_parse_options ctx argv)
