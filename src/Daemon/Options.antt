-- ===== src/Daemon/Options.antt =====
-- What the options come to (main.c).
use igw_p.Prelude.{
  ℕ, Bool, true, false, ◌||◌, Option, none, some, List, [], ◌∷◌, ◌≡◌, refl, sym, ◌∙◌, ap, arith,
  ◌==◌, All,
}
use Prim.Native.String.{String}
use igw_p.Ether.Aton.{codes}
use igw_p.Attributes.{ℤ}
use igw_p.Daemon.{
  Opt, opt_installdir, opt_conffile, SkipHld, SwitchdContext, parsed, skip_mgr, skip_mgrs,
  bf_switchd_parse_hld_mgrs_list, set_option, set_option_v2, option_loop, option_loop_v2, ends,
  ends_v2, sanity_check_v2, or_exit, sanity_check, bf_switchd_main, with_kernel_pkt,
}

unfoldable pub contains : ℕ → List ℕ → Bool
contains c [] = false
contains c (d ∷ ds) = (d == c) || contains c ds

skip_mgrs-skips :
    (l : List ℕ) (s : SkipHld)
    → ((skip_mgrs l s).pipe_mgr ≡ s.pipe_mgr || contains b'p' l)
      × ((skip_mgrs l s).mc_mgr ≡ s.mc_mgr || contains b'm' l)
      × ((skip_mgrs l s).pkt_mgr ≡ s.pkt_mgr || contains b'k' l)
      × ((skip_mgrs l s).port_mgr ≡ s.port_mgr || contains b'r' l)
      × ((skip_mgrs l s).traffic_mgr ≡ s.traffic_mgr || contains b't' l)
unfolding skip_mgrs skip_mgr contains
skip_mgrs-skips [] s = ground arith
skip_mgrs-skips (m ∷ l) s = ground (arith, skip_mgrs-skips l (skip_mgr m s))

-- Each letter of the list skips its manager; the others are skipped if they were before.
pub bf_switchd_parse_hld_mgrs_list-skips :
    (ctx : SwitchdContext) (mgrs : String)
    → ((bf_switchd_parse_hld_mgrs_list ctx mgrs).skip_hld.pipe_mgr
        ≡ ctx.skip_hld.pipe_mgr || contains b'p' (codes mgrs))
      × ((bf_switchd_parse_hld_mgrs_list ctx mgrs).skip_hld.mc_mgr
          ≡ ctx.skip_hld.mc_mgr || contains b'm' (codes mgrs))
      × ((bf_switchd_parse_hld_mgrs_list ctx mgrs).skip_hld.pkt_mgr
          ≡ ctx.skip_hld.pkt_mgr || contains b'k' (codes mgrs))
      × ((bf_switchd_parse_hld_mgrs_list ctx mgrs).skip_hld.port_mgr
          ≡ ctx.skip_hld.port_mgr || contains b'r' (codes mgrs))
      × ((bf_switchd_parse_hld_mgrs_list ctx mgrs).skip_hld.traffic_mgr
          ≡ ctx.skip_hld.traffic_mgr || contains b't' (codes mgrs))
unfolding bf_switchd_parse_hld_mgrs_list
bf_switchd_parse_hld_mgrs_list-skips ctx mgrs = skip_mgrs-skips (codes mgrs) ctx.skip_hld

-- An option of the second version only
unfoldable pub is_v2 : Opt → Bool
is_v2 Opt.opt_status_server_localhost_only = true
is_v2 Opt.opt_dma_channel_server_localhost_only = true
is_v2 Opt.opt_reg_channel_server_localhost_only = true
is_v2 Opt.opt_fpga_channel_server_localhost_only = true
is_v2 Opt.opt_bf_rt_server_localhost_only = true
is_v2 Opt.opt_server_listen_on_localhost_only = true
is_v2 o = false

abbrev pub IsCommon : Opt → Type 0
IsCommon o = is_v2 o ≡ false

-- The last argument that an option was given with
unfoldable pub last_installdir : List Opt → Option String → Option String
last_installdir [] before = before
last_installdir (opt_installdir arg ∷ os) before = last_installdir os (some arg)
last_installdir (o ∷ os) before = last_installdir os before

unfoldable pub last_conffile : List Opt → Option String → Option String
last_conffile [] before = before
last_conffile (opt_conffile arg ∷ os) before = last_conffile os (some arg)
last_conffile (o ∷ os) before = last_conffile os before

-- An option that does not end the program
abbrev pub IsSetting : Opt → Type 0
IsSetting o = ends o ≡ none

installdir-cons :
    (o : Opt) (os : List Opt) (before : Option String)
    → last_installdir (o ∷ os) before ≡ last_installdir os (last_installdir (o ∷ []) before)
unfolding last_installdir
installdir-cons (opt_installdir arg) os before = refl
installdir-cons o os before = refl

conffile-cons :
    (o : Opt) (os : List Opt) (before : Option String)
    → last_conffile (o ∷ os) before ≡ last_conffile os (last_conffile (o ∷ []) before)
unfolding last_conffile
conffile-cons (opt_conffile arg) os before = refl
conffile-cons o os before = refl

checked :
    (c : SwitchdContext) (o p : Option String) (dir file : String)
    → o ≡ some dir
    → p ≡ some file
    → sanity_check c o p ≡ parsed c
unfolding sanity_check
checked c (some d) (some f) dir file at_dir at_file = refl
checked c none p dir file at_dir at_file = absurd (cc at_dir)
checked c (some d) none dir file at_dir at_file = absurd (cc at_file)

option_loop-files :
    (set : Opt → SwitchdContext → SwitchdContext)
    → ((o : Opt) (ctx : SwitchdContext)
        → ((set o ctx).install_dir ≡ last_installdir (o ∷ []) ctx.install_dir)
          × ((set o ctx).conf_file ≡ last_conffile (o ∷ []) ctx.conf_file))
    → (argv : List Opt) (ctx : SwitchdContext) (dir file : String) → All IsSetting argv
    → last_installdir argv ctx.install_dir ≡ some dir
    → last_conffile argv ctx.conf_file ≡ some file
    → (c : SwitchdContext) × (option_loop set argv ctx ≡ parsed c)
      × (c.install_dir ≡ some dir)
      × (c.conf_file ≡ some file)
unfolding option_loop last_installdir last_conffile or_exit
option_loop-files set files [] ctx dir file sets at_dir at_file =
    (ctx, checked ctx ctx.install_dir ctx.conf_file dir file at_dir at_file, at_dir, at_file)
option_loop-files set files (o ∷ os) ctx dir file (s, sets) at_dir at_file =
    let (d, f) = files o ctx in
    let (c, loop, cd, cf) =
      option_loop-files set files os (set o ctx) dir file sets
        (ap (last_installdir os) d ∙ sym (installdir-cons o os ctx.install_dir) ∙ at_dir)
        (ap (last_conffile os) f ∙ sym (conffile-cons o os ctx.conf_file) ∙ at_file) in
    (c, ap (λ e. or_exit e (option_loop set os (set o ctx))) s ∙ loop, cd, cf)

check-agree :
    (c : SwitchdContext) (o p : Option String) → sanity_check_v2 c o p ≡ sanity_check c o p
unfolding sanity_check sanity_check_v2
check-agree c (some d) (some f) = refl
check-agree c none p = refl
check-agree c (some d) none = refl

ends-agree : (o : Opt) → ends_v2 o ≡ ends o
unfolding ends ends_v2
ends-agree Opt.opt_help = refl
ends-agree Opt.opt_unknown = refl
ends-agree o = refl

loops-agree :
    (set : Opt → SwitchdContext → SwitchdContext) (argv : List Opt) (ctx : SwitchdContext)
    → option_loop_v2 set argv ctx ≡ option_loop set argv ctx
unfolding option_loop option_loop_v2
loops-agree set [] ctx = check-agree ctx ctx.install_dir ctx.conf_file
loops-agree set (o ∷ os) ctx =
    ap (λ e. or_exit e (option_loop_v2 set os (set o ctx))) (ends-agree o)
    ∙ ap (or_exit (ends o)) (loops-agree set os (set o ctx))

module _ (atoi : String → ℤ) where
  set_option-common :
      (o : Opt) (ctx : SwitchdContext)
      → IsCommon o
      → set_option_v2 atoi o ctx ≡ set_option atoi o ctx
  unfolding is_v2 set_option set_option_v2
  set_option-common Opt.opt_status_server_localhost_only ctx common = absurd (cc common)
  set_option-common Opt.opt_dma_channel_server_localhost_only ctx common = absurd (cc common)
  set_option-common Opt.opt_reg_channel_server_localhost_only ctx common = absurd (cc common)
  set_option-common Opt.opt_fpga_channel_server_localhost_only ctx common = absurd (cc common)
  set_option-common Opt.opt_bf_rt_server_localhost_only ctx common = absurd (cc common)
  set_option-common Opt.opt_server_listen_on_localhost_only ctx common = absurd (cc common)
  set_option-common o ctx common = refl

  loop-agree :
      (argv : List Opt) (ctx : SwitchdContext)
      → All IsCommon argv
      → option_loop (set_option_v2 atoi) argv ctx ≡ option_loop (set_option atoi) argv ctx
  unfolding option_loop
  loop-agree [] ctx common = refl
  loop-agree (o ∷ os) ctx (c, common) = ap (or_exit (ends o)) (
      loop-agree os (set_option_v2 atoi o ctx) common
      ∙ ap (option_loop (set_option atoi) os) (set_option-common o ctx c))

  -- The second version does no more than the first for the options that both know.
  pub bf_switchd_main-agree :
      (ctx : SwitchdContext) (argv : List Opt)
      → All IsCommon argv
      → bf_switchd_main atoi true ctx argv ≡ bf_switchd_main atoi false ctx argv
  unfolding bf_switchd_main
  bf_switchd_main-agree ctx argv common =
      ap with_kernel_pkt (loops-agree (set_option_v2 atoi) argv ctx ∙ loop-agree argv ctx common)

  -- Neither version's cases set the two paths, but for their own options.
  set_option-files :
      (o : Opt) (ctx : SwitchdContext)
      → ((set_option atoi o ctx).install_dir ≡ last_installdir (o ∷ []) ctx.install_dir)
        × ((set_option atoi o ctx).conf_file ≡ last_conffile (o ∷ []) ctx.conf_file)
  unfolding set_option last_installdir last_conffile
  set_option-files (opt_installdir arg) ctx = (refl, refl)
  set_option-files (opt_conffile arg) ctx = (refl, refl)
  set_option-files o ctx = (refl, refl)

  set_option_v2-files :
      (o : Opt) (ctx : SwitchdContext)
      → ((set_option_v2 atoi o ctx).install_dir ≡ last_installdir (o ∷ []) ctx.install_dir)
        × ((set_option_v2 atoi o ctx).conf_file ≡ last_conffile (o ∷ []) ctx.conf_file)
  unfolding set_option_v2 last_installdir last_conffile
  set_option_v2-files (opt_installdir arg) ctx = (refl, refl)
  set_option_v2-files (opt_conffile arg) ctx = (refl, refl)
  set_option_v2-files o ctx = (refl, refl)

  -- With both paths given, and no option that ends the program, the start goes on: with the last
  -- installation directory and configuration file given, and with packets through the kernel.
  pub bf_switchd_main-files :
      (v2 : Bool) (ctx : SwitchdContext) (argv : List Opt) (dir file : String)
      → All IsSetting argv
      → last_installdir argv ctx.install_dir ≡ some dir
      → last_conffile argv ctx.conf_file ≡ some file
      → (c : SwitchdContext) × (bf_switchd_main atoi v2 ctx argv ≡ parsed c)
        × (c.install_dir ≡ some dir)
        × (c.conf_file ≡ some file)
        × (c.kernel_pkt ≡ true)
  unfolding bf_switchd_main
  bf_switchd_main-files true ctx argv dir file sets at_dir at_file =
      let (c, loop, d, f) =
        option_loop-files (set_option_v2 atoi) set_option_v2-files argv ctx dir file sets at_dir
          at_file in
      (
        record c { kernel_pkt = true },
        ap with_kernel_pkt (loops-agree (set_option_v2 atoi) argv ctx ∙ loop),
        d,
        f,
        refl,
      )
  bf_switchd_main-files false ctx argv dir file sets at_dir at_file =
      let (c, loop, d, f) =
        option_loop-files (set_option atoi) set_option-files argv ctx dir file sets at_dir
          at_file in
      (record c { kernel_pkt = true }, ap with_kernel_pkt loop, d, f, refl)
