-- ===== src/MacRewrite/Examples.antt =====
-- A write of two addresses into the tables of a driver that keeps them as a function.
use igw_p.Prelude.{Bool, true, false, Option, none, some, ◌≡◌, refl}
use igw_p.MacRewrite.{Stack}
use igw_p.MacRewrite.Tables.{test_smac, test_dmac, mac_rewrite_bf_entry, perform_driver_func}
use igw_p.Bfrt.Setup.{run}
use igw_p.Bfrt.Keys.{is_key}
use igw_p.Bfrt.Store.{Store, empty, put, store}
use native.Mathlib.Decide.{ℕ_discrete}

abbrev stack : Stack
stack = record { above_src = 0xBEEF; above_dst = 1 }

abbrev after : Store
after = put empty (mac_rewrite_bf_entry stack 142 test_smac test_dmac)

is_some : Option Store → Bool
is_some none = false
is_some (some s) = true

-- perform_driver_func goes through: it adds three entries and modifies two.
performed : is_some (run store empty (perform_driver_func (λ n. stack))) ≡ true
unfolding run perform_driver_func is_some is_key ℕ_discrete
performed = refl
