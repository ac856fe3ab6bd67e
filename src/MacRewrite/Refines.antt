-- ===== src/MacRewrite/Refines.antt =====
-- The table of outer MAC addresses over BF-RT does what a write to it promises.
use igw_p.Prelude.{
  ℕ, Bool, true, false, Option, none, some, List, [], ◌∷◌, ◌≡◌, ◌≢◌, refl, sym, ◌∙◌, ap, ◌==◌,
  if◌then◌else◌, ==_iff,
}
use Prim.Native.String.{String}
use native.Mathlib.Decide.{ℕ_discrete}
use igw_p.Ether.{Mac}
use igw_p.MacRewrite.{MacData, MacHw, Stack}
use package.text.Mathlib.Text.{◌==◌ as str_eq}
use igw_p.MacRewrite.Tables.{
  rewrite_tunnel_mac, mac_rewrite_table, mac_rewrite_table_setup, mac_rewrite_key_setup,
  mac_rewrite_data_setup, mac_data, mac_rewrite_bf_entry, mac_rewrite_entry_delete,
  perform_driver_func, test_smac, test_dmac, test_dmac2,
}
use igw_p.Bfrt.{
  BfRt, BfData, Setting, Value, exact, with_mask, bytes_with_mask, array, bool_array, boolean, text,
  IsFaithful,
}
use igw_p.Bfrt.Setup.{same_action, run, resolves}
use igw_p.Bfrt.Keys.{is_key}
use igw_p.Bfrt.Install.{holds_after, written, run-holds_after, then_some}

-- The entry as the pipeline reads it: the action, and its parameters by name
number_of : Value → Option ℕ
number_of (exact n) = some n
number_of (with_mask n m) = none
number_of (bytes_with_mask ns ms) = none
number_of (array ns) = none
number_of (bool_array bs) = none
number_of (boolean b) = none
number_of (text s) = none

parameter : String → List Setting → Option ℕ
parameter name [] = none
parameter name (x ∷ xs) = if str_eq x.field name then number_of x.setting else parameter name xs

both : Option ℕ → Option ℕ → Option MacData
both (some smac) (some dmac) = some (record { src_mac = smac; dst_mac = dmac })
both none dmac = none
both (some smac) none = none

decode : Option BfData → Option MacData
decode none = none
decode (some v) =
    if same_action v.bf_action (some rewrite_tunnel_mac)
    then both (parameter "smac" v.fields) (parameter "dmac" v.fields)
    else none

agree : (a b : Bool) → (a ≡ true → b ≡ true) → (b ≡ true → a ≡ true) → a ≡ b
agree true true f g = refl
agree true false f g = sym (f refl)
agree false true f g = g refl
agree false false f g = refl

first-port : (a b : ℕ) → mac_rewrite_key_setup a ≡ mac_rewrite_key_setup b → a ≡ b
unfolding mac_rewrite_key_setup
first-port a b e = cc e

by_cases :
    (b : Bool) (x o : Option MacData)
    → (b ≡ true → x ≡ none)
    → (b ≡ false → x ≡ o)
    → x ≡ (if b then none else o)
by_cases true x o f g = f refl
by_cases false x o f g = g refl

module _ (d : BfRt) (read : d.State → String → List Setting → Option BfData) where
  -- What the table holds, as addresses by egress port
  pub macs_of : d.State → MacHw
  macs_of s port = decode (read s mac_rewrite_table (mac_rewrite_key_setup port))

  -- Over a driver that does what it documents: if perform_driver_func goes through, the ports 142 and
  -- 146 have the addresses of their second write, and port 150 has those of its only one.
  pub perform_driver_func_lem :
      (stack : ℕ → Stack) (s s' : d.State)
      → IsFaithful d read
      → run d s (perform_driver_func stack) ≡ some s'
      → (macs_of s' 142 ≡ some (mac_data (stack 1) test_smac test_dmac2))
        × (macs_of s' 146 ≡ some (mac_data (stack 3) test_smac test_dmac2))
        × (macs_of s' 150 ≡ some (mac_data (stack 4) test_smac test_dmac))
  unfolding perform_driver_func macs_of decode both parameter number_of same_action mac_data
      mac_rewrite_bf_entry mac_rewrite_data_setup mac_rewrite_key_setup written holds_after is_key
      mac_rewrite_table_setup ℕ_discrete
  perform_driver_func_lem stack s s' f h =
      let at : (port : ℕ)
          → macs_of s' port
            ≡ decode (
                holds_after (perform_driver_func stack) mac_rewrite_table
                  (mac_rewrite_key_setup port)
                  (read s mac_rewrite_table (mac_rewrite_key_setup port))) =
        λ port. ap decode (
          run-holds_after d read f s s' (perform_driver_func stack) mac_rewrite_table
            (mac_rewrite_key_setup port) h) in
      (at 142, at 146, at 150)

  -- Over a driver whose delete takes the key out of its table and leaves the other keys: an accepted
  -- delete empties the port's entry, and no other.
  mac_rewrite_entry_delete-empties :
      (bf_entry_del : d.State → String → List Setting → Option d.State) (s s' : d.State)
      (egress_port port : ℕ)
      → ((x x' : d.State) (t : String) (k : List Setting)
          → bf_entry_del x t k ≡ some x'
          → (read x' t k ≡ none) × ((j : List Setting) → j ≢ k → read x' t j ≡ read x t j))
      → mac_rewrite_entry_delete d bf_entry_del s egress_port ≡ some s'
      → macs_of s' port ≡ (if egress_port == port then none else macs_of s port)
  unfolding mac_rewrite_entry_delete macs_of decode
  mac_rewrite_entry_delete-empties bf_entry_del s s' egress_port port documented h =
      let (gone, others) =
        documented s s' mac_rewrite_table (mac_rewrite_key_setup egress_port)
          (then_some _ _ s' h) in
      by_cases (egress_port == port) (macs_of s' port) (macs_of s port)
        (λ h.
          let here : egress_port ≡ port = (==_iff egress_port port).0 h in
          ap (macs_of s') (sym here) ∙ ap decode gone)
        (λ h. ap decode (
          others (mac_rewrite_key_setup port) (λ e.
            let differs : (egress_port == port) ≡ true =
              (==_iff egress_port port).1 (sym (first-port port egress_port e)) in
            absurd (cc (differs, h)))))

-- The set-up resolves every name that a write uses.
pub mac_rewrite_table_setup-resolves :
    (stack : Stack) (port : ℕ) (smac dmac : Mac)
    → resolves mac_rewrite_table_setup (mac_rewrite_bf_entry stack port smac dmac) ≡ true
unfolding resolves mac_rewrite_table_setup mac_rewrite_bf_entry mac_rewrite_key_setup
    mac_rewrite_data_setup
mac_rewrite_table_setup-resolves stack port smac dmac = refl
