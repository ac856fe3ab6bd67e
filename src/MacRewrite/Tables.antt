-- ===== src/MacRewrite/Tables.antt =====
-- The table of outer MAC addresses over the BF-RT driver (bf_outer_mac_rewrite_table.c): its set-up,
-- its key and data, and the writes of perform_driver_func.
use igw_p.Prelude.{ℕ, ◌%◌, ◌^◌, Option, none, List, [], ◌∷◌, if◌then◌else◌}
use igw_p.Ether.{Mac, reverse_mac}
use igw_p.MacRewrite.{MacData, Stack, load_mac}
use igw_p.Bfrt.{BfRt, BfEntry, Setting, fill, entry_upsert}
use igw_p.Bfrt.Setup.{TableSetup, data_of, plain, with_action, entry, Step, set_up, upsert}
use Prim.Native.String.{String}

abbrev pub mac_rewrite_table : String
mac_rewrite_table = "P02_Egress.tunnel_mac_rewrite.tunnel_mac_rewrite"

abbrev pub rewrite_tunnel_mac : String
rewrite_tunnel_mac = "P02_Egress.tunnel_mac_rewrite.rewrite_tunnel_mac"

-- `mac_rewrite_table_setup`
unfoldable pub mac_rewrite_table_setup : TableSetup
mac_rewrite_table_setup = record {
  setup_table = mac_rewrite_table;
  action_names = rewrite_tunnel_mac ∷ [];
  key_names = "eg_intr_md.egress_port" ∷ [];
  data_names = data_of rewrite_tunnel_mac "smac" ∷ data_of rewrite_tunnel_mac "dmac" ∷ [];
}

-- `macRewrite_key_setup`
unfoldable pub mac_rewrite_key_setup : ℕ → List Setting
mac_rewrite_key_setup egress_port = plain "eg_intr_md.egress_port" egress_port ∷ []

-- `macRewrite_data_setup`
unfoldable pub mac_rewrite_data_setup : MacData → List Setting
mac_rewrite_data_setup v = plain "smac" v.src_mac ∷ plain "dmac" v.dst_mac ∷ []

-- What the two `memcpy` leave in `macRewrite_data`
unfoldable pub mac_data : Stack → Mac → Mac → MacData
unfolding load_mac reverse_mac
mac_data stack smac dmac = record {
  src_mac = load_mac (reverse_mac smac) stack.above_src;
  dst_mac = load_mac (reverse_mac dmac) stack.above_dst;
}

-- What `macRewrite_entry_add` hands over for a port
unfoldable pub mac_rewrite_bf_entry : Stack → ℕ → Mac → Mac → BfEntry
unfolding mac_rewrite_key_setup mac_rewrite_data_setup mac_data
mac_rewrite_bf_entry stack port smac dmac =
    entry mac_rewrite_table (mac_rewrite_key_setup (port % 2 ^ 16))
      (with_action rewrite_tunnel_mac (mac_rewrite_data_setup (mac_data stack smac dmac)))

-- `mac_rewrite_table_entry_add`, over BF-RT
unfoldable pub bf_mac_rewrite_table_entry_add :
    (d : BfRt) → Stack → d.State → ℕ → Mac → Mac → Option d.State
unfolding mac_rewrite_bf_entry
bf_mac_rewrite_table_entry_add d stack s port smac dmac =
    entry_upsert d s (mac_rewrite_bf_entry stack port smac dmac)

-- `macRewrite_entry_delete`, over the driver's delete; `none` is the return of -1.
unfoldable pub mac_rewrite_entry_delete :
    (d : BfRt) → (d.State → String → List Setting → Option d.State) → d.State → ℕ → Option d.State
unfolding mac_rewrite_key_setup fill
mac_rewrite_entry_delete d bf_entry_del s egress_port =
    if fill (d.key_field_set mac_rewrite_table) (mac_rewrite_key_setup egress_port)
    then bf_entry_del s mac_rewrite_table (mac_rewrite_key_setup egress_port)
    else none

abbrev pub test_smac : Mac
test_smac = record { b0 = 0x11; b1 = 0x22; b2 = 0x33; b3 = 0x44; b4 = 0x55; b5 = 0x66 }

abbrev pub test_dmac : Mac
test_dmac = record { b0 = 0x66; b1 = 0x55; b2 = 0x44; b3 = 0x33; b4 = 0x22; b5 = 0x11 }

abbrev pub test_dmac2 : Mac
test_dmac2 = record { b0 = 0xff; b1 = 0xee; b2 = 0xdd; b3 = 0xcc; b4 = 0xbb; b5 = 0xaa }

-- `perform_driver_func`; the stack may differ from call to call.
unfoldable pub perform_driver_func : (ℕ → Stack) → List Step
unfolding mac_rewrite_table_setup mac_rewrite_bf_entry
perform_driver_func stack =
    set_up mac_rewrite_table_setup
    ∷ upsert (mac_rewrite_bf_entry (stack 0) 142 test_smac test_dmac)
    ∷ upsert (mac_rewrite_bf_entry (stack 1) 142 test_smac test_dmac2)
    ∷ upsert (mac_rewrite_bf_entry (stack 2) 146 test_smac test_dmac)
    ∷ upsert (mac_rewrite_bf_entry (stack 3) 146 test_smac test_dmac2)
    ∷ upsert (mac_rewrite_bf_entry (stack 4) 150 test_smac test_dmac)
    ∷ []
