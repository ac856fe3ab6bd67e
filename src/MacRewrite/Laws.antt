-- ===== src/MacRewrite/Laws.antt =====
-- What a write to the MAC rewrite table leaves there.
use igw_p.Prelude.{ℕ, ◌+◌, ◌*◌, ◌%◌, ◌^◌, Bool, true, false, some, if◌then◌else◌, ◌≡◌, ◌==◌, arith}
use igw_p.Ether.{Mac}
use igw_p.MacRewrite.{
  MacData, MacHw, MacDriver, IsDocumented, Stack, mac_rewrite_entry_add,
  mac_rewrite_table_entry_add,
}

-- The address as the number that its six bytes write, first byte highest.
abbrev pub mac_number : Mac → ℕ
mac_number m = m.b0 * 2 ^ 40 + m.b1 * 2 ^ 32 + m.b2 * 2 ^ 24 + m.b3 * 2 ^ 16 + m.b4 * 2 ^ 8 + m.b5

-- The two addresses in the low 48 bits of an entry
pub record HoldsMacs (v : MacData) (smac dmac : Mac) : Type 0 where
  pub src : (above : ℕ) × (v.src_mac ≡ mac_number smac + above * 2 ^ 48)
  pub dst : (above : ℕ) × (v.dst_mac ≡ mac_number dmac + above * 2 ^ 48)

-- What an accepted write does: the port's entry, and it alone, holds the two addresses.
pub record Rewrites (hw hw' : MacHw) (port : ℕ) (smac dmac : Mac) : Type 0 where
  pub entry : MacData
  pub holds : HoldsMacs entry smac dmac
  pub reads : (j : ℕ) → hw' j ≡ (if port % 2 ^ 16 == j then some entry else hw j)

mac_rewrite_entry_add-writes :
    (d : MacDriver)
    → IsDocumented d
    → (hw hw' : MacHw) (k : ℕ) (v : MacData) (add : Bool)
    → mac_rewrite_entry_add d hw k v add ≡ some hw'
    → (j : ℕ) → hw' j ≡ (if k == j then some v else hw j)
unfolding mac_rewrite_entry_add
mac_rewrite_entry_add-writes d doc hw hw' k v true h j = doc.add_writes hw hw' k j v (ground arith)
mac_rewrite_entry_add-writes d doc hw hw' k v false h j = doc.mod_writes hw hw' k j v (ground arith)

-- An accepted write, over a driver that does what it documents, leaves in the port's entry the
-- source and destination addresses as 48-bit numbers, first byte highest, under whatever the two
-- upper bytes were, and changes no other entry.
pub mac_rewrite_table_entry_add-Rewrites :
    (d : MacDriver) (stack : Stack) (hw hw' : MacHw) (port : ℕ) (smac dmac : Mac)
    → IsDocumented d
    → mac_rewrite_table_entry_add d stack hw port smac dmac ≡ some hw'
    → Rewrites hw hw' port smac dmac
unfolding mac_rewrite_table_entry_add
mac_rewrite_table_entry_add-Rewrites d stack hw hw' port smac dmac doc h = record {
  entry = _;
  holds = record { src = (stack.above_src, omega arith); dst = (stack.above_dst, omega arith) };
  reads = mac_rewrite_entry_add-writes d doc hw hw' (port % 2 ^ 16) _ _ h;
}
