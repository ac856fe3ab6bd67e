-- ===== src/MacRewrite.antt =====
-- The table that rewrites the outer MAC addresses, by egress port
-- (igw-h/init_setup/switchbfrt/bf_outer_mac_rewrite_table.c).
--
-- The BF-RT driver is a parameter: what it does to the table's contents and which calls it refuses.
-- `srcMac` and `dstMac` are `uint64_t` of which the code writes six bytes and leaves two as they are
-- on the stack: those two bytes are the arguments `Stack`.
pub mod Laws
pub mod Tables
pub mod Refines
mod Examples
use igw_p.Prelude.{
  ℕ, ◌+◌, ◌*◌, ◌%◌, ◌^◌, Bool, true, false, ◌&&◌, Option, none, some, if◌then◌else◌, ◌≡◌, ◌==◌, not,
}
use igw_p.Ether.{Mac, reverse_mac}

-- `macWrite_actionData`
pub record MacData : Type 0 where
  pub src_mac : ℕ
  pub dst_mac : ℕ

abbrev pub MacHw : Type 0
MacHw = ℕ → Option MacData

-- `bf_rt_key_field_set_value`, `bf_rt_data_field_set_value`, and the table's get, add and modify.
-- `none` and `false` are a status other than BF_SUCCESS.
pub record MacDriver : Type 0 where
  pub key_set : ℕ → Bool
  pub data_set : ℕ → Bool
  pub entry_get : MacHw → ℕ → Bool
  pub entry_add : MacHw → ℕ → MacData → Option MacHw
  pub entry_mod : MacHw → ℕ → MacData → Option MacHw

-- What the driver documents: an accepted add or modify writes the entry of its key and no other.
pub record IsDocumented (d : MacDriver) : Type 0 where
  pub add_writes :
      (hw hw' : MacHw) (k j : ℕ) (v : MacData)
      → d.entry_add hw k v ≡ some hw'
      → hw' j ≡ (if k == j then some v else hw j)
  pub mod_writes :
      (hw hw' : MacHw) (k j : ℕ) (v : MacData)
      → d.entry_mod hw k v ≡ some hw'
      → hw' j ≡ (if k == j then some v else hw j)

-- The two bytes above each address, as numbers below 2 ^ 16
pub record Stack : Type 0 where
  pub above_src : ℕ
  pub above_dst : ℕ

-- `memcpy` of six bytes into the low end of a little-endian `uint64_t`
pub load_mac : Mac → ℕ → ℕ
load_mac m above =
    m.b0
    + m.b1 * 2 ^ 8
    + m.b2 * 2 ^ 16
    + m.b3 * 2 ^ 24
    + m.b4 * 2 ^ 32
    + m.b5 * 2 ^ 40
    + above * 2 ^ 48

-- `macRewrite_entry_find`, true where it returns 0
unfoldable pub mac_rewrite_entry_find : MacDriver → MacHw → ℕ → Bool
mac_rewrite_entry_find d hw egress_port = d.key_set egress_port && d.entry_get hw egress_port

-- `macRewrite_entry_add`; `none` is the return of -1
unfoldable pub mac_rewrite_entry_add : MacDriver → MacHw → ℕ → MacData → Bool → Option MacHw
mac_rewrite_entry_add d hw egress_port v add =
    if d.key_set egress_port && (d.data_set v.src_mac && d.data_set v.dst_mac)
    then (if add then d.entry_add hw egress_port v else d.entry_mod hw egress_port v)
    else none

-- `mac_rewrite_table_entry_add`: modify the port's entry if there is one, else add it. The parameter
-- `egress_port` is a `uint16_t`.
unfoldable pub mac_rewrite_table_entry_add :
    MacDriver → Stack → MacHw → ℕ → Mac → Mac → Option MacHw
unfolding load_mac mac_rewrite_entry_find mac_rewrite_entry_add reverse_mac
mac_rewrite_table_entry_add d stack hw port smac dmac =
    let egress_port = port % 2 ^ 16 in
    let v : MacData = record {
      src_mac = load_mac (reverse_mac smac) stack.above_src;
      dst_mac = load_mac (reverse_mac dmac) stack.above_dst;
    } in
    mac_rewrite_entry_add d hw egress_port v (not (mac_rewrite_entry_find d hw egress_port))
