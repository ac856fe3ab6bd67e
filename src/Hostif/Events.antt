-- ===== src/Hostif/Events.antt =====
-- The lookup of host interfaces by device port, and what a port's change of state does to its
-- interface (igw-h/init_setup/switchapi/switch_hostif.c: hostif_hash_table_init, hostif_entry_get,
-- set_hostif_admin_state; switch_port.c: switch_port_state_change).
use igw_p.Prelude.{ℕ, Bool, true, false, Option, none, some, List, [], ◌∷◌, map, if◌then◌else◌}
use Prim.Native.String.{String}
use igw_p.Hashed.{Table, init_heads, entry_get, add_all}
use igw_p.Hostif.Create.{HostifInfo}

-- `hostif_entry_t`
pub record HostifEntry : Type 0 where
  pub entry_intf_name : String
  pub entry_dev_port : ℕ
  pub entry_fp_port : ℕ

abbrev pub key_dev_port : HostifEntry → ℕ
key_dev_port e = e.entry_dev_port

abbrev pub hostif_entry : HostifInfo → HostifEntry
hostif_entry i = record {
  entry_intf_name = i.info_hostif.intf_name;
  entry_dev_port = i.info_hostif.dev_port;
  entry_fp_port = i.info_hostif.fp_port;
}

unfoldable pub hostif_array_to_hash_table : List HostifInfo → Table HostifEntry → Table HostifEntry
hostif_array_to_hash_table infos t = add_all key_dev_port (map hostif_entry infos) t

unfoldable pub hostif_hash_table_init : List HostifInfo → Table HostifEntry
unfolding hostif_array_to_hash_table
hostif_hash_table_init infos = hostif_array_to_hash_table infos init_heads

unfoldable pub hostif_entry_get : Table HostifEntry → ℕ → Option HostifEntry
hostif_entry_get t dev_port = entry_get key_dev_port t dev_port

-- The kernel's links: whether a socket can be opened, and the `ioctl` SIOCSIFFLAGS that takes an
-- interface up or down; `none` where it is refused.
pub record Links : Type 1 where
  pub State : Type 0
  pub opens : State → Bool
  pub set_if_flags : State → String → Bool → Option State

module _ (l : Links) where
  unfoldable pub set_hostif_admin_state : String → Bool → l.State → l.State × Bool
  set_hostif_admin_state name up s =
      if l.opens s
      then (elim (l.set_if_flags s name up) [ none ↦ (s, false) | some s' ↦ (s', true) ])
      else (s, false)

  -- The callback; what it logs is left out.
  unfoldable pub switch_port_state_change : Table HostifEntry → ℕ → Bool → l.State → l.State
  unfolding set_hostif_admin_state
  switch_port_state_change t dev_port up s = elim (hostif_entry_get t dev_port) [
    | none ↦ s
    | some e ↦ (set_hostif_admin_state e.entry_intf_name up s).0
  ]

  -- The driver's calls of the callback, one after the other
  unfoldable pub port_state_changes : Table HostifEntry → List (ℕ × Bool) → l.State → l.State
  port_state_changes t [] s = s
  port_state_changes t ((dev_port, up) ∷ es) s =
      port_state_changes t es (switch_port_state_change t dev_port up s)
