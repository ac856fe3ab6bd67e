-- ===== src/Bfrt.antt =====
-- The tables of the switch as the wrappers of igw-h/init_setup/switchbfrt see them: how a set-up
-- resolves the names of a table, and how an entry is filled in, added, modified and looked for.
--
-- Every wrapper file has the same four parts, which differ in names only: `.._table_setup` is a
-- TableSetup, `.._key_setup` and `data_setup_..` are the settings that they make, in order, and the
-- `entry_add` is an entry that `entry_write` performs. A setting names its field by the name that the
-- set-up resolved for the static that the C code passes. The BF-RT driver is a parameter.
pub mod Setup
pub mod Ecmp
pub mod Eip
pub mod IpTypeTable
pub mod PacketTable
pub mod Mirror
pub mod JdVxlan
pub mod Startup
pub mod Keys
pub mod Install
pub mod Adds
pub mod Started
pub mod Sorts
pub mod Upserts
pub mod Copies
pub mod Resolve
pub mod Resolved
pub mod Store
mod Examples
use igw_p.Prelude.{
  ℕ, Bool, true, false, ◌&&◌, Option, none, some, List, [], ◌∷◌, if◌then◌else◌, ◌≡◌,
}
use Prim.Native.String.{String}

-- What `bf_rt_*_field_set_value`, `.._and_mask`, `.._and_mask_ptr`, `.._array`, `.._bool_array`,
-- `set_bool` and `set_string` hand over
pub data Value : Type 0 where
  exact : ℕ → Value
  with_mask : ℕ → ℕ → Value
  bytes_with_mask : List ℕ → List ℕ → Value
  array : List ℕ → Value
  bool_array : List Bool → Value
  boolean : Bool → Value
  text : String → Value

pub record Setting : Type 0 where
  pub field : String
  pub setting : Value

abbrev pub set_field : String → Value → Setting
set_field f v = record { field = f; setting = v }

-- A data object: the action it was reset to, if any, and what was set in it
pub record BfData : Type 0 where
  pub bf_action : Option String
  pub fields : List Setting

pub record BfEntry : Type 0 where
  pub table : String
  pub bf_key : List Setting
  pub bf_data : BfData

-- The driver; `false` and `none` are a status other than BF_SUCCESS. What a table holds is in `State`.
pub record BfRt : Type 1 where
  pub State : Type 0
  pub table_from_name_get : String → Bool
  pub action_name_to_id : String → String → Bool
  pub key_field_id_get : String → String → Bool
  pub data_field_id_get : String → Option String → String → Bool
  pub key_allocate : String → Bool
  pub data_allocate : String → Bool
  pub key_field_set : String → Setting → Bool
  pub data_field_set : String → Option String → Setting → Bool
  pub bf_entry_add : State → BfEntry → Option State
  pub bf_entry_mod : State → BfEntry → Option State
  pub bf_entry_get : State → String → List Setting → Bool

-- What the driver documents of its tables. `read` is what a table holds under a key. An add is
-- refused if the key is there already, a modify if it is not; an accepted one writes that key only.
pub record IsFaithful (d : BfRt) (read : d.State → String → List Setting → Option BfData)
    : Type 0 where
  pub add_absent :
      (s s' : d.State) (e : BfEntry) → d.bf_entry_add s e ≡ some s' → read s e.table e.bf_key ≡ none
  pub add_reads :
      (s s' : d.State) (e : BfEntry)
      → d.bf_entry_add s e ≡ some s'
      → read s' e.table e.bf_key ≡ some e.bf_data
  pub add_others :
      (s s' : d.State) (e : BfEntry) (t : String) (k : List Setting)
      → d.bf_entry_add s e ≡ some s'
      → ¬ ((t ≡ e.table) × (k ≡ e.bf_key))
      → read s' t k ≡ read s t k
  pub mod_reads :
      (s s' : d.State) (e : BfEntry)
      → d.bf_entry_mod s e ≡ some s'
      → read s' e.table e.bf_key ≡ some e.bf_data
  pub mod_others :
      (s s' : d.State) (e : BfEntry) (t : String) (k : List Setting)
      → d.bf_entry_mod s e ≡ some s'
      → ¬ ((t ≡ e.table) × (k ≡ e.bf_key))
      → read s' t k ≡ read s t k
  pub get_found :
      (s : d.State) (t : String) (k : List Setting) (v : BfData)
      → read s t k ≡ some v
      → d.bf_entry_get s t k ≡ true
  pub get_missing :
      (s : d.State) (t : String) (k : List Setting)
      → read s t k ≡ none
      → d.bf_entry_get s t k ≡ false

-- The settings in order, up to the first that is refused: then the `.._setup` returns -1.
unfoldable pub fill : (Setting → Bool) → List Setting → Bool
fill set [] = true
fill set (x ∷ xs) = set x && fill set xs

-- The body of an `entry_add`: fill in the key and the data, then add or modify; `none` is the return
-- of -1.
unfoldable pub entry_write : (d : BfRt) → d.State → BfEntry → Bool → Option d.State
unfolding fill
entry_write d s e add =
    if fill (d.key_field_set e.table) e.bf_key
      && fill (d.data_field_set e.table e.bf_data.bf_action) e.bf_data.fields
    then (if add then d.bf_entry_add s e else d.bf_entry_mod s e)
    else none

-- `protocol_packet_entry_find`, true where it returns 0
unfoldable pub entry_find : (d : BfRt) → d.State → BfEntry → Bool
unfolding fill
entry_find d s e = fill (d.key_field_set e.table) e.bf_key && d.bf_entry_get s e.table e.bf_key

-- Modify the entry if it is found, else add it.
unfoldable pub entry_upsert : (d : BfRt) → d.State → BfEntry → Option d.State
unfolding entry_find entry_write
entry_upsert d s e = entry_write d s e (if entry_find d s e then false else true)
