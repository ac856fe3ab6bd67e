-- ===== src/Hashed.antt =====
-- The three static hash tables of the program: 64 `jd_hlist` chains, an entry standing in the chain
-- of the low six bits of its key (igw-h/init_setup/include/init_setup_list.h,
-- switchlink/switchlink_route.c, switchlink/switchlink_neigh.c, switchapi/switch_hostif.c). They
-- differ in the entries and in which field is the key, the section's `key_of`.
pub mod Lookup
use igw_p.Prelude.{
  ℕ, ◌≡◌, List, [], ◌∷◌, Option, none, some, ◌==◌, if◌then◌else◌, bit_and, get_or, set, replicate,
}

-- `GW_ENTRY_HASH_TBL_SIZE`, `MAC_ENTRY_HASH_TBL_SIZE`, `HOSTIF_HASH_TBL_SIZE`
abbrev pub table_size : ℕ
table_size = 64

abbrev pub table_mask : ℕ
table_mask = 63

-- `key = k & MASK`
pub slot : ℕ → ℕ
slot k = bit_and k table_mask

abbrev pub Table {ℓ} : Type ℓ → Type ℓ
Table E = List (List E)

-- `malloc` and the loop of `JD_INIT_HLIST_HEAD`
pub init_heads {ℓ} : {E : Type ℓ} → Table E
init_heads = replicate table_size []

module _ {ℓ} {E : Type ℓ} (key_of : E → ℕ) where
  -- `jd_hlist_for_each_entry`, returning the first entry with the key
  pub chain_find : ℕ → List E → Option E
  chain_find k [] = none
  chain_find k (e ∷ es) = if key_of e == k then some e else chain_find k es

  -- `mac_entry_get`, `gw_entry_get`, `hostif_entry_get`
  pub entry_get : Table E → ℕ → Option E
  unfolding chain_find slot
  entry_get t k = chain_find k (get_or t (slot k) [])

  -- `jd_hlist_add_head` in the chain of the entry's key
  pub entry_add : E → Table E → Table E
  unfolding slot
  entry_add e t = set t (slot (key_of e)) (e ∷ get_or t (slot (key_of e)) [])

  -- A write through the pointer that `entry_get` returned, to fields other than the key
  pub chain_update : ℕ → (E → E) → List E → List E
  chain_update k f [] = []
  chain_update k f (e ∷ es) = if key_of e == k then f e ∷ es else e ∷ chain_update k f es

  pub entry_update : ℕ → (E → E) → Table E → Table E
  unfolding chain_update slot
  entry_update k f t = set t (slot k) (chain_update k f (get_or t (slot k) []))

  -- The loop that fills a table, in the order of the array
  pub add_all : List E → Table E → Table E
  add_all [] t = t
  add_all (e ∷ es) t = add_all es (entry_add e t)
