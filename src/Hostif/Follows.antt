-- ===== src/Hostif/Follows.antt =====
-- The host interfaces follow the state of their ports (switch_hostif.c, switch_port.c).
use igw_p.Prelude.{
  ℕ, ◌==◌, Bool, true, false, Option, none, some, List, [], ◌∷◌, ◌≡◌, ◌≢◌, refl, sym, ◌∙◌, ap,
  ==_iff, map, if◌then◌else◌, All,
}
use Prim.Native.String.{String}
use igw_p.Hashed.Lookup.{find_last, find_last-All, entry_get-add_all, entry_get-key}
use igw_p.Hostif.Create.{HostifInfo}
use igw_p.Hostif.Events.{
  HostifEntry, key_dev_port, hostif_entry, hostif_array_to_hash_table, hostif_hash_table_init,
  hostif_entry_get, Links, set_hostif_admin_state, switch_port_state_change, port_state_changes,
}

-- The last state that the changes give a port, and `before` where they do not name it
unfoldable pub last_change : ℕ → List (ℕ × Bool) → Option Bool → Option Bool
last_change port [] before = before
last_change port ((dev_port, up) ∷ es) before =
    last_change port es (if dev_port == port then some up else before)

-- A lookup in the table that is made at start-up, as a search of the array
pub hostif_entry_get_lem :
    (infos : List HostifInfo) (port : ℕ)
    → hostif_entry_get (hostif_hash_table_init infos) port
      ≡ find_last key_dev_port port (map hostif_entry infos)
unfolding hostif_entry_get hostif_hash_table_init hostif_array_to_hash_table
hostif_entry_get_lem infos port = entry_get-add_all key_dev_port (map hostif_entry infos) port

-- No other interface of the array has the name of this one, unless it has its port too.
abbrev pub IsOnly : HostifEntry → HostifInfo → Type 0
IsOnly e i = i.info_hostif.intf_name ≡ e.entry_intf_name → i.info_hostif.dev_port ≡ e.entry_dev_port

only-entries :
    (e : HostifEntry) (infos : List HostifInfo)
    → All (IsOnly e) infos
    → All
        (λ x. x.entry_intf_name ≡ e.entry_intf_name → x.entry_dev_port ≡ e.entry_dev_port)
        (map hostif_entry infos)
only-entries e [] only = tt
only-entries e (i ∷ infos) (here, only) = (here, only-entries e infos only)

-- The links of a kernel that grants what it is asked, where `admin` reads the state of an interface
module _ (l : Links) (admin : l.State → String → Option Bool)
    (opens : (s : l.State) → l.opens s ≡ true)
    (sets : (s : l.State) (name : String) (up : Bool)
      → (s' : l.State) × (l.set_if_flags s name up ≡ some s')
        × (admin s' name ≡ some up)
        × ((other : String) → other ≢ name → admin s' other ≡ admin s other)) where
  set_hostif_admin_state-admin :
      (s : l.State) (name : String) (up : Bool)
      → (admin (set_hostif_admin_state l name up s).0 name ≡ some up)
        × ((other : String)
            → other ≢ name
            → admin (set_hostif_admin_state l name up s).0 other ≡ admin s other)
  unfolding set_hostif_admin_state
  set_hostif_admin_state-admin s name up =
      let (s', set, here, others) = sets s name up in rw (opens s, set) (here, others)

  -- One change, by what the lookup of its port answers
  answered-admin :
      (e : HostifEntry) (o : Option HostifEntry) (port : ℕ) (up b : Bool) (s : l.State)
      → (b ≡ true → o ≡ some e)
      → (b ≡ false → (x : HostifEntry) → o ≡ some x → e.entry_intf_name ≢ x.entry_intf_name)
      → admin
          (elim o [ none ↦ s | some x ↦ (set_hostif_admin_state l x.entry_intf_name up s).0 ])
          e.entry_intf_name
        ≡ (if b then some up else admin s e.entry_intf_name)
  answered-admin e o port up true s found other =
      let there : o ≡ some e = found refl in
      rw there (set_hostif_admin_state-admin s e.entry_intf_name up).0
  answered-admin e none port up false s found other = refl
  answered-admin e (some x) port up false s found other =
      (set_hostif_admin_state-admin s x.entry_intf_name up).1 e.entry_intf_name (other refl x refl)

  -- A change of another port does not name this interface.
  named-other :
      (infos : List HostifInfo) (e x : HostifEntry) (port : ℕ)
      → All (IsOnly e) infos
      → (port == e.entry_dev_port) ≡ false
      → hostif_entry_get (hostif_hash_table_init infos) port ≡ some x
      → e.entry_intf_name ≢ x.entry_intf_name
  unfolding hostif_entry_get
  named-other infos e x port only differs found same =
      let at_port : x.entry_dev_port ≡ port =
        entry_get-key key_dev_port port (hostif_hash_table_init infos) x found in
      let here : x.entry_dev_port ≡ e.entry_dev_port =
        find_last-All key_dev_port
          (λ y. y.entry_intf_name ≡ e.entry_intf_name → y.entry_dev_port ≡ e.entry_dev_port)
          (map hostif_entry infos) port x (only-entries e infos only)
          (sym (hostif_entry_get_lem infos port) ∙ found) (sym same) in
      let equal : (port == e.entry_dev_port) ≡ true =
        (==_iff port e.entry_dev_port).1 (sym at_port ∙ here) in
      absurd (cc (equal, differs))

  change-admin :
      (infos : List HostifInfo) (e : HostifEntry) (port : ℕ) (up : Bool) (s : l.State)
      → find_last key_dev_port e.entry_dev_port (map hostif_entry infos) ≡ some e
      → All (IsOnly e) infos
      → admin
          (switch_port_state_change l (hostif_hash_table_init infos) port up s)
          e.entry_intf_name
        ≡ (if port == e.entry_dev_port then some up else admin s e.entry_intf_name)
  unfolding switch_port_state_change
  change-admin infos e port up s last only =
      answered-admin e (hostif_entry_get (hostif_hash_table_init infos) port) port up
        (port == e.entry_dev_port) s
        (λ equal.
          ap (hostif_entry_get (hostif_hash_table_init infos))
            ((==_iff port e.entry_dev_port).0 equal)
          ∙ hostif_entry_get_lem infos e.entry_dev_port
          ∙ last)
        (λ differs x found. named-other infos e x port only differs found)

  -- Over a kernel that grants what it is asked: after whatever changes of state of the ports, an
  -- interface (the last of the array on its port, and the only one with its name) is up or down as the
  -- last change of its port says, and as before if none names its port.
  pub port_state_changes-admin :
      (infos : List HostifInfo) (e : HostifEntry) (es : List (ℕ × Bool)) (s : l.State)
      → find_last key_dev_port e.entry_dev_port (map hostif_entry infos) ≡ some e
      → All (IsOnly e) infos
      → admin (port_state_changes l (hostif_hash_table_init infos) es s) e.entry_intf_name
        ≡ last_change e.entry_dev_port es (admin s e.entry_intf_name)
  unfolding port_state_changes last_change
  port_state_changes-admin infos e [] s last only = refl
  port_state_changes-admin infos e ((port, up) ∷ es) s last only =
      port_state_changes-admin infos e es
        (switch_port_state_change l (hostif_hash_table_init infos) port up s) last only
      ∙ ap (last_change e.entry_dev_port es) (change-admin infos e port up s last only)
