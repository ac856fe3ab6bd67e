-- ===== src/Bfrt/Sorts.antt =====
-- The table that sorts packets once the start-up of main.c (igw-h/init_setup) has filled it, read by
-- the names of its fields and actions in the P4 program.
use igw_p.Prelude.{
  ℕ, Option, none, some, List, [], ◌∷◌, map, ◌≡◌, refl, inr, get_elem?, if◌then◌else◌,
}
use Prim.Native.String.{String}
use package.text.Mathlib.Text.{◌==◌ as str_eq}
use igw_p.IpType.{
  Ternary, IgwIpTypeKey, Action, ip_from_internet_in_hit, ip_from_internet_in_dl_hit,
  ip_from_internet_out_hit, ip_from_internet_out_dl_hit, need_drop, Entry,
}
use igw_p.IpType.Table.{igw_ip_type_table_init}
use igw_p.Bfrt.{BfRt, BfData, Setting, Value, exact, with_mask, bytes_with_mask, text, IsFaithful}
use igw_p.Bfrt.Setup.{run}
use igw_p.Bfrt.IpTypeTable.{igw_ip_type_key_setup, entry_of, ip_type_steps, ip_type_step}
use igw_p.Bfrt.Mirror.{mirror_table_init}
use igw_p.Bfrt.Startup.{StartCfg, start_up}
use igw_p.Bfrt.Adds.{Occurs, Occurs-append_left, Occurs-append_right, Occurs-map}
use igw_p.Bfrt.Started.{start_up-installs}

-- What stands under a name
unfoldable pub setting_of : String → List Setting → Option Value
setting_of name [] = none
setting_of name (x ∷ xs) = if str_eq x.field name then some x.setting else setting_of name xs

unfoldable pub hit : (ℕ → Action) → Option Value → Option Action
hit action (some (exact pipeline)) = some (action pipeline)
hit action v = none

unfoldable pub action_named : String → Option Value → Option Action
action_named name v =
    if str_eq name "P02_Ingress.igw_ip_type.ip_from_internet_in_hit"
    then hit ip_from_internet_in_hit v
    else if str_eq name "P02_Ingress.igw_ip_type.ip_from_internet_in_dl_hit"
    then hit ip_from_internet_in_dl_hit v
    else if str_eq name "P02_Ingress.igw_ip_type.ip_from_internet_out_hit"
    then hit ip_from_internet_out_hit v
    else if str_eq name "P02_Ingress.igw_ip_type.ip_from_internet_out_dl_hit"
    then hit ip_from_internet_out_dl_hit v
    else if str_eq name "P02_Ingress.igw_ip_type.need_drop"
    then some need_drop
    else none

-- The action of an entry, with its parameter read by name
unfoldable pub action_of : BfData → Option Action
action_of v = elim v.bf_action [
  | none ↦ none
  | some name ↦ action_named name (setting_of "egr_pipeline" v.fields)
]

-- A ternary field under a name of the key
abbrev HasTernary : List Setting → String → Ternary → Type 0
HasTernary k name t = setting_of name k ≡ some (with_mask t.value t.mask)

-- A key and data of the driver that say what an entry says
pub record SaysEntry (k : List Setting) (v : BfData) (e : Entry) : Type 0 where
  pub action : action_of v ≡ some e.action
  pub priority : setting_of "$MATCH_PRIORITY" k ≡ some (exact e.key.priority)
  pub ipv4 :
      HasTernary k "hdr.ipv4.$valid" e.key.ipv4_isvalid
      × HasTernary k "hdr.ipv4.dstAddr" e.key.ipv4_dstaddr
  pub inner_ipv4 :
      HasTernary k "hdr.inner_ipv4.$valid" e.key.inner_ipv4_isvalid
      × HasTernary k "hdr.inner_ipv4.dstAddr" e.key.inner_ipv4_dstaddr
  pub inner_ipv6 :
      HasTernary k "hdr.inner_ipv6.$valid" e.key.inner_ipv6_isvalid
      × HasTernary k "inner_ipv6_dstaddr" e.key.inner_ipv6_dstaddr
      × HasTernary k "inner_ipv6_srcaddr" e.key.inner_ipv6_srcaddr
  pub vxlan :
      HasTernary k "hdr.vxlan.$valid" e.key.vxlan_isvalid
      × HasTernary k "meta.tunnel.vxlan_type" e.key.vxlan_type
      × HasTernary k "hdr.vxlan.tof" e.key.vxlan_tof
  pub ipv6 :
      HasTernary k "hdr.ipv6.$valid" e.key.ipv6_isvalid
      × (setting_of "hdr.ipv6.dstAddr" k
          ≡ some (
              bytes_with_mask
                (map (λ t. t.value) e.key.ipv6_dstaddr)
                (map (λ t. t.mask) e.key.ipv6_dstaddr)))

entry_of-action : (k : IgwIpTypeKey) (a : Action) → action_of (entry_of k a).bf_data ≡ some a
unfolding entry_of action_of action_named setting_of hit
entry_of-action k (ip_from_internet_in_hit p) = refl
entry_of-action k (ip_from_internet_in_dl_hit p) = refl
entry_of-action k (ip_from_internet_out_hit p) = refl
entry_of-action k (ip_from_internet_out_dl_hit p) = refl
entry_of-action k need_drop = refl

entry_of-key : (k : IgwIpTypeKey) (a : Action) → (entry_of k a).bf_key ≡ igw_ip_type_key_setup k
unfolding entry_of
entry_of-key k (ip_from_internet_in_hit p) = refl
entry_of-key k (ip_from_internet_in_dl_hit p) = refl
entry_of-key k (ip_from_internet_out_hit p) = refl
entry_of-key k (ip_from_internet_out_dl_hit p) = refl
entry_of-key k need_drop = refl

entry_of-table :
    (k : IgwIpTypeKey) (a : Action) → (entry_of k a).table ≡ "P02_Ingress.igw_ip_type.igw_ip_type"
unfolding entry_of
entry_of-table k (ip_from_internet_in_hit p) = refl
entry_of-table k (ip_from_internet_in_dl_hit p) = refl
entry_of-table k (ip_from_internet_out_hit p) = refl
entry_of-table k (ip_from_internet_out_dl_hit p) = refl
entry_of-table k need_drop = refl

entry_of-SaysEntry :
    (e : Entry) → SaysEntry (igw_ip_type_key_setup e.key) (entry_of e.key e.action).bf_data e
unfolding igw_ip_type_key_setup setting_of
entry_of-SaysEntry e = record {
  action = entry_of-action e.key e.action;
  priority = refl;
  ipv4 = (refl, refl);
  inner_ipv4 = (refl, refl);
  inner_ipv6 = (refl, refl, refl);
  vxlan = (refl, refl, refl);
  ipv6 = (refl, refl);
}

module _ (d : BfRt) (read : d.State → String → List Setting → Option BfData)
    (f : IsFaithful d read) where
  -- Over a driver that does what it documents: if the start-up goes through, the packet-sorting table
  -- holds, for every entry of igw_ip_type_table_init, an entry that says the same to the P4 program:
  -- read by name, its action and pipeline, its priority, and the value and mask of each of its fields.
  pub start_up-sorts :
      (s s' : d.State) (cfg : StartCfg) (n : ℕ) (e : Entry)
      → run d s (start_up cfg) ≡ some s'
      → get_elem? (igw_ip_type_table_init cfg.ip_cfg) n ≡ some e
      → (k : List Setting) × (v : BfData) × (read s' "P02_Ingress.igw_ip_type.igw_ip_type" k
          ≡ some v)
        × SaysEntry k v e
  unfolding start_up ip_type_steps ip_type_step Occurs
  start_up-sorts s s' cfg n e h g =
      let there = start_up-installs d read f s s' cfg (entry_of e.key e.action) h (
        Occurs-append_right _ (mirror_table_init cfg.hardware_model) _ (
          Occurs-append_left _ (ip_type_steps cfg.ip_cfg) _ (
            inr (
              Occurs-append_left _ (map ip_type_step (igw_ip_type_table_init cfg.ip_cfg)) _
                (Occurs-map ip_type_step (igw_ip_type_table_init cfg.ip_cfg) n e g))))) in
      (
        igw_ip_type_key_setup e.key,
        (entry_of e.key e.action).bf_data,
        rw (entry_of-table e.key e.action, entry_of-key e.key e.action) at there,
        entry_of-SaysEntry e,
      )
