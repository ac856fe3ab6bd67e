-- ===== src/Neigh.antt =====
-- Neighbour messages (igw-h/init_setup/switchlink/switchlink_neigh.c): the table of MAC rewrite
-- entries, one for each host interface, and what RTM_NEWNEIGH does to it and to the hardware table.
--
-- The attributes of a message enter decoded: NDA_DST with its address in host order, NDA_LLADDR
-- with its six bytes. Of two attributes of one type `parse_rtattr_flags` keeps the first.
pub mod Coherence
pub mod Messages
pub mod Examples
use igw_p.Prelude.{
  ◌-◌, ℕ, ◌+◌, ◌%◌, ◌^◌, Bool, true, false, ◌&&◌, ◌||◌, not, List, [], ◌∷◌, Option, none, some, ltb,
  leb, ◌==◌, if◌then◌else◌,
}
use Prim.Native.String.{String}
use igw_p.Ether.{Mac, zero_mac, mac_eq, is_valid_ether_addr}
use igw_p.Hashed.{Table, init_heads, entry_get, entry_add, entry_update}
use igw_p.Hostif.{Hostif}
use igw_p.MacRewrite.{MacHw, MacDriver, Stack, mac_rewrite_table_entry_add}

-- `mac_rewrite_entry_t`
pub record MacRewriteEntry : Type 0 where
  pub entry_name : String
  pub ifindex : ℕ
  pub smac : Mac
  pub dmac : Mac
  pub hostif_ip : ℕ
  pub entry_gw_ip : ℕ
  pub entry_dev_port : ℕ
  pub valid : Bool

abbrev pub key_ifindex : MacRewriteEntry → ℕ
key_ifindex e = e.ifindex

-- `mac_entry_get`
unfoldable pub mac_entry_get : Table MacRewriteEntry → ℕ → Option MacRewriteEntry
mac_entry_get = entry_get key_ifindex

pub mac_entry : Hostif → ℕ → MacRewriteEntry
mac_entry h index = record {
  entry_name = h.intf_name;
  ifindex = index;
  smac = h.mac;
  dmac = zero_mac;
  hostif_ip = h.v4addr_ip4;
  entry_gw_ip = h.gw_ip;
  entry_dev_port = h.dev_port;
  valid = false;
}

-- `hostif_array_to_mac_entry_table` over `if_nametoindex`; `none` is the panic on its 0.
unfoldable pub hostif_array_to_mac_entry_table :
    (String → ℕ) → List Hostif → Table MacRewriteEntry → Option (Table MacRewriteEntry)
unfolding mac_entry
hostif_array_to_mac_entry_table if_nametoindex [] t = some t
hostif_array_to_mac_entry_table if_nametoindex (h ∷ hs) t =
    let rest =
      hostif_array_to_mac_entry_table if_nametoindex hs
        (entry_add key_ifindex (mac_entry h (if_nametoindex h.intf_name)) t) in
    if if_nametoindex h.intf_name == 0 then none else rest

-- `neigh_system_init`, after `mac_rewrite_table_setup`
unfoldable pub neigh_system_init : (String → ℕ) → List Hostif → Option (Table MacRewriteEntry)
neigh_system_init if_nametoindex hs = hostif_array_to_mac_entry_table if_nametoindex hs init_heads

abbrev pub rtm_newneigh : ℕ
rtm_newneigh = 28

abbrev pub af_inet : ℕ
af_inet = 2

-- `NLMSG_LENGTH(sizeof(struct ndmsg))`
abbrev pub ndmsg_length : ℕ
ndmsg_length = 28

pub data NdAttr : Type 0 where
  nda_dst : ℕ → NdAttr
  nda_lladdr : Mac → NdAttr
  nda_other : NdAttr

pub record NeighMsg : Type 0 where
  pub nlmsg_type : ℕ
  pub nlmsg_len : ℕ
  pub ndm_family : ℕ
  pub ndm_ifindex : ℕ
  pub attrs : List NdAttr

-- `parse_rtattr_flags`, read at the two types that are used
pub first_dst : List NdAttr → Option ℕ
first_dst [] = none
first_dst (nda_dst ip ∷ as') = some ip
first_dst (nda_lladdr m ∷ as') = first_dst as'
first_dst (nda_other ∷ as') = first_dst as'

pub first_lladdr : List NdAttr → Option Mac
first_lladdr [] = none
first_lladdr (nda_lladdr m ∷ as') = some m
first_lladdr (nda_dst ip ∷ as') = first_lladdr as'
first_lladdr (nda_other ∷ as') = first_lladdr as'

pub record NeighState : Type 0 where
  pub table : Table MacRewriteEntry
  pub hw : MacHw

-- `len -= NLMSG_LENGTH(..); if (len < 0) return`: the difference, modulo 2 ^ 32, as an `int`
pub too_short : ℕ → Bool
too_short nlmsg_len = leb (2 ^ 31) ((nlmsg_len + (2 ^ 32 - ndmsg_length)) % 2 ^ 32)

-- The checks on the two attributes; `none` is one of the early returns.
wanted_mac : MacRewriteEntry → Option ℕ → Option Mac → Option Mac
wanted_mac e (some ip) (some m) =
    if e.entry_gw_ip == ip then (if is_valid_ether_addr m then some m else none) else none
wanted_mac e none lladdr = none
wanted_mac e (some ip) none = none

-- `need_write_flag`
pub need_write : MacRewriteEntry → Mac → Bool
need_write e m = if e.valid then not (mac_eq e.dmac m) else true

pub learn : Mac → MacRewriteEntry → MacRewriteEntry
learn m e = record e { dmac = m; valid = true }

module _ (d : MacDriver) (stack : Stack) where
  -- From the test of `need_write_flag` on
  write_neigh : MacRewriteEntry → Mac → NeighState → NeighState
  unfolding need_write learn
  write_neigh e m s =
      if need_write e m
      then elim (mac_rewrite_table_entry_add d stack s.hw e.entry_dev_port e.smac m) [
        | none ↦ s
        | some hw' ↦ record {
          table = entry_update key_ifindex e.ifindex (learn m) s.table;
          hw = hw';
        }
      ]
      else s

  neigh_entry : List NdAttr → MacRewriteEntry → NeighState → NeighState
  unfolding write_neigh wanted_mac
  neigh_entry attrs e s = elim (wanted_mac e (first_dst attrs) (first_lladdr attrs)) [
    | none ↦ s
    | some m ↦ write_neigh e m s
  ]

  pub process_neigh_msg : NeighMsg → NeighState → NeighState
  unfolding neigh_entry too_short mac_entry_get
  process_neigh_msg msg s =
      if not (msg.nlmsg_type == rtm_newneigh)
      then s
      else if too_short msg.nlmsg_len
      then s
      else if not (msg.ndm_family == af_inet)
      then s
      else elim (mac_entry_get s.table msg.ndm_ifindex) [
        | none ↦ s
        | some e ↦ neigh_entry msg.attrs e s
      ]
