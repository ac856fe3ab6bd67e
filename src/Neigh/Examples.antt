-- ===== src/Neigh/Examples.antt =====
-- A gateway that has one interface learns the MAC address of its neighbour.
use igw_p.Prelude.{
  ℕ, Bool, true, false, [], ◌∷◌, Option, none, some, ◌≡◌, refl, sym, ap, ◌⊎◌, arith, if◌then◌else◌,
  ◌==◌,
}
use igw_p.Ether.{
  Mac, zero_mac, reverse_mac, is_valid_ether_addr, is_multicast_ether_addr, is_zero_ether_addr,
}
use igw_p.Hashed.{Table, init_heads, entry_add}
use igw_p.Hashed.Lookup.{
  entry_get-entry_add, entry_get-init_heads, entry_add-IsWide, init_heads-IsWide,
}
use igw_p.MacRewrite.{
  MacData, MacHw, MacDriver, IsDocumented, Stack, load_mac, mac_rewrite_entry_find,
  mac_rewrite_entry_add, mac_rewrite_table_entry_add,
}
use igw_p.MacRewrite.Laws.{Rewrites, mac_rewrite_table_entry_add-Rewrites}
use igw_p.Neigh.{
  MacRewriteEntry, key_ifindex, mac_entry_get, rtm_newneigh, af_inet, nda_dst, nda_lladdr, NeighMsg,
  NeighState, first_dst, first_lladdr, too_short, need_write, process_neigh_msg,
}
use igw_p.Neigh.Messages.{IsNews, Learns, process_neigh_msg-cases}
use igw_p.Neigh.Coherence.{IsCoherent, process_neigh_msg-IsCoherent}

pub written : MacHw → ℕ → MacData → MacHw
written hw k v j = if k == j then some v else hw j

pub is_some : {A : Type 0} → Option A → Bool
is_some none = false
is_some (some a) = true

abbrev pub driver : MacDriver
driver = record {
  key_set = λ k. true;
  data_set = λ v. true;
  entry_get = λ hw k. is_some (hw k);
  entry_add = λ hw k v. some (written hw k v);
  entry_mod = λ hw k v. some (written hw k v);
}

written-reads :
    (hw hw' : MacHw) (k j : ℕ) (v : MacData)
    → ◌≡◌ {A = Option MacHw} (some (written hw k v)) (some hw')
    → hw' j ≡ (if k == j then some v else hw j)
unfolding written
written-reads hw hw' k j v e = let same : written hw k v ≡ hw' = cc in sym (ap (λ h. h j) same)

pub driver-IsDocumented : IsDocumented driver
driver-IsDocumented = record { add_writes = written-reads; mod_writes = written-reads }

abbrev pub stack : Stack
stack = record { above_src = 0; above_dst = 0 }

abbrev pub own : Mac
own = record { b0 = 2; b1 = 0; b2 = 0; b3 = 0; b4 = 0; b5 = 1 }

abbrev pub theirs : Mac
theirs = record { b0 = 4; b1 = 0; b2 = 0; b3 = 0; b4 = 0; b5 = 9 }

abbrev pub entry : MacRewriteEntry
entry = record {
  entry_name = "eth1";
  ifindex = 3;
  smac = own;
  dmac = zero_mac;
  hostif_ip = 11;
  entry_gw_ip = 10;
  entry_dev_port = 8;
  valid = false;
}

abbrev pub table : Table MacRewriteEntry
table = entry_add key_ifindex entry init_heads

abbrev pub before : NeighState
before = record { table = table; hw = λ k. none }

abbrev pub msg : NeighMsg
msg = record {
  nlmsg_type = rtm_newneigh;
  nlmsg_len = 60;
  ndm_family = af_inet;
  ndm_ifindex = 3;
  attrs = nda_dst 10 ∷ nda_lladdr theirs ∷ [];
}

lookup : (k : ℕ) → mac_entry_get table k ≡ (if 3 == k then some entry else none)
unfolding mac_entry_get
lookup k = ground (
  arith,
  entry_get-entry_add key_ifindex entry init_heads k (init_heads-IsWide MacRewriteEntry),
  entry_get-init_heads key_ifindex k,
)

table-IsNews : IsNews msg before entry theirs
unfolding first_dst first_lladdr too_short need_write is_valid_ether_addr is_multicast_ether_addr
    is_zero_ether_addr
table-IsNews = record {
  new_neigh = refl;
  long = refl;
  inet = refl;
  found = lookup 3;
  gateway = refl;
  lladdr = refl;
  unicast = refl;
  unknown = refl;
}

pub before-IsCoherent : IsCoherent before
before-IsCoherent = record {
  wide = entry_add-IsWide key_ifindex entry init_heads (init_heads-IsWide MacRewriteEntry);
  ports = λ k j e f a b p. ground (arith, lookup k, lookup j);
  programmed = λ k e a v. absurd (ground (arith, lookup k));
}

abbrev mac_data : MacData
mac_data = record {
  src_mac = load_mac (reverse_mac own) 0;
  dst_mac = load_mac (reverse_mac theirs) 0;
}

wrote :
    mac_rewrite_table_entry_add driver stack before.hw entry.entry_dev_port entry.smac theirs
    ≡ some (written before.hw 8 mac_data)
unfolding mac_rewrite_table_entry_add mac_rewrite_entry_find mac_rewrite_entry_add is_some
wrote = refl

mac_rewrite_table_entry_add-Rewrites_example :
    Rewrites before.hw (written before.hw 8 mac_data) 8 own theirs
mac_rewrite_table_entry_add-Rewrites_example =
    mac_rewrite_table_entry_add-Rewrites driver stack before.hw (written before.hw 8 mac_data) 8 own
      theirs driver-IsDocumented wrote

process_neigh_msg-cases_example :
    (process_neigh_msg driver stack msg before ≡ before)
    ⊎ Learns driver stack msg before (process_neigh_msg driver stack msg before)
process_neigh_msg-cases_example = process_neigh_msg-cases driver stack msg before

process_neigh_msg-IsCoherent_example : IsCoherent (process_neigh_msg driver stack msg before)
process_neigh_msg-IsCoherent_example =
    process_neigh_msg-IsCoherent driver stack msg before driver-IsDocumented before-IsCoherent
