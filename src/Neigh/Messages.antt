-- ===== src/Neigh/Messages.antt =====
-- What one neighbour message does, on every branch.
use igw_p.Prelude.{
  ℕ, true, false, List, Option, some, ◌≡◌, refl, ◌⊎◌, inl, inr, ◌==◌, arith, Bool-cases,
  Option-cases,
}
use igw_p.Ether.{Mac, is_valid_ether_addr}
use igw_p.Ether.Laws.{mac_eq_iff}
use igw_p.Hashed.{entry_update}
use igw_p.Hashed.Lookup.{IsWide, entry_get-entry_update, entry_get-key}
use igw_p.MacRewrite.{MacHw, MacDriver, Stack, mac_rewrite_table_entry_add}
use igw_p.Neigh.{
  MacRewriteEntry, key_ifindex, mac_entry_get, NdAttr, NeighMsg, NeighState, first_dst,
  first_lladdr, too_short, wanted_mac, need_write, learn, neigh_entry, process_neigh_msg,
  rtm_newneigh, af_inet,
}

-- A message that is acted on: it names the interface of the entry, and gives the address of the
-- entry's gateway and a valid unicast MAC that the entry does not already hold.
pub record IsNews (msg : NeighMsg) (s : NeighState) (e : MacRewriteEntry) (m : Mac) : Type 0 where
  pub new_neigh : msg.nlmsg_type ≡ rtm_newneigh
  pub long : too_short msg.nlmsg_len ≡ false
  pub inet : msg.ndm_family ≡ af_inet
  pub found : mac_entry_get s.table msg.ndm_ifindex ≡ some e
  pub gateway : first_dst msg.attrs ≡ some e.entry_gw_ip
  pub lladdr : first_lladdr msg.attrs ≡ some m
  pub unicast : is_valid_ether_addr m ≡ true
  pub unknown : need_write e m ≡ true

module _ (d : MacDriver) (stack : Stack) where
  -- The change that a message makes, if it makes one
  pub record Learns (msg : NeighMsg) (s t : NeighState) : Type 0 where
    pub entry : MacRewriteEntry
    pub mac : Mac
    pub news : IsNews msg s entry mac
    pub hw' : MacHw
    pub wrote :
        mac_rewrite_table_entry_add d stack s.hw entry.entry_dev_port entry.smac mac ≡ some hw'
    pub result :
        t ≡ record { table = entry_update key_ifindex entry.ifindex (learn mac) s.table; hw = hw' }

  wanted_mac-some :
      (e : MacRewriteEntry) (dst : Option ℕ) (lladdr : Option Mac) (m : Mac)
      → wanted_mac e dst lladdr ≡ some m
      → (dst ≡ some e.entry_gw_ip) × (lladdr ≡ some m) × (is_valid_ether_addr m ≡ true)
  unfolding wanted_mac
  wanted_mac-some e dst lladdr m h = ground arith

  -- What an entry's write leaves
  Written : List NdAttr → MacRewriteEntry → NeighState → Type 0
  Written attrs e s =
      (m : Mac) × (hw' : MacHw) × (wanted_mac e (first_dst attrs) (first_lladdr attrs) ≡ some m)
      × (need_write e m ≡ true)
      × (mac_rewrite_table_entry_add d stack s.hw e.entry_dev_port e.smac m ≡ some hw')
      × (neigh_entry d stack attrs e s
          ≡ record { table = entry_update key_ifindex e.ifindex (learn m) s.table; hw = hw' })

  neigh_entry-cases :
      (attrs : List NdAttr) (e : MacRewriteEntry) (s : NeighState)
      → (neigh_entry d stack attrs e s ≡ s) ⊎ Written attrs e s
  unfolding neigh_entry Written
  neigh_entry-cases attrs e s =
      elim (Option-cases (wanted_mac e (first_dst attrs) (first_lladdr attrs))) [
        | inl refused ↦ inl (rw (refused, neigh_entry))
        | inr (m, wanted) ↦ elim (Bool-cases (need_write e m)) [
          | inr known ↦ inl (rw (wanted, known, neigh_entry))
          | inl unknown ↦
              elim (Option-cases
                (mac_rewrite_table_entry_add d stack s.hw e.entry_dev_port e.smac m)) [
                  | inl failed ↦ inl (rw (wanted, unknown, failed, neigh_entry))
                  | inr (hw', wrote) ↦
                      inr (m, hw', wanted, unknown, wrote, rw (wanted, unknown, wrote, neigh_entry))
                ]
        ]
      ]

  Written-Learns :
      (msg : NeighMsg) (s : NeighState) (e : MacRewriteEntry)
      → msg.nlmsg_type ≡ rtm_newneigh
      → too_short msg.nlmsg_len ≡ false
      → msg.ndm_family ≡ af_inet
      → mac_entry_get s.table msg.ndm_ifindex ≡ some e
      → Written msg.attrs e s
      → Learns msg s (neigh_entry d stack msg.attrs e s)
  unfolding Written
  Written-Learns msg s e new long inet found (m, hw', wanted, unknown, wrote, result) =
      let (dst, lladdr, unicast) =
        wanted_mac-some e (first_dst msg.attrs) (first_lladdr msg.attrs) m wanted in
      record {
        entry = e;
        mac = m;
        news = record {
          new_neigh = new;
          long = long;
          inet = inet;
          found = found;
          gateway = dst;
          lladdr = lladdr;
          unicast = unicast;
          unknown = unknown;
        };
        hw' = hw';
        wrote = wrote;
        result = result;
      }

  -- A message either leaves the state as it was, or is news that the hardware accepted; then the
  -- interface's entry learns the MAC, and nothing else of the software table changes.
  pub process_neigh_msg-cases :
      (msg : NeighMsg) (s : NeighState)
      → (process_neigh_msg d stack msg s ≡ s) ⊎ Learns msg s (process_neigh_msg d stack msg s)
  unfolding process_neigh_msg
  process_neigh_msg-cases msg s = elim (Bool-cases (msg.nlmsg_type == rtm_newneigh)) [
    | inr other ↦ inl (rw other)
    | inl new ↦ elim (Bool-cases (too_short msg.nlmsg_len)) [
      | inl short ↦ inl (rw (new, short))
      | inr long ↦ elim (Bool-cases (msg.ndm_family == af_inet)) [
        | inr family ↦ inl (rw (new, long, family))
        | inl inet ↦ elim (Option-cases (mac_entry_get s.table msg.ndm_ifindex)) [
          | inl unknown ↦ inl (rw (new, long, inet, unknown))
          | inr (e, found) ↦ elim (neigh_entry-cases msg.attrs e s) [
            | inl same ↦ inl (rw (new, long, inet, found) same)
            | inr w ↦ inr (
                rw (new, long, inet, found)
                  (Written-Learns msg s e (ground arith) long (ground arith) found w))
          ]
        ]
      ]
    ]
  ]

  -- News that the driver accepts is learnt: the entry of the interface holds the MAC and is valid.
  process_neigh_msg_learns :
      (msg : NeighMsg) (s : NeighState) (e : MacRewriteEntry) (m : Mac) (hw' : MacHw)
      → IsNews msg s e m
      → mac_rewrite_table_entry_add d stack s.hw e.entry_dev_port e.smac m ≡ some hw'
      → process_neigh_msg d stack msg s
        ≡ record { table = entry_update key_ifindex e.ifindex (learn m) s.table; hw = hw' }
  unfolding process_neigh_msg wanted_mac
  process_neigh_msg_learns msg s e m hw' n wrote = ground (arith, n)

  learnt :
      (msg : NeighMsg) (s t : NeighState) (l : Learns msg s t)
      → IsWide s.table
      → mac_entry_get t.table msg.ndm_ifindex ≡ some (learn l.mac l.entry)
  unfolding mac_entry_get learn
  learnt msg s t l w = ground (
    arith,
    l.result,
    l.news.found,
    entry_get-key key_ifindex msg.ndm_ifindex s.table l.entry l.news.found,
    entry_get-entry_update key_ifindex l.entry.ifindex msg.ndm_ifindex (learn l.mac) s.table w
        (λ e. refl),
  )

  known_again : (e : MacRewriteEntry) (m : Mac) → need_write (learn m e) m ≡ false
  unfolding need_write learn
  known_again e m = ground (arith, mac_eq_iff m m)

  -- Over a table that has all its chains, the same message a second time changes nothing more,
  -- whatever it is: what was learnt is known,
  -- and what was refused is refused again.
  process_neigh_msg_idem :
      (msg : NeighMsg) (s : NeighState)
      → IsWide s.table
      → process_neigh_msg d stack msg (process_neigh_msg d stack msg s)
        ≡ process_neigh_msg d stack msg s
  process_neigh_msg_idem msg s w = elim (process_neigh_msg-cases msg s) [
    | inl same ↦ rw same same
    | inr l ↦ elim (process_neigh_msg-cases msg (process_neigh_msg d stack msg s)) [
      | inl same ↦ same
      | inr again ↦ absurd (
          cc (
            learnt msg s (process_neigh_msg d stack msg s) l w,
            again.news.found,
            again.news.lladdr,
            l.news.lladdr,
            again.news.unknown,
            known_again l.entry l.mac,
          ))
    ]
  ]
