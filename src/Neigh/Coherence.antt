-- ===== src/Neigh/Coherence.antt =====
-- The software table and the hardware table of the neighbours, side by side
-- (switchlink_neigh.c, process_neigh_msg).
use igw_p.Prelude.{
  ℕ, ◌%◌, ◌^◌, true, some, ◌≡◌, refl, sym, ◌∙◌, ◌⊎◌, inl, inr, ◌==◌, arith, if◌then◌else◌,
}
use igw_p.Hashed.Lookup.{IsWide, entry_get-entry_update, entry_get-key, entry_update-IsWide}
use igw_p.MacRewrite.{MacData, MacDriver, IsDocumented, Stack}
use igw_p.MacRewrite.Laws.{HoldsMacs, mac_rewrite_table_entry_add-Rewrites}
use igw_p.Neigh.Messages.{Learns, process_neigh_msg-cases}
use igw_p.Neigh.{
  MacRewriteEntry, key_ifindex, mac_entry_get, NeighMsg, NeighState, learn, process_neigh_msg,
}

-- The egress port of an entry, as the hardware table is keyed
abbrev pub port_of : MacRewriteEntry → ℕ
port_of e = e.entry_dev_port % 2 ^ 16

-- The interfaces have ports of their own, and the port of every valid entry is programmed with the
-- entry's two addresses.
pub record IsCoherent (s : NeighState) : Type 0 where
  pub wide : IsWide s.table
  pub ports :
      (k j : ℕ) (e f : MacRewriteEntry)
      → mac_entry_get s.table k ≡ some e
      → mac_entry_get s.table j ≡ some f
      → port_of e ≡ port_of f
      → k ≡ j
  pub programmed :
      (k : ℕ) (e : MacRewriteEntry)
      → mac_entry_get s.table k ≡ some e
      → e.valid ≡ true
      → (v : MacData) × (s.hw (port_of e) ≡ some v) × HoldsMacs v e.smac e.dmac

module _ (d : MacDriver) (stack : Stack) where
  -- A lookup after a message was learnt
  get_after :
      (msg : NeighMsg) (s t : NeighState) (l : Learns d stack msg s t) (j : ℕ)
      → IsWide s.table
      → mac_entry_get t.table j
        ≡ (if msg.ndm_ifindex == j then some (learn l.mac l.entry) else mac_entry_get s.table j)
  unfolding mac_entry_get learn
  get_after msg s t l j w = ground (
    arith,
    l.result,
    l.news.found,
    entry_get-key key_ifindex msg.ndm_ifindex s.table l.entry l.news.found,
    entry_get-entry_update key_ifindex l.entry.ifindex j (learn l.mac) s.table w (λ e. refl),
  )

  -- An entry after a message was learnt is that of before, or the one that learnt.
  came_from :
      (msg : NeighMsg) (s t : NeighState) (l : Learns d stack msg s t) (j : ℕ) (f : MacRewriteEntry)
      → IsWide s.table
      → mac_entry_get t.table j ≡ some f
      → ((msg.ndm_ifindex ≡ j) × (f ≡ learn l.mac l.entry))
        ⊎ ((msg.ndm_ifindex ≡ j → ⊥) × (mac_entry_get s.table j ≡ some f))
  came_from msg s t l j f w h = ground (arith, get_after msg s t l j w)

  -- The entry of before, on the same port
  earlier :
      (msg : NeighMsg) (s t : NeighState) (l : Learns d stack msg s t) (j : ℕ) (f : MacRewriteEntry)
      → IsWide s.table
      → mac_entry_get t.table j ≡ some f
      → (e : MacRewriteEntry) × (mac_entry_get s.table j ≡ some e) × (port_of f ≡ port_of e)
  unfolding learn
  earlier msg s t l j f w h = elim (came_from msg s t l j f w h) [
    | inl (here, e) ↦ (l.entry, rw (← here) l.news.found, rw e)
    | inr (_, old) ↦ (f, old, refl)
  ]

  learnt_programmed :
      (msg : NeighMsg) (s t : NeighState) (l : Learns d stack msg s t)
      → IsDocumented d
      → IsCoherent s
      → (j : ℕ) (f : MacRewriteEntry) → mac_entry_get t.table j ≡ some f
      → f.valid ≡ true
      → (v : MacData) × (t.hw (port_of f) ≡ some v) × HoldsMacs v f.smac f.dmac
  unfolding learn
  learnt_programmed msg s t l doc c j f h valid =
      let w =
        mac_rewrite_table_entry_add-Rewrites d stack s.hw l.hw' l.entry.entry_dev_port l.entry.smac
          l.mac doc l.wrote in
      elim (came_from msg s t l j f c.wide h) [
        | inl (here, e) ↦
            (w.entry, rw (l.result, e) (ground (arith, w.reads (port_of l.entry))), rw e w.holds)
        | inr (apart, old) ↦
            let (v, has, holds) = c.programmed j f old valid in
            (
              v,
              rw l.result (
                  ground (
                    arith,
                    w.reads (port_of f),
                    c.ports msg.ndm_ifindex j l.entry f l.news.found old,
                  )),
              holds,
            )
      ]

  -- Over a driver that does what it documents, every neighbour message keeps the software table and
  -- the hardware table in agreement. They agree if the table has its 64 chains, the interfaces have
  -- egress ports of their own, and the port of every valid entry is programmed with the entry's two
  -- addresses.
  pub process_neigh_msg-IsCoherent :
      (msg : NeighMsg) (s : NeighState)
      → IsDocumented d
      → IsCoherent s
      → IsCoherent (process_neigh_msg d stack msg s)
  process_neigh_msg-IsCoherent msg s doc c = elim (process_neigh_msg-cases d stack msg s) [
    | inl same ↦ rw same c
    | inr l ↦
        let t = process_neigh_msg d stack msg s in
        record {
          wide =
              rw l.result
                (entry_update-IsWide key_ifindex l.entry.ifindex (learn l.mac) s.table c.wide);
          ports = λ k j e f p q same.
              let (e₀, p₀, pe) = earlier msg s t l k e c.wide p in
              let (f₀, q₀, pf) = earlier msg s t l j f c.wide q in
              c.ports k j e₀ f₀ p₀ q₀ (sym pe ∙ same ∙ pf);
          programmed = learnt_programmed msg s t l doc c;
        }
  ]
