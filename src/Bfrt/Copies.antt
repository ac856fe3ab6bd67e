-- ===== src/Bfrt/Copies.antt =====
-- What the table of protocol packets holds for the host interfaces once it is filled: their entries are
-- the last, and all of them copy to the CPU, so none is written over by an entry that does not.
use igw_p.Prelude.{
  ℕ, ◌%◌, ◌^◌, zero, suc, Bool, true, false, Option, some, List, [], ◌∷◌, ◌++◌, map, ◌≡◌, refl, ◌∙◌,
  ap, All, get_elem?, if◌then◌else◌,
}
use Prim.Native.String.{String}
use igw_p.Hostif.{Hostif}
use igw_p.PacketTable.{
  PacketCfg, ProtocolEntry, ProtocolPacket, ProtocolPacketKey, copy_to_cpu_nos, passes_protocol,
  hostif_entries, hostif_copy_to_cpu_nos_init, process_protocol_packet_table_init,
  receive_from_cpu_lldp_init, receive_from_cpu_nos_init, arp_copy_to_cpu_nos_init,
  mgt_ip_copy_to_cpu_nos_init, vip_copy_to_cpu_nos_init, backup_vip_copy_to_cpu_nos_init,
}
use igw_p.PacketTable.Own.{IsFor, Copied, hostifs-Copied}
use igw_p.Bfrt.{BfRt, BfData, Setting, IsFaithful}
use igw_p.Bfrt.Setup.{Step, set_up, write, upsert, run, plain}
use igw_p.Bfrt.Keys.{is_key, is_key_self}
use igw_p.Bfrt.Install.{written, holds_after, run-holds_after}
use igw_p.Bfrt.PacketTable.{
  protocol_step, protocol_packet_steps, protocol_packet_key_setup, entry_copy_to_cpu_nos,
}

abbrev pub protocol_packet_table : String
protocol_packet_table = "P02_Ingress.process_local_packet.process_protocol_packet"

-- The data of an entry that copies to a port
abbrev pub copies_to : ℕ → BfData
copies_to port = record {
  bf_action = some "P02_Ingress.process_local_packet.copy_to_cpu_nos";
  fields = plain "egress_port" port ∷ [];
}

holds_after-cons :
    (x : Step) (xs : List Step) (t : String) (k : List Setting) (o : Option BfData)
    → holds_after (x ∷ xs) t k o ≡ holds_after xs t k (holds_after (x ∷ []) t k o)
unfolding holds_after
holds_after-cons (set_up s) xs t k o = refl
holds_after-cons (write e add) xs t k o = refl
holds_after-cons (upsert e) xs t k o = refl

abbrev CopiesTo : ℕ → ProtocolEntry → Type 0
CopiesTo port e = e.protocol_action ≡ copy_to_cpu_nos port

copy_step :
    (port : ℕ) (e : ProtocolEntry)
    → CopiesTo port e
    → protocol_step e ≡ upsert (entry_copy_to_cpu_nos e.protocol_key port)
unfolding protocol_step
copy_step port e c =
    ap (λ a. protocol_step (record { protocol_key = e.protocol_key; protocol_action = a })) c

choose : (b : Bool) (v : BfData) → (if b then some v else some v) ≡ some v
choose true v = refl
choose false v = refl

module _ (port : ℕ) where
  -- A key that copies goes on copying.
  kept :
      (es : List ProtocolEntry) (k : List Setting)
      → All (CopiesTo port) es
      → holds_after (map protocol_step es) protocol_packet_table k (some (copies_to port))
        ≡ some (copies_to port)
  unfolding holds_after written entry_copy_to_cpu_nos
  kept [] k all = refl
  kept (e ∷ es) k (c, all) =
      ap
        (λ x.
          holds_after (x ∷ map protocol_step es) protocol_packet_table k (some (copies_to port)))
        (copy_step port e c)
      ∙ ap (holds_after (map protocol_step es) protocol_packet_table k) (
          choose (is_key protocol_packet_table k (entry_copy_to_cpu_nos e.protocol_key port))
            (copies_to port))
      ∙ kept es k all

  copied :
      (es : List ProtocolEntry) (n : ℕ) (e : ProtocolEntry) (o : Option BfData)
      → All (CopiesTo port) es
      → get_elem? es n ≡ some e
      → holds_after
          (map protocol_step es)
          protocol_packet_table
          (protocol_packet_key_setup e.protocol_key)
          o
        ≡ some (copies_to port)
  unfolding holds_after written entry_copy_to_cpu_nos
  copied [] n e o all at = absurd (cc at)
  copied (x ∷ es) zero e o (c, all) at =
      let same : x ≡ e = cc at in
      let k = protocol_packet_key_setup e.protocol_key in
      ap (λ y. holds_after (y ∷ map protocol_step es) protocol_packet_table k o)
        (copy_step port x c ∙ ap (λ y. upsert (entry_copy_to_cpu_nos y.protocol_key port)) same)
      ∙ ap
          (λ b.
            holds_after (map protocol_step es) protocol_packet_table k
              (if b then some (copies_to port) else o))
          (is_key_self (entry_copy_to_cpu_nos e.protocol_key port))
      ∙ kept es k all
  copied (x ∷ es) (suc n) e o (c, all) at =
      holds_after-cons (protocol_step x) (map protocol_step es) protocol_packet_table
        (protocol_packet_key_setup e.protocol_key) o
      ∙ copied es n e _ all at

-- Whatever a table held, and whatever was written before
abbrev Leaves : List ProtocolEntry → List Setting → BfData → Type 0
Leaves es k v =
    (o : Option BfData) → holds_after (map protocol_step es) protocol_packet_table k o ≡ some v

Leaves-append_right :
    (xs ys : List ProtocolEntry) (k : List Setting) (v : BfData)
    → Leaves ys k v
    → Leaves (xs ++ ys) k v
Leaves-append_right [] ys k v h o = h o
Leaves-append_right (x ∷ xs) ys k v h o =
    holds_after-cons (protocol_step x) (map protocol_step (xs ++ ys)) protocol_packet_table k o
    ∙ Leaves-append_right xs ys k v h _

All-append {ℓ κ} :
    {A : Type ℓ} (Q : A → Type κ) (xs ys : List A) → All Q xs → All Q ys → All Q (xs ++ ys)
All-append Q [] ys a b = b
All-append Q (x ∷ xs) ys (q, a) b = (q, All-append Q xs ys a b)

All-if {ℓ κ} :
    {A : Type ℓ} (Q : A → Type κ) (b : Bool) (xs : List A) → All Q xs → All Q (if b then xs else [])
All-if Q true xs a = a
All-if Q false xs a = tt

hostifs-copy :
    (cfg : PacketCfg) (hs : List Hostif)
    → All (CopiesTo (cfg.cpu_pcie_port % 2 ^ 16)) (hostif_copy_to_cpu_nos_init cfg hs)
unfolding hostif_copy_to_cpu_nos_init hostif_entries
hostifs-copy cfg [] = tt
hostifs-copy cfg (h ∷ hs) =
    All-append (CopiesTo (cfg.cpu_pcie_port % 2 ^ 16)) (hostif_entries cfg h) _
      (
        refl,
        All-if (CopiesTo (cfg.cpu_pcie_port % 2 ^ 16)) h.ipv6_enable _
            (refl, (refl, (refl, (refl, tt)))),
      )
      (hostifs-copy cfg hs)

-- Over a driver that does what it documents: if the table of protocol packets is filled, then for a
-- packet to an address of one of the host interfaces, on the interface's port, it holds an entry that
-- the packet passes and that copies it to the CPU.
pub protocol_packet_steps-copies :
    (d : BfRt) (read : d.State → String → List Setting → Option BfData) (s s' : d.State)
    (cfg : PacketCfg) (hs : List Hostif) (p : ProtocolPacket) (n : ℕ) (h : Hostif)
    → IsFaithful d read
    → run d s (protocol_packet_steps cfg hs) ≡ some s'
    → get_elem? hs n ≡ some h
    → IsFor p h
    → (k : ProtocolPacketKey) × (passes_protocol p k ≡ true)
      × (read s' protocol_packet_table (protocol_packet_key_setup k)
          ≡ some (copies_to (cfg.cpu_pcie_port % 2 ^ 16)))
unfolding protocol_packet_steps process_protocol_packet_table_init holds_after Copied
protocol_packet_steps-copies d read s s' cfg hs p n h f filled at is_for =
    let port = cfg.cpu_pcie_port % 2 ^ 16 in
    let (m, e, here, copies, passed) = hostifs-Copied cfg hs p n h at is_for in
    let k = protocol_packet_key_setup e.protocol_key in
    let v = copies_to port in
    let l5 = hostif_copy_to_cpu_nos_init cfg hs in
    let l4 = backup_vip_copy_to_cpu_nos_init cfg ++ l5 in
    let l3 = vip_copy_to_cpu_nos_init cfg ++ l4 in
    let l2 = mgt_ip_copy_to_cpu_nos_init cfg ++ l3 in
    let l1 = arp_copy_to_cpu_nos_init cfg ++ l2 in
    let l0 = receive_from_cpu_nos_init cfg ++ l1 in
    let q5 : Leaves l5 k v = λ o. copied port l5 m e o (hostifs-copy cfg hs) here in
    let q4 : Leaves l4 k v = Leaves-append_right (backup_vip_copy_to_cpu_nos_init cfg) l5 k v q5 in
    let q3 : Leaves l3 k v = Leaves-append_right (vip_copy_to_cpu_nos_init cfg) l4 k v q4 in
    let q2 : Leaves l2 k v = Leaves-append_right (mgt_ip_copy_to_cpu_nos_init cfg) l3 k v q3 in
    let q1 : Leaves l1 k v = Leaves-append_right (arp_copy_to_cpu_nos_init cfg) l2 k v q2 in
    let q0 : Leaves l0 k v = Leaves-append_right (receive_from_cpu_nos_init cfg) l1 k v q1 in
    (
      e.protocol_key,
      passed,
      run-holds_after d read f s s' (protocol_packet_steps cfg hs) protocol_packet_table k filled
          ∙ Leaves-append_right (receive_from_cpu_lldp_init cfg) l0 k v q0
              (read s protocol_packet_table k),
    )
