-- ===== src/Bfrt/Upserts.antt =====
-- The run that fills the table of protocol packets modifies what it finds and adds the rest: over a
-- driver that refuses neither, it goes through, from whatever state.
use igw_p.Prelude.{
  Bool, true, false, ◌&&◌, Option, none, some, List, [], ◌∷◌, map, ◌≡◌, refl, Option-cases, inl,
  inr,
}
use igw_p.Hostif.{Hostif}
use igw_p.PacketTable.{
  PacketCfg, ProtocolAction, ProtocolPacketKey, ProtocolEntry, receive_from_cpu_lldp,
  receive_from_cpu_nos, copy_to_cpu_nos, process_protocol_packet_table_init,
}
use igw_p.Bfrt.{
  BfRt, BfEntry, BfData, Setting, IsFaithful, fill, entry_write, entry_find, entry_upsert,
}
use igw_p.Bfrt.Setup.{TableSetup, Step, set_up, write, upsert, run, run_step, table_setup}
use igw_p.Bfrt.PacketTable.{protocol_packet_steps, protocol_step, protocol_packet_table_setup}
use igw_p.Bfrt.Install.{holds_after, run-holds_after}
use Prim.Native.String.{String}

-- A driver that knows the names of a set-up, takes every value, and refuses an add or a modify only
-- for the key's being there or not.
pub record IsWilling (d : BfRt) (read : d.State → String → List Setting → Option BfData)
    (t : TableSetup) : Type 0 where
  pub names_known : table_setup d t ≡ true
  pub key_accepted : (k : String) (x : Setting) → d.key_field_set k x ≡ true
  pub data_accepted : (k : String) (a : Option String) (x : Setting) → d.data_field_set k a x ≡ true
  pub add_accepted :
      (s : d.State) (e : BfEntry)
      → read s e.table e.bf_key ≡ none
      → (s' : d.State) × (d.bf_entry_add s e ≡ some s')
  pub mod_accepted :
      (s : d.State) (e : BfEntry) (v : BfData)
      → read s e.table e.bf_key ≡ some v
      → (s' : d.State) × (d.bf_entry_mod s e ≡ some s')

fill-accepted :
    (set : Setting → Bool) (xs : List Setting) → ((x : Setting) → set x ≡ true) → fill set xs ≡ true
unfolding fill
fill-accepted set [] h = refl
fill-accepted set (x ∷ xs) h = rw (h x, fill-accepted set xs h) refl

-- Nothing but upserts
unfoldable pub is_upserts : List Step → Bool
is_upserts [] = true
is_upserts (set_up t ∷ xs) = false
is_upserts (write e add ∷ xs) = false
is_upserts (upsert e ∷ xs) = is_upserts xs

protocol_step-upsert :
    (k : ProtocolPacketKey) (a : ProtocolAction)
    → is_upserts (protocol_step (record { protocol_key = k; protocol_action = a }) ∷ []) ≡ true
unfolding is_upserts protocol_step
protocol_step-upsert k receive_from_cpu_lldp = refl
protocol_step-upsert k receive_from_cpu_nos = refl
protocol_step-upsert k (copy_to_cpu_nos egress_port) = refl

is_upserts-cons :
    (x : Step) (xs : List Step)
    → is_upserts (x ∷ []) ≡ true
    → is_upserts xs ≡ true
    → is_upserts (x ∷ xs) ≡ true
unfolding is_upserts
is_upserts-cons (set_up t) xs h g = h
is_upserts-cons (write e add) xs h g = h
is_upserts-cons (upsert e) xs h g = g

protocol_steps-upserts : (es : List ProtocolEntry) → is_upserts (map protocol_step es) ≡ true
unfolding is_upserts
protocol_steps-upserts [] = refl
protocol_steps-upserts (e ∷ es) =
    is_upserts-cons (protocol_step e) (map protocol_step es)
      (protocol_step-upsert e.protocol_key e.protocol_action) (protocol_steps-upserts es)

module _ (d : BfRt) (read : d.State → String → List Setting → Option BfData) (f : IsFaithful d read)
    (t : TableSetup) (w : IsWilling d read t) where
  filled :
      (e : BfEntry)
      → (fill (d.key_field_set e.table) e.bf_key
          && fill (d.data_field_set e.table e.bf_data.bf_action) e.bf_data.fields)
        ≡ true
  filled e =
      rw
        (
          fill-accepted (d.key_field_set e.table) e.bf_key (λ x. w.key_accepted e.table x),
          fill-accepted (d.data_field_set e.table e.bf_data.bf_action) e.bf_data.fields
              (λ x. w.data_accepted e.table e.bf_data.bf_action x),
        )
        refl

  found :
      (s : d.State) (e : BfEntry) (b : Bool)
      → d.bf_entry_get s e.table e.bf_key ≡ b
      → entry_find d s e ≡ b
  unfolding entry_find
  found s e b h =
      rw (fill-accepted (d.key_field_set e.table) e.bf_key (λ x. w.key_accepted e.table x)) h

  entry_upsert-accepted :
      (s : d.State) (e : BfEntry) → (s' : d.State) × (entry_upsert d s e ≡ some s')
  unfolding entry_upsert entry_write
  entry_upsert-accepted s e = elim (Option-cases (read s e.table e.bf_key)) [
    | inl absent ↦
        let (s', ok) = w.add_accepted s e absent in
        (s', rw (filled e, found s e false (f.get_missing s e.table e.bf_key absent)) ok)
    | inr (v, there) ↦
        let (s', ok) = w.mod_accepted s e v there in
        (s', rw (filled e, found s e true (f.get_found s e.table e.bf_key v there)) ok)
  ]

  run-upserts :
      (s : d.State) (xs : List Step)
      → is_upserts xs ≡ true
      → (s' : d.State) × (run d s xs ≡ some s')
  unfolding is_upserts run run_step
  run-upserts s [] h = (s, refl)
  run-upserts s (set_up x ∷ xs) h = absurd (cc h)
  run-upserts s (write e add ∷ xs) h = absurd (cc h)
  run-upserts s (upsert e ∷ xs) h =
      let (s1, ok) = entry_upsert-accepted s e in
      let (s2, rest) = run-upserts s1 xs h in (s2, rw (ok, run, run_step) rest)

-- Over a driver that does what it documents and refuses nothing else, the table of protocol packets is
-- filled from whatever state, a state that holds some of its entries already included, and each key
-- then holds the data of the last entry written under it.
pub protocol_packet_steps-run :
    (d : BfRt) (read : d.State → String → List Setting → Option BfData)
    → IsFaithful d read
    → IsWilling d read protocol_packet_table_setup
    → (s : d.State) (cfg : PacketCfg) (hostifs : List Hostif)
    → (s' : d.State) × (run d s (protocol_packet_steps cfg hostifs) ≡ some s')
      × ((t : String) (k : List Setting)
          → read s' t k ≡ holds_after (protocol_packet_steps cfg hostifs) t k (read s t k))
unfolding protocol_packet_steps run run_step
protocol_packet_steps-run d read f w s cfg hostifs =
    let entries = map protocol_step (process_protocol_packet_table_init cfg hostifs) in
    let (s', ok) =
      run-upserts d read f protocol_packet_table_setup w s entries
        (protocol_steps-upserts (process_protocol_packet_table_init cfg hostifs)) in
    let whole : run d s (set_up protocol_packet_table_setup ∷ entries) ≡ some s' =
      rw (w.names_known, run, run_step) ok in
    (
      s',
      whole,
      λ t k. run-holds_after d read f s s' (set_up protocol_packet_table_setup ∷ entries) t k whole,
    )
