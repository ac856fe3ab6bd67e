-- ===== src/Bfrt/Store.antt =====
-- A driver that keeps its tables as a function, for the examples.
use igw_p.Prelude.{
  Bool, true, false, Option, none, some, List, ◌≡◌, refl, sym, if◌then◌else◌, Bool-cases, inl, inr,
  Option-cases,
}
use igw_p.Bfrt.{BfRt, BfEntry, BfData, Setting, IsFaithful}
use igw_p.Bfrt.Keys.{is_key, is_key→≡, is_key_self}
use igw_p.Bfrt.Install.{none-some}
use Prim.Native.String.{String}

abbrev pub Store : Type 0
Store = String → List Setting → Option BfData

abbrev pub empty : Store
empty t k = none

abbrev pub put : Store → BfEntry → Store
put s e t k = if is_key t k e then some e.bf_data else s t k

abbrev pub store_add : Store → BfEntry → Option Store
store_add s e = elim (s e.table e.bf_key) [ none ↦ some (put s e) | some v ↦ none ]

abbrev pub store_mod : Store → BfEntry → Option Store
store_mod s e = elim (s e.table e.bf_key) [ none ↦ none | some v ↦ some (put s e) ]

abbrev pub store_get : Store → String → List Setting → Bool
store_get s t k = elim (s t k) [ none ↦ false | some v ↦ true ]

abbrev pub store : BfRt
store = record {
  State = Store;
  table_from_name_get = λ t. true;
  action_name_to_id = λ t a. true;
  key_field_id_get = λ t f. true;
  data_field_id_get = λ t a f. true;
  key_allocate = λ t. true;
  data_allocate = λ t. true;
  key_field_set = λ t x. true;
  data_field_set = λ t a x. true;
  bf_entry_add = store_add;
  bf_entry_mod = store_mod;
  bf_entry_get = store_get;
}

abbrev pub store_read : Store → String → List Setting → Option BfData
store_read s t k = s t k

-- What the store does is what the driver documents.
added :
    (s s' : Store) (e : BfEntry)
    → store_add s e ≡ some s'
    → (s e.table e.bf_key ≡ none) × (put s e ≡ s')
added s s' e h = elim (Option-cases (s e.table e.bf_key)) [
  | inl absent ↦ (absent, cc (rw (absent, store_add) at h))
  | inr (v, there) ↦ absurd (none-some s' (rw (there, store_add) at h))
]

modified : (s s' : Store) (e : BfEntry) → store_mod s e ≡ some s' → put s e ≡ s'
modified s s' e h = elim (Option-cases (s e.table e.bf_key)) [
  | inl absent ↦ absurd (none-some s' (rw (absent, store_mod) at h))
  | inr (v, there) ↦ cc (rw (there, store_mod) at h)
]

pub put_self : (s : Store) (e : BfEntry) → put s e e.table e.bf_key ≡ some e.bf_data
put_self s e = rw (is_key_self e) refl

put_others :
    (s : Store) (e : BfEntry) (t : String) (k : List Setting)
    → ¬ ((t ≡ e.table) × (k ≡ e.bf_key))
    → put s e t k ≡ s t k
put_others s e t k other = elim (Bool-cases (is_key t k e)) [
  | inl same ↦ absurd (other (is_key→≡ t k e same))
  | inr h ↦ rw h refl
]

got :
    (s : Store) (t : String) (k : List Setting) (v : BfData)
    → s t k ≡ some v
    → store_get s t k ≡ true
got s t k v there = rw (there, store_get) refl

missed : (s : Store) (t : String) (k : List Setting) → s t k ≡ none → store_get s t k ≡ false
missed s t k absent = rw (absent, store_get) refl

pub adds : (s : Store) (e : BfEntry) → s e.table e.bf_key ≡ none → store_add s e ≡ some (put s e)
adds s e absent = rw (absent, store_add) refl

pub modifies :
    (s : Store) (e : BfEntry) (v : BfData)
    → s e.table e.bf_key ≡ some v
    → store_mod s e ≡ some (put s e)
modifies s e v there = rw (there, store_mod) refl

pub store-IsFaithful : IsFaithful store store_read
store-IsFaithful = record {
  add_absent = λ s s' e h. (added s s' e h).0;
  add_reads = λ s s' e h. rw (sym (added s s' e h).1) (put_self s e);
  add_others = λ s s' e t k h other. rw (sym (added s s' e h).1) (put_others s e t k other);
  mod_reads = λ s s' e h. rw (sym (modified s s' e h)) (put_self s e);
  mod_others = λ s s' e t k h other. rw (sym (modified s s' e h)) (put_others s e t k other);
  get_found = got;
  get_missing = missed;
}
