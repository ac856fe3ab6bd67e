-- ===== src/Bfrt/Install.antt =====
-- What the tables hold after a run of the start-up's steps, as a fold over the entries that it writes.
use igw_p.Prelude.{
  Bool, true, false, Option, none, some, List, [], ◌∷◌, ◌++◌, if◌then◌else◌, ◌≡◌, refl, ◌∙◌, ap,
  inl, inr, Bool-cases, Option-cases,
}
use igw_p.Bfrt.{BfRt, BfEntry, BfData, Setting, IsFaithful, entry_write, entry_find, entry_upsert}
use igw_p.Bfrt.Setup.{Step, set_up, write, upsert, run, run_step}
use Prim.Native.String.{String}
use igw_p.Bfrt.Keys.{is_key, is_key→≡, is_key→≢}

-- What a key holds once an entry has been written
unfoldable pub written : BfEntry → String → List Setting → Option BfData → Option BfData
unfolding is_key
written e t k o = if is_key t k e then some e.bf_data else o

-- The specification of a run: each key holds the data of the last entry written under it, and what
-- it held before where there is none.
unfoldable pub holds_after : List Step → String → List Setting → Option BfData → Option BfData
unfolding written
holds_after [] t k o = o
holds_after (set_up x ∷ xs) t k o = holds_after xs t k o
holds_after (write e add ∷ xs) t k o = holds_after xs t k (written e t k o)
holds_after (upsert e ∷ xs) t k o = holds_after xs t k (written e t k o)

pub then_some {ℓ} :
    {A : Type ℓ} (c : Bool) (o : Option A) (a : A) → (if c then o else none) ≡ some a → o ≡ some a
then_some true o a h = h
then_some false o a h = absurd (cc h)

pub then_same {ℓ} :
    {A : Type ℓ} (c : Bool) (a b : A) → (if c then some a else none) ≡ some b → a ≡ b
then_same true a b h = cc h
then_same false a b h = absurd (cc h)

pub none-some {ℓ} : {A : Type ℓ} (a : A) → ¬ (Path (Option A) none (some a))
none-some a h = cc h

-- A run that goes through, taken apart
pub run-cons :
    (d : BfRt) (s s' : d.State) (x : Step) (xs : List Step)
    → run d s (x ∷ xs) ≡ some s'
    → (s1 : d.State) × (run_step d s x ≡ some s1) × (run d s1 xs ≡ some s')
unfolding run
run-cons d s s' x xs h = elim (Option-cases (run_step d s x)) [
  | inl e ↦ absurd (none-some s' (rw (e, run) at h))
  | inr (s1, e) ↦ (s1, e, rw (e, run) at h)
]

pub run-append :
    (d : BfRt) (s s' : d.State) (xs ys : List Step)
    → run d s (xs ++ ys) ≡ some s'
    → (s1 : d.State) × (run d s xs ≡ some s1) × (run d s1 ys ≡ some s')
unfolding run
run-append d s s' [] ys h = (s, refl, h)
run-append d s s' (x ∷ xs) ys h =
    let (s1, a, b) = run-cons d s s' x (xs ++ ys) h in
    let (s2, c, g) = run-append d s1 s' xs ys b in (s2, rw (a, run) c, g)

module _ (d : BfRt) (read : d.State → String → List Setting → Option BfData)
    (f : IsFaithful d read) where
  add-written :
      (s s' : d.State) (e : BfEntry) (t : String) (k : List Setting)
      → d.bf_entry_add s e ≡ some s'
      → read s' t k ≡ written e t k (read s t k)
  unfolding written
  add-written s s' e t k h = elim (Bool-cases (is_key t k e)) [
    | inl same ↦ let (a, b) = is_key→≡ t k e same in rw (same, a, b) (f.add_reads s s' e h)
    | inr other ↦ rw other (f.add_others s s' e t k h (is_key→≢ t k e other))
  ]

  mod-written :
      (s s' : d.State) (e : BfEntry) (t : String) (k : List Setting)
      → d.bf_entry_mod s e ≡ some s'
      → read s' t k ≡ written e t k (read s t k)
  unfolding written
  mod-written s s' e t k h = elim (Bool-cases (is_key t k e)) [
    | inl same ↦ let (a, b) = is_key→≡ t k e same in rw (same, a, b) (f.mod_reads s s' e h)
    | inr other ↦ rw other (f.mod_others s s' e t k h (is_key→≢ t k e other))
  ]

  -- An accepted write is an add or a modify that the driver accepted.
  pub entry_write-written :
      (s s' : d.State) (e : BfEntry) (add : Bool) (t : String) (k : List Setting)
      → entry_write d s e add ≡ some s'
      → read s' t k ≡ written e t k (read s t k)
  unfolding entry_write
  entry_write-written s s' e true t k h = add-written s s' e t k (then_some _ _ s' h)
  entry_write-written s s' e false t k h = mod-written s s' e t k (then_some _ _ s' h)

  run_step-holds :
      (s s' : d.State) (x : Step) (xs : List Step) (t : String) (k : List Setting)
      → run_step d s x ≡ some s'
      → holds_after xs t k (read s' t k) ≡ holds_after (x ∷ xs) t k (read s t k)
  unfolding run_step holds_after entry_upsert
  run_step-holds s s' (set_up t') xs t k h = let same : s ≡ s' = then_same _ s s' h in rw same refl
  run_step-holds s s' (write e add) xs t k h =
      ap (holds_after xs t k) (entry_write-written s s' e add t k h)
  run_step-holds s s' (upsert e) xs t k h =
      ap (holds_after xs t k)
        (entry_write-written s s' e (if entry_find d s e then false else true) t k h)

  -- Over a driver that does what it documents, a run that goes through leaves under every key of
  -- every table the data of the last entry that the run writes there, and what was there before if it
  -- writes none.
  pub run-holds_after :
      (s s' : d.State) (xs : List Step) (t : String) (k : List Setting)
      → run d s xs ≡ some s'
      → read s' t k ≡ holds_after xs t k (read s t k)
  unfolding run holds_after
  run-holds_after s s' [] t k h = let same : s ≡ s' = cc h in rw same refl
  run-holds_after s s' (x ∷ xs) t k h =
      let (s1, e, g) = run-cons d s s' x xs h in
      run-holds_after s1 s' xs t k g ∙ run_step-holds s s1 x xs t k e
