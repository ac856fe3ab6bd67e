-- ===== src/Bfrt/Adds.antt =====
-- Runs that only add: the entries that an `assert` lets through are all there at the end, and a second
-- add under one key ends the program.
use igw_p.Prelude.{
  ℕ, zero, suc, Bool, true, false, ◌&&◌, Option, none, some, List, [], ◌∷◌, ◌++◌, map, ◌≡◌, refl,
  sym, ◌∙◌, ◌⊎◌, inl, inr, Bool-cases, Option-cases, get_elem?, ap,
}
use igw_p.Bfrt.{BfRt, BfEntry, BfData, Setting, IsFaithful, entry_write}
use igw_p.Bfrt.Setup.{Step, TableSetup, set_up, write, upsert, run, run_step}
use igw_p.Bfrt.Keys.{is_key}
use igw_p.Bfrt.Install.{
  written, holds_after, run-holds_after, none-some, then_some, then_same, run-cons, run-append,
}
use Prim.Native.String.{String}

-- No step modifies an entry.
unfoldable pub is_adds : List Step → Bool
is_adds [] = true
is_adds (set_up t ∷ xs) = is_adds xs
is_adds (write e add ∷ xs) = add && is_adds xs
is_adds (upsert e ∷ xs) = false

unfoldable pub Occurs : Step → List Step → Type 0
Occurs x [] = ⊥
Occurs x (y ∷ ys) = (y ≡ x) ⊎ Occurs x ys

is_adds-nil : is_adds [] ≡ true
unfolding is_adds
is_adds-nil = refl

is_adds-tail : (x : Step) (xs : List Step) → is_adds (x ∷ xs) ≡ true → is_adds xs ≡ true
unfolding is_adds
is_adds-tail (set_up t) xs h = h
is_adds-tail (write e true) xs h = h
is_adds-tail (write e false) xs h = absurd (cc h)
is_adds-tail (upsert e) xs h = absurd (cc h)

pub is_adds-append :
    (xs ys : List Step) → is_adds xs ≡ true → is_adds ys ≡ true → is_adds (xs ++ ys) ≡ true
unfolding is_adds
is_adds-append [] ys h g = g
is_adds-append (set_up t ∷ xs) ys h g = is_adds-append xs ys h g
is_adds-append (write e true ∷ xs) ys h g = is_adds-append xs ys h g
is_adds-append (write e false ∷ xs) ys h g = absurd (cc h)
is_adds-append (upsert e ∷ xs) ys h g = absurd (cc h)

pub is_adds-map {ℓ} :
    {A : Type ℓ} (f : A → Step) (xs : List A)
    → ((a : A) → is_adds (f a ∷ []) ≡ true)
    → is_adds (map f xs) ≡ true
is_adds-map f [] h = is_adds-nil
is_adds-map f (x ∷ xs) h = is_adds-append (f x ∷ []) (map f xs) (h x) (is_adds-map f xs h)

pub Occurs-append_left : (x : Step) (xs ys : List Step) → Occurs x xs → Occurs x (xs ++ ys)
unfolding Occurs
Occurs-append_left x [] ys o = absurd o
Occurs-append_left x (z ∷ xs) ys (inl e) = inl e
Occurs-append_left x (z ∷ xs) ys (inr o) = inr (Occurs-append_left x xs ys o)

pub Occurs-append_right : (x : Step) (xs ys : List Step) → Occurs x ys → Occurs x (xs ++ ys)
unfolding Occurs
Occurs-append_right x [] ys o = o
Occurs-append_right x (z ∷ xs) ys o = inr (Occurs-append_right x xs ys o)

pub Occurs-map {ℓ} :
    {A : Type ℓ} (f : A → Step) (xs : List A) (n : ℕ) (a : A)
    → get_elem? xs n ≡ some a
    → Occurs (f a) (map f xs)
unfolding Occurs
Occurs-map f [] n a h = absurd (cc h)
Occurs-map f (x ∷ xs) zero a h = let same : x ≡ a = cc h in inl (ap f same)
Occurs-map f (x ∷ xs) (suc n) a h = inr (Occurs-map f xs n a h)

-- No step takes an entry out.
holds_after-some :
    (xs : List Step) (t : String) (k : List Setting) (v : BfData)
    → (w : BfData) × (holds_after xs t k (some v) ≡ some w)
unfolding holds_after written
holds_after-some [] t k v = (v, refl)
holds_after-some (set_up x ∷ xs) t k v = holds_after-some xs t k v
holds_after-some (write e add ∷ xs) t k v = elim (Bool-cases (is_key t k e)) [
  | inl h ↦ rw h (holds_after-some xs t k e.bf_data)
  | inr h ↦ rw h (holds_after-some xs t k v)
]
holds_after-some (upsert e ∷ xs) t k v = elim (Bool-cases (is_key t k e)) [
  | inl h ↦ rw h (holds_after-some xs t k e.bf_data)
  | inr h ↦ rw h (holds_after-some xs t k v)
]

module _ (d : BfRt) (read : d.State → String → List Setting → Option BfData)
    (f : IsFaithful d read) where
  -- An add that goes through is one that the driver accepted.
  accepted_add :
      (s s' : d.State) (e : BfEntry)
      → run_step d s (write e true) ≡ some s'
      → d.bf_entry_add s e ≡ some s'
  unfolding run_step entry_write
  accepted_add s s' e h = then_some _ _ s' h

  run-occupied :
      (s s' : d.State) (xs : List Step) (t : String) (k : List Setting) (v : BfData)
      → run d s xs ≡ some s'
      → read s t k ≡ some v
      → (w : BfData) × (read s' t k ≡ some w)
  run-occupied s s' xs t k v h r =
      let (w, e) = holds_after-some xs t k v in
      (w, run-holds_after d read f s s' xs t k h ∙ (rw r e))

  -- A second add of an entry with the same table and key is refused, whatever stands between.
  pub run-twice :
      (s : d.State) (xs ys zs : List Step) (e e' : BfEntry)
      → e'.table ≡ e.table
      → e'.bf_key ≡ e.bf_key
      → run d s (xs ++ (write e true ∷ (ys ++ (write e' true ∷ zs)))) ≡ none
  run-twice s xs ys zs e e' same_table same_key =
      elim (Option-cases (run d s (xs ++ (write e true ∷ (ys ++ (write e' true ∷ zs)))))) [
        | inl h ↦ h
        | inr (s', h) ↦
            let (s1, a1, h1) = run-append d s s' xs _ h in
            let (s2, a2, h2) = run-cons d s1 s' _ _ h1 in
            let (s3, a3, h3) = run-append d s2 s' ys _ h2 in
            let (s4, a4, h4) = run-cons d s3 s' _ _ h3 in
            let there = f.add_reads s1 s2 e (accepted_add s1 s2 e a2) in
            let (w, still) = run-occupied s2 s3 ys e.table e.bf_key e.bf_data a3 there in
            let gone = f.add_absent s3 s4 e' (accepted_add s3 s4 e' a4) in
            let gone' : read s3 e.table e.bf_key ≡ none = rw (sym same_table, sym same_key) gone in
            absurd (none-some w (sym gone' ∙ still))
      ]

  add-keeps :
      (s s' : d.State) (e : BfEntry) (t : String) (k : List Setting) (v : BfData)
      → d.bf_entry_add s e ≡ some s'
      → read s t k ≡ some v
      → read s' t k ≡ some v
  add-keeps s s' e t k v h r =
      f.add_others s s' e t k h (λ (same_table, same_key).
        let gone : read s t k ≡ none = rw (same_table, same_key) (f.add_absent s s' e h) in
        none-some v (sym gone ∙ r))
      ∙ r

  set_up-keeps :
      (s s' : d.State) (x : TableSetup) (t : String) (k : List Setting)
      → run_step d s (set_up x) ≡ some s'
      → read s' t k ≡ read s t k
  unfolding run_step
  set_up-keeps s s' x t k h = let same : s ≡ s' = then_same _ s s' h in rw same refl

  run-keeps :
      (s s' : d.State) (xs : List Step) (t : String) (k : List Setting) (v : BfData)
      → is_adds xs ≡ true
      → run d s xs ≡ some s'
      → read s t k ≡ some v
      → read s' t k ≡ some v
  unfolding is_adds holds_after
  run-keeps s s' [] t k v adds h r = run-holds_after d read f s s' [] t k h ∙ r
  run-keeps s s' (set_up x ∷ xs) t k v adds h r =
      let (s1, a, g) = run-cons d s s' (set_up x) xs h in
      run-keeps s1 s' xs t k v adds g (set_up-keeps s s1 x t k a ∙ r)
  run-keeps s s' (write e true ∷ xs) t k v adds h r =
      let (s1, a, g) = run-cons d s s' (write e true) xs h in
      run-keeps s1 s' xs t k v adds g (add-keeps s s1 e t k v (accepted_add s s1 e a) r)
  run-keeps s s' (write e false ∷ xs) t k v adds h r = absurd (cc adds)
  run-keeps s s' (upsert e ∷ xs) t k v adds h r = absurd (cc adds)

  -- After a run of adds that goes through, every entry of the run is in its table.
  pub run-adds_read :
      (s s' : d.State) (xs : List Step) (e : BfEntry)
      → is_adds xs ≡ true
      → run d s xs ≡ some s'
      → Occurs (write e true) xs
      → read s' e.table e.bf_key ≡ some e.bf_data
  unfolding is_adds Occurs
  run-adds_read s s' [] e adds h o = absurd o
  run-adds_read s s' (x ∷ xs) e adds h (inl same) =
      let (s1, a, g) = run-cons d s s' x xs h in
      run-keeps s1 s' xs e.table e.bf_key e.bf_data (is_adds-tail x xs adds) g
        (f.add_reads s s1 e (accepted_add s s1 e (rw same at a)))
  run-adds_read s s' (x ∷ xs) e adds h (inr o) =
      let (s1, a, g) = run-cons d s s' x xs h in
      run-adds_read s1 s' xs e (is_adds-tail x xs adds) g o
