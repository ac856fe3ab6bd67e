-- ===== src/Hashed/Lookup.antt =====
-- What a table means: a lookup after an insertion, after a write through a pointer, and after the
-- fill from an array.
use igw_p.Prelude.{
  ℕ, ◌<◌, ◌≡◌, refl, ◌∙◌, ap, List, [], ◌∷◌, Option, none, some, ◌==◌, if◌then◌else◌, arith, get_or,
  length, zero, suc, get_elem?, ==_iff, Bool, true, false, All, length-set, length-replicate,
  get_or-set, get_or-replicate,
}
use mathlib.Core.Option
use mathlib.Core.Path.{subst}
use igw_p.Prelude.Bits.{bit_and-le}
use igw_p.Hashed.{
  Table, slot, init_heads, chain_find, chain_update, entry_get, entry_add, entry_update, add_all,
  table_size,
}

slot-lt : (k : ℕ) → slot k < table_size
unfolding slot
slot-lt k = omega (arith, bit_and-le k 63)

slot_congr : (a b : ℕ) → a ≡ b → slot a ≡ slot b
slot_congr a b e = ap slot e

-- The table has all its chains.
abbrev pub IsWide {ℓ} : {E : Type ℓ} → Table E → Type 0
IsWide t = length t ≡ table_size

pub init_heads-IsWide {ℓ} : (E : Type ℓ) → IsWide (init_heads {E = E})
unfolding init_heads
init_heads-IsWide E = length-replicate {A = List E} table_size []

module _ {ℓ} {E : Type ℓ} (key_of : E → ℕ) where
  pub entry_add-IsWide : (e : E) (t : Table E) → IsWide t → IsWide (entry_add key_of e t)
  unfolding entry_add
  entry_add-IsWide e t w = length-set t _ _ ∙ w

  pub entry_update-IsWide :
      (k : ℕ) (f : E → E) (t : Table E) → IsWide t → IsWide (entry_update key_of k f t)
  unfolding entry_update
  entry_update-IsWide k f t w = length-set t _ _ ∙ w

  -- In a table that has all its chains, a lookup sees the entry just added, and is otherwise
  -- unchanged.
  pub entry_get-entry_add :
      (e : E) (t : Table E) (k : ℕ)
      → IsWide t
      → entry_get key_of (entry_add key_of e t) k
        ≡ (if key_of e == k then some e else entry_get key_of t k)
  unfolding entry_get entry_add chain_find
  entry_get-entry_add e t k w =
      let lt : slot (key_of e) < length t = rw w (slot-lt (key_of e)) in
      ground (
        arith,
        get_or-set t (slot (key_of e)) (slot k) (e ∷ get_or t (slot (key_of e)) []) [] lt,
        slot_congr (key_of e) k,
      )

  chain_find-chain_update :
      (k j : ℕ) (f : E → E) (es : List E)
      → ((e : E) → key_of (f e) ≡ key_of e)
      → chain_find key_of j (chain_update key_of k f es)
        ≡ (if k == j then Option.map f (chain_find key_of j es) else chain_find key_of j es)
  unfolding chain_find chain_update
  chain_find-chain_update k j f [] keeps = ground arith
  chain_find-chain_update k j f (e ∷ es) keeps =
      ground (arith, chain_find-chain_update k j f es keeps, keeps e)

  -- In a table that has all its chains, a lookup after a write that keeps the key sees the new fields
  -- under that key, and is otherwise unchanged.
  pub entry_get-entry_update :
      (k j : ℕ) (f : E → E) (t : Table E)
      → IsWide t
      → ((e : E) → key_of (f e) ≡ key_of e)
      → entry_get key_of (entry_update key_of k f t) j
        ≡ (if k == j then Option.map f (entry_get key_of t j) else entry_get key_of t j)
  unfolding entry_get entry_update
  entry_get-entry_update k j f t w keeps =
      let lt : slot k < length t = rw w (slot-lt k) in
      let c = get_or t (slot k) [] in
      ground (
        arith,
        get_or-set t (slot k) (slot j) (chain_update key_of k f c) [] lt,
        slot_congr k j,
        chain_find-chain_update k j f c keeps,
      )

  -- The last entry of an array with the key.
  unfoldable pub find_last : ℕ → List E → Option E
  find_last k [] = none
  find_last k (e ∷ es) = elim (find_last k es) [
    | some later ↦ some later
    | none ↦ if key_of e == k then some e else none
  ]

  later-All {κ} :
      (Q : E → Type κ) (o : Option E) (b : Bool) (x e : E)
      → ((y : E) → o ≡ some y → Q y)
      → Q x
      → elim o [ some later ↦ some later | none ↦ if b then some x else none ] ≡ some e
      → Q e
  later-All Q (some y) b x e q qx h = q e h
  later-All Q none true x e q qx h = let same : x ≡ e = cc h in subst Q same qx
  later-All Q none false x e q qx h = absurd (cc h)

  -- What every entry of an array has, a search finds.
  pub find_last-All {κ} :
      (Q : E → Type κ) (es : List E) (k : ℕ) (e : E) → All Q es → find_last k es ≡ some e → Q e
  unfolding find_last
  find_last-All Q [] k e qs h = absurd (cc h)
  find_last-All Q (x ∷ es) k e (q, qs) h =
      later-All Q (find_last k es) (key_of x == k) x e (λ y. find_last-All Q es k y qs) q h

  or-later :
      (o : Option E) (b : Bool) (x : E)
      → b ≡ true
      → (e : E) × (elim o [ some later ↦ some later | none ↦ if b then some x else none ] ≡ some e)
  or-later (some y) b x h = (y, refl)
  or-later none true x h = (x, refl)
  or-later none false x h = absurd (cc h)

  later-found :
      (o : Option E) (b : Bool) (x e : E)
      → o ≡ some e
      → elim o [ some later ↦ some later | none ↦ if b then some x else none ] ≡ some e
  later-found (some y) b x e h = h
  later-found none b x e h = absurd (cc h)

  -- A search for the key of an entry of the array finds one.
  pub find_last-get_elem? :
      (es : List E) (n : ℕ) (x : E)
      → get_elem? es n ≡ some x
      → (e : E) × (find_last (key_of x) es ≡ some e)
  unfolding find_last
  find_last-get_elem? [] n x at = absurd (cc at)
  find_last-get_elem? (y ∷ es) zero x at =
      let same : y ≡ x = cc at in
      or-later (find_last (key_of x) es) (key_of y == key_of x) y
        ((==_iff (key_of y) (key_of x)).1 (ap key_of same))
  find_last-get_elem? (y ∷ es) (suc n) x at =
      let (e, found) = find_last-get_elem? es n x at in
      (e, later-found (find_last (key_of x) es) (key_of y == key_of x) y e found)

  add_all-IsWide : (es : List E) (t : Table E) → IsWide t → IsWide (add_all key_of es t)
  unfolding add_all
  add_all-IsWide [] t w = w
  add_all-IsWide (e ∷ es) t w = add_all-IsWide es (entry_add key_of e t) (entry_add-IsWide e t w)

  entry_get-add_all_from :
      (es : List E) (t : Table E) (k : ℕ)
      → IsWide t
      → entry_get key_of (add_all key_of es t) k
        ≡ elim (find_last k es) [ some e ↦ some e | none ↦ entry_get key_of t k ]
  unfolding add_all find_last
  entry_get-add_all_from [] t k w = refl
  entry_get-add_all_from (e ∷ es) t k w = ground (
    arith,
    entry_get-add_all_from es (entry_add key_of e t) k (entry_add-IsWide e t w),
    entry_get-entry_add e t k w,
  )

  pub entry_get-init_heads : (k : ℕ) → entry_get key_of init_heads k ≡ none
  unfolding entry_get init_heads chain_find
  entry_get-init_heads k = rw (get_or-replicate {A = List E} table_size (slot k) [])

  pub add_all-init_heads-IsWide : (es : List E) → IsWide (add_all key_of es init_heads)
  add_all-init_heads-IsWide es = add_all-IsWide es init_heads (init_heads-IsWide E)

  -- A table filled from an array answers a lookup with the last entry of the array that has the key.
  pub entry_get-add_all :
      (es : List E) (k : ℕ) → entry_get key_of (add_all key_of es init_heads) k ≡ find_last k es
  entry_get-add_all es k =
      ground (
        arith,
        entry_get-add_all_from es init_heads k (init_heads-IsWide E),
        entry_get-init_heads k,
      )

  chain_find-key : (k : ℕ) (es : List E) (e : E) → chain_find key_of k es ≡ some e → key_of e ≡ k
  unfolding chain_find
  chain_find-key k [] e h = cc
  chain_find-key k (x ∷ es) e h = ground (arith, chain_find-key k es e)

  -- What a lookup finds has the key.
  pub entry_get-key : (k : ℕ) (t : Table E) (e : E) → entry_get key_of t k ≡ some e → key_of e ≡ k
  unfolding entry_get
  entry_get-key k t e h = chain_find-key k (get_or t (slot k) []) e h
