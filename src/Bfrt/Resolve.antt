-- ===== src/Bfrt/Resolve.antt =====
-- Every id that a wrapper of igw-h/init_setup/switchbfrt passes was resolved before: the statics start
-- as 0, and nothing but a set-up writes them.
use igw_p.Prelude.{Bool, true, false, ◌&&◌, ◌||◌, List, [], ◌∷◌, ◌++◌, map, ◌≡◌, refl, arith}
use igw_p.Bfrt.{BfEntry}
use igw_p.Bfrt.Setup.{TableSetup, Step, set_up, write, upsert, resolves}

-- One of the set-ups resolved what the entry passes.
unfoldable pub any_resolves : List TableSetup → BfEntry → Bool
any_resolves [] e = false
any_resolves (t ∷ ts) e = resolves t e || any_resolves ts e

-- Every entry of a run is resolved by a set-up before it.
unfoldable pub resolved : List TableSetup → List Step → Bool
unfolding any_resolves
resolved ts [] = true
resolved ts (set_up t ∷ xs) = resolved (t ∷ ts) xs
resolved ts (write e add ∷ xs) = any_resolves ts e && resolved ts xs
resolved ts (upsert e ∷ xs) = any_resolves ts e && resolved ts xs

either : (a b c : Bool) → (b ≡ true → c ≡ true) → (a || b) ≡ true → (a || c) ≡ true
either true b c h g = refl
either false b c h g = h g

both : (a b : Bool) → a ≡ true → b ≡ true → (a && b) ≡ true
both a b h g = ground arith

of_both : (a b : Bool) → (a && b) ≡ true → (a ≡ true) × (b ≡ true)
of_both a b h = ground arith

-- More set-ups resolve no less.
resolved-more :
    (ts us : List TableSetup) (xs : List Step)
    → ((e : BfEntry) → any_resolves ts e ≡ true → any_resolves us e ≡ true)
    → resolved ts xs ≡ true
    → resolved us xs ≡ true
unfolding resolved
resolved-more ts us [] more h = refl
resolved-more ts us (set_up t ∷ xs) more h =
    resolved-more (t ∷ ts) (t ∷ us) xs (λ e. either (resolves t e) _ _ (more e)) h
resolved-more ts us (write e add ∷ xs) more h =
    let (a, b) = of_both (any_resolves ts e) _ h in
    both _ _ (more e a) (resolved-more ts us xs more b)
resolved-more ts us (upsert e ∷ xs) more h =
    let (a, b) = of_both (any_resolves ts e) _ h in
    both _ _ (more e a) (resolved-more ts us xs more b)

resolved-cons :
    (ts : List TableSetup) (x : Step) (xs : List Step)
    → resolved ts (x ∷ []) ≡ true
    → resolved ts xs ≡ true
    → resolved ts (x ∷ xs) ≡ true
unfolding resolved
resolved-cons ts (set_up t) xs h g = resolved-more ts (t ∷ ts) xs (λ e k. ground arith) g
resolved-cons ts (write e add) xs h g = both _ _ (of_both (any_resolves ts e) _ h).0 g
resolved-cons ts (upsert e) xs h g = both _ _ (of_both (any_resolves ts e) _ h).0 g

-- Two runs one after the other
pub resolved-append :
    (ts : List TableSetup) (xs ys : List Step)
    → resolved ts xs ≡ true
    → resolved [] ys ≡ true
    → resolved ts (xs ++ ys) ≡ true
unfolding resolved
resolved-append ts [] ys h g = resolved-more [] ts ys (λ e k. absurd (cc k)) g
resolved-append ts (set_up t ∷ xs) ys h g = resolved-append (t ∷ ts) xs ys h g
resolved-append ts (write e add ∷ xs) ys h g =
    let (a, b) = of_both (any_resolves ts e) _ h in both _ _ a (resolved-append ts xs ys b g)
resolved-append ts (upsert e ∷ xs) ys h g =
    let (a, b) = of_both (any_resolves ts e) _ h in both _ _ a (resolved-append ts xs ys b g)

pub resolved-map {ℓ} :
    {A : Type ℓ} (ts : List TableSetup) (f : A → Step) (xs : List A) (ys : List Step)
    → ((a : A) → resolved ts (f a ∷ []) ≡ true)
    → resolved ts ys ≡ true
    → resolved ts (map f xs ++ ys) ≡ true
resolved-map ts f [] ys h g = g
resolved-map ts f (x ∷ xs) ys h g =
    resolved-cons ts (f x) (map f xs ++ ys) (h x) (resolved-map ts f xs ys h g)

pub resolved-map_all {ℓ} :
    {A : Type ℓ} (ts : List TableSetup) (f : A → Step) (xs : List A)
    → ((a : A) → resolved ts (f a ∷ []) ≡ true)
    → resolved ts (map f xs) ≡ true
unfolding resolved
resolved-map_all ts f [] h = refl
resolved-map_all ts f (x ∷ xs) h =
    resolved-cons ts (f x) (map f xs) (h x) (resolved-map_all ts f xs h)
