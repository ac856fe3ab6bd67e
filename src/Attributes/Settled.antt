-- ===== src/Attributes/Settled.antt =====
-- What the tables' attributes are once start-up has set them.
use igw_p.Prelude.{
  Bool, true, false, ◌&&◌, ◌||◌, not, Option, none, some, List, [], ◌∷◌, ◌≡◌, refl, sym, ◌∙◌, ap,
  arith, if◌then◌else◌, Bool-cases, inl, inr, All,
}
use Prim.Native.String.{String}
use text.Mathlib.Text.{◌==◌ as str_eq}
use igw_p.Attributes.Expected.{listed, metered_tables, own_tables}
use igw_p.Attributes.{
  ℤ, Attribute, byte_count_adjust, symmetric_mode, AttributeDriver, AttributeStep,
  run_attribute_step, run_attribute_steps, given_back, attribute_steps,
  eip_in_meter_adjust_byte_count, eip_out_meter_adjust_byte_count,
}

-- The byte count of a table behind a set, and behind some steps
unfoldable pub adjusted : String → String → Attribute → Option ℤ → Option ℤ
adjusted u t (byte_count_adjust n) before = if str_eq t u then some n else before
adjusted u t (symmetric_mode b) before = before

unfoldable pub scoped : String → String → Attribute → Option Bool → Option Bool
scoped u t (byte_count_adjust n) before = before
scoped u t (symmetric_mode b) before = if str_eq t u then some b else before

unfoldable pub last_adjusted : String → List AttributeStep → Option ℤ → Option ℤ
unfolding adjusted
last_adjusted u [] before = before
last_adjusted u (x ∷ xs) before = last_adjusted u xs (adjusted u x.step_table x.attribute before)

unfoldable pub last_scoped : String → List AttributeStep → Option Bool → Option Bool
unfolding scoped
last_scoped u [] before = before
last_scoped u (x ∷ xs) before = last_scoped u xs (scoped u x.step_table x.attribute before)

-- A step that sets the scope of a table, one that names it at all, and one that sets a shared scope
unfoldable pub is_scope_of : String → String → Attribute → Bool
is_scope_of u t (byte_count_adjust n) = false
is_scope_of u t (symmetric_mode b) = str_eq t u

unfoldable pub scopes : String → List AttributeStep → Bool
unfolding is_scope_of
scopes u [] = false
scopes u (x ∷ xs) = is_scope_of u x.step_table x.attribute || scopes u xs

unfoldable pub names : String → List AttributeStep → Bool
names u [] = false
names u (x ∷ xs) = str_eq x.step_table u || names u xs

unfoldable pub is_shared : Attribute → Bool
is_shared (byte_count_adjust n) = false
is_shared (symmetric_mode b) = b

abbrev IsOwn : AttributeStep → Type 0
IsOwn x = is_shared x.attribute ≡ false

scoped-false :
    (u t : String) (a : Attribute) → is_shared a ≡ false → scoped u t a (some false) ≡ some false
unfolding scoped is_shared
scoped-false u t (byte_count_adjust n) own = refl
scoped-false u t (symmetric_mode true) own = absurd (cc own)
scoped-false u t (symmetric_mode false) own = ground arith

last_scoped-kept :
    (u : String) (xs : List AttributeStep)
    → All IsOwn xs
    → last_scoped u xs (some false) ≡ some false
unfolding last_scoped
last_scoped-kept u [] own = refl
last_scoped-kept u (x ∷ xs) (o, own) =
    ap (last_scoped u xs) (scoped-false u x.step_table x.attribute o) ∙ last_scoped-kept u xs own

scoped-cases :
    (u t : String) (a : Attribute) (before : Option Bool)
    → is_shared a ≡ false
    → scoped u t a before ≡ (if is_scope_of u t a then some false else before)
unfolding scoped is_shared is_scope_of
scoped-cases u t (byte_count_adjust n) before own = refl
scoped-cases u t (symmetric_mode true) before own = absurd (cc own)
scoped-cases u t (symmetric_mode false) before own = refl

-- Where no step shares a scope, a table that some step scopes has its own.
last_scoped-own :
    (u : String) (xs : List AttributeStep) (before : Option Bool)
    → All IsOwn xs
    → scopes u xs ≡ true
    → last_scoped u xs before ≡ some false
unfolding last_scoped scopes
last_scoped-own u [] before own h = absurd (cc h)
last_scoped-own u (x ∷ xs) before (o, own) h =
    elim (Bool-cases (is_scope_of u x.step_table x.attribute)) [
      | inl here ↦
          ap (last_scoped u xs) (
            scoped-cases u x.step_table x.attribute before o
            ∙ ap (λ b. if b then some false else before) here)
          ∙ last_scoped-kept u xs own
      | inr past ↦
          last_scoped-own u xs (scoped u x.step_table x.attribute before) own
            (ap (λ b. b || scopes u xs) (sym past) ∙ h)
    ]

unnamed : (a b : Bool) → (a || b) ≡ false → (a ≡ false) × (b ≡ false)
unnamed a b h = ground arith

step_unnamed :
    (u t : String) (a : Attribute) (n : Option ℤ) (b : Option Bool)
    → str_eq t u ≡ false
    → (adjusted u t a n ≡ n) × (scoped u t a b ≡ b)
unfolding adjusted scoped
step_unnamed u t (byte_count_adjust m) n b h = (ap (λ c. if c then some m else n) h, refl)
step_unnamed u t (symmetric_mode c) n b h = (refl, ap (λ e. if e then some c else b) h)

last_unnamed :
    (u : String) (xs : List AttributeStep) (n : Option ℤ) (b : Option Bool)
    → names u xs ≡ false
    → (last_adjusted u xs n ≡ n) × (last_scoped u xs b ≡ b)
unfolding names last_adjusted last_scoped
last_unnamed u [] n b h = (refl, refl)
last_unnamed u (x ∷ xs) n b h =
    let (head, tail) = unnamed (str_eq x.step_table u) (names u xs) h in
    let (here_n, here_b) = step_unnamed u x.step_table x.attribute n b head in
    let (rest_n, rest_b) = last_unnamed u xs n b tail in
    (ap (last_adjusted u xs) here_n ∙ rest_n, ap (last_scoped u xs) here_b ∙ rest_b)

own_first : (a b : Bool) → (not a && b) ≡ true → (a ≡ false) × (b ≡ true)
own_first a b h = ground arith

all_own : List AttributeStep → Bool
all_own [] = true
all_own (x ∷ xs) = not (is_shared x.attribute) && all_own xs

all_own-All : (xs : List AttributeStep) → all_own xs ≡ true → All IsOwn xs
unfolding all_own
all_own-All [] h = tt
all_own-All (x ∷ xs) h =
    let (o, own) = own_first (is_shared x.attribute) (all_own xs) h in (o, all_own-All xs own)

steps-own : all_own attribute_steps ≡ true
unfolding all_own attribute_steps is_shared
steps-own = refl

steps-IsOwn : All IsOwn attribute_steps
steps-IsOwn = all_own-All attribute_steps steps-own

-- Over a driver whose accepted sets change that attribute of that table and nothing else
module _ (d : AttributeDriver) (byte_count : d.State → String → Option ℤ)
    (scope : d.State → String → Option Bool)
    (sets : (s s' : d.State) (t : String) (a : Attribute) (u : String)
      → d.table_attributes_set s t a ≡ some s'
      → (byte_count s' u ≡ adjusted u t a (byte_count s u))
        × (scope s' u ≡ scoped u t a (scope s u))) where
  answered :
      (b : Bool) (o : Option d.State) (s' : d.State) → given_back d b o ≡ some s' → o ≡ some s'
  unfolding given_back
  answered true o s' h = h
  answered false o s' h = absurd (cc h)

  accepted :
      (b c : Bool) (o : Option d.State) (s' : d.State)
      → (if b then given_back d c o else none) ≡ some s'
      → o ≡ some s'
  accepted true c o s' h = answered c o s' h
  accepted false c o s' h = absurd (cc h)

  run_attribute_step-sets :
      (x : AttributeStep) (s s' : d.State) (u : String)
      → run_attribute_step d x s ≡ some s'
      → (byte_count s' u ≡ adjusted u x.step_table x.attribute (byte_count s u))
        × (scope s' u ≡ scoped u x.step_table x.attribute (scope s u))
  unfolding run_attribute_step
  run_attribute_step-sets x s s' u h = sets s s' x.step_table x.attribute u (accepted _ _ _ s' h)

  first-some :
      (o : Option d.State) (xs : List AttributeStep) (s' : d.State)
      → Path
          (Option d.State)
          (elim o [ none ↦ none | some s1 ↦ run_attribute_steps d xs s1 ])
          (some s')
      → (s1 : d.State) × (o ≡ some s1) × (run_attribute_steps d xs s1 ≡ some s')
  first-some none xs s' h = absurd (cc h)
  first-some (some s1) xs s' h = (s1, refl, h)

  -- A run that goes through leaves what its last step of each kind sets.
  pub run_attribute_steps-last :
      (xs : List AttributeStep) (s s' : d.State) (u : String)
      → run_attribute_steps d xs s ≡ some s'
      → (byte_count s' u ≡ last_adjusted u xs (byte_count s u))
        × (scope s' u ≡ last_scoped u xs (scope s u))
  unfolding run_attribute_steps last_adjusted last_scoped
  run_attribute_steps-last [] s s' u h =
      let same : s ≡ s' = cc h in
      (ap (λ x. byte_count x u) (sym same), ap (λ x. scope x u) (sym same))
  run_attribute_steps-last (x ∷ xs) s s' u h =
      let (s1, first, rest) = first-some (run_attribute_step d x s) xs s' h in
      let (n, b) = run_attribute_step-sets x s s1 u first in
      let (ns, bs) = run_attribute_steps-last xs s1 s' u rest in
      (ns ∙ ap (last_adjusted u xs) n, bs ∙ ap (last_scoped u xs) b)

  -- If the steps of `main` go through: each of the four meters has its byte count; each of the
  -- fifteen tables that are to have entries by pipe has a scope of its own; and every other table has
  -- what it had.
  pub attribute_steps-settled :
      (s s' : d.State)
      → run_attribute_steps d attribute_steps s ≡ some s'
      → (byte_count s' "P13_Egress.eip_in_meter.bw_ratelimit" ≡ some eip_in_meter_adjust_byte_count)
        × (byte_count s' "P13_Ingress.eip_in_shared_meter.shared_bw_ratelimit"
            ≡ some eip_in_meter_adjust_byte_count)
        × (byte_count s' "P02_Egress.process_gw_egress.eip_out_meter.bw_ratelimit"
            ≡ some eip_out_meter_adjust_byte_count)
        × (byte_count s' "P02_Egress.process_gw_egress.eip_out_shared_meter.shared_bw_ratelimit"
            ≡ some eip_out_meter_adjust_byte_count)
        × ((u : String) → listed u own_tables ≡ true → scope s' u ≡ some false)
        × ((u : String)
            → listed u metered_tables ≡ false
            → listed u own_tables ≡ false
            → (byte_count s' u ≡ byte_count s u) × (scope s' u ≡ scope s u))
  unfolding attribute_steps last_adjusted scopes names listed
  attribute_steps-settled s s' h =
      let at = λ (u : String). run_attribute_steps-last attribute_steps s s' u h in
      (
        (at "P13_Egress.eip_in_meter.bw_ratelimit").0,
        (at "P13_Ingress.eip_in_shared_meter.shared_bw_ratelimit").0,
        (at "P02_Egress.process_gw_egress.eip_out_meter.bw_ratelimit").0,
        (at "P02_Egress.process_gw_egress.eip_out_shared_meter.shared_bw_ratelimit").0,
        (λ u named. (at u).1 ∙ last_scoped-own u attribute_steps (scope s u) steps-IsOwn named),
        (λ u no_meter no_scope.
            let unnamed_here : names u attribute_steps ≡ false =
              ground (arith, no_meter, no_scope) in
            let (n, b) = last_unnamed u attribute_steps (byte_count s u) (scope s u) unnamed_here in
            ((at u).0 ∙ n, (at u).1 ∙ b)),
      )
