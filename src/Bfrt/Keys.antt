-- ===== src/Bfrt/Keys.antt =====
-- When two keys of the driver's tables are the same, decided.
use igw_p.Prelude.{Bool, true, false, ◌&&◌, List, ◌≡◌, ◌↔◌, refl, inl, inr, arith, Bool-cases}
use igw_p.Bfrt.{BfEntry, Setting, Value}
use Prim.Native.String.{String}
use text.Mathlib.Text.{◌==◌ as str_eq}
use text.Mathlib.TextEquality.{eq_iff}
use native.Mathlib.Decide.{ℕ_discrete}

from_test {ℓ} : {A : Type ℓ} (b : Bool) → ((b ≡ true) ↔ A) → Dec A
from_test true h = yes (h.0 refl)
from_test false h = no (λ a. let e : false ≡ true = h.1 a in cc)

unfoldable pub String-discrete : Discrete String
unfolding from_test
String-discrete a b = from_test (str_eq a b) (eq_iff a b)

unfoldable pub Value-discrete : Discrete Value
unfolding String-discrete
Value-discrete = hlevel (ℕ_discrete, String-discrete)

unfoldable pub Setting-discrete : Discrete Setting
unfolding Value-discrete String-discrete
Setting-discrete = hlevel (Value-discrete, String-discrete)

unfoldable pub Key-discrete : Discrete (List Setting)
unfolding Setting-discrete
Key-discrete = hlevel Setting-discrete

abbrev pub decided {ℓ} : {A : Type ℓ} → Dec A → Bool
decided (yes a) = true
decided (no n) = false

decided-true {ℓ} : {A : Type ℓ} (x : Dec A) → decided x ≡ true → A
decided-true (yes a) h = a
decided-true (no n) h = absurd (cc h)

decided-false {ℓ} : {A : Type ℓ} (x : Dec A) → decided x ≡ false → ¬ A
decided-false (yes a) h = absurd (cc h)
decided-false (no n) h = n

-- The table and the key of an entry
unfoldable pub is_key : String → List Setting → BfEntry → Bool
unfolding Key-discrete
is_key t k e = str_eq t e.table && decided (Key-discrete k e.bf_key)

and-true : (a b : Bool) → (a && b) ≡ true → (a ≡ true) × (b ≡ true)
and-true a b h = ground arith

and-intro : (a b : Bool) → a ≡ true → (a && b) ≡ false → b ≡ false
and-intro a b h g = ground arith

pub is_key→≡ :
    (t : String) (k : List Setting) (e : BfEntry)
    → is_key t k e ≡ true
    → (t ≡ e.table) × (k ≡ e.bf_key)
unfolding is_key
is_key→≡ t k e h =
    let (a, b) = and-true _ _ h in
    ((eq_iff t e.table).0 a, decided-true (Key-discrete k e.bf_key) b)

pub is_key→≢ :
    (t : String) (k : List Setting) (e : BfEntry)
    → is_key t k e ≡ false
    → ¬ ((t ≡ e.table) × (k ≡ e.bf_key))
unfolding is_key
is_key→≢ t k e h (a, b) =
    decided-false (Key-discrete k e.bf_key) (and-intro _ _ ((eq_iff t e.table).1 a) h) b

pub is_key_self : (e : BfEntry) → is_key e.table e.bf_key e ≡ true
is_key_self e = elim (Bool-cases (is_key e.table e.bf_key e)) [
  | inl h ↦ h
  | inr h ↦ absurd (is_key→≢ e.table e.bf_key e h (refl, refl))
]
