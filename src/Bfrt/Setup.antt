-- ===== src/Bfrt/Setup.antt =====
-- What a `.._table_setup` of igw-h/init_setup/switchbfrt resolves, and the steps of the start-up: a
-- set-up, an entry written, an entry modified or added.
use igw_p.Prelude.{
  ℕ, Bool, true, false, ◌&&◌, ◌||◌, Option, none, some, List, [], ◌∷◌, if◌then◌else◌,
}
use igw_p.IpType.{Ternary}
use igw_p.Bfrt.{
  BfRt, BfEntry, BfData, Setting, set_field, exact, with_mask, entry_write, entry_upsert,
}
use Prim.Native.String.{String}
use text.Mathlib.Text.{◌==◌ as str_eq}

-- A data field, of an action where the C code calls `bf_rt_data_field_id_with_action_get`
pub record DataName : Type 0 where
  pub of_action : Option String
  pub data_name : String

abbrev pub data_of : String → String → DataName
data_of a f = record { of_action = some a; data_name = f }

abbrev pub data_plain : String → DataName
data_plain f = record { of_action = none; data_name = f }

pub record TableSetup : Type 0 where
  pub setup_table : String
  pub action_names : List String
  pub key_names : List String
  pub data_names : List DataName

-- Every name of a list resolves.
unfoldable pub all_known {ℓ} : {A : Type ℓ} → (A → Bool) → List A → Bool
all_known test [] = true
all_known test (x ∷ xs) = test x && all_known test xs

-- `false` is an `assert` that fails.
unfoldable pub table_setup : BfRt → TableSetup → Bool
unfolding all_known
table_setup d t =
    d.table_from_name_get t.setup_table
    && (all_known (d.action_name_to_id t.setup_table) t.action_names
        && (all_known (d.key_field_id_get t.setup_table) t.key_names
            && (all_known (λ f. d.data_field_id_get t.setup_table f.of_action f.data_name)
                  t.data_names
                && (d.key_allocate t.setup_table && d.data_allocate t.setup_table))))

-- A field that is matched under a mask
abbrev pub ternary : String → Ternary → Setting
ternary f t = set_field f (with_mask t.value t.mask)

abbrev pub plain : String → ℕ → Setting
plain f v = set_field f (exact v)

abbrev pub with_action : String → List Setting → BfData
with_action a xs = record { bf_action = some a; fields = xs }

abbrev pub no_action : List Setting → BfData
no_action xs = record { bf_action = none; fields = xs }

abbrev pub entry : String → List Setting → BfData → BfEntry
entry t k v = record { table = t; bf_key = k; bf_data = v }

-- One step of the start-up; each stands under an `assert`, or under a SETUP_PANIC.
pub data Step : Type 0 where
  set_up : TableSetup → Step
  write : BfEntry → Bool → Step
  upsert : BfEntry → Step

unfoldable pub run_step : (d : BfRt) → d.State → Step → Option d.State
unfolding table_setup entry_write entry_upsert
run_step d s (set_up t) = if table_setup d t then some s else none
run_step d s (write e add) = entry_write d s e add
run_step d s (upsert e) = entry_upsert d s e

unfoldable pub run : (d : BfRt) → d.State → List Step → Option d.State
unfolding run_step
run d s [] = some s
run d s (x ∷ xs) = elim (run_step d s x) [ none ↦ none | some s' ↦ run d s' xs ]

unfoldable pub mem : String → List String → Bool
mem x [] = false
mem x (y ∷ ys) = str_eq x y || mem x ys

unfoldable pub same_action : Option String → Option String → Bool
same_action none none = true
same_action none (some b) = false
same_action (some a) none = false
same_action (some a) (some b) = str_eq a b

unfoldable pub mem_data : Option String → String → List DataName → Bool
unfolding same_action
mem_data a f [] = false
mem_data a f (x ∷ xs) = (same_action a x.of_action && str_eq f x.data_name) || mem_data a f xs

unfoldable pub mem_action : Option String → List String → Bool
unfolding mem
mem_action none xs = true
mem_action (some a) xs = mem a xs

-- The set-up resolved the table, the action and every field of an entry.
unfoldable pub resolves : TableSetup → BfEntry → Bool
unfolding mem mem_data mem_action all_known
resolves t e =
    str_eq e.table t.setup_table
    && (mem_action e.bf_data.bf_action t.action_names
        && (all_known (λ x. mem x.field t.key_names) e.bf_key
            && all_known (λ x. mem_data e.bf_data.bf_action x.field t.data_names) e.bf_data.fields))
