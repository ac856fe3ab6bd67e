-- ===== src/Attributes/Examples.antt =====
-- A driver that keeps the two attributes of each table.
use igw_p.Prelude.{Bool, true, false, Option, none, some, ◌≡◌, refl, sym, ap}
use Prim.Native.String.{String}
use igw_p.Attributes.{
  ℤ, Attribute, AttributeDriver, run_attribute_steps, attribute_steps,
  eip_in_meter_adjust_byte_count, eip_out_meter_adjust_byte_count,
}
use igw_p.Attributes.Expected.{listed, metered_tables, own_tables}
use igw_p.Attributes.Settled.{adjusted, scoped, attribute_steps-settled}

pub record Kept : Type 0 where
  pub byte_counts : String → Option ℤ
  pub own_scopes : String → Option Bool

abbrev pub write : Kept → String → Attribute → Kept
write s t a = record {
  byte_counts = λ u. adjusted u t a (s.byte_counts u);
  own_scopes = λ u. scoped u t a (s.own_scopes u);
}

abbrev pub keeper : AttributeDriver
keeper = record {
  State = Kept;
  table_from_name_get = λ t. true;
  attributes_allocate = λ t a. true;
  attribute_set = λ t a. true;
  table_attributes_set = λ s t a. some (write s t a);
  attributes_deallocate = λ t. true;
}

abbrev pub fresh : Kept
fresh = record { byte_counts = λ u. none; own_scopes = λ u. none }

is_some : Option Kept → Bool
is_some none = false
is_some (some s) = true

unwrap : Option Kept → Kept
unwrap none = fresh
unwrap (some s) = s

is_some-unwrap : (o : Option Kept) → is_some o ≡ true → o ≡ some (unwrap o)
unfolding is_some unwrap
is_some-unwrap none h = absurd (cc h)
is_some-unwrap (some s) h = refl

abbrev settled : Kept
settled = unwrap (run_attribute_steps keeper attribute_steps fresh)

ran : run_attribute_steps keeper attribute_steps fresh ≡ some settled
unfolding run_attribute_steps attribute_steps is_some
ran = is_some-unwrap (run_attribute_steps keeper attribute_steps fresh) refl

attribute_steps-settled_example :
    (settled.byte_counts "P13_Egress.eip_in_meter.bw_ratelimit"
      ≡ some eip_in_meter_adjust_byte_count)
    × (settled.byte_counts "P13_Ingress.eip_in_shared_meter.shared_bw_ratelimit"
        ≡ some eip_in_meter_adjust_byte_count)
    × (settled.byte_counts "P02_Egress.process_gw_egress.eip_out_meter.bw_ratelimit"
        ≡ some eip_out_meter_adjust_byte_count)
    × (settled.byte_counts "P02_Egress.process_gw_egress.eip_out_shared_meter.shared_bw_ratelimit"
        ≡ some eip_out_meter_adjust_byte_count)
    × ((u : String) → listed u own_tables ≡ true → settled.own_scopes u ≡ some false)
    × ((u : String)
        → listed u metered_tables ≡ false
        → listed u own_tables ≡ false
        → (settled.byte_counts u ≡ none) × (settled.own_scopes u ≡ none))
attribute_steps-settled_example =
    attribute_steps-settled keeper (λ s u. s.byte_counts u) (λ s u. s.own_scopes u)
      (λ s s' t a u h.
        let same : write s t a ≡ s' = cc h in
        (ap (λ x. x.byte_counts u) (sym same), ap (λ x. x.own_scopes u) (sym same)))
      fresh settled ran
