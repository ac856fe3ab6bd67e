-- ===== src/Attributes.antt =====
-- The attributes of tables that start-up sets last: the byte counts by which meters correct a packet's
-- length (igw-h/init_setup/switchapi/switch_meter_adjust.c over switchbfrt/bf_meter_adjust.c), and the
-- scope of entries, one for each pipeline (switch_symmetric_mode_set.c over
-- bf_symmetric_mode_set.c). Every call is guarded by an `assert`.
mod Expected
pub mod Settled
pub mod Examples
use igw_p.Prelude.{
  ℕ, ◌+◌, ◌-◌, Bool, true, false, ◌&&◌, Option, none, some, List, [], ◌∷◌, ◌++◌, if◌then◌else◌,
}
use Prim.Native.String.{String}

pub data ℤ : Type 0 where
  pos : ℕ → ℤ
  negsuc : ℕ → ℤ

-- `-n`, for an n other than 0
abbrev minus : ℕ → ℤ
minus n = negsuc (n - 1)

pub data Attribute : Type 0 where
  byte_count_adjust : ℤ → Attribute
  symmetric_mode : Bool → Attribute

-- The driver: the table by its name, the handle for attributes of a kind, what is set in the handle,
-- the attributes set, and the handle given back. `false` and `none` are a status other than BF_SUCCESS.
pub record AttributeDriver : Type 1 where
  pub State : Type 0
  pub table_from_name_get : String → Bool
  pub attributes_allocate : String → Attribute → Bool
  pub attribute_set : String → Attribute → Bool
  pub table_attributes_set : State → String → Attribute → Option State
  pub attributes_deallocate : String → Bool

-- One table's set-up and set
pub record AttributeStep : Type 0 where
  pub step_table : String
  pub attribute : Attribute

abbrev pub step : String → Attribute → AttributeStep
step t a = record { step_table = t; attribute = a }

-- switchbfrt/bf_meter_adjust.c: the set-up and the set of each meter, by the table of its handle
abbrev pub eip_in_meter_byte_count_adjust_set : ℤ → AttributeStep
eip_in_meter_byte_count_adjust_set n =
    step "P13_Egress.eip_in_meter.bw_ratelimit" (byte_count_adjust n)

abbrev pub eip6_in_meter_byte_count_adjust_set : ℤ → AttributeStep
eip6_in_meter_byte_count_adjust_set n =
    step "P13_Egress.eip_in_meter.ipv6_bw_ratelimit" (byte_count_adjust n)

abbrev pub eip_in_share_meter_byte_count_adjust_set : ℤ → AttributeStep
eip_in_share_meter_byte_count_adjust_set n =
    step "P13_Ingress.eip_in_shared_meter.shared_bw_ratelimit" (byte_count_adjust n)

abbrev pub eip_out_meter_byte_count_adjust_set : ℤ → AttributeStep
eip_out_meter_byte_count_adjust_set n =
    step "P02_Egress.process_gw_egress.eip_out_meter.bw_ratelimit" (byte_count_adjust n)

abbrev pub eip6_out_meter_byte_count_adjust_set : ℤ → AttributeStep
eip6_out_meter_byte_count_adjust_set n =
    step "P02_Egress.process_gw_egress.eip_out_meter.ipv6_bw_ratelimit" (byte_count_adjust n)

abbrev pub eip_out_share_meter_byte_count_adjust_set : ℤ → AttributeStep
eip_out_share_meter_byte_count_adjust_set n =
    step "P02_Egress.process_gw_egress.eip_out_shared_meter.shared_bw_ratelimit"
      (byte_count_adjust n)

-- What is added to the frame on the way in and on the way out
abbrev pub eip_in_meter_adjust_byte_count : ℤ
eip_in_meter_adjust_byte_count = minus (4 + 50 + 15 + 14)

abbrev pub eip_out_meter_adjust_byte_count : ℤ
eip_out_meter_adjust_byte_count = minus (4 + 50 + 14 + 15 + 14)

-- Nothing calls the two for IPv6.
abbrev pub eip6_in_meter_adjust_init : AttributeStep
eip6_in_meter_adjust_init = eip6_in_meter_byte_count_adjust_set eip_in_meter_adjust_byte_count

abbrev pub eip6_out_meter_adjust_init : AttributeStep
eip6_out_meter_adjust_init = eip6_out_meter_byte_count_adjust_set eip_out_meter_adjust_byte_count

unfoldable pub meter_adjust_init : List AttributeStep
meter_adjust_init =
    eip_in_meter_byte_count_adjust_set eip_in_meter_adjust_byte_count
    ∷ eip_in_share_meter_byte_count_adjust_set eip_in_meter_adjust_byte_count
    ∷ eip_out_meter_byte_count_adjust_set eip_out_meter_adjust_byte_count
    ∷ eip_out_share_meter_byte_count_adjust_set eip_out_meter_adjust_byte_count
    ∷ []

abbrev pub table_symmetric_mode_set : String → AttributeStep
table_symmetric_mode_set t = step t (symmetric_mode false)

unfoldable pub internet_in_symmetric_mode_set : List AttributeStep
internet_in_symmetric_mode_set =
    table_symmetric_mode_set "P13_Egress.eip_in_redirect.eip_in_redirect"
    ∷ table_symmetric_mode_set "P13_Egress.eip_in_redirect.eip6_in_redirect"
    ∷ table_symmetric_mode_set "P13_Egress.eip_in_meter.bw_ratelimit"
    ∷ table_symmetric_mode_set "P13_Ingress.dnat.fip_dnat"
    ∷ table_symmetric_mode_set "P13_Ingress.vm_location_mapping.vm_loc_mapping"
    ∷ table_symmetric_mode_set "P13_Ingress.vm_location_mapping.ipv6_vm_loc_mapping"
    ∷ table_symmetric_mode_set "P13_Ingress.eip_in_egress_pstats.eip_in_egress_pkt_stats"
    ∷ table_symmetric_mode_set "P13_Ingress.eip_in_egress_pstats.eip6_in_egress_pkt_stats"
    ∷ table_symmetric_mode_set "P13_Ingress.eip_in_egress_pstats.eip_in_drop_pkt_stats"
    ∷ table_symmetric_mode_set "P13_Ingress.eip_in_egress_pstats.eip6_in_drop_pkt_stats"
    ∷ []

unfoldable pub internet_out_symmetric_mode_set : List AttributeStep
internet_out_symmetric_mode_set =
    table_symmetric_mode_set "P02_Egress.process_gw_egress.eip_out_meter.bw_ratelimit"
    ∷ table_symmetric_mode_set
        "P02_Egress.process_gw_egress.eip_out_egress_pkt_stats.eip_out_egress_pkt_stats"
    ∷ table_symmetric_mode_set
        "P02_Egress.process_gw_egress.eip_out_egress_pkt_stats.eip6_out_egress_pkt_stats"
    ∷ table_symmetric_mode_set
        "P02_Egress.process_gw_egress.eip_out_egress_pkt_stats.eip_out_drop_pkt_stats"
    ∷ table_symmetric_mode_set
        "P02_Egress.process_gw_egress.eip_out_egress_pkt_stats.eip6_out_drop_pkt_stats"
    ∷ []

unfoldable pub symmetric_mode_set_init : List AttributeStep
unfolding internet_in_symmetric_mode_set internet_out_symmetric_mode_set
symmetric_mode_set_init = internet_in_symmetric_mode_set ++ internet_out_symmetric_mode_set

-- The calls of `main`
unfoldable pub attribute_steps : List AttributeStep
unfolding meter_adjust_init symmetric_mode_set_init
attribute_steps = meter_adjust_init ++ symmetric_mode_set_init

-- A handle for the scope of entries is given back; one for a meter is kept.
abbrev gives_back : AttributeDriver → String → Attribute → Bool
gives_back d t (byte_count_adjust n) = true
gives_back d t (symmetric_mode b) = d.attributes_deallocate t

module _ (d : AttributeDriver) where
  -- Behind the call that sets the attributes
  unfoldable pub given_back : Bool → Option d.State → Option d.State
  given_back true o = o
  given_back false o = none

  -- `.._setup` and then `.._set`; `none` is an `assert` that fails.
  unfoldable pub run_attribute_step : AttributeStep → d.State → Option d.State
  unfolding given_back
  run_attribute_step x s =
      if d.table_from_name_get x.step_table
        && (d.attributes_allocate x.step_table x.attribute
            && d.attribute_set x.step_table x.attribute)
      then given_back (gives_back d x.step_table x.attribute)
          (d.table_attributes_set s x.step_table x.attribute)
      else none

  unfoldable pub run_attribute_steps : List AttributeStep → d.State → Option d.State
  unfolding run_attribute_step
  run_attribute_steps [] s = some s
  run_attribute_steps (x ∷ xs) s = elim (run_attribute_step x s) [
    | none ↦ none
    | some s' ↦ run_attribute_steps xs s'
  ]
