-- ===== src/Attributes/Expected.antt =====
-- The tables that the attributes are meant for, apart from the steps that set them.
use igw_p.Prelude.{Bool, false, ◌||◌, List, [], ◌∷◌}
use Prim.Native.String.{String}
use text.Mathlib.Text.{◌==◌ as str_eq}

unfoldable pub listed : String → List String → Bool
listed u [] = false
listed u (t ∷ ts) = str_eq t u || listed u ts

-- The meters
abbrev pub metered_tables : List String
metered_tables =
    "P13_Egress.eip_in_meter.bw_ratelimit" ∷ "P13_Ingress.eip_in_shared_meter.shared_bw_ratelimit"
    ∷ "P02_Egress.process_gw_egress.eip_out_meter.bw_ratelimit"
    ∷ "P02_Egress.process_gw_egress.eip_out_shared_meter.shared_bw_ratelimit" ∷ []

-- The tables whose entries differ from pipe to pipe
abbrev pub own_tables : List String
own_tables =
    "P13_Egress.eip_in_redirect.eip_in_redirect" ∷ "P13_Egress.eip_in_redirect.eip6_in_redirect"
    ∷ "P13_Egress.eip_in_meter.bw_ratelimit" ∷ "P13_Ingress.dnat.fip_dnat"
    ∷ "P13_Ingress.vm_location_mapping.vm_loc_mapping"
    ∷ "P13_Ingress.vm_location_mapping.ipv6_vm_loc_mapping"
    ∷ "P13_Ingress.eip_in_egress_pstats.eip_in_egress_pkt_stats"
    ∷ "P13_Ingress.eip_in_egress_pstats.eip6_in_egress_pkt_stats"
    ∷ "P13_Ingress.eip_in_egress_pstats.eip_in_drop_pkt_stats"
    ∷ "P13_Ingress.eip_in_egress_pstats.eip6_in_drop_pkt_stats"
    ∷ "P02_Egress.process_gw_egress.eip_out_meter.bw_ratelimit"
    ∷ "P02_Egress.process_gw_egress.eip_out_egress_pkt_stats.eip_out_egress_pkt_stats"
    ∷ "P02_Egress.process_gw_egress.eip_out_egress_pkt_stats.eip6_out_egress_pkt_stats"
    ∷ "P02_Egress.process_gw_egress.eip_out_egress_pkt_stats.eip_out_drop_pkt_stats"
    ∷ "P02_Egress.process_gw_egress.eip_out_egress_pkt_stats.eip6_out_drop_pkt_stats" ∷ []
