-- ===== src/IpType/Table.antt =====
-- All the entries that the start-up adds, in its order.
use igw_p.Prelude.{ℕ, List, [], ◌∷◌, ◌++◌}
use igw_p.IpType.{SwitchCfgIp, Entry, Ternary, masked, egr_pipeline_0, egr_pipeline_2}
use igw_p.IpType.Out.{
  internet_out_entry_init, internet_out_between_cluster_dl_entry_init,
  internet_out_within_cluster_dl_entry_init,
}
use igw_p.IpType.In.{
  internet_in_entry_init, internet_in_between_cluster_dl_entry_init,
  internet_in_within_cluster_dl_entry_init,
}

-- `igw_ip_type_table_init`, as far as it concerns `igwIpTypeTable`
unfoldable pub igw_ip_type_table_init : SwitchCfgIp → List Entry
unfolding internet_out_entry_init internet_out_between_cluster_dl_entry_init
    internet_out_within_cluster_dl_entry_init internet_in_entry_init
    internet_in_between_cluster_dl_entry_init internet_in_within_cluster_dl_entry_init
igw_ip_type_table_init cfg =
    internet_out_entry_init cfg
    ++ internet_out_between_cluster_dl_entry_init cfg
    ++ internet_out_within_cluster_dl_entry_init cfg
    ++ internet_in_entry_init cfg
    ++ internet_in_between_cluster_dl_entry_init cfg
    ++ internet_in_within_cluster_dl_entry_init cfg

-- `setPipelineKey`, with the egress pipeline that the entry sets
pub record SetPipelineEntry : Type 0 where
  pub fix_priority : ℕ
  pub fix_inner_ipv4_isvalid : Ternary
  pub fix_inner_ipv4_srcaddr : Ternary
  pub fix_egr_pipeline : ℕ

-- The entries of the second table, which `igw_ip_type_table_init` adds last
unfoldable pub pipelinefix_init : List SetPipelineEntry
pipelinefix_init =
    record {
      fix_priority = 0;
      fix_inner_ipv4_isvalid = masked 1 0x1;
      fix_inner_ipv4_srcaddr = masked 1 0x1;
      fix_egr_pipeline = egr_pipeline_0;
    }
    ∷ record {
      fix_priority = 0;
      fix_inner_ipv4_isvalid = masked 1 0x1;
      fix_inner_ipv4_srcaddr = masked 0 0x1;
      fix_egr_pipeline = egr_pipeline_2;
    }
    ∷ []
