-- ===== src/IpType.antt =====
-- The table that sorts packets (igw-h/init_setup/switchapi/switch_igw_ip_type_table.c): its keys, its
-- actions, and when a packet passes a key. The entries of the start-up are in Out, In and Table.
--
-- What an entry does in the pipeline is the P4 program's: an entry is kept as the key and the action
-- that the driver is given. A key's field is passed when the field's bits under the mask are the
-- value's, which is what the driver documents of a ternary field.
pub mod Out
pub mod In
pub mod Table
pub mod Agree
use igw_p.Prelude.{
  ℕ, zero, suc, ◌+◌, Bool, true, false, ◌&&◌, List, [], ◌∷◌, ◌++◌, ◌==◌, if◌then◌else◌, bit_and,
}

-- The fields of `switch_cfg` that the table reads
pub record SwitchCfgIp : Type 0 where
  pub vip : ℕ
  pub backup_vip : ℕ
  pub dl_ip : ℕ
  pub dl_ip_prefix_len : ℕ

abbrev pub highest_pri : ℕ
highest_pri = 0

abbrev pub lowest_pri : ℕ
lowest_pri = 20

abbrev pub egr_pipeline_0 : ℕ
egr_pipeline_0 = 1

abbrev pub egr_pipeline_1 : ℕ
egr_pipeline_1 = 2

abbrev pub egr_pipeline_2 : ℕ
egr_pipeline_2 = 3

abbrev pub egr_pipeline_3 : ℕ
egr_pipeline_3 = 4

abbrev pub vxlan_type_std : ℕ
vxlan_type_std = 1

abbrev pub vxlan_type_jd : ℕ
vxlan_type_jd = 2

abbrev pub tof_eip_in : ℕ
tof_eip_in = 1

abbrev pub tof_eip_out : ℕ
tof_eip_out = 2

abbrev pub tof_az_in : ℕ
tof_az_in = 3

abbrev pub tof_az_out : ℕ
tof_az_out = 4

-- A field of a key and the field's mask
pub record Ternary : Type 0 where
  pub value : ℕ
  pub mask : ℕ

abbrev pub masked : ℕ → ℕ → Ternary
masked v m = record { value = v; mask = m }

abbrev pub masked_bytes : List ℕ → List ℕ → List Ternary
masked_bytes [] ms = []
masked_bytes (v ∷ vs) [] = []
masked_bytes (v ∷ vs) (m ∷ ms) = masked v m ∷ masked_bytes vs ms

abbrev pub zero_bytes : List ℕ
zero_bytes = 0 ∷ 0 ∷ 0 ∷ 0 ∷ 0 ∷ 0 ∷ 0 ∷ 0 ∷ 0 ∷ 0 ∷ 0 ∷ 0 ∷ 0 ∷ 0 ∷ 0 ∷ 0 ∷ []

-- `igwIpTypeKey`; the bytes of the IPv6 address in the order of memory
pub record IgwIpTypeKey : Type 0 where
  pub priority : ℕ
  pub ipv4_isvalid : Ternary
  pub ipv4_dstaddr : Ternary
  pub vxlan_isvalid : Ternary
  pub inner_ipv4_isvalid : Ternary
  pub inner_ipv4_dstaddr : Ternary
  pub inner_ipv6_isvalid : Ternary
  pub inner_ipv6_dstaddr : Ternary
  pub inner_ipv6_srcaddr : Ternary
  pub vxlan_type : Ternary
  pub vxlan_tof : Ternary
  pub ipv6_isvalid : Ternary
  pub ipv6_dstaddr : List Ternary

-- `memset(&key, 0, sizeof(igwIpTypeKey))`
abbrev pub zero_key : IgwIpTypeKey
zero_key = record {
  priority = 0;
  ipv4_isvalid = masked 0 0;
  ipv4_dstaddr = masked 0 0;
  vxlan_isvalid = masked 0 0;
  inner_ipv4_isvalid = masked 0 0;
  inner_ipv4_dstaddr = masked 0 0;
  inner_ipv6_isvalid = masked 0 0;
  inner_ipv6_dstaddr = masked 0 0;
  inner_ipv6_srcaddr = masked 0 0;
  vxlan_type = masked 0 0;
  vxlan_tof = masked 0 0;
  ipv6_isvalid = masked 0 0;
  ipv6_dstaddr = masked_bytes zero_bytes zero_bytes;
}

-- The five actions, with the egress pipeline where they take one
pub data Action : Type 0 where
  ip_from_internet_in_hit : ℕ → Action
  ip_from_internet_in_dl_hit : ℕ → Action
  ip_from_internet_out_hit : ℕ → Action
  ip_from_internet_out_dl_hit : ℕ → Action
  need_drop : Action

pub record Entry : Type 0 where
  pub key : IgwIpTypeKey
  pub action : Action

-- An `entry_add_with_..`; the caller asserts that it succeeds.
abbrev pub add : Action → IgwIpTypeKey → List Entry
add a k = record { key = k; action = a } ∷ []

abbrev pub is_zero : ℕ → Bool
is_zero zero = true
is_zero (suc n) = false

-- The same entry for the address of `vip` and, when there is one, for that of `backup_vip`
unfoldable pub for_both_vips : SwitchCfgIp → Action → IgwIpTypeKey → List Entry
for_both_vips cfg a k =
    add a k
    ++ (if is_zero cfg.backup_vip
        then []
        else add a (record k { ipv4_dstaddr = masked cfg.backup_vip k.ipv4_dstaddr.mask }))

-- What the pipeline reads of a packet
pub record Packet : Type 0 where
  pub p_ipv4_isvalid : ℕ
  pub p_ipv4_dstaddr : ℕ
  pub p_vxlan_isvalid : ℕ
  pub p_inner_ipv4_isvalid : ℕ
  pub p_inner_ipv4_dstaddr : ℕ
  pub p_inner_ipv6_isvalid : ℕ
  pub p_inner_ipv6_dstaddr : ℕ
  pub p_inner_ipv6_srcaddr : ℕ
  pub p_vxlan_type : ℕ
  pub p_vxlan_tof : ℕ
  pub p_ipv6_isvalid : ℕ
  pub p_ipv6_dstaddr : List ℕ

abbrev pub passes_field : ℕ → Ternary → Bool
passes_field x t = bit_and x t.mask == bit_and t.value t.mask

abbrev pub passes_bytes : List ℕ → List Ternary → Bool
passes_bytes xs [] = true
passes_bytes [] (t ∷ ts) = false
passes_bytes (x ∷ xs) (t ∷ ts) = passes_field x t && passes_bytes xs ts

unfoldable pub passes : Packet → IgwIpTypeKey → Bool
passes p k =
    passes_field p.p_ipv4_isvalid k.ipv4_isvalid
    && (passes_field p.p_ipv4_dstaddr k.ipv4_dstaddr
        && (passes_field p.p_vxlan_isvalid k.vxlan_isvalid
            && (passes_field p.p_inner_ipv4_isvalid k.inner_ipv4_isvalid
                && (passes_field p.p_inner_ipv4_dstaddr k.inner_ipv4_dstaddr
                    && (passes_field p.p_inner_ipv6_isvalid k.inner_ipv6_isvalid
                        && (passes_field p.p_inner_ipv6_dstaddr k.inner_ipv6_dstaddr
                            && (passes_field p.p_inner_ipv6_srcaddr k.inner_ipv6_srcaddr
                                && (passes_field p.p_vxlan_type k.vxlan_type
                                    && (passes_field p.p_vxlan_tof k.vxlan_tof
                                        && (passes_field p.p_ipv6_isvalid k.ipv6_isvalid
                                            && passes_bytes p.p_ipv6_dstaddr
                                                k.ipv6_dstaddr))))))))))
