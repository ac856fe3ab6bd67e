-- ===== src/Hostif/Filters.antt =====
-- The packet filters of a host interface (igw-h/init_setup/switchapi/switch_packet.c), and what the
-- kernel driver holds: devices, filters, and the program's open sockets and live buffers.
--
-- A header field that a filter compares is kept as the value and the mask that the code writes, in
-- network order.
use igw_p.Prelude.{
  ℕ, ◌+◌, ◌-◌, ◌*◌, ◌/◌, ◌%◌, ◌^◌, Bool, true, false, Option, none, some, List, ◌∷◌, ◌==◌, ltb,
  if◌then◌else◌, bit_and, not,
}
use igw_p.IpType.{Ternary, masked, is_zero}

pub htons : ℕ → ℕ
htons x = x % 256 * 256 + x / 256 % 256

-- `bit_mask(8 * sizeof(uint16_t))`
abbrev pub bit_mask16 : ℕ
bit_mask16 = 2 ^ 16 - 1

-- `switch_pktdriver_rx_filter_key_t`
pub record RxKey : Type 0 where
  pub rx_dev_port : ℕ
  pub ifindex : ℕ
  pub bd : ℕ
  pub reason_code : ℕ

-- `bf_knet_rx_filter_t`, as far as it is set; `none` for the destination is the CPU's interface.
pub record RxFilter : Type 0 where
  pub rx_priority : ℕ
  pub ingress_port : Ternary
  pub ingress_bd : Ternary
  pub filter_reason : Ternary
  pub ingress_ifindex : Ternary
  pub destination : Option ℕ
  pub strip_len : ℕ
  pub strip_offset : ℕ
  pub filter_size : ℕ

-- `switch_pktdriver_tx_filter_action_t`
pub record TxFilterAction : Type 0 where
  pub bypass_flags : ℕ
  pub tx_bd : ℕ
  pub tx_dev_port : ℕ

-- The header that a `bf_knet_tx_action_t` inserts
pub record TxHeader : Type 0 where
  pub dst_port_or_group : ℕ
  pub tx_bypass : Bool
  pub header_bd : ℕ
  pub header_reason : ℕ
  pub packet_type : ℕ
  pub ether_type : ℕ
  pub egress_queue : ℕ

pub record TxEntry : Type 0 where
  pub tx_handle : ℕ
  pub tx_header : TxHeader

pub record Knet : Type 0 where
  pub kndevs : List ℕ
  pub rx_filters : List RxFilter
  pub tx_actions : List TxEntry
  pub sockets : ℕ
  pub buffers : ℕ

-- What the calls of one interface's creation return, in the order of the code; `false` and `none` are
-- failures.
pub record Answers : Type 0 where
  pub kndev_add : Option ℕ
  pub socket : Bool
  pub set_addr : Bool
  pub set_netmask : Bool
  pub socket6 : Bool
  pub get_index : Bool
  pub set_addr6 : Bool
  pub set_hwaddr : Bool
  pub set_flags : Bool
  pub kndev_delete : Bool
  pub fp_idx_to_dev_port : Option ℕ
  pub rx_calloc : Bool
  pub rx_filter_add : Option ℕ
  pub tx_calloc : Bool
  pub data_bytes_max : ℕ
  pub tx_action_add : Bool
  pub oper_state : Bool

-- A call that returns -1 is `failed`; an `assert` or a SETUP_PANIC ends the program.
pub data Result {ℓ} (A : Type ℓ) : Type ℓ where
  panicked : Result A
  failed : Knet → Result A
  done : Knet → A → Result A

abbrev pub has : ℕ → ℕ → Bool
has flags bit = not (bit_and flags bit == 0)

-- `sizeof(switch_packet_header_t)`, packed
abbrev pub sizeof_packet_header : ℕ
sizeof_packet_header = 16

abbrev pub offset_ether_type : ℕ
offset_ether_type = 12

abbrev pub sizeof_ethernet_header : ℕ
sizeof_ethernet_header = 14

-- The filter that `switch_knet_rx_filter_create` fills in
unfoldable pub rx_filter : ℕ → ℕ → RxKey → ℕ → RxFilter
unfolding htons
rx_filter priority flags key handle = record {
  rx_priority = priority;
  ingress_port = if has flags 1 then masked (htons key.rx_dev_port) bit_mask16 else masked 0 0;
  ingress_bd = if has flags 4 then masked (htons key.bd) bit_mask16 else masked 0 0;
  filter_reason = if has flags 8 then masked (htons key.reason_code) bit_mask16 else masked 0 0;
  ingress_ifindex = if has flags 2 then masked (htons key.ifindex) bit_mask16 else masked 0 0;
  destination = if is_zero handle then none else some handle;
  strip_len = if is_zero handle then 0 else sizeof_packet_header;
  strip_offset = if is_zero handle then 0 else offset_ether_type;
  filter_size = sizeof_ethernet_header + sizeof_packet_header;
}

abbrev pub alloc : Knet → Knet
alloc k = record k { buffers = k.buffers + 1 }

abbrev pub free : Knet → Knet
free k = record k { buffers = k.buffers - 1 }

-- `if (rx_filter.action.count > 0) SWITCH_FREE(..)`, where there is a destination
unfoldable pub release : Option ℕ → Knet → Knet
release none k = k
release (some handle) k = free k

-- The filter is handed over; the buffer of the mutation is freed behind an accepted one only.
unfoldable pub hand_over : Option ℕ → RxFilter → Knet → Result ℕ
unfolding release
hand_over none f k = failed k
hand_over (some id) f k =
    done (release f.destination (record k { rx_filters = f ∷ k.rx_filters })) id

unfoldable pub switch_knet_rx_filter_create : Answers → ℕ → ℕ → RxKey → ℕ → Knet → Result ℕ
unfolding rx_filter hand_over
switch_knet_rx_filter_create a priority flags key handle k =
    if is_zero handle
    then hand_over a.rx_filter_add (rx_filter priority flags key handle) k
    else (if a.rx_calloc
        then hand_over a.rx_filter_add (rx_filter priority flags key handle) (alloc k)
        else failed k)

-- The header that `switch_knet_tx_filter_create` fills in
unfoldable pub tx_header_of : TxFilterAction → TxHeader
unfolding htons
tx_header_of x =
    let all = x.bypass_flags == 0xFFFF in
    record {
      dst_port_or_group = if all then htons x.tx_dev_port else 0x1FF;
      tx_bypass = if all then true else false;
      header_bd = if all then 0 else htons x.tx_bd;
      header_reason = htons x.bypass_flags;
      packet_type = 5;
      ether_type = htons 0x9000;
      egress_queue = 7;
    }

-- The buffer of the mutation is never freed.
unfoldable pub switch_knet_tx_filter_create : Answers → ℕ → TxFilterAction → Knet → Result ℕ
unfolding tx_header_of
switch_knet_tx_filter_create a handle x k =
    if a.tx_calloc
    then (if ltb (offset_ether_type + sizeof_packet_header) a.data_bytes_max
        then (if a.tx_action_add
            then (let k' = alloc k in
                done
                  (record k' {
                    tx_actions =
                        record { tx_handle = handle; tx_header = tx_header_of x } ∷ k'.tx_actions;
                  })
                  0)
            else failed (alloc k))
        else failed (alloc k))
    else failed k
