-- ===== src/Hostif/Create.antt =====
-- The creation of the host interfaces (igw-h/init_setup/switchapi/switch_hostif.c:
-- switch_pkt_hostif_create, switch_api_hostif_create, create_hostif): the kernel device, its addresses
-- and state, and the two packet filters.
use igw_p.Prelude.{
  ℕ, ◌+◌, ◌-◌, ◌%◌, ◌^◌, Bool, true, false, ◌&&◌, Option, none, some, List, [], ◌∷◌, ◌==◌,
  if◌then◌else◌,
}
use igw_p.Hostif.{Hostif}
use igw_p.Hostif.Filters.{
  Knet, Answers, Result, panicked, failed, done, has, switch_knet_rx_filter_create,
  switch_knet_tx_filter_create,
}

-- `switch_hostif_info_t`
pub record HostifInfo : Type 0 where
  pub info_hostif : Hostif
  pub knet_hostif_handle : ℕ
  pub rx_filter_handle : ℕ
  pub tx_filter_handle : ℕ

abbrev pub opened : Knet → Knet
opened k = record k { sockets = k.sockets + 1 }

abbrev pub closed : Knet → Knet
closed k = record k { sockets = k.sockets - 1 }

unfoldable pub remove : ℕ → List ℕ → List ℕ
remove id [] = []
remove id (x ∷ xs) = if x == id then xs else x ∷ remove id xs

-- The IPv4 address and netmask; false is a `goto cleanup`.
unfoldable pub set_ip4 : Answers → ℕ → Bool
set_ip4 a flags = if has flags 2 then a.set_addr && a.set_netmask else true

-- The IPv6 address, over a socket of its own
unfoldable pub set_ip6 : Answers → Hostif → Knet → Knet × Bool
set_ip6 a h k =
    if h.ipv6_enable
    then (if a.socket6
        then (if a.get_index then (closed (opened k), a.set_addr6) else (closed (opened k), false))
        else (k, false))
    else (k, true)

unfoldable pub set_link : Answers → ℕ → Bool
set_link a flags = (if has flags 1 then a.set_hwaddr else true) && a.set_flags

-- What stands between `socket` and the label `cleanup`
unfoldable pub configure : Answers → Hostif → ℕ → Knet → Knet × Bool
unfolding set_ip4 set_ip6 set_link
configure a h flags k =
    if set_ip4 a flags
    then (let (k', ok) = set_ip6 a h k in if ok then (k', set_link a flags) else (k', false))
    else (k, false)

-- `bf_knet_hostif_kndev_delete`, under its `assert`
unfoldable pub delete_if : Bool → ℕ → (Knet → Knet) → Knet → Result ℕ
unfolding remove
delete_if true id after k = failed (after (record k { kndevs = remove id k.kndevs }))
delete_if false id after k = panicked

unfoldable pub delete_then : Answers → ℕ → (Knet → Knet) → Knet → Result ℕ
unfolding delete_if
delete_then a id after k = delete_if a.kndev_delete id after k

-- After `bf_knet_hostif_kndev_add`, and `socket`
unfoldable pub with_socket : Answers → Hostif → ℕ → ℕ → Knet → Bool → Result ℕ
unfolding configure delete_then
with_socket a h flags id k false = delete_then a id (λ k'. k') k
with_socket a h flags id k true =
    let (k', ok) = configure a h flags (opened k) in
    if ok then done (closed k') id else delete_then a id closed k'

unfoldable pub with_device : Answers → Hostif → ℕ → Knet → Option ℕ → Result ℕ
unfolding with_socket
with_device a h flags k none = failed k
with_device a h flags k (some id) =
    with_socket a h flags id (record k { kndevs = id ∷ k.kndevs }) a.socket

unfoldable pub switch_pkt_hostif_create : Answers → Hostif → ℕ → Knet → Result ℕ
unfolding with_device
switch_pkt_hostif_create a h flags k = with_device a h flags k a.kndev_add

-- The second filter, and what the creation returns
unfoldable pub finish : Answers → Hostif → ℕ → ℕ → ℕ → Knet → Result HostifInfo
finish a h port handle rx k =
    elim (switch_knet_tx_filter_create a handle
      (record { bypass_flags = 0xFFFF; tx_bd = 0; tx_dev_port = port % 2 ^ 16 }) k) [
        | panicked ↦ panicked
        | failed k' ↦ failed k'
        | done k' tx ↦ done k' (record {
          info_hostif = h;
          knet_hostif_handle = handle;
          rx_filter_handle = rx;
          tx_filter_handle = tx;
        })
      ]

-- The two filters between a device and a port
unfoldable pub filters : Answers → Hostif → ℕ → ℕ → Knet → Result HostifInfo
unfolding finish
filters a h port handle k =
    elim (switch_knet_rx_filter_create a 1 1
      (record { rx_dev_port = port % 2 ^ 16; ifindex = 0; bd = 0; reason_code = 0 }) handle k) [
        | panicked ↦ panicked
        | failed k' ↦ failed k'
        | done k' rx ↦ finish a h port handle rx k'
      ]

-- `switch_dev_port_get` panics where the front-panel port has no device port.
unfoldable pub switch_api_hostif_create : Answers → Hostif → ℕ → Knet → Result HostifInfo
unfolding filters
switch_api_hostif_create a hostif flags k =
    let h = record hostif { admin_state = true } in
    elim (switch_pkt_hostif_create a h flags k) [
      | panicked ↦ panicked
      | failed k' ↦ failed k'
      | done k' handle ↦ elim a.fp_idx_to_dev_port [
        | none ↦ panicked
        | some port ↦ filters a (record h { dev_port = port }) port handle k'
      ]
    ]

-- `mirror_hostif_create`, with MIRROR_DEV_PORT for the port
unfoldable pub mirror_hostif_create : Answers → Hostif → ℕ → Knet → Result HostifInfo
unfolding filters
mirror_hostif_create a hostif flags k =
    let h = record hostif { admin_state = true } in
    elim (switch_pkt_hostif_create a h flags k) [
      | panicked ↦ panicked
      | failed k' ↦ failed k'
      | done k' handle ↦ filters a h 0x1FF handle k'
    ]

-- An interface to be made, and what the calls for it return
pub record Job : Type 0 where
  pub answers : Answers
  pub job_hostif : Hostif

-- `create_hostif`; `none` is a SETUP_PANIC.
unfoldable pub create_hostif : List Job → Knet → Option (Knet × List HostifInfo)
create_hostif [] k = some (k, [])
create_hostif (j ∷ js) k = elim (switch_api_hostif_create j.answers j.job_hostif 3 k) [
  | panicked ↦ none
  | failed k' ↦ none
  | done k' info ↦
      let rest : Option (Knet × List HostifInfo) = elim (create_hostif js k') [
        | none ↦ none
        | some (k2, infos) ↦ some (k2, info ∷ infos)
      ] in
      if j.answers.oper_state then rest else none
]
