-- ===== src/Hostif/Names.antt =====
-- Which interface is made of what (switch_hostif.c): each keeps its name, and has the device port of
-- its front-panel port.
use igw_p.Prelude.{
  ℕ, zero, suc, true, Option, none, some, List, [], ◌∷◌, ◌≡◌, ◌≢◌, sym, ◌∙◌, ap, get_elem?,
}
use igw_p.Hostif.{Hostif}
use igw_p.Hostif.Filters.{Knet, Answers, Result, panicked, done, switch_knet_rx_filter_create}
use igw_p.Hostif.Create.{
  HostifInfo, switch_pkt_hostif_create, filters, switch_api_hostif_create, mirror_hostif_create,
  Job, create_hostif,
}
use igw_p.Hostif.Wiring.{then-done, finish-done, filters-done, port_key, joined, created}
use igw_p.Hostif.Array.{create_hostif-cons}

filters-info :
    (a : Answers) (h : Hostif) (port handle : ℕ) (k k' : Knet) (i : HostifInfo)
    → filters a h port handle k ≡ done k' i
    → i.info_hostif ≡ h
unfolding filters
filters-info a h port handle k k' i e =
    let (k1, rx, accepted, last) =
      then-done (switch_knet_rx_filter_create a 1 1 (port_key port) handle k) _ k' i e in
    (finish-done a h port handle rx k1 k' i last).1

port-info :
    (a : Answers) (h : Hostif) (o : Option ℕ) (handle : ℕ) (k k' : Knet) (i : HostifInfo)
    → Path
        (Result HostifInfo)
        (elim o [
          | none ↦ panicked
          | some port ↦ filters a (record h { dev_port = port }) port handle k
        ])
        (done k' i)
    → (i.info_hostif.intf_name ≡ h.intf_name) × (o ≡ some i.info_hostif.dev_port)
port-info a h none handle k k' i e = absurd (cc e)
port-info a h (some port) handle k k' i e =
    let info = filters-info a (record h { dev_port = port }) port handle k k' i e in
    (ap (λ x. x.intf_name) info, ap (λ x. some x.dev_port) (sym info))

switch_api_hostif_create-info :
    (a : Answers) (h : Hostif) (flags : ℕ) (k k' : Knet) (i : HostifInfo)
    → switch_api_hostif_create a h flags k ≡ done k' i
    → (i.info_hostif.intf_name ≡ h.intf_name) × (a.fp_idx_to_dev_port ≡ some i.info_hostif.dev_port)
unfolding switch_api_hostif_create
switch_api_hostif_create-info a hostif flags k k' i e =
    let h : Hostif = record hostif { admin_state = true } in
    let (k1, handle, made, last) = then-done (switch_pkt_hostif_create a h flags k) _ k' i e in
    port-info a h a.fp_idx_to_dev_port handle k1 k' i last

-- The interface at each place of the array is made of the job at that place.
pub create_hostif-info :
    (js : List Job) (k k' : Knet) (is : List HostifInfo) (n : ℕ) (j : Job)
    → create_hostif js k ≡ some (k', is)
    → get_elem? js n ≡ some j
    → (i : HostifInfo) × (get_elem? is n ≡ some i)
      × (i.info_hostif.intf_name ≡ j.job_hostif.intf_name)
      × (j.answers.fp_idx_to_dev_port ≡ some i.info_hostif.dev_port)
create_hostif-info [] k k' is n j h at = absurd (cc at)
create_hostif-info (x ∷ js) k k' is zero j h at =
    let (k1, i, infos, made, rest, whole) = create_hostif-cons x js k k' is h in
    let (name, port) = switch_api_hostif_create-info x.answers x.job_hostif 3 k k1 i made in
    let same : x ≡ j = cc at in
    (
      i,
      ap (λ l. get_elem? l 0) whole,
      name ∙ ap (λ y. y.job_hostif.intf_name) same,
      ap (λ y. y.answers.fp_idx_to_dev_port) (sym same) ∙ port,
    )
create_hostif-info (x ∷ js) k k' is (suc n) j h at =
    let (k1, i, infos, made, rest, whole) = create_hostif-cons x js k k' is h in
    let (i', found, name, port) = create_hostif-info js k1 k' infos n j rest at in
    (i', ap (λ l. get_elem? l (suc n)) whole ∙ found, name, port)

-- The interface of the mirror adds its device, joined to the port of the mirror.
pub mirror_hostif_create-done :
    (a : Answers) (h : Hostif) (flags : ℕ) (k k' : Knet) (i : HostifInfo)
    → a.kndev_add ≢ some 0
    → mirror_hostif_create a h flags k ≡ done k' i
    → k' ≡ joined k i.knet_hostif_handle 0x1FF
unfolding mirror_hostif_create
mirror_hostif_create-done a hostif flags k k' i nonzero e =
    let h : Hostif = record hostif { admin_state = true } in
    let (k1, handle, made, last) = then-done (switch_pkt_hostif_create a h flags k) _ k' i e in
    let (same, number) = created a h flags k k1 handle made in
    let device : handle ≢ 0 = λ z. nonzero (number ∙ ap some z) in
    let (ends, info, is_handle) =
      filters-done a h 0x1FF handle k k' i device
        (ap (filters a h 0x1FF handle) (sym same) ∙ last) in
    ends ∙ ap (λ x. joined k x 0x1FF) (sym is_handle)
