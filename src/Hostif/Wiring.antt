-- ===== src/Hostif/Wiring.antt =====
-- What the host interfaces are joined to once they are all made (switch_hostif.c, switch_packet.c).
use igw_p.Prelude.{
  ℕ, zero, suc, ◌+◌, ◌-◌, ◌%◌, ◌^◌, Bool, true, false, Option, none, some, List, [], ◌∷◌, ◌≡◌, ◌≢◌,
  refl, sym, ◌∙◌, ap, ◌⊎◌, inl, inr, arith, if◌then◌else◌,
}
use mathlib.Core.Path.{subst}
use igw_p.IpType.{masked, is_zero}
use igw_p.Hostif.{Hostif}
use igw_p.Hostif.Filters.{
  Knet, Answers, Result, panicked, failed, done, RxFilter, RxKey, TxEntry, TxFilterAction,
  rx_filter, tx_header_of, htons, bit_mask16, alloc, free, release, hand_over,
  switch_knet_rx_filter_create, switch_knet_tx_filter_create,
}
use igw_p.Hostif.Create.{
  HostifInfo, switch_pkt_hostif_create, filters, finish, switch_api_hostif_create,
}
use igw_p.Hostif.Rollback.{IsClean, switch_pkt_hostif_create-IsClean}

pub done-inj {ℓ} :
    {A : Type ℓ} (k k' : Knet) (a a' : A)
    → Path (Result A) (done k a) (done k' a')
    → (k ≡ k') × (a ≡ a')
done-inj k k' a a' h = (cc h, cc h)

-- A chain of two calls that goes through, taken apart
pub then-done {ℓ κ} :
    {A : Type ℓ} {B : Type κ} (r : Result A) (next : Knet → A → Result B) (k' : Knet) (b : B)
    → Path
        (Result B)
        (elim r [ panicked ↦ panicked | failed k ↦ failed k | done k a ↦ next k a ])
        (done k' b)
    → (k : Knet) × (a : A) × (r ≡ done k a) × (next k a ≡ done k' b)
then-done panicked next k' b h = absurd (cc h)
then-done (failed k) next k' b h = absurd (cc h)
then-done (done k a) next k' b h = (k, a, refl, h)

buffers-same :
    (k : Knet) (f : RxFilter)
    → free (record k { rx_filters = f ∷ k.rx_filters; buffers = k.buffers + 1 })
      ≡ record k { rx_filters = f ∷ k.rx_filters }
buffers-same k f =
    let e : k.buffers + 1 - 1 ≡ k.buffers = omega arith in
    ap (λ n. record k { rx_filters = f ∷ k.rx_filters; buffers = n }) e

handed-done :
    (c : Bool) (o : Option ℕ) (f : RxFilter) (handle : ℕ) (k k' : Knet) (id : ℕ)
    → f.destination ≡ some handle
    → (if c then hand_over o f (alloc k) else failed k) ≡ done k' id
    → k' ≡ record k { rx_filters = f ∷ k.rx_filters }
unfolding hand_over release
handed-done true (some i) f handle k k' id to h =
    let (same, ids) = done-inj _ k' i id h in
    sym same
    ∙ ap (λ t. release t (record k { rx_filters = f ∷ k.rx_filters; buffers = k.buffers + 1 })) to
    ∙ buffers-same k f
handed-done true none f handle k k' id to h = absurd (cc h)
handed-done false o f handle k k' id to h = absurd (cc h)

-- A filter that is accepted for a device is there, and nothing else is new.
switch_knet_rx_filter_create-done :
    (a : Answers) (p flags : ℕ) (key : RxKey) (handle : ℕ) (k k' : Knet) (id : ℕ)
    → handle ≢ 0
    → switch_knet_rx_filter_create a p flags key handle k ≡ done k' id
    → k' ≡ record k { rx_filters = rx_filter p flags key handle ∷ k.rx_filters }
unfolding switch_knet_rx_filter_create rx_filter
switch_knet_rx_filter_create-done a p flags key zero k k' id device h = absurd (device refl)
switch_knet_rx_filter_create-done a p flags key (suc n) k k' id device h =
    handed-done a.rx_calloc a.rx_filter_add (rx_filter p flags key (suc n)) (suc n) k k' id refl h

sent-done :
    (c1 c2 c3 : Bool) (k1 k2 k3 k4 k' : Knet) (id : ℕ)
    → (if c1 then (if c2 then (if c3 then done k1 0 else failed k2) else failed k3) else failed k4)
      ≡ done k' id
    → k' ≡ k1
sent-done true true true k1 k2 k3 k4 k' id h = sym (done-inj k1 k' 0 id h).0
sent-done true true false k1 k2 k3 k4 k' id h = absurd (cc h)
sent-done true false c3 k1 k2 k3 k4 k' id h = absurd (cc h)
sent-done false c2 c3 k1 k2 k3 k4 k' id h = absurd (cc h)

switch_knet_tx_filter_create-done :
    (a : Answers) (handle : ℕ) (x : TxFilterAction) (k k' : Knet) (id : ℕ)
    → switch_knet_tx_filter_create a handle x k ≡ done k' id
    → k' ≡ record k {
      tx_actions = record { tx_handle = handle; tx_header = tx_header_of x } ∷ k.tx_actions;
      buffers = k.buffers + 1;
    }
unfolding switch_knet_tx_filter_create
switch_knet_tx_filter_create-done a handle x k k' id h =
    sent-done a.tx_calloc _ a.tx_action_add _ _ _ _ k' id h

abbrev pub port_key : ℕ → RxKey
port_key port = record { rx_dev_port = port % 2 ^ 16; ifindex = 0; bd = 0; reason_code = 0 }

abbrev pub port_action : ℕ → TxFilterAction
port_action port = record { bypass_flags = 0xFFFF; tx_bd = 0; tx_dev_port = port % 2 ^ 16 }

-- What the kernel holds with one more device that is joined to a port
unfoldable pub joined : Knet → ℕ → ℕ → Knet
joined k handle port = record k {
  kndevs = handle ∷ k.kndevs;
  rx_filters = rx_filter 1 1 (port_key port) handle ∷ k.rx_filters;
  tx_actions =
      record { tx_handle = handle; tx_header = tx_header_of (port_action port) } ∷ k.tx_actions;
  buffers = k.buffers + 1;
}

abbrev with_action : ℕ → ℕ → Knet → Knet
with_action handle port k = record k {
  tx_actions =
      record { tx_handle = handle; tx_header = tx_header_of (port_action port) } ∷ k.tx_actions;
  buffers = k.buffers + 1;
}

pub finish-done :
    (a : Answers) (h : Hostif) (port handle rx : ℕ) (k k' : Knet) (i : HostifInfo)
    → finish a h port handle rx k ≡ done k' i
    → (k' ≡ with_action handle port k) × (i.info_hostif ≡ h) × (i.knet_hostif_handle ≡ handle)
unfolding finish
finish-done a h port handle rx k k' i e =
    let (k1, tx, sent, last) =
      then-done (switch_knet_tx_filter_create a handle (port_action port) k) _ k' i e in
    let (same, info) = done-inj k1 k' _ i last in
    (
      sym same ∙ switch_knet_tx_filter_create-done a handle (port_action port) k k1 tx sent,
      ap (λ x. x.info_hostif) (sym info),
      ap (λ x. x.knet_hostif_handle) (sym info),
    )

pub filters-done :
    (a : Answers) (h : Hostif) (port handle : ℕ) (k k' : Knet) (i : HostifInfo)
    → handle ≢ 0
    → filters a h port handle (record k { kndevs = handle ∷ k.kndevs }) ≡ done k' i
    → (k' ≡ joined k handle port) × (i.info_hostif ≡ h) × (i.knet_hostif_handle ≡ handle)
unfolding filters joined
filters-done a h port handle k k' i device e =
    let k0 : Knet = record k { kndevs = handle ∷ k.kndevs } in
    let (k1, rx, accepted, last) =
      then-done (switch_knet_rx_filter_create a 1 1 (port_key port) handle k0) _ k' i e in
    let same =
      switch_knet_rx_filter_create-done a 1 1 (port_key port) handle k0 k1 rx device accepted in
    let (ends, info, number) = finish-done a h port handle rx k1 k' i last in
    (ends ∙ ap (with_action handle port) same, info, number)

unfoldable pub Has : {A : Type 0} → A → List A → Type 0
Has a [] = ⊥
Has a (x ∷ xs) = (x ≡ a) ⊎ Has a xs

-- A device is joined in both directions to its interface's port: packets that come from the port go to
-- the device, and packets that the device sends go to the port, past the pipeline.
unfoldable pub IsWired : Knet → HostifInfo → Type 0
unfolding Has
IsWired k i =
    Has i.knet_hostif_handle k.kndevs
    × ((f : RxFilter) × Has f k.rx_filters
        × (f.ingress_port ≡ masked (htons (i.info_hostif.dev_port % 2 ^ 16)) bit_mask16)
        × (f.destination ≡ some i.knet_hostif_handle))
    × ((t : TxEntry) × Has t k.tx_actions
        × (t.tx_handle ≡ i.knet_hostif_handle)
        × (t.tx_header.tx_bypass ≡ true)
        × (t.tx_header.dst_port_or_group ≡ htons (i.info_hostif.dev_port % 2 ^ 16)))

destination-device : (n : ℕ) → n ≢ 0 → (if is_zero n then none else some n) ≡ some n
destination-device zero device = absurd (device refl)
destination-device (suc n) device = refl

pub joined-IsWired :
    (k : Knet) (i : HostifInfo)
    → i.knet_hostif_handle ≢ 0
    → IsWired (joined k i.knet_hostif_handle i.info_hostif.dev_port) i
unfolding IsWired Has joined rx_filter tx_header_of
joined-IsWired k i device = (
  inl refl,
  (_, inl refl, refl, destination-device i.knet_hostif_handle device),
  (_, inl refl, refl, refl, refl),
)

pub joined-keeps :
    (k : Knet) (i : HostifInfo) (handle port : ℕ) → IsWired k i → IsWired (joined k handle port) i
unfolding IsWired Has joined
joined-keeps k i handle port (there, (f, held, p, q), (t, kept, r, s, u)) =
    (inr there, (f, inr held, p, q), (t, inr kept, r, s, u))

port-done :
    (a : Answers) (h : Hostif) (o : Option ℕ) (handle : ℕ) (k k0 k' : Knet) (i : HostifInfo)
    → handle ≢ 0
    → k0 ≡ record k { kndevs = handle ∷ k.kndevs }
    → Path
        (Result HostifInfo)
        (elim o [
          | none ↦ panicked
          | some port ↦ filters a (record h { dev_port = port }) port handle k0
        ])
        (done k' i)
    → (k' ≡ joined k i.knet_hostif_handle i.info_hostif.dev_port) × (i.knet_hostif_handle ≡ handle)
port-done a h none handle k k0 k' i device made e = absurd (cc e)
port-done a h (some port) handle k k0 k' i device made e =
    let (ends, info, number) =
      filters-done a (record h { dev_port = port }) port handle k k' i device
        (subst (λ x. filters a (record h { dev_port = port }) port handle x ≡ done k' i) made e) in
    let at_port : i.info_hostif.dev_port ≡ port = ap (λ x. x.dev_port) info in
    (rw (at_port, number) ends, number)

pub created :
    (a : Answers) (h : Hostif) (flags : ℕ) (k k1 : Knet) (id : ℕ)
    → switch_pkt_hostif_create a h flags k ≡ done k1 id
    → (k1 ≡ record k { kndevs = id ∷ k.kndevs }) × (a.kndev_add ≡ some id)
unfolding IsClean
created a h flags k k1 id e = subst (IsClean a k) e (switch_pkt_hostif_create-IsClean a h flags k)

-- One interface made adds its device, its two filters and one buffer.
pub switch_api_hostif_create-done :
    (a : Answers) (h : Hostif) (flags : ℕ) (k k' : Knet) (i : HostifInfo)
    → a.kndev_add ≢ some 0
    → switch_api_hostif_create a h flags k ≡ done k' i
    → (k' ≡ joined k i.knet_hostif_handle i.info_hostif.dev_port) × (i.knet_hostif_handle ≢ 0)
unfolding switch_api_hostif_create
switch_api_hostif_create-done a hostif flags k k' i nonzero e =
    let h : Hostif = record hostif { admin_state = true } in
    let (k1, handle, made, last) = then-done (switch_pkt_hostif_create a h flags k) _ k' i e in
    let (same, number) = created a h flags k k1 handle made in
    let device : handle ≢ 0 = λ z. nonzero (number ∙ ap some z) in
    let (ends, is_handle) = port-done a h a.fp_idx_to_dev_port handle k k1 k' i device same last in
    (ends, λ z. device (sym is_handle ∙ z))
