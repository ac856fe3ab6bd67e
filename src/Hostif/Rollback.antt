-- ===== src/Hostif/Rollback.antt =====
-- What a creation that fails leaves behind, and what one that goes through holds (switch_hostif.c,
-- switch_packet.c).
use igw_p.Prelude.{
  ℕ, ◌+◌, ◌-◌, Bool, true, false, Option, none, some, List, ◌∷◌, ◌≡◌, refl, ◌∙◌, ap, inl, inr,
  arith, Bool-cases, ◌==◌, if◌then◌else◌,
}
use igw_p.Hostif.{Hostif}
use igw_p.Hostif.Filters.{Knet, Answers, Result, panicked, failed, done}
use igw_p.Hostif.Create.{
  opened, closed, remove, set_ip4, set_ip6, configure, delete_then, delete_if, with_socket,
  with_device, switch_pkt_hostif_create,
}

sockets-same : (k : Knet) (n : ℕ) → n ≡ k.sockets → record k { sockets = n } ≡ k
sockets-same k n e = ap (λ m. record k { sockets = m }) e

closed-opened : (k : Knet) → closed (opened k) ≡ k
closed-opened k = sockets-same k (k.sockets + 1 - 1) (omega arith)

set_ip6-keeps : (a : Answers) (h : Hostif) (k : Knet) → (set_ip6 a h k).0 ≡ k
unfolding set_ip6
set_ip6-keeps a h k = elim (Bool-cases h.ipv6_enable) [
  | inr off ↦ rw off refl
  | inl on ↦ elim (Bool-cases a.socket6) [
    | inr s ↦ rw (on, s) refl
    | inl s ↦ elim (Bool-cases a.get_index) [
      | inl g ↦ rw (on, s, g) (closed-opened k)
      | inr g ↦ rw (on, s, g) (closed-opened k)
    ]
  ]
]

configure-keeps : (a : Answers) (h : Hostif) (flags : ℕ) (k : Knet) → (configure a h flags k).0 ≡ k
unfolding configure
configure-keeps a h flags k = elim (Bool-cases (set_ip4 a flags)) [
  | inr bad ↦ rw bad refl
  | inl ok ↦ elim (Bool-cases (set_ip6 a h k).1) [
    | inl s ↦ rw (ok, s) (set_ip6-keeps a h k)
    | inr s ↦ rw (ok, s) (set_ip6-keeps a h k)
  ]
]

remove_head : (id : ℕ) (ids : List ℕ) → remove id (id ∷ ids) ≡ ids
unfolding remove
remove_head id ids = let same : (id == id) ≡ true = ground arith in rw same refl

-- A failure leaves everything as it was; a device that is made is the one thing more; the program
-- ends only at the assert on the deletion.
unfoldable pub IsClean : Answers → Knet → Result ℕ → Type 0
IsClean a k panicked = a.kndev_delete ≡ false
IsClean a k (failed k') = k' ≡ k
IsClean a k (done k' id) = (k' ≡ record k { kndevs = id ∷ k.kndevs }) × (a.kndev_add ≡ some id)

failed-IsClean : (a : Answers) (k : Knet) → IsClean a k (failed k)
unfolding IsClean
failed-IsClean a k = refl

delete_if-IsClean :
    (a : Answers) (k : Knet) (id : ℕ) (after : Knet → Knet) (k2 : Knet) (b : Bool)
    → a.kndev_delete ≡ b
    → k2.kndevs ≡ (id ∷ k.kndevs)
    → after (record k2 { kndevs = k.kndevs }) ≡ k
    → IsClean a k (delete_if b id after k2)
unfolding IsClean delete_if
delete_if-IsClean a k id after k2 true e ids back =
    ap (λ l. after (record k2 { kndevs = l })) (ap (remove id) ids ∙ remove_head id k.kndevs) ∙ back
delete_if-IsClean a k id after k2 false e ids back = e

configured-IsClean :
    (a : Answers) (k : Knet) (id : ℕ) (k2 : Knet) (ok : Bool)
    → a.kndev_add ≡ some id
    → k2 ≡ opened (record k { kndevs = id ∷ k.kndevs })
    → IsClean a k (if ok then done (closed k2) id else delete_then a id closed k2)
unfolding IsClean delete_then
configured-IsClean a k id k2 true made same =
    (ap closed same ∙ closed-opened (record k { kndevs = id ∷ k.kndevs }), made)
configured-IsClean a k id k2 false made same =
    delete_if-IsClean a k id closed k2 a.kndev_delete refl (ap (λ x. x.kndevs) same)
      (ap (λ x. closed (record x { kndevs = k.kndevs })) same ∙ closed-opened k)

with_socket-IsClean :
    (a : Answers) (h : Hostif) (flags id : ℕ) (k : Knet) (b : Bool)
    → a.kndev_add ≡ some id
    → IsClean a k (with_socket a h flags id (record k { kndevs = id ∷ k.kndevs }) b)
unfolding with_socket delete_then
with_socket-IsClean a h flags id k true made =
    let k1 : Knet = opened (record k { kndevs = id ∷ k.kndevs }) in
    configured-IsClean a k id (configure a h flags k1).0 (configure a h flags k1).1 made
      (configure-keeps a h flags k1)
with_socket-IsClean a h flags id k false made =
    delete_if-IsClean a k id (λ k'. k') (record k { kndevs = id ∷ k.kndevs }) a.kndev_delete refl
      refl refl

with_device-IsClean :
    (a : Answers) (h : Hostif) (flags : ℕ) (k : Knet) (o : Option ℕ)
    → a.kndev_add ≡ o
    → IsClean a k (with_device a h flags k o)
unfolding with_device
with_device-IsClean a h flags k none e = failed-IsClean a k
with_device-IsClean a h flags k (some id) e = with_socket-IsClean a h flags id k a.socket e

-- Whatever the calls return: a creation that fails leaves devices, filters, sockets and buffers as
-- they were; one that goes through adds its device and nothing else; and the program ends only if the
-- deletion of a device is refused.
pub switch_pkt_hostif_create-IsClean :
    (a : Answers) (h : Hostif) (flags : ℕ) (k : Knet)
    → IsClean a k (switch_pkt_hostif_create a h flags k)
unfolding switch_pkt_hostif_create
switch_pkt_hostif_create-IsClean a h flags k = with_device-IsClean a h flags k a.kndev_add refl
