-- ===== src/Device/Chain.antt =====
-- The creation of the device step by step, and the jobs of its loop (switch_device.c).
use igw_p.Prelude.{
  ℕ, zero, suc, ◌+◌, Bool, true, false, Option, none, some, List, [], ◌∷◌, ◌≡◌, ◌≢◌, refl, sym, ◌∙◌,
  ap, length, get_elem?, take, All, if◌then◌else◌, map,
}
use mathlib.Core.Path.{subst}
use igw_p.Prelude.Chain.{>>=-eq-some}
use igw_p.Ether.Aton.{Libc}
use igw_p.Config.{Jansson, SwitchConfig, switch_config_init}
use igw_p.Config.Steps.{Outcome, refused, aborted, done}
use igw_p.Port.{Stray, switch_device_init}
use igw_p.Hostif.{Hostif, Inet}
use igw_p.Hostif.Filters.{Knet, Answers, Result, panicked, failed}
use igw_p.Hostif.Create.{HostifInfo, create_hostif, mirror_hostif_create}
use igw_p.Hostif.Array.{IsNumbered}
use igw_p.Hostif.Events.{hostif_hash_table_init}
use igw_p.Device.{
  Queries, CpuifAnswers, Device, device_context, config_of, port_cfg, hostif_array, job, jobs,
  mirror_hostif, or_panic, switch_mirror_hostif_create, switch_pktdriver_knet_device_add, no_device,
  switch_device_create,
}

pub All-get_elem? {ℓ κ} :
    {A : Type ℓ} (Q : A → Type κ) (xs : List A) (n : ℕ) (x : A)
    → All Q xs
    → get_elem? xs n ≡ some x
    → Q x
All-get_elem? Q [] n x qs at = absurd (cc at)
All-get_elem? Q (y ∷ xs) zero x (q, qs) at = let same : y ≡ x = cc at in subst Q same q
All-get_elem? Q (y ∷ xs) (suc n) x (q, qs) at = All-get_elem? Q xs n x qs at

pub get_elem?-map {ℓ κ} :
    {A : Type ℓ} {B : Type κ} (f : A → B) (xs : List A) (n : ℕ) (x : A)
    → get_elem? xs n ≡ some x
    → get_elem? (map f xs) n ≡ some (f x)
get_elem?-map f [] n x at = absurd (cc at)
get_elem?-map f (y ∷ xs) zero x at = let same : y ≡ x = cc at in ap (λ z. some (f z)) same
get_elem?-map f (y ∷ xs) (suc n) x at = get_elem?-map f xs n x at

pub take-all {ℓ} : {A : Type ℓ} (xs : List A) → take (length xs) xs ≡ xs
take-all [] = refl
take-all (x ∷ xs) = ap (λ l. x ∷ l) (take-all xs)

pub jobs-get_elem? :
    (q : Queries) (answers : ℕ → Answers) (i : ℕ) (hs : List Hostif) (n : ℕ) (h : Hostif)
    → get_elem? hs n ≡ some h
    → (a : Answers) × (get_elem? (jobs q answers i hs) n ≡ some (job q a h))
unfolding jobs
jobs-get_elem? q answers i [] n h at = absurd (cc at)
jobs-get_elem? q answers i (x ∷ hs) zero h at =
    let same : x ≡ h = cc at in (answers i, ap (λ y. some (job q (answers i) y)) same)
jobs-get_elem? q answers i (x ∷ hs) (suc n) h at = jobs-get_elem? q answers (i + 1) hs n h at

pub jobs-IsNumbered :
    (q : Queries) (answers : ℕ → Answers) (i : ℕ) (hs : List Hostif)
    → ((n : ℕ) → (answers n).kndev_add ≢ some 0)
    → All IsNumbered (jobs q answers i hs)
unfolding jobs
jobs-IsNumbered q answers i [] numbered = tt
jobs-IsNumbered q answers i (h ∷ hs) numbered =
    (numbered i, jobs-IsNumbered q answers (i + 1) hs numbered)

config_of-some :
    (r : Outcome SwitchConfig) (cfg : SwitchConfig) → config_of r ≡ some cfg → r ≡ done cfg
config_of-some (done x) cfg e = let same : x ≡ cfg = cc e in ap done same
config_of-some refused cfg e = absurd (cc e)
config_of-some aborted cfg e = absurd (cc e)

pair-ends :
    (k k' : Knet) (i i' : HostifInfo)
    → Path (Option (Knet × HostifInfo)) (some (k', i')) (some (k, i))
    → (k' ≡ k) × (i' ≡ i)
pair-ends k k' i i' e = (cc e, cc e)

result-ends :
    (k k' : Knet) (i i' : HostifInfo) → k' ≡ k → i' ≡ i → Result.done k' i' ≡ Result.done k i
result-ends k k' i i' e f = ap (λ x. Result.done x i') e ∙ ap (Result.done k) f

or_panic-some :
    (r : Result HostifInfo) (k : Knet) (i : HostifInfo)
    → or_panic r ≡ some (k, i)
    → r ≡ Result.done k i
or_panic-some (Result.done k' i') k i e =
    let (knets, infos) = pair-ends k k' i i' e in result-ends k k' i i' knets infos
or_panic-some panicked k i e = absurd (cc e)
or_panic-some (failed k') k i e = absurd (cc e)

registered : (b : Bool) (x d : Device) → (if b then some x else none) ≡ some d → x ≡ d
registered true x d e = cc e
registered false x d e = absurd (cc e)

module _ (j : Jansson) (c : Libc) (inet : Inet) (q : Queries) (stray : Stray) (cpuif : CpuifAnswers)
    (answers : ℕ → Answers) (mirror : Answers) where
  -- A creation that goes through, taken apart
  pub switch_device_create-chain :
      (d : Device)
      → switch_device_create j c inet q stray cpuif answers mirror ≡ some d
      → (hostifs : List Hostif) × (k1 : Knet) × (k2 : Knet) × (switch_config_init j c inet
          ≡ done d.device_cfg)
        × (hostif_array inet d.device_cfg ≡ some hostifs)
        × (create_hostif (jobs q answers 0 hostifs) k1 ≡ some (k2, d.hostif_infos))
        × (mirror_hostif_create mirror mirror_hostif 1 k2 ≡ Result.done d.knet d.mirror_info)
        × (d.hostif_hash_table ≡ hostif_hash_table_init d.hostif_infos)
  unfolding switch_device_create switch_mirror_hostif_create
  switch_device_create-chain d e =
      let (cfg, read, e1) = >>=-eq-some (config_of (switch_config_init j c inet)) _ e in
      let (ctx, asked, e2) = >>=-eq-some (device_context q) _ e1 in
      let (calls, added, e3) = >>=-eq-some (switch_device_init ctx (port_cfg cfg) stray) _ e2 in
      let (hostifs, parsed, e4) = >>=-eq-some (hostif_array inet cfg) _ e3 in
      let (k1, kernel, e5) =
        >>=-eq-some
          (if q.module_is_inited then switch_pktdriver_knet_device_add cpuif no_device else none) _
          e4 in
      let (b, made, e6) = >>=-eq-some (create_hostif (jobs q answers 0 hostifs) k1) _ e5 in
      let (m, mirrored, e7) =
        >>=-eq-some (or_panic (mirror_hostif_create mirror mirror_hostif 1 b.0)) _ e6 in
      let same = registered q.port_status_notif_reg _ d e7 in
      (
        hostifs,
        k1,
        b.0,
        config_of-some _ cfg read ∙ ap (λ x. done x.device_cfg) same,
        ap (λ x. hostif_array inet x.device_cfg) (sym same) ∙ parsed,
        made ∙ ap (λ x. some (b.0, x.hostif_infos)) same,
        or_panic-some _ m.0 m.1 mirrored ∙ ap (λ x. Result.done x.knet x.mirror_info) same,
        ap (λ x. x.hostif_hash_table) (sym same)
            ∙ ap (λ x. hostif_hash_table_init x.hostif_infos) same,
      )
