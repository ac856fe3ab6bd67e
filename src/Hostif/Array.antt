-- ===== src/Hostif/Array.antt =====
-- The loop of create_hostif over the array of host interfaces (switch_hostif.c).
use igw_p.Prelude.{
  suc, ◌+◌, Bool, true, false, Option, none, some, List, [], ◌∷◌, ◌≡◌, ◌≢◌, refl, sym, ◌∙◌, ap,
  arith, if◌then◌else◌, length, All,
}
use mathlib.Core.Path.{subst}
use igw_p.Hostif.Filters.{Knet, Result, panicked, failed, done}
use igw_p.Hostif.Create.{HostifInfo, switch_api_hostif_create, Job, create_hostif}
use igw_p.Hostif.Wiring.{
  IsWired, joined, joined-IsWired, joined-keeps, switch_api_hostif_create-done,
}

-- Every device that the driver numbers has a number other than 0, which a filter takes for none.
abbrev pub IsNumbered : Job → Type 0
IsNumbered j = j.answers.kndev_add ≢ some 0

rest-done :
    (b : Bool) (r : Option (Knet × List HostifInfo)) (i : HostifInfo) (k' : Knet)
    (is : List HostifInfo)
    → (let rest : Option (Knet × List HostifInfo) = elim r [
      | none ↦ none
      | some (k2, infos) ↦ some (k2, i ∷ infos)
    ] in
        if b then rest else none)
      ≡ some (k', is)
    → (infos : List HostifInfo) × (r ≡ some (k', infos)) × (is ≡ (i ∷ infos))
rest-done true none i k' is h = absurd (cc h)
rest-done true (some (k2, infos)) i k' is h = (infos, ap (λ x. some (x, infos)) (cc h), cc h)
rest-done false r i k' is h = absurd (cc h)

-- A turn of the loop that goes through, taken apart
turn-done :
    (r : Result HostifInfo) (next : Knet → Option (Knet × List HostifInfo)) (b : Bool) (k' : Knet)
    (is : List HostifInfo)
    → Path
        (Option (Knet × List HostifInfo))
        (elim r [
          | panicked ↦ none
          | failed k ↦ none
          | done k i ↦
              let rest : Option (Knet × List HostifInfo) = elim (next k) [
                | none ↦ none
                | some (k2, infos) ↦ some (k2, i ∷ infos)
              ] in
              if b then rest else none
        ])
        (some (k', is))
    → (k1 : Knet) × (i : HostifInfo) × (infos : List HostifInfo) × (r ≡ done k1 i)
      × (next k1 ≡ some (k', infos))
      × (is ≡ (i ∷ infos))
turn-done panicked next b k' is h = absurd (cc h)
turn-done (failed k) next b k' is h = absurd (cc h)
turn-done (done k i) next b k' is h =
    let (infos, rest, whole) = rest-done b (next k) i k' is h in (k, i, infos, refl, rest, whole)

pub create_hostif-cons :
    (j : Job) (js : List Job) (k k' : Knet) (is : List HostifInfo)
    → create_hostif (j ∷ js) k ≡ some (k', is)
    → (k1 : Knet) × (i : HostifInfo) × (infos : List HostifInfo) × (switch_api_hostif_create
          j.answers j.job_hostif 3 k
        ≡ done k1 i)
      × (create_hostif js k1 ≡ some (k', infos))
      × (is ≡ (i ∷ infos))
unfolding create_hostif
create_hostif-cons j js k k' is h =
    turn-done (switch_api_hostif_create j.answers j.job_hostif 3 k) (create_hostif js)
      j.answers.oper_state k' is h

create_hostif-keeps :
    (js : List Job) (k k' : Knet) (is : List HostifInfo) (i : HostifInfo)
    → All IsNumbered js
    → create_hostif js k ≡ some (k', is)
    → IsWired k i
    → IsWired k' i
unfolding create_hostif
create_hostif-keeps [] k k' is i numbered h w = subst (λ x. IsWired x i) (cc h) w
create_hostif-keeps (j ∷ js) k k' is i (n, numbered) h w =
    let (k1, x, infos, made, rest, whole) = create_hostif-cons j js k k' is h in
    let (same, device) = switch_api_hostif_create-done j.answers j.job_hostif 3 k k1 x n made in
    create_hostif-keeps js k1 k' infos i numbered rest (
      subst (λ y. IsWired y i) (sym same)
        (joined-keeps k i x.knet_hostif_handle x.info_hostif.dev_port w))

-- Where the driver numbers its devices from 1 on: if the loop goes through, each interface has a
-- device that is joined in both directions to the interface's port.
pub create_hostif-IsWired :
    (js : List Job) (k k' : Knet) (is : List HostifInfo)
    → All IsNumbered js
    → create_hostif js k ≡ some (k', is)
    → All (IsWired k') is
unfolding create_hostif
create_hostif-IsWired [] k k' is numbered h =
    let nothing : [] ≡ is = cc h in subst (λ l. All (IsWired k') l) nothing tt
create_hostif-IsWired (j ∷ js) k k' is (n, numbered) h =
    let (k1, x, infos, made, rest, whole) = create_hostif-cons j js k k' is h in
    let (same, device) = switch_api_hostif_create-done j.answers j.job_hostif 3 k k1 x n made in
    subst (λ l. All (IsWired k') l) (sym whole)
      (
        create_hostif-keeps js k1 k' infos x numbered rest
            (subst (λ y. IsWired y x) (sym same) (joined-IsWired k x device)),
        create_hostif-IsWired js k1 k' infos numbered rest,
      )

-- Where the driver numbers its devices from 1 on: a loop that goes through closes every socket that it
-- opens, and leaves one buffer behind for each interface.
create_hostif-buffers :
    (js : List Job) (k k' : Knet) (is : List HostifInfo)
    → All IsNumbered js
    → create_hostif js k ≡ some (k', is)
    → (k'.sockets ≡ k.sockets) × (k'.buffers ≡ k.buffers + length js) × (length is ≡ length js)
unfolding create_hostif joined
create_hostif-buffers [] k k' is numbered h =
    let same : k ≡ k' = cc h in
    let nothing : [] ≡ is = cc h in
    (
      ap (λ x. x.sockets) (sym same),
      omega (arith, ap (λ x. x.buffers) same),
      ap length (sym nothing),
    )
create_hostif-buffers (j ∷ js) k k' is (n, numbered) h =
    let (k1, x, infos, made, rest, whole) = create_hostif-cons j js k k' is h in
    let (same, device) = switch_api_hostif_create-done j.answers j.job_hostif 3 k k1 x n made in
    let (sockets, buffers, longer) = create_hostif-buffers js k1 k' infos numbered rest in
    (
      sockets ∙ ap (λ y. y.sockets) same,
      omega (arith, buffers, ap (λ y. y.buffers) same),
      ap length whole ∙ ap suc longer,
    )
