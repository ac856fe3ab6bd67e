-- ===== src/Port/Recirc.antt =====
-- The recirculation ports of a device (igw-h/init_setup/switchapi/switch_port.c:
-- switch_pd_recirc_port_list_get), one for each pipeline.
--
-- The driver's range of them is a parameter. The array has four entries; a range that fills more
-- counts as `none`, as does a SETUP_PANIC. Device ports are far below 2 ^ 32, so the index does not
-- wrap.
use igw_p.Prelude.{
  ℕ, zero, suc, ◌+◌, ◌-◌, ◌*◌, ◌/◌, ◌≤◌, ◌<◌, Option, none, some, List, [], ◌∷◌, ◌++◌, ◌≡◌, arith,
  leb, if◌then◌else◌, length, get_elem?, drop,
}

abbrev switch_max_recirc_ports : ℕ
switch_max_recirc_ports = 4

-- `SWITCH_CPU_PORT_PCIE_DEFAULT + index`
abbrev default_ports : List ℕ
default_ports = 502 ∷ 503 ∷ 504 ∷ 505 ∷ []

-- The second loop, with so many turns left
unfoldable recirc_loop : ℕ → ℕ → ℕ → List ℕ
recirc_loop zero index last = []
recirc_loop (suc turns) index last =
    let rest = recirc_loop turns (index + 4) last in if leb index last then index ∷ rest else []

stored : List ℕ → Option (ℕ × List ℕ)
stored found =
    if leb (length found) switch_max_recirc_ports
    then some (length found, found ++ drop (length found) default_ports)
    else none

-- The number of ports, and the array
unfoldable switch_pd_recirc_port_list_get : Option (ℕ × ℕ) → Option (ℕ × List ℕ)
unfolding recirc_loop stored
switch_pd_recirc_port_list_get none = none
switch_pd_recirc_port_list_get (some (start, last)) = stored (recirc_loop (last + 1) start last)

-- With enough turns, the loop finds every fourth port of the range.
recirc_loop-length :
    (turns index last : ℕ)
    → last < index + 4 * turns
    → length (recirc_loop turns index last) ≡ (if leb index last then (last - index) / 4 + 1 else 0)
unfolding recirc_loop
recirc_loop-length zero index last enough = ground (arith, enough)
recirc_loop-length (suc turns) index last enough =
    let further : last < index + 4 + 4 * turns = omega (arith, enough) in
    ground (arith, recirc_loop-length turns (index + 4) last further)

recirc_loop-get_elem? :
    (turns index last k : ℕ)
    → index + 4 * k ≤ last
    → last < index + 4 * turns
    → get_elem? (recirc_loop turns index last) k ≡ some (index + 4 * k)
unfolding recirc_loop
recirc_loop-get_elem? zero index last k le enough = absurd (omega (arith, le, enough))
recirc_loop-get_elem? (suc turns) index last zero le enough = ground (arith, le)
recirc_loop-get_elem? (suc turns) index last (suc k) le enough =
    let further : last < index + 4 + 4 * turns = omega (arith, enough) in
    let below : index + 4 + 4 * k ≤ last = omega (arith, le) in
    ground (arith, le, recirc_loop-get_elem? turns (index + 4) last k below further)

get_elem?-append {ℓ} :
    {A : Type ℓ} (xs ys : List A) (k : ℕ) (x : A)
    → get_elem? xs k ≡ some x
    → get_elem? (xs ++ ys) k ≡ some x
get_elem?-append [] ys k x h = absurd (cc h)
get_elem?-append (z ∷ xs) ys zero x h = h
get_elem?-append (z ∷ xs) ys (suc k) x h = get_elem?-append xs ys k x h

-- For a range of one to sixteen ports, the array holds every fourth of them, in order; for a longer
-- range, the loop writes behind the array.
switch_pd_recirc_port_list_get_lem :
    (start last : ℕ)
    → start ≤ last
    → (last < start + 16
        → (n : ℕ) × (ports : List ℕ) × (switch_pd_recirc_port_list_get (some (start, last))
            ≡ some (n, ports))
          × (n ≡ (last - start) / 4 + 1)
          × ((k : ℕ) → start + 4 * k ≤ last → get_elem? ports k ≡ some (start + 4 * k)))
      × (start + 16 ≤ last → switch_pd_recirc_port_list_get (some (start, last)) ≡ none)
unfolding switch_pd_recirc_port_list_get stored
switch_pd_recirc_port_list_get_lem start last some_port =
    let found = recirc_loop (last + 1) start last in
    let enough : last < start + 4 * (last + 1) = omega arith in
    let number = recirc_loop-length (last + 1) start last enough in
    let many : length found ≡ (last - start) / 4 + 1 = ground (arith, number, some_port) in
    (
      (λ small. (
        length found,
        found ++ drop (length found) default_ports,
        ground (arith, many, small),
        many,
        λ k le.
            get_elem?-append found (drop (length found) default_ports) k (start + 4 * k)
              (recirc_loop-get_elem? (last + 1) start last k le enough),
      )),
      (λ long. ground (arith, many, long)),
    )
