-- ===== src/Ether/RoundTrip.antt =====
-- Printing a MAC address and reading it back, and texts of too few numbers (utils.h).
use igw_p.Prelude.{
  true, ℕ, zero, suc, ◌≤◌, ◌<◌, some, List, [], ◌∷◌, ◌++◌, ◌≡◌, refl, ◌∙◌, ap, arith, length, All,
}
use mathlib.Core.Option
use igw_p.Ether.{Mac}
use igw_p.Ether.Aton.{
  Libc, colon, behind, aton_loop, aton_turn, store_octets, stored, ether_aton, print_octets, octets,
  print_mac,
}

-- `strtoul` at base 16 reads back what `%02x` prints of a byte, up to the end or to a colon.
pub record IsDocumented (c : Libc) : Type 0 where
  pub reads_last : (b : ℕ) → b < 256 → c.strtoul (c.fmt_02x b) ≡ some (b, [])
  pub reads_on :
      (b : ℕ) (rest : List ℕ)
      → b < 256
      → c.strtoul (c.fmt_02x b ++ colon ∷ rest) ≡ some (b, colon ∷ rest)

abbrev pub IsByte : ℕ → Type 0
IsByte b = b < 256

-- What is printed of some bytes, no more than there is room for, is read back.
aton_loop-print_octets :
    (c : Libc) (o : ℕ) (os : List ℕ) (room : ℕ)
    → IsDocumented c
    → All IsByte (o ∷ os)
    → length (o ∷ os) ≤ room
    → aton_loop c room (print_octets c (o ∷ os)) ≡ some (o ∷ os)
unfolding aton_loop aton_turn print_octets behind
aton_loop-print_octets c o os zero d bytes le = absurd (omega (arith, le))
aton_loop-print_octets c o [] (suc room) d (b, bytes) le =
    ap (aton_turn (aton_loop c room)) (d.reads_last o b)
aton_loop-print_octets c o (p ∷ os) (suc room) d (b, bytes) le =
    ap (aton_turn (aton_loop c room)) (d.reads_on o (print_octets c (p ∷ os)) b)
    ∙ ap (Option.map (λ xs. o ∷ xs))
        (aton_loop-print_octets c p os room d bytes (omega (arith, le)))

store_octets-octets :
    (m before : Mac) → All IsByte (octets m) → store_octets (octets m) before ≡ (m, true)
unfolding store_octets
store_octets-octets m before (b0, (b1, (b2, (b3, (b4, (b5, _)))))) = ground arith

-- Fewer than six numbers are not stored.
store_octets_short :
    (os : List ℕ) (before : Mac) → length os < 6 → store_octets os before ≡ (before, true)
unfolding store_octets
store_octets_short [] before short = refl
store_octets_short (a ∷ []) before short = refl
store_octets_short (a ∷ b ∷ []) before short = refl
store_octets_short (a ∷ b ∷ c ∷ []) before short = refl
store_octets_short (a ∷ b ∷ c ∷ d ∷ []) before short = refl
store_octets_short (a ∷ b ∷ c ∷ d ∷ e ∷ []) before short = refl
store_octets_short (a ∷ b ∷ c ∷ d ∷ e ∷ f ∷ os) before short = absurd (omega (arith, short))

-- Over a C library that does what it documents: the text of an address of six bytes is read as that
-- address.
pub ether_aton-print_mac :
    (c : Libc) (m before : Mac)
    → IsDocumented c
    → All IsByte (octets m)
    → ether_aton c (print_mac c m) before ≡ (m, true)
unfolding ether_aton print_mac stored
ether_aton-print_mac c m before d bytes =
    ap (stored before) (
      aton_loop-print_octets c m.b0 (m.b1 ∷ m.b2 ∷ m.b3 ∷ m.b4 ∷ m.b5 ∷ []) 6 d bytes (omega arith))
    ∙ store_octets-octets m before bytes

-- Over a C library that does what it documents: a text of one to five bytes is accepted too, and the
-- address is left as it was.
pub ether_aton_short :
    (c : Libc) (o : ℕ) (os : List ℕ) (before : Mac)
    → IsDocumented c
    → All IsByte (o ∷ os)
    → length os < 5
    → ether_aton c (print_octets c (o ∷ os)) before ≡ (before, true)
unfolding ether_aton stored
ether_aton_short c o os before d bytes short =
    ap (stored before) (aton_loop-print_octets c o os 6 d bytes (omega (arith, short)))
    ∙ store_octets_short (o ∷ os) before (omega (arith, short))
