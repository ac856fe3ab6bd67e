-- ===== src/Ether/Examples.antt =====
-- A C library that reads and writes lower-case hexadecimal numbers, and texts of addresses.
use igw_p.Prelude.{
  true, ℕ, ◌+◌, ◌-◌, ◌*◌, ◌/◌, ◌%◌, ◌<◌, Option, none, some, List, [], ◌∷◌, ◌++◌, ◌≡◌, refl, ap,
  ◌∙◌, arith, ltb, leb, ◌&&◌, if◌then◌else◌, All,
}
use igw_p.Ether.{Mac, zero_mac}
use igw_p.Ether.Aton.{Libc, colon, ether_aton, print_octets, print_mac, octets}
use igw_p.Ether.RoundTrip.{IsDocumented, IsByte, ether_aton-print_mac, ether_aton_short}

unfoldable digit : ℕ → ℕ
digit d = if ltb d 10 then 48 + d else 87 + d

unfoldable value_of : ℕ → Option ℕ
value_of ch =
    if leb 48 ch && leb ch 57
    then some (ch - 48)
    else (if leb 97 ch && leb ch 102 then some (ch - 87) else none)

value_of-digit : (d : ℕ) → d < 16 → value_of (digit d) ≡ some d
unfolding value_of digit
value_of-digit d lt = ground arith

abbrev go_on : Option (ℕ × List ℕ) → (ℕ → Option (ℕ × List ℕ)) → Option ℕ → Option (ℕ × List ℕ)
go_on stop more none = stop
go_on stop more (some d) = more d

-- The digits from here on, behind a number that is read so far
unfoldable pub read_hex : List ℕ → ℕ → Option (ℕ × List ℕ)
unfolding value_of
read_hex [] n = some (n, [])
read_hex (ch ∷ text) n = go_on (some (n, ch ∷ text)) (λ d. read_hex text (n * 16 + d)) (value_of ch)

unfoldable pub read_number : List ℕ → Option (ℕ × List ℕ)
unfolding read_hex
read_number [] = none
read_number (ch ∷ text) = go_on none (λ d. read_hex text d) (value_of ch)

unfoldable pub hex : ℕ → List ℕ
unfolding digit
hex b = digit (b / 16) ∷ digit (b % 16) ∷ []

abbrev pub libc : Libc
libc = record { strtoul = read_number; fmt_02x = hex }

read_number-hex : (b : ℕ) (text : List ℕ) → b < 256 → read_number (hex b ++ text) ≡ read_hex text b
unfolding read_number read_hex hex
read_number-hex b text lt =
    let low : Option (ℕ × List ℕ) = some (b / 16, digit (b % 16) ∷ text) in
    ap (go_on none (λ d. read_hex (digit (b % 16) ∷ text) d))
      (value_of-digit (b / 16) (omega (arith, lt)))
    ∙ ap (go_on low (λ d. read_hex text (b / 16 * 16 + d))) (value_of-digit (b % 16) (omega arith))
    ∙ ap (read_hex text) (omega arith)

read_on : (b : ℕ) (text : List ℕ) → read_hex (colon ∷ text) b ≡ some (b, colon ∷ text)
unfolding read_hex
read_on b text = refl

libc-IsDocumented : IsDocumented libc
unfolding read_hex hex
libc-IsDocumented = record {
  reads_last = λ b lt. read_number-hex b [] lt;
  reads_on = λ b text lt. read_number-hex b (colon ∷ text) lt ∙ read_on b text;
}

abbrev card : Mac
card = record { b0 = 0x02; b1 = 0x0c; b2 = 0x29; b3 = 0x71; b4 = 0x17; b5 = 0xfe }

card_bytes : All IsByte (octets card)
card_bytes =
    (omega arith, (omega arith, (omega arith, (omega arith, (omega arith, (omega arith, tt))))))

ether_aton-print_mac_example : ether_aton libc (print_mac libc card) zero_mac ≡ (card, true)
ether_aton-print_mac_example = ether_aton-print_mac libc card zero_mac libc-IsDocumented card_bytes

ether_aton_short_example :
    ether_aton libc (print_octets libc (2 ∷ 12 ∷ [])) zero_mac ≡ (zero_mac, true)
ether_aton_short_example =
    ether_aton_short libc 2 (12 ∷ []) zero_mac libc-IsDocumented (omega arith, (omega arith, tt))
      (omega arith)

-- What stands behind the sixth number's colon is not looked at.
ends_in_colon : ether_aton libc (print_mac libc card ++ colon ∷ []) zero_mac ≡ (card, true)
unfolding ether_aton print_mac read_number hex
ends_in_colon = refl
