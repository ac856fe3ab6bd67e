-- ===== src/Ether/Aton.antt =====
-- MAC addresses as text (igw-h/init_setup/include/utils.h: ether_aton, MAC_FMT). Text is a list of
-- character codes without the NUL at its end.
use igw_p.Prelude.{
  Bool, true, false, ℕ, zero, suc, Option, none, some, List, [], ◌∷◌, ◌++◌, ◌==◌, leb,
  if◌then◌else◌,
}
use mathlib.Core.Option
use Prim.Native.Char.{code}
use Prim.Native.String.{String}
use igw_p.Ether.{Mac}

abbrev pub codes : String → List ℕ
codes String.[] = []
codes (String.◌∷◌ c s) = code c ∷ codes s

-- What of the C library is used: `strtoul` at base 16, the number and the text from `end` on, or
-- `none` where errno is set or nothing is converted; and the conversion `%02x` of `printf`.
pub record Libc : Type 0 where
  pub strtoul : List ℕ → Option (ℕ × List ℕ)
  pub fmt_02x : ℕ → List ℕ

abbrev pub colon : ℕ
colon = b':'

abbrev pub const_uint8_max : ℕ
const_uint8_max = 255

-- Behind a number: the text ends, or goes on behind a colon; `next` is what the turns after read.
unfoldable pub behind : ℕ → List ℕ → Option (List ℕ) → Option (List ℕ)
behind o [] next = some (o ∷ [])
behind o (c ∷ more) next = if c == colon then Option.map (λ os. o ∷ os) next else none

abbrev pub tail_of : List ℕ → List ℕ
tail_of [] = []
tail_of (c ∷ more) = more

-- One turn of the loop of `ether_aton`, by what `strtoul` answers; `next` is the turns after it.
unfoldable pub aton_turn : (List ℕ → Option (List ℕ)) → Option (ℕ × List ℕ) → Option (List ℕ)
unfolding behind
aton_turn next none = none
aton_turn next (some (o, end)) = behind o end (next (tail_of end))

-- What the loop reads into `o`, for at most as many turns as there is room
unfoldable pub aton_loop : Libc → ℕ → List ℕ → Option (List ℕ)
unfolding aton_turn
aton_loop c zero a = some []
aton_loop c (suc room) a = aton_turn (aton_loop c room) (c.strtoul a)

-- The second loop, behind `if (i == 6)`, from the last byte down, with whether it gets through: at a
-- number that is too large it stops, and what it has stored stays. With fewer numbers the address is
-- left as it is.
unfoldable pub store_octets : List ℕ → Mac → Mac × Bool
store_octets (o0 ∷ o1 ∷ o2 ∷ o3 ∷ o4 ∷ o5 ∷ []) mac =
    if leb o5 const_uint8_max
    then (if leb o4 const_uint8_max
        then (if leb o3 const_uint8_max
            then (if leb o2 const_uint8_max
                then (if leb o1 const_uint8_max
                    then (if leb o0 const_uint8_max
                        then (record { b0 = o0; b1 = o1; b2 = o2; b3 = o3; b4 = o4; b5 = o5 }, true)
                        else (record mac { b1 = o1; b2 = o2; b3 = o3; b4 = o4; b5 = o5 }, false))
                    else (record mac { b2 = o2; b3 = o3; b4 = o4; b5 = o5 }, false))
                else (record mac { b3 = o3; b4 = o4; b5 = o5 }, false))
            else (record mac { b4 = o4; b5 = o5 }, false))
        else (record mac { b5 = o5 }, false))
    else (mac, false)
store_octets os mac = (mac, true)

unfoldable pub stored : Mac → Option (List ℕ) → Mac × Bool
unfolding store_octets
stored mac none = (mac, false)
stored mac (some os) = store_octets os mac

-- `ether_aton`: the address, and whether 0 is returned, which else is -1
unfoldable pub ether_aton : Libc → List ℕ → Mac → Mac × Bool
unfolding aton_loop stored
ether_aton c a mac = stored mac (aton_loop c 6 a)

-- Numbers as `%02x`, with colons between
unfoldable pub print_octets : Libc → List ℕ → List ℕ
print_octets c [] = []
print_octets c (o ∷ []) = c.fmt_02x o
print_octets c (o ∷ p ∷ os) = c.fmt_02x o ++ colon ∷ print_octets c (p ∷ os)

abbrev pub octets : Mac → List ℕ
octets m = m.b0 ∷ m.b1 ∷ m.b2 ∷ m.b3 ∷ m.b4 ∷ m.b5 ∷ []

-- `printf(MAC_FMT, MAC_ARG(mac))`
unfoldable pub print_mac : Libc → Mac → List ℕ
unfolding print_octets
print_mac c m = print_octets c (octets m)
