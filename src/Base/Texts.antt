-- ===== src/Base/Texts.antt =====
-- Texts that the program builds, as lists of code points: `strings.ToLower`, `strconv.Itoa`.
use Prim.Native.Nat.{ℕ, zero, suc, ◌+◌, ◌-◌, ◌*◌, ◌/◌, ◌%◌, ◌<◌}
use Prim.Native.Char.{code}
use Prim.Native.String.{String}
use mathlib.Core.Path.{◌≡◌, refl}
use mathlib.Core.Bool.{◌&&◌}
use mathlib.Core.List.{List, [], ◌∷◌, map}
use native.Mathlib.Omega.{arith}
use sources_for_knative.Base.Tests.{if◌then◌else◌, ltb, leb}
use sources_for_knative.Base.Integers.{ℤ, pos, negsuc}

abbrev pub Text : Type 0
Text = List ℕ

abbrev pub codes : String → Text
codes String.[] = []
codes (String.◌∷◌ c s) = code c ∷ codes s

-- `strings.ToLower` maps each rune; the mapping of the runes beyond ASCII is Unicode's table.
unfoldable pub lower_rune : (ℕ → ℕ) → ℕ → ℕ
lower_rune table c = if ltb c 128 then (if leb b'A' c && leb c b'Z' then c + 32 else c) else table c

unfoldable pub to_lower : (ℕ → ℕ) → Text → Text
unfolding lower_rune
to_lower table = map (lower_rune table)

-- The decimal digits, the last one first; `fuel` bounds how many there are.
pub digits_of : ℕ → ℕ → Text
digits_of zero n = []
digits_of (suc fuel) n =
    let rest = digits_of fuel (n / 10) in
    if ltb n 10 then (b'0' + n) ∷ [] else (b'0' + n % 10) ∷ rest

-- The digits in the order in which they are printed.
pub flip_onto : Text → Text → Text
flip_onto [] acc = acc
flip_onto (c ∷ s) acc = flip_onto s (c ∷ acc)

pub print_nat : ℕ → Text
unfolding digits_of flip_onto
print_nat n = flip_onto (digits_of (suc n) n) []

-- `strconv.Itoa`.
unfoldable pub itoa : ℤ → Text
unfolding print_nat
itoa (pos n) = print_nat n
itoa (negsuc n) = b'-' ∷ print_nat (suc n)

-- The number that digits stand for, the last one first.
value_of : Text → ℕ
value_of [] = 0
value_of (c ∷ s) = c - b'0' + 10 * value_of s

value_of-digits_of : (fuel n : ℕ) → n < fuel → value_of (digits_of fuel n) ≡ n
unfolding digits_of value_of
value_of-digits_of zero n h = elim h [ ]
value_of-digits_of (suc fuel) n h = ground (arith, value_of-digits_of fuel (n / 10))

itoa_test : itoa (negsuc 1233) ≡ codes "-1234"
unfolding itoa
itoa_test = refl

lower_test : to_lower (λ c. c) (codes "VLSI_UserLoggedIn") ≡ codes "vlsi_userloggedin"
unfolding to_lower
lower_test = refl
