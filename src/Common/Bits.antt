-- ===== src/Common/Bits.antt =====
-- Bit operations as arithmetic. The native `bit_and` and `bit_or` have no laws at variables, so
-- the passage from one binary digit to the next is derived here, and the masks of the program
-- from it.
use Prim.Native.Nat.{
  ℕ, zero, suc, ◌+◌, ◌*◌, ◌/◌, ◌%◌, ◌^◌, ◌≤◌, ◌<◌, min, max, bit_and, bit_or, bitwise, digits,
  bit_and-bitwise, bit_or-bitwise,
}
use mathlib.Core.Path.{◌≡◌, refl, ap, ◌∙◌}
use native.Mathlib.Nat.{pow-suc}
use native.Mathlib.Omega.{arith}

-- The fuel of `digits` does not matter once it covers the first number.
module _ (rest : ℕ → ℕ) (bit : ℕ → ℕ → ℕ) where
  enough_fuel : (a b n m : ℕ) → a ≤ n → a ≤ m → digits rest bit n a b ≡ digits rest bit m a b
  enough_fuel a b zero zero p q = refl
  enough_fuel zero b zero (suc m) p q = refl
  enough_fuel (suc a) b zero (suc m) p q = elim p [ ]
  enough_fuel zero b (suc n) zero p q = refl
  enough_fuel (suc a) b (suc n) zero p q = elim q [ ]
  enough_fuel zero b (suc n) (suc m) p q = refl
  enough_fuel (suc a) b (suc n) (suc m) p q =
      ap (λ (high : ℕ). high * 2 + bit (suc a % 2) (b % 2))
        (enough_fuel (suc a / 2) (b / 2) n m (omega arith) (omega arith))

  lowest_digit :
      (a b : ℕ)
      → bitwise rest bit (suc a) b
        ≡ bitwise rest bit (suc a / 2) (b / 2) * 2 + bit (suc a % 2) (b % 2)
  lowest_digit a b =
      ap (λ (high : ℕ). high * 2 + bit (suc a % 2) (b % 2))
        (enough_fuel (suc a / 2) (b / 2) a (suc a / 2) (omega arith) (omega arith))

pub bit_or-digit : (a b : ℕ) → bit_or a b ≡ bit_or (a / 2) (b / 2) * 2 + max (a % 2) (b % 2)
bit_or-digit zero b = omega (arith, bit_or-bitwise 0 b, bit_or-bitwise 0 (b / 2))
bit_or-digit (suc a) b = omega (
  arith,
  bit_or-bitwise (suc a) b,
  bit_or-bitwise (suc a / 2) (b / 2),
  lowest_digit (λ y. y) max a b,
)

pub bit_and-digit : (a b : ℕ) → bit_and a b ≡ bit_and (a / 2) (b / 2) * 2 + min (a % 2) (b % 2)
bit_and-digit zero b = omega (arith, bit_and-bitwise 0 b, bit_and-bitwise 0 (b / 2))
bit_and-digit (suc a) b = omega (
  arith,
  bit_and-bitwise (suc a) b,
  bit_and-bitwise (suc a / 2) (b / 2),
  lowest_digit (λ y. 0) min a b,
)

bit_or-zero_below : (n a : ℕ) → a ≤ n → bit_or a 0 ≡ a
bit_or-zero_below n zero h = refl
bit_or-zero_below zero (suc a) h = elim h [ ]
bit_or-zero_below (suc n) (suc a) h =
    omega (arith, bit_or-digit (suc a) 0, bit_or-zero_below n (suc a / 2) (omega arith))

pub bit_or-zero : (a : ℕ) → bit_or a 0 ≡ a
bit_or-zero a = bit_or-zero_below a a (omega arith)

pub zero-bit_or : (b : ℕ) → bit_or 0 b ≡ b
zero-bit_or b = bit_or-bitwise 0 b

bit_and-zero_below : (n a : ℕ) → a ≤ n → bit_and a 0 ≡ 0
bit_and-zero_below n zero h = refl
bit_and-zero_below zero (suc a) h = elim h [ ]
bit_and-zero_below (suc n) (suc a) h =
    omega (arith, bit_and-digit (suc a) 0, bit_and-zero_below n (suc a / 2) (omega arith))

pub bit_and-zero : (a : ℕ) → bit_and a 0 ≡ 0
bit_and-zero a = bit_and-zero_below a a (omega arith)

-- `low | (high << s)` is a sum where `low` has at most `s` bits.
pub bit_or-shifted : (s low high : ℕ) → low < 2 ^ s → bit_or low (high * 2 ^ s) ≡ low + high * 2 ^ s
bit_or-shifted zero low high h = let e : low ≡ 0 = omega arith in rw (e, zero-bit_or) (omega arith)
bit_or-shifted (suc s) low high h = ground (
  arith,
  bit_or-digit low (high * 2 ^ suc s),
  pow-suc 2 s,
  double,
  bit_or-shifted s (low / 2) high,
)
  where
    double : high * 2 ^ suc s ≡ 2 * (high * 2 ^ s)
    double = omega (arith, ap (λ (t : ℕ). high * t) (pow-suc 2 s))

-- The digit laws where the last digit of the second number is known.
bit_and-odd : (x m : ℕ) → m % 2 ≡ 1 → bit_and x m ≡ bit_and (x / 2) (m / 2) * 2 + x % 2
bit_and-odd x m h = omega (arith, bit_and-digit x m)

bit_and-even : (x m : ℕ) → m % 2 ≡ 0 → bit_and x m ≡ bit_and (x / 2) (m / 2) * 2
bit_and-even x m h = omega (arith, bit_and-digit x m)

bit_or-even : (x m : ℕ) → m % 2 ≡ 0 → bit_or x m ≡ bit_or (x / 2) (m / 2) * 2 + x % 2
bit_or-even x m h = omega (arith, bit_or-digit x m)

pub bit_or-one : (x : ℕ) → bit_or x 1 ≡ x / 2 * 2 + 1
bit_or-one x = omega (arith, bit_or-digit x 1, bit_or-zero (x / 2))

-- Low masks are remainders.
pub bit_and-127 : (x : ℕ) → bit_and x 127 ≡ x % 128
bit_and-127 x = omega (
  arith,
  bit_and-odd (x) 127 refl,
  bit_and-odd (x / 2) 63 refl,
  bit_and-odd (x / 2 / 2) 31 refl,
  bit_and-odd (x / 2 / 2 / 2) 15 refl,
  bit_and-odd (x / 2 / 2 / 2 / 2) 7 refl,
  bit_and-odd (x / 2 / 2 / 2 / 2 / 2) 3 refl,
  bit_and-odd (x / 2 / 2 / 2 / 2 / 2 / 2) 1 refl,
  bit_and-zero (x / 2 / 2 / 2 / 2 / 2 / 2 / 2),
)

pub bit_and-255 : (x : ℕ) → bit_and x 255 ≡ x % 256
bit_and-255 x = omega (
  arith,
  bit_and-odd (x) 255 refl,
  bit_and-odd (x / 2) 127 refl,
  bit_and-odd (x / 2 / 2) 63 refl,
  bit_and-odd (x / 2 / 2 / 2) 31 refl,
  bit_and-odd (x / 2 / 2 / 2 / 2) 15 refl,
  bit_and-odd (x / 2 / 2 / 2 / 2 / 2) 7 refl,
  bit_and-odd (x / 2 / 2 / 2 / 2 / 2 / 2) 3 refl,
  bit_and-odd (x / 2 / 2 / 2 / 2 / 2 / 2 / 2) 1 refl,
  bit_and-zero (x / 2 / 2 / 2 / 2 / 2 / 2 / 2 / 2),
)

-- The mask of the k lowest bits, and what it keeps.
abbrev ones : ℕ → ℕ
ones zero = 0
ones (suc k) = ones k * 2 + 1

abbrev lowest : ℕ → ℕ → ℕ
lowest zero x = 0
lowest (suc k) x = lowest k (x / 2) * 2 + x % 2

bit_and-ones : (k x : ℕ) → bit_and x (ones k) ≡ lowest k x
bit_and-ones zero x = bit_and-zero x
bit_and-ones (suc k) x =
    bit_and-odd x (ones k * 2 + 1) (omega arith)
    ∙ ap (λ (m : ℕ). bit_and (x / 2) m * 2 + x % 2) (omega arith)
    ∙ ap (λ (low : ℕ). low * 2 + x % 2) (bit_and-ones k (x / 2))

pub bit_and-31_ones : (x : ℕ) → bit_and x 0x7fffffff ≡ x % 2 ^ 31
bit_and-31_ones x = bit_and-ones 31 x ∙ omega arith

-- `x & 128` tests bit 7, and `x | 128` sets it, whatever stands above it.
pub bit_and-128 : (x : ℕ) → bit_and x 128 ≡ x / 128 % 2 * 128
bit_and-128 x = omega (
  arith,
  bit_and-even (x) 128 refl,
  bit_and-even (x / 2) 64 refl,
  bit_and-even (x / 2 / 2) 32 refl,
  bit_and-even (x / 2 / 2 / 2) 16 refl,
  bit_and-even (x / 2 / 2 / 2 / 2) 8 refl,
  bit_and-even (x / 2 / 2 / 2 / 2 / 2) 4 refl,
  bit_and-even (x / 2 / 2 / 2 / 2 / 2 / 2) 2 refl,
  bit_and-odd (x / 2 / 2 / 2 / 2 / 2 / 2 / 2) 1 refl,
  bit_and-zero (x / 2 / 2 / 2 / 2 / 2 / 2 / 2 / 2),
)

pub bit_or-128 : (x : ℕ) → bit_or x 128 % 256 ≡ x % 128 + 128
bit_or-128 x = omega (
  arith,
  bit_or-even (x) 128 refl,
  bit_or-even (x / 2) 64 refl,
  bit_or-even (x / 2 / 2) 32 refl,
  bit_or-even (x / 2 / 2 / 2) 16 refl,
  bit_or-even (x / 2 / 2 / 2 / 2) 8 refl,
  bit_or-even (x / 2 / 2 / 2 / 2 / 2) 4 refl,
  bit_or-even (x / 2 / 2 / 2 / 2 / 2 / 2) 2 refl,
  bit_or-one (x / 2 / 2 / 2 / 2 / 2 / 2 / 2),
)

-- `|` of two w-bit words is a w-bit word.
pub bit_or-lt : (w a b : ℕ) → a < 2 ^ w → b < 2 ^ w → bit_or a b < 2 ^ w
bit_or-lt zero a b ha hb = let e : a ≡ 0 = omega arith in rw (e, zero-bit_or) (omega arith)
bit_or-lt (suc w) a b ha hb = omega (
  arith,
  bit_or-digit a b,
  pow-suc 2 w,
  bit_or-lt w (a / 2) (b / 2) (omega (arith, pow-suc 2 w)) (omega (arith, pow-suc 2 w)),
)

le-bit_or_below : (n a b : ℕ) → a ≤ n → a ≤ bit_or a b
le-bit_or_below zero a b h = omega arith
le-bit_or_below (suc n) zero b h = omega arith
le-bit_or_below (suc n) (suc a) b h =
    omega (arith, bit_or-digit (suc a) b, le-bit_or_below n (suc a / 2) (b / 2) (omega arith))

pub le-bit_or : (a b : ℕ) → a ≤ bit_or a b
le-bit_or a b = le-bit_or_below a a b (omega arith)

bit_or-ge_below : (n a b : ℕ) → a ≤ n → b ≤ bit_or a b
bit_or-ge_below zero a b h = let e : a ≡ 0 = omega arith in rw (e, zero-bit_or) (omega arith)
bit_or-ge_below (suc n) zero b h = rw zero-bit_or (omega arith)
bit_or-ge_below (suc n) (suc a) b h =
    omega (arith, bit_or-digit (suc a) b, bit_or-ge_below n (suc a / 2) (b / 2) (omega arith))

pub bit_or-ge : (a b : ℕ) → b ≤ bit_or a b
bit_or-ge a b = bit_or-ge_below a a b (omega arith)
