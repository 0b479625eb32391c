-- ===== src/Util/Bloom/Bits.antt =====
-- One bit of a byte array: set_bit sets it and leaves the others as they are.
use Prim.Native.Nat.{bit_and, bit_or, max}
use level_db.Common.{
  ℕ, zero, suc, ◌*◌, ◌/◌, ◌%◌, ◌^◌, ◌<◌, true, List, [], ◌∷◌, ◌++◌, length, get_or, ◌==◌, not, ◌≡◌,
  ◌⊎◌, inl, inr, refl, ap, ◌∙◌, arith,
}
use native.Mathlib.Nat.{pow-suc, one-le-pow}
use level_db.Common.Bits.{bit_or-digit, bit_and-digit, bit_and-zero}
use level_db.Util.Bloom.{or_at, set_bit, bit_is_set}

-- The k-th binary digit.
abbrev pub bit : ℕ → ℕ → ℕ
bit zero x = x % 2
bit (suc k) x = bit k (x / 2)

bit-lt : (k x : ℕ) → bit k x < 2
bit-lt zero x = omega arith
bit-lt (suc k) x = bit-lt k (x / 2)

halved : (k : ℕ) → (2 ^ suc k / 2 ≡ 2 ^ k) × (2 ^ suc k % 2 ≡ 0)
halved k = omega (arith, pow-suc 2 k)

bit_and-power : (k x : ℕ) → bit_and x (2 ^ k) ≡ bit k x * 2 ^ k
bit_and-power zero x = omega (arith, bit_and-digit x 1, bit_and-zero (x / 2))
bit_and-power (suc k) x =
    bit_and-digit x (2 ^ suc k)
    ∙ rw ((halved k).0, (halved k).1, bit_and-power k (x / 2))
        (omega (arith, ap (λ (t : ℕ). bit k (x / 2) * t) (pow-suc 2 k)))

bit-bit_or : (k a c : ℕ) → bit k (bit_or a c) ≡ max (bit k a) (bit k c)
bit-bit_or zero a c = omega (arith, bit_or-digit a c)
bit-bit_or (suc k) a c = ap (bit k) (omega (arith, bit_or-digit a c)) ∙ bit-bit_or k (a / 2) (c / 2)

bit-power : (k : ℕ) → bit k (2 ^ k) ≡ 1
bit-power zero = refl
bit-power (suc k) = rw (halved k).0 (bit-power k)

zero_or_one : (x : ℕ) → x < 2 → (x ≡ 0) ⊎ (x ≡ 1)
zero_or_one x h = omega arith

bit_is_set-bit : (k b : ℕ) → bit k b ≡ 1 → not (bit_and b (2 ^ k) == 0) ≡ true
bit_is_set-bit k b h = rw (bit_and-power k b, h) (ground (arith, one-le-pow k 2 (omega arith)))

bit-is_set : (k b : ℕ) → not (bit_and b (2 ^ k) == 0) ≡ true → bit k b ≡ 1
bit-is_set k b h = elim (zero_or_one (bit k b) (bit-lt k b)) [
  | inl e ↦ absurd (ground (arith, bit_and-power k b, e, h))
  | inr e ↦ e
]

bit-or_at :
    (i mask j : ℕ) (array : List ℕ) (k : ℕ)
    → bit k (get_or array j 0) ≡ 1
    → bit k (get_or (or_at i mask array) j 0) ≡ 1
unfolding or_at
bit-or_at i mask j [] k h = h
bit-or_at zero mask zero (b ∷ array) k h =
    omega (arith, bit-bit_or k b mask, bit-lt k b, bit-lt k mask)
bit-or_at zero mask (suc j) (b ∷ array) k h = h
bit-or_at (suc i) mask zero (b ∷ array) k h = h
bit-or_at (suc i) mask (suc j) (b ∷ array) k h = bit-or_at i mask j array k h

bit-or_at_same :
    (i k : ℕ) (array : List ℕ) → i < length array → bit k (get_or (or_at i (2 ^ k) array) i 0) ≡ 1
unfolding or_at
bit-or_at_same i k [] h = elim h [ ]
bit-or_at_same zero k (b ∷ array) h = omega (arith, bit-bit_or k b (2 ^ k), bit-power k, bit-lt k b)
bit-or_at_same (suc i) k (b ∷ array) h = bit-or_at_same i k array (omega arith)

length-or_at : (i mask : ℕ) (array : List ℕ) → length (or_at i mask array) ≡ length array
unfolding or_at
length-or_at i mask [] = refl
length-or_at zero mask (b ∷ array) = refl
length-or_at (suc i) mask (b ∷ array) = ap suc (length-or_at i mask array)

pub length-set_bit : (array : List ℕ) (pos : ℕ) → length (set_bit array pos) ≡ length array
unfolding set_bit
length-set_bit array pos = length-or_at (pos / 8) (2 ^ (pos % 8)) array

pub bit_is_set-set_bit :
    (array : List ℕ) (pos : ℕ) → pos < length array * 8 → bit_is_set (set_bit array pos) pos ≡ true
unfolding bit_is_set set_bit
bit_is_set-set_bit array pos h =
    bit_is_set-bit (pos % 8) (get_or (or_at (pos / 8) (2 ^ (pos % 8)) array) (pos / 8) 0)
      (bit-or_at_same (pos / 8) (pos % 8) array (omega arith))

-- A set bit stays set.
pub bit_is_set-kept :
    (array : List ℕ) (pos other : ℕ)
    → bit_is_set array pos ≡ true
    → bit_is_set (set_bit array other) pos ≡ true
unfolding bit_is_set set_bit
bit_is_set-kept array pos other h =
    bit_is_set-bit (pos % 8) (get_or (or_at (other / 8) (2 ^ (other % 8)) array) (pos / 8) 0) (
      bit-or_at (other / 8) (2 ^ (other % 8)) (pos / 8) array (pos % 8)
        (bit-is_set (pos % 8) (get_or array (pos / 8) 0) h))

-- A bit of the array is read the same with more bytes behind it.
pub get_or-append : (xs ys : List ℕ) (i : ℕ) → i < length xs → get_or (xs ++ ys) i 0 ≡ get_or xs i 0
get_or-append [] ys i h = elim h [ ]
get_or-append (x ∷ xs) ys zero h = refl
get_or-append (x ∷ xs) ys (suc i) h = get_or-append xs ys i (omega arith)

pub get_or-length : (xs : List ℕ) (y : ℕ) → get_or (xs ++ (y ∷ [])) (length xs) 0 ≡ y
get_or-length [] y = refl
get_or-length (x ∷ xs) y = get_or-length xs y

pub bit_is_set-append :
    (xs ys : List ℕ) (pos : ℕ) → pos < length xs * 8 → bit_is_set (xs ++ ys) pos ≡ bit_is_set xs pos
unfolding bit_is_set
bit_is_set-append xs ys pos h = rw (get_or-append xs ys (pos / 8) (omega arith))
