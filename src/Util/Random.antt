-- ===== src/Util/Random.antt =====
-- util/random.h: the linear congruential generator, which picks the heights in the skip list.
use Prim.Native.Nat.{bit_and}
use level_db.Common.{
  ℕ, ◌+◌, ◌-◌, ◌*◌, ◌/◌, ◌%◌, ◌^◌, ◌<◌, Bool, ltb, ◌==◌, if◌then◌else◌, ◌≡◌, ◌≢◌, arith,
}
use level_db.Common.Bits.{bit_and-31_ones}
use level_db.Util.Coding.{u32_mod, u64_mod}

abbrev pub modulus : ℕ
modulus = 2147483647

-- The constructor: `s & 0x7fffffffu`.
unfoldable pub seeded : ℕ → ℕ
seeded s = bit_and s 0x7fffffff

-- The new seed, which is also what Next returns.
unfoldable pub next : ℕ → ℕ
next seed =
    let product = seed * 16807 % u64_mod in
    let reduced = (product / 2 ^ 31 + bit_and product modulus) % u32_mod in
    if ltb modulus reduced then reduced - modulus else reduced

unfoldable pub uniform : ℕ → ℕ → ℕ
uniform seed n = next seed % n

unfoldable pub one_in : ℕ → ℕ → Bool
one_in seed n = next seed % n == 0

not_multiple : (seed k : ℕ) → 0 < seed → seed < modulus → seed * 16807 ≢ k * modulus
not_multiple seed k h h' e = omega (arith, e, h, h')

-- From a seed strictly between 0 and 2^31 - 1, Next returns the seed times 16807 modulo 2^31 - 1,
-- which is again strictly between them.
pub next-product :
    (seed : ℕ)
    → 0 < seed
    → seed < modulus
    → (next seed ≡ seed * 16807 % modulus) × (0 < next seed) × (next seed < modulus)
unfolding next
next-product seed h h' =
    rw (bit_and-31_ones (seed * 16807 % u64_mod))
      (ground (arith, not_multiple seed (seed * 16807 / modulus) h h'))
