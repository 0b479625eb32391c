-- ===== src/Util/Coding/Decoded.antt =====
-- The varint decoders on any bytes, well formed or not.
use Prim.Native.Nat.{bit_and, bit_or}
use native.Mathlib.Nat.{mod-lt, one-le-pow}
use level_db.Common.{ℕ, ◌+◌, ◌*◌, ◌%◌, ◌^◌, ◌<◌, ◌≤◌, List, [], ◌∷◌, length, some, All, ◌≡◌, arith}
use level_db.Common.Bits.{bit_or-lt}
use level_db.Util.Coding.Fixed.{IsByte}
use level_db.Util.Coding.{
  u32_mod, get_varint_loop, get_varint32_ptr_fallback, get_varint32_ptr, get_varint64_ptr,
  get_varint32, get_varint64,
}

get_varint_loop_takes :
    (w last_shift : ℕ) (p : List ℕ) (shift result v : ℕ) (rest : List ℕ)
    → result < 2 ^ w
    → shift ≤ last_shift + 7
    → get_varint_loop (2 ^ w) last_shift p shift result ≡ some (v, rest)
    → (v < 2 ^ w)
      × (length rest < length p)
      × (7 * length p + shift ≤ 7 * length rest + last_shift + 7)
unfolding get_varint_loop
get_varint_loop_takes w last_shift [] shift result v rest hr hs e = cc
get_varint_loop_takes w last_shift (b ∷ p) shift result v rest hr hs e = ground (
  arith,
  fits (b * 2 ^ shift),
  fits (bit_and b 127 * 2 ^ shift),
  get_varint_loop_takes w last_shift p (shift + 7)
      (bit_or result (bit_and b 127 * 2 ^ shift % 2 ^ w)) v rest,
)
  where
    fits : (x : ℕ) → bit_or result (x % 2 ^ w) < 2 ^ w
    fits x = bit_or-lt w result (x % 2 ^ w) hr (mod-lt x (one-le-pow w 2 (omega arith)))

-- What GetVarint32Ptr accepts is a uint32, and it takes 1 to 5 bytes.
pub get_varint32_takes :
    (p : List ℕ) (v : ℕ) (rest : List ℕ)
    → All IsByte p
    → get_varint32 p ≡ some (v, rest)
    → (v < 2 ^ 32) × (length rest < length p) × (length p ≤ length rest + 5)
unfolding get_varint32 get_varint32_ptr get_varint32_ptr_fallback
get_varint32_takes [] v rest h e = cc
get_varint32_takes (b ∷ p) v rest h e =
    ground (arith, get_varint_loop_takes 32 28 (b ∷ p) 0 0 v rest)

-- What GetVarint64 accepts is below 2^64 and took 1 to 10 bytes of the input.
pub get_varint64_takes :
    (p : List ℕ) (v : ℕ) (rest : List ℕ)
    → get_varint64 p ≡ some (v, rest)
    → (v < 2 ^ 64) × (length rest < length p) × (length p ≤ length rest + 10)
unfolding get_varint64 get_varint64_ptr
get_varint64_takes p v rest e = ground (arith, get_varint_loop_takes 64 63 p 0 0 v rest)

get_varint_loop_shorter :
    (modulus last_shift : ℕ) (p : List ℕ) (shift result v : ℕ) (rest : List ℕ)
    → get_varint_loop modulus last_shift p shift result ≡ some (v, rest)
    → length rest < length p
unfolding get_varint_loop
get_varint_loop_shorter modulus last_shift [] shift result v rest e = cc
get_varint_loop_shorter modulus last_shift (b ∷ p) shift result v rest e = ground (
  arith,
  get_varint_loop_shorter modulus last_shift p (shift + 7)
      (bit_or result (bit_and b 127 * 2 ^ shift % modulus)) v rest,
)

-- Whatever the elements are, a decoder that succeeds consumes one at least.
pub get_varint32_shorter :
    (p : List ℕ) (v : ℕ) (rest : List ℕ) → get_varint32 p ≡ some (v, rest) → length rest < length p
unfolding get_varint32 get_varint32_ptr get_varint32_ptr_fallback
get_varint32_shorter [] v rest e = cc
get_varint32_shorter (b ∷ p) v rest e =
    ground (arith, get_varint_loop_shorter u32_mod 28 (b ∷ p) 0 0 v rest)
