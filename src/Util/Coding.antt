-- ===== src/Util/Coding.antt =====
-- util/coding.h and util/coding.cpp: numbers and slices as bytes.
-- A range [p, limit) is the list of its bytes. A function that returns a pointer past what it has
-- read returns the value with the bytes that follow, and `none` for NULL or false.
pub mod Fixed
pub mod Varint
pub mod Prefixed
pub mod Decoded
use Prim.Native.Nat.{bit_and, bit_or}
use mathlib.Core.Logic.{dite}
use mathlib.Core.WellFounded.{Acc}
use native.Mathlib.Decide.{dec_le}
use level_db.Common.{
  ℕ, zero, suc, ◌+◌, ◌*◌, ◌/◌, ◌%◌, ◌^◌, ◌≤◌, ◌<◌, List, [], ◌∷◌, ◌++◌, length, take, drop, Option,
  none, some, ltb, leb, ◌==◌, if◌then◌else◌, ◌>>=◌, arith,
}
use level_db.Common.Order.{lt_wf}

abbrev pub u32_mod : ℕ
u32_mod = 2 ^ 32

abbrev pub u64_mod : ℕ
u64_mod = 2 ^ 64

-- A store through `unsigned char *`.
abbrev pub byte : ℕ → ℕ
byte v = v % 256

-- The `n` bytes of a little-endian integer in memory, and the integer that `n` bytes make.
-- `memcpy` from a range that is too short is undefined; here the missing bytes read as 0, and
-- every theorem about a decoder bounds the length.
unfoldable pub store_bytes : ℕ → ℕ → List ℕ
store_bytes zero v = []
store_bytes (suc n) v = byte v ∷ store_bytes n (v / 256)

unfoldable pub load_bytes : ℕ → List ℕ → ℕ
load_bytes zero bytes = 0
load_bytes (suc n) [] = 0
load_bytes (suc n) (b ∷ bytes) = b + 256 * load_bytes n bytes

unfoldable pub encode_fixed32 : ℕ → List ℕ
unfolding store_bytes
encode_fixed32 value = store_bytes 4 value

unfoldable pub encode_fixed64 : ℕ → List ℕ
unfolding store_bytes
encode_fixed64 value = store_bytes 8 value

unfoldable pub decode_fixed32 : List ℕ → ℕ
unfolding load_bytes
decode_fixed32 ptr = load_bytes 4 ptr

unfoldable pub decode_fixed64 : List ℕ → ℕ
unfolding load_bytes
decode_fixed64 ptr = load_bytes 8 ptr

unfoldable pub put_fixed32 : List ℕ → ℕ → List ℕ
unfolding encode_fixed32
put_fixed32 dst value = dst ++ encode_fixed32 value

unfoldable pub put_fixed64 : List ℕ → ℕ → List ℕ
unfolding encode_fixed64
put_fixed64 dst value = dst ++ encode_fixed64 value

-- The bytes written at `dst`.
unfoldable pub encode_varint32 : ℕ → List ℕ
encode_varint32 v =
    if ltb v (2 ^ 7)
    then byte v ∷ []
    else if ltb v (2 ^ 14)
    then byte (bit_or v 128) ∷ byte (v / 2 ^ 7) ∷ []
    else if ltb v (2 ^ 21)
    then byte (bit_or v 128) ∷ byte (bit_or (v / 2 ^ 7) 128) ∷ byte (v / 2 ^ 14) ∷ []
    else if ltb v (2 ^ 28)
    then byte (bit_or v 128)
      ∷ byte (bit_or (v / 2 ^ 7) 128)
      ∷ byte (bit_or (v / 2 ^ 14) 128)
      ∷ byte (v / 2 ^ 21)
      ∷ []
    else byte (bit_or v 128)
      ∷ byte (bit_or (v / 2 ^ 7) 128)
      ∷ byte (bit_or (v / 2 ^ 14) 128)
      ∷ byte (bit_or (v / 2 ^ 21) 128)
      ∷ byte (v / 2 ^ 28)
      ∷ []

unfoldable pub put_varint32 : List ℕ → ℕ → List ℕ
unfolding encode_varint32
put_varint32 dst value = dst ++ encode_varint32 value

pub shift_shrinks : (v : ℕ) → 128 ≤ v → v / 2 ^ 7 < v
shift_shrinks v h = omega arith

-- `while (v >= B)`; each round divides `v` by 128.
unfoldable pub encode_varint64_loop : (v : ℕ) → Acc ◌<◌ v → List ℕ
unfolding dec_le
encode_varint64_loop v (Acc.intro _ smaller) =
    dite (dec_le 128 v)
      (λ more.
        byte (bit_or (bit_and v 127) 128)
        ∷ encode_varint64_loop (v / 2 ^ 7) (smaller _ (shift_shrinks v more)))
      (λ _. byte v ∷ [])

unfoldable pub encode_varint64 : ℕ → List ℕ
unfolding encode_varint64_loop lt_wf
encode_varint64 v = encode_varint64_loop v (lt_wf.apply v)

unfoldable pub put_varint64 : List ℕ → ℕ → List ℕ
unfolding encode_varint64
put_varint64 dst value = dst ++ encode_varint64 value

unfoldable pub put_length_prefixed_slice : List ℕ → List ℕ → List ℕ
unfolding put_varint32
put_length_prefixed_slice dst value = put_varint32 dst (length value % u32_mod) ++ value

unfoldable pub varint_length_loop : (v len : ℕ) → Acc ◌<◌ v → ℕ
unfolding dec_le
varint_length_loop v len (Acc.intro _ smaller) =
    dite (dec_le 128 v)
      (λ more. varint_length_loop (v / 2 ^ 7) (len + 1) (smaller _ (shift_shrinks v more)))
      (λ _. len)

unfoldable pub varint_length : ℕ → ℕ
unfolding varint_length_loop lt_wf
varint_length v = varint_length_loop v 1 (lt_wf.apply v)

-- The loop of GetVarint32PtrFallback (`modulus` 2 ^ 32, `last_shift` 28) and of GetVarint64Ptr
-- (2 ^ 64 and 63): `result |= (byte & 127) << shift`, with the shift cut to the word.
unfoldable pub get_varint_loop : ℕ → ℕ → List ℕ → ℕ → ℕ → Option (ℕ × List ℕ)
get_varint_loop modulus last_shift [] shift result = none
get_varint_loop modulus last_shift (b ∷ p) shift result =
    let more =
      get_varint_loop modulus last_shift p (shift + 7)
        (bit_or result (bit_and b 127 * 2 ^ shift % modulus)) in
    if leb shift last_shift
    then (if bit_and b 128 == 0 then some (bit_or result (b * 2 ^ shift % modulus), p) else more)
    else none

unfoldable pub get_varint32_ptr_fallback : List ℕ → Option (ℕ × List ℕ)
unfolding get_varint_loop
get_varint32_ptr_fallback p = get_varint_loop u32_mod 28 p 0 0

-- The inline version answers one-byte numbers by itself.
unfoldable pub get_varint32_ptr : List ℕ → Option (ℕ × List ℕ)
unfolding get_varint32_ptr_fallback
get_varint32_ptr [] = get_varint32_ptr_fallback []
get_varint32_ptr (b ∷ p) =
    if bit_and b 128 == 0 then some (b, p) else get_varint32_ptr_fallback (b ∷ p)

unfoldable pub get_varint64_ptr : List ℕ → Option (ℕ × List ℕ)
unfolding get_varint_loop
get_varint64_ptr p = get_varint_loop u64_mod 63 p 0 0

-- The value, and the slice `*input` after the call. The callers drop `*input` after a failure.
unfoldable pub get_varint32 : List ℕ → Option (ℕ × List ℕ)
unfolding get_varint32_ptr
get_varint32 input = get_varint32_ptr input

unfoldable pub get_varint64 : List ℕ → Option (ℕ × List ℕ)
unfolding get_varint64_ptr
get_varint64 input = get_varint64_ptr input

-- The result, and the slice `*input` after the call.
unfoldable pub get_length_prefixed_slice : List ℕ → Option (List ℕ × List ℕ)
unfolding get_varint32
get_length_prefixed_slice input = do
  (len, rest) ← get_varint32 input
  if leb len (length rest) then some (take len rest, drop len rest) else none
