-- ===== src/Util/Coding/Varint.antt =====
-- Variable-length integers of util/coding.cpp. `groups` is the format by itself: seven bits a
-- byte, lowest first, bit 7 set on all but the last. Both encoders write it; the decoder's loop
-- reads it back.
use Prim.Native.Nat.{bit_and, bit_or}
use mathlib.Core.WellFounded.{Acc}
use native.Mathlib.Nat.{pow-suc, mod-eq_of_lt, div-add-mod}
use native.Mathlib.Numerals.{towards_suc}
use level_db.Common.{
  ℕ, zero, suc, ◌+◌, ◌*◌, ◌/◌, ◌%◌, ◌^◌, ◌<◌, ◌≤◌, List, [], ◌∷◌, ◌++◌, length, some, All, ◌≡◌,
  refl, sym, ◌∙◌, ap, arith, ltb, lt→ltb, if◌then◌else◌,
}
use level_db.Common.Bits.{bit_and-127, bit_and-128, bit_or-128, bit_or-shifted}
use level_db.Common.Order.{lt_wf}
use level_db.Util.Coding.Fixed.{IsByte}
use level_db.Util.Coding.{
  byte, u32_mod, u64_mod, encode_varint32, encode_varint64_loop, encode_varint64, put_varint32,
  put_varint64, varint_length_loop, varint_length, get_varint_loop, get_varint32_ptr_fallback,
  get_varint32_ptr, get_varint64_ptr, get_varint32, get_varint64,
}

unfoldable pub groups : ℕ → ℕ → List ℕ
groups zero v = v ∷ []
groups (suc k) v =
    let rest = groups k (v / 128) in if ltb v 128 then v ∷ [] else (v % 128 + 128) ∷ rest

-- What the encoders store for an inner and for a last byte.
inner_byte : (v : ℕ) → byte (bit_or v 128) ≡ v % 128 + 128
inner_byte v = bit_or-128 v

inner_byte64 : (v : ℕ) → byte (bit_or (bit_and v 127) 128) ≡ v % 128 + 128
inner_byte64 v = omega (arith, bit_or-128 (bit_and v 127), bit_and-127 v)

pub encode_varint32-groups : (v : ℕ) → v < 2 ^ 32 → encode_varint32 v ≡ groups 4 v
unfolding encode_varint32 groups
encode_varint32-groups v h =
    ground (
      arith,
      inner_byte v,
      inner_byte (v / 2 ^ 7),
      inner_byte (v / 2 ^ 14),
      inner_byte (v / 2 ^ 21),
    )

encode_varint64_loop-groups :
    (k v : ℕ) (w : Acc ◌<◌ v) → v < 128 ^ suc k → encode_varint64_loop v w ≡ groups k v
unfolding encode_varint64_loop groups
encode_varint64_loop-groups zero v (Acc.intro _ smaller) h = ground arith
encode_varint64_loop-groups (suc k) v (Acc.intro _ smaller) h = grind (
  arith,
  inner_byte64 v,
  λ (w : Acc ◌<◌ (v / 128)).
      encode_varint64_loop-groups k (v / 128) w (omega (arith, pow-suc 128 (suc k))),
)

pub encode_varint64-groups : (v : ℕ) → v < 2 ^ 64 → encode_varint64 v ≡ groups 9 v
unfolding encode_varint64
encode_varint64-groups v h = encode_varint64_loop-groups 9 v (lt_wf.apply v) (omega arith)

pub length-groups : (k v : ℕ) → (1 ≤ length (groups k v)) × (length (groups k v) ≤ k + 1)
unfolding groups
length-groups zero v = omega arith
length-groups (suc k) v = ground (arith, length-groups k (v / 128))

varint_length_loop-groups :
    (k v len : ℕ) (w : Acc ◌<◌ v)
    → v < 128 ^ suc k
    → varint_length_loop v len w + 1 ≡ len + length (groups k v)
unfolding varint_length_loop groups
varint_length_loop-groups zero v len (Acc.intro _ smaller) h = ground arith
varint_length_loop-groups (suc k) v len (Acc.intro _ smaller) h = grind (
  arith,
  λ (w : Acc ◌<◌ (v / 128)).
      varint_length_loop-groups k (v / 128) (len + 1) w (omega (arith, pow-suc 128 (suc k))),
)

-- One round of the decoder on the last byte and on an inner byte.
last_round :
    (modulus last_shift w shift result : ℕ) (rest : List ℕ)
    → w < 128
    → shift ≤ last_shift
    → result < 2 ^ shift
    → result + w * 2 ^ shift < modulus
    → get_varint_loop modulus last_shift (w ∷ rest) shift result
      ≡ some (result + w * 2 ^ shift, rest)
unfolding get_varint_loop
last_round modulus last_shift w shift result rest hw hs hr fits = ground (
  arith,
  bit_and-128 w,
  mod-eq_of_lt {n = w * 2 ^ shift} {m = modulus} (omega arith),
  bit_or-shifted shift result w hr,
)

inner_round :
    (modulus last_shift g shift result : ℕ) (rest : List ℕ)
    → g < 128
    → shift ≤ last_shift
    → result < 2 ^ shift
    → result + g * 2 ^ shift < modulus
    → get_varint_loop modulus last_shift ((g + 128) ∷ rest) shift result
      ≡ get_varint_loop modulus last_shift rest (shift + 7) (result + g * 2 ^ shift)
unfolding get_varint_loop
inner_round modulus last_shift g shift result rest hg hs hr fits = ground (
  arith,
  bit_and-128 (g + 128),
  bit_and-127 (g + 128),
  ap (λ (t : ℕ). t * 2 ^ shift % modulus) low,
  mod-eq_of_lt {n = g * 2 ^ shift} {m = modulus} (omega arith),
  bit_or-shifted shift result g hr,
)
  where
    low : bit_and (g + 128) 127 ≡ g
    low = omega (arith, bit_and-127 (g + 128))

shift_seven : (s : ℕ) → 2 ^ (s + 7) ≡ 128 * 2 ^ s
shift_seven s = simp towards_suc (omega arith)

-- The lowest group of `v` and the others, from bit `s` on.
split_group : (v s : ℕ) → v * 2 ^ s ≡ v % 128 * 2 ^ s + v / 128 * 2 ^ (s + 7)
split_group v s = omega (
  arith,
  ap (λ (t : ℕ). t * 2 ^ s) (div-add-mod v 128),
  ap (λ (t : ℕ). v / 128 * t) (shift_seven s),
)

group_fits : (result g s : ℕ) → g < 128 → result < 2 ^ s → result + g * 2 ^ s < 2 ^ (s + 7)
group_fits result g s hg hr = rw shift_seven (grind arith)

get_varint_loop-groups :
    (modulus last_shift k v shift result : ℕ) (rest : List ℕ)
    → v < 128 ^ suc k
    → shift + 7 * k ≤ last_shift
    → result < 2 ^ shift
    → result + v * 2 ^ shift < modulus
    → get_varint_loop modulus last_shift (groups k v ++ rest) shift result
      ≡ some (result + v * 2 ^ shift, rest)
unfolding groups
get_varint_loop-groups modulus last_shift zero v shift result rest hv hs hr fits =
    last_round modulus last_shift v shift result rest (omega arith) (omega arith) hr fits
get_varint_loop-groups modulus last_shift (suc k) v shift result rest hv hs hr fits = ground (
  arith,
  split_group v shift,
  group_fits result (v % 128) shift (omega arith) hr,
  pow-suc 128 (suc k),
  last_round modulus last_shift v shift result rest,
  inner_round modulus last_shift (v % 128) shift result (groups k (v / 128) ++ rest),
  get_varint_loop-groups modulus last_shift k (v / 128) (shift + 7) (result + v % 128 * 2 ^ shift)
      rest,
)

pub get_varint32_ptr_fallback-groups :
    (v : ℕ) (rest : List ℕ)
    → v < 2 ^ 32
    → get_varint32_ptr_fallback (groups 4 v ++ rest) ≡ some (v, rest)
unfolding get_varint32_ptr_fallback
get_varint32_ptr_fallback-groups v rest h =
    ground (arith, get_varint_loop-groups u32_mod 28 4 v 0 0 rest)

-- On every input of bytes the one-byte case of the inline GetVarint32Ptr returns what the general
-- loop GetVarint32PtrFallback returns.
pub get_varint32_ptr-fallback :
    (p : List ℕ) → All IsByte p → get_varint32_ptr p ≡ get_varint32_ptr_fallback p
unfolding get_varint32_ptr get_varint32_ptr_fallback
get_varint32_ptr-fallback [] h = refl
get_varint32_ptr-fallback (b ∷ p) (hb, h) =
    ground (arith, bit_and-128 b, last_round u32_mod 28 b 0 0 p)

-- On bytes the inline version and the loop agree, on what an encoder wrote in particular.
get_varint32-groups :
    (v : ℕ) (rest : List ℕ) → v < 2 ^ 32 → get_varint32 (groups 4 v ++ rest) ≡ some (v, rest)
unfolding get_varint32 get_varint32_ptr groups
get_varint32-groups v rest h =
    ground
      (arith, bit_and-128 v, bit_and-128 (v % 128 + 128), get_varint32_ptr_fallback-groups v rest h)

-- For a value below 2^32, GetVarint32 reads back what PutVarint32 appended and leaves what
-- follows it.
pub get_varint32-put_varint32 :
    (v : ℕ) (rest : List ℕ) → v < 2 ^ 32 → get_varint32 (put_varint32 [] v ++ rest) ≡ some (v, rest)
unfolding put_varint32
get_varint32-put_varint32 v rest h = rw (encode_varint32-groups v h) (get_varint32-groups v rest h)

-- For a value below 2^64, GetVarint64 reads back what PutVarint64 appended and leaves what
-- follows it.
pub get_varint64-put_varint64 :
    (v : ℕ) (rest : List ℕ) → v < 2 ^ 64 → get_varint64 (put_varint64 [] v ++ rest) ≡ some (v, rest)
unfolding put_varint64 get_varint64 get_varint64_ptr
get_varint64-put_varint64 v rest h =
    rw (encode_varint64-groups v h) (ground (arith, get_varint_loop-groups u64_mod 63 9 v 0 0 rest))

groups_wider : (k n v : ℕ) → k ≤ n → v < 128 ^ suc k → groups n v ≡ groups k v
unfolding groups
groups_wider zero zero v hk hv = refl
groups_wider zero (suc n) v hk hv = rw (lt→ltb v 128 (omega arith))
groups_wider (suc k) zero v hk hv = elim hk [ ]
groups_wider (suc k) (suc n) v hk hv =
    let ih : groups n (v / 128) ≡ groups k (v / 128) =
      groups_wider k n (v / 128) (omega arith) (omega (arith, pow-suc 128 (suc k))) in
    rw ih

-- For a value below 2^32 the two varint encoders write the same bytes, and VarintLength is their
-- number.
pub encode_varint32-encode_varint64 :
    (v : ℕ)
    → v < 2 ^ 32
    → (encode_varint32 v ≡ encode_varint64 v) × (varint_length v ≡ length (encode_varint32 v))
unfolding varint_length
encode_varint32-encode_varint64 v h = (
  encode_varint32-groups v h
      ∙ sym (groups_wider 4 9 v (omega arith) (omega arith))
      ∙ sym (encode_varint64-groups v (omega arith)),
  omega (
    arith,
    varint_length_loop-groups 4 v 1 (lt_wf.apply v),
    ap length (encode_varint32-groups v h),
  ),
)

-- VarintLength is the number of bytes that EncodeVarint64 writes.
pub varint_length-length : (v : ℕ) → v < 2 ^ 64 → varint_length v ≡ length (encode_varint64 v)
unfolding varint_length
varint_length-length v h =
    omega (
      arith,
      varint_length_loop-groups 9 v 1 (lt_wf.apply v),
      ap length (encode_varint64-groups v h),
    )
