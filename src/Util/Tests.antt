-- ===== src/Util/Tests.antt =====
-- Runs of the functions of util/ on concrete inputs, and the theorems at such inputs.

use level_db.Common.{
  ℕ, ◌+◌, ◌-◌, ◌^◌, ◌<◌, ◌≤◌, List, [], ◌∷◌, ◌++◌, drop, ltb, if◌then◌else◌, some, none, true, ◌≡◌,
  refl, arith,
}
use level_db.Util.Coding.{
  encode_varint32, encode_varint64, put_varint64, get_varint32, get_varint64,
  get_length_prefixed_slice, encode_fixed32,
}
use level_db.Util.Coding.Varint.{get_varint64-put_varint64}
use level_db.Util.Coding.Prefixed.{get_length_prefixed_slice_takes}
use level_db.Util.Bloom.{BloomFilterPolicy, bloom_filter_policy, create_filter, key_may_match}
use level_db.Util.Bloom.Matches.{key_may_match-create_filter}
use level_db.Util.Crc32c.{mask, unmask, unmask-mask}
use level_db.Util.Random.{next}
use level_db.Util.Logging.{consume_loop, consume_decimal_number}
use level_db.Util.Logging.Decimal.{decimal, consume_decimal_number-digits}
use level_db.Util.Comparator.{bytewise_separator, bytewise_successor}

encode_300 : encode_varint64 300 ≡ 172 ∷ 2 ∷ []
unfolding encode_varint64
encode_300 = refl

encode_max : encode_varint32 (2 ^ 32 - 1) ≡ 255 ∷ 255 ∷ 255 ∷ 255 ∷ 15 ∷ []
unfolding encode_varint32
encode_max = refl

-- A padded form, which no encoder writes, is accepted.
get_padded : get_varint64 (128 ∷ 0 ∷ 7 ∷ []) ≡ some (0, 7 ∷ [])
unfolding get_varint64
get_padded = refl

-- The fifth byte of a varint32 may carry bits that do not fit; they are cut off.
get_too_wide : get_varint32 (255 ∷ 255 ∷ 255 ∷ 255 ∷ 127 ∷ []) ≡ some (2 ^ 32 - 1, [])
unfolding get_varint32
get_too_wide = refl

get_unfinished : get_varint32 (128 ∷ 128 ∷ []) ≡ none
unfolding get_varint32
get_unfinished = refl

little_endian : encode_fixed32 0x01020304 ≡ 4 ∷ 3 ∷ 2 ∷ 1 ∷ []
unfolding encode_fixed32
little_endian = refl

-- "the quick brown fox" and "the who" are separated by "the r".
separator : bytewise_separator (113 ∷ 117 ∷ 105 ∷ []) (119 ∷ 104 ∷ []) ≡ 114 ∷ []
unfolding bytewise_separator
separator = refl

successor : bytewise_successor (255 ∷ 97 ∷ 98 ∷ []) ≡ 255 ∷ 98 ∷ []
unfolding bytewise_successor
successor = refl

abbrev abc : List ℕ
abc = 97 ∷ 98 ∷ 99 ∷ []

get_varint64-put_varint64_example :
    get_varint64 (put_varint64 [] 0x1_0000_0000 ++ (9 ∷ [])) ≡ some (0x1_0000_0000, 9 ∷ [])
get_varint64-put_varint64_example = get_varint64-put_varint64 0x1_0000_0000 (9 ∷ []) (omega arith)

prefixed_abc : get_length_prefixed_slice (3 ∷ 97 ∷ 98 ∷ 99 ∷ 9 ∷ []) ≡ some (abc, 9 ∷ [])
unfolding get_length_prefixed_slice
prefixed_abc = refl

get_length_prefixed_slice_takes_example :
    (get_varint32 (3 ∷ 97 ∷ 98 ∷ 99 ∷ 9 ∷ []) ≡ some (3, abc ++ (9 ∷ [])))
    × (3 + 1 < 5)
    × (5 ≤ 3 + 1 + 5)
    × (3 < 2 ^ 32)
get_length_prefixed_slice_takes_example =
    get_length_prefixed_slice_takes (3 ∷ 97 ∷ 98 ∷ 99 ∷ 9 ∷ []) abc (9 ∷ []) (omega arith)
      prefixed_abc

abbrev ten_bits : BloomFilterPolicy
ten_bits = bloom_filter_policy 10

key_may_match-create_filter_example :
    key_may_match abc (drop 1 (create_filter ten_bits ((104 ∷ 105 ∷ []) ∷ abc ∷ []) (7 ∷ [])))
    ≡ true
key_may_match-create_filter_example =
    key_may_match-create_filter ten_bits ((104 ∷ 105 ∷ []) ∷ abc ∷ []) (7 ∷ []) abc 1 refl

unmask-mask_example : (unmask (mask 0x12345678) ≡ 0x12345678) × (mask 0x12345678 < 2 ^ 32)
unmask-mask_example = unmask-mask 0x12345678 (omega arith)

-- The seeds that the comment in the source excludes.
next_zero : next 0 ≡ 0
unfolding next
next_zero = refl

-- "18446744073709551616." is 2^64.
consume_too_large :
    consume_decimal_number (
      49 ∷ 56 ∷ 52 ∷ 52 ∷ 54 ∷ 55 ∷ 52 ∷ 52 ∷ 48 ∷ 55 ∷ 51 ∷ 55 ∷ 48 ∷ 57 ∷ 53 ∷ 53 ∷ 49 ∷ 54 ∷ 49
      ∷ 54 ∷ 46 ∷ [])
    ≡ none
unfolding consume_decimal_number consume_loop
consume_too_large = refl

consume_decimal_number-digits_example : consume_decimal_number (52 ∷ 50 ∷ 46 ∷ []) ≡ (
    if ltb (decimal 0 (52 ∷ 50 ∷ [])) (2 ^ 64)
    then some (decimal 0 (52 ∷ 50 ∷ []), 46 ∷ [])
    else none)
consume_decimal_number-digits_example =
    consume_decimal_number-digits 52 (50 ∷ []) (46 ∷ [])
      ((omega arith, omega arith), ((omega arith, omega arith), tt)) refl
