-- ===== src/Util/Bloom.antt =====
-- util/bloom.cpp: the Bloom filter over the keys of a table.
pub mod Bits
pub mod Matches
use Prim.Native.Nat.{bit_and, bit_or}
use level_db.Common.{
  ℕ, zero, suc, ◌+◌, ◌-◌, ◌*◌, ◌/◌, ◌%◌, ◌^◌, Bool, true, false, List, [], ◌∷◌, ◌++◌, length, take,
  drop, get_or, replicate, ltb, ◌==◌, ◌&&◌, not, if◌then◌else◌,
}
use level_db.Util.Coding.{u32_mod}
use level_db.Util.Hash.{hash}

-- BloomFilterPolicy: `bits_per_key_` and `k_`.
pub record BloomFilterPolicy : Type 0 where
  pub bits_per_key : ℕ
  pub k : ℕ

-- `static_cast<size_t>(bits_per_key * 0.69)`, between 1 and 30.
unfoldable pub bloom_filter_policy : ℕ → BloomFilterPolicy
bloom_filter_policy bits_per_key =
    let k = bits_per_key * 69 / 100 in
    record { bits_per_key = bits_per_key; k = if ltb k 1 then 1 else if ltb 30 k then 30 else k }

unfoldable pub bloom_hash : List ℕ → ℕ
bloom_hash key = hash key 0xbc9f1d34

-- `(h >> 17) | (h << 15)` on 32 bits
unfoldable pub rotate : ℕ → ℕ
rotate h = bit_or (h / 2 ^ 17) (h * 2 ^ 15 % u32_mod)

-- `array[bitpos / 8] |= (1 << (bitpos % 8))`
unfoldable pub or_at : ℕ → ℕ → List ℕ → List ℕ
or_at i mask [] = []
or_at zero mask (b ∷ array) = bit_or b mask ∷ array
or_at (suc i) mask (b ∷ array) = b ∷ or_at i mask array

unfoldable pub set_bit : List ℕ → ℕ → List ℕ
set_bit array bitpos = or_at (bitpos / 8) (2 ^ (bitpos % 8)) array

unfoldable pub bit_is_set : List ℕ → ℕ → Bool
bit_is_set array bitpos = not (bit_and (get_or array (bitpos / 8) 0) (2 ^ (bitpos % 8)) == 0)

-- The inner loops, from the round with `j` rounds left.
unfoldable pub set_bits : ℕ → ℕ → ℕ → ℕ → List ℕ → List ℕ
set_bits bits delta zero h array = array
set_bits bits delta (suc j) h array =
    set_bits bits delta j ((h + delta) % u32_mod) (set_bit array (h % bits))

unfoldable pub match_bits : ℕ → ℕ → ℕ → ℕ → List ℕ → Bool
match_bits bits delta zero h array = true
match_bits bits delta (suc j) h array =
    bit_is_set array (h % bits) && match_bits bits delta j ((h + delta) % u32_mod) array

unfoldable pub add_keys : ℕ → ℕ → List (List ℕ) → List ℕ → List ℕ
add_keys bits k [] array = array
add_keys bits k (key ∷ keys) array =
    let h = bloom_hash key in add_keys bits k keys (set_bits bits (rotate h) k h array)

unfoldable pub filter_bytes : BloomFilterPolicy → ℕ → ℕ
filter_bytes policy n =
    let bits = n * policy.bits_per_key in
    let bits = if ltb bits 64 then 64 else bits in (bits + 7) / 8

unfoldable pub create_filter : BloomFilterPolicy → List (List ℕ) → List ℕ → List ℕ
create_filter policy keys dst =
    let bytes = filter_bytes policy (length keys) in
    dst ++ (add_keys (bytes * 8) policy.k keys (replicate bytes 0) ++ (policy.k ∷ []))

unfoldable pub key_may_match : List ℕ → List ℕ → Bool
key_may_match key bloom_filter =
    let len = length bloom_filter in
    let bits = (len - 1) * 8 in
    let k = get_or bloom_filter (len - 1) 0 in
    if ltb len 2
    then false
    else if ltb 30 k
    then true
    else (let h = bloom_hash key in match_bits bits (rotate h) k h bloom_filter)
