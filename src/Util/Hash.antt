-- ===== src/Util/Hash.antt =====
-- util/hash.cpp: the hash of keys, on 32 bits. `char` is signed, as on the x86 targets of the build.
use Prim.Native.Nat.{bit_xor}
use level_db.Common.{ℕ, ◌+◌, ◌-◌, ◌*◌, ◌/◌, ◌%◌, ◌^◌, List, [], ◌∷◌, length, ltb, if◌then◌else◌}
use level_db.Util.Coding.{u32_mod, decode_fixed32}

abbrev m : ℕ
m = 0xc6a4a793

-- A signed byte, extended to a uint32.
abbrev pub signed_char : ℕ → ℕ
signed_char b = if ltb b 128 then b else b + (u32_mod - 256)

-- `h ^= (h >> s)`
abbrev pub fold_down : ℕ → ℕ → ℕ
fold_down s h = bit_xor h (h / 2 ^ s)

abbrev pub mix_word : ℕ → ℕ → ℕ
mix_word h w = fold_down 16 ((h + w) % u32_mod * m % u32_mod)

-- The fall-through cases: the byte at index 2, 1 or 0 of what is left.
abbrev pub add_char : ℕ → ℕ → ℕ → ℕ
add_char h shift b = (h + signed_char b * 2 ^ shift) % u32_mod

abbrev pub finish : ℕ → ℕ → ℕ
finish n h = fold_down 24 (h * n % u32_mod)

unfoldable pub hash_loop : ℕ → List ℕ → ℕ → ℕ
unfolding decode_fixed32
hash_loop n [] h = h
hash_loop n (a ∷ []) h = finish n (add_char h 0 a)
hash_loop n (a ∷ b ∷ []) h = finish n (add_char (add_char h 8 b) 0 a)
hash_loop n (a ∷ b ∷ c ∷ []) h = finish n (add_char (add_char (add_char h 16 c) 8 b) 0 a)
hash_loop n (a ∷ b ∷ c ∷ d ∷ rest) h =
    hash_loop n rest (mix_word h (decode_fixed32 (a ∷ b ∷ c ∷ d ∷ [])))

unfoldable pub hash : List ℕ → ℕ → ℕ
hash key seed = hash_loop (length key) key (bit_xor seed (length key * m % u32_mod))
