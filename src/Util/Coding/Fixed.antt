-- ===== src/Util/Coding/Fixed.antt =====
-- Fixed-width integers of util/coding.cpp: what is stored is what is loaded.
use native.Mathlib.Nat.{pow-suc}
use level_db.Common.{
  ℕ, zero, suc, ◌/◌, ◌^◌, ◌<◌, ◌≤◌, List, [], ◌∷◌, ◌++◌, length, take, All, ◌≡◌, refl, ap, arith,
}
use level_db.Util.Coding.{
  store_bytes, load_bytes, encode_fixed32, encode_fixed64, decode_fixed32, decode_fixed64,
}

abbrev pub IsByte : ℕ → Type 0
IsByte b = b < 256

pub length-store_bytes : (n v : ℕ) → length (store_bytes n v) ≡ n
unfolding store_bytes
length-store_bytes zero v = refl
length-store_bytes (suc n) v = ap suc (length-store_bytes n (v / 256))

pub store_bytes-IsByte : (n v : ℕ) → All IsByte (store_bytes n v)
unfolding store_bytes
store_bytes-IsByte zero v = tt
store_bytes-IsByte (suc n) v = (omega arith, store_bytes-IsByte n (v / 256))

pub load_bytes-store_bytes :
    (n v : ℕ) (rest : List ℕ) → v < 256 ^ n → load_bytes n (store_bytes n v ++ rest) ≡ v
unfolding load_bytes store_bytes
load_bytes-store_bytes zero v rest h = omega arith
load_bytes-store_bytes (suc n) v rest h =
    omega (arith, load_bytes-store_bytes n (v / 256) rest (omega (arith, pow-suc 256 n)))

pub load_bytes-lt : (n : ℕ) (bytes : List ℕ) → All IsByte bytes → load_bytes n bytes < 256 ^ n
unfolding load_bytes
load_bytes-lt zero bytes h = omega arith
load_bytes-lt (suc n) [] h = omega (arith, pow-suc 256 n, load_bytes-lt n [] tt)
load_bytes-lt (suc n) (b ∷ bytes) (hb, h) = omega (arith, pow-suc 256 n, load_bytes-lt n bytes h)

pub store_bytes-load_bytes :
    (n : ℕ) (bytes : List ℕ)
    → All IsByte bytes
    → n ≤ length bytes
    → store_bytes n (load_bytes n bytes) ≡ take n bytes
unfolding store_bytes load_bytes
store_bytes-load_bytes zero bytes h fits = refl
store_bytes-load_bytes (suc n) [] h fits = elim fits [ ]
store_bytes-load_bytes (suc n) (b ∷ bytes) (hb, h) fits =
    ground (arith, store_bytes-load_bytes n bytes h)

pub decode_fixed32-encode_fixed32 :
    (v : ℕ) (rest : List ℕ) → v < 2 ^ 32 → decode_fixed32 (encode_fixed32 v ++ rest) ≡ v
unfolding decode_fixed32 encode_fixed32
decode_fixed32-encode_fixed32 v rest h = load_bytes-store_bytes 4 v rest h

pub decode_fixed64-encode_fixed64 :
    (v : ℕ) (rest : List ℕ) → v < 2 ^ 64 → decode_fixed64 (encode_fixed64 v ++ rest) ≡ v
unfolding decode_fixed64 encode_fixed64
decode_fixed64-encode_fixed64 v rest h = load_bytes-store_bytes 8 v rest h

pub length-encode_fixed32 : (v : ℕ) → length (encode_fixed32 v) ≡ 4
unfolding encode_fixed32
length-encode_fixed32 v = length-store_bytes 4 v

pub length-encode_fixed64 : (v : ℕ) → length (encode_fixed64 v) ≡ 8
unfolding encode_fixed64
length-encode_fixed64 v = length-store_bytes 8 v
