-- ===== src/Util/Coding/Prefixed.antt =====
-- Length-prefixed slices of util/coding.cpp.
use level_db.Common.{
  ℕ, ◌+◌, ◌%◌, ◌^◌, ◌<◌, ◌≤◌, List, [], ◌++◌, length, some, ◌≡◌, arith, append_assoc, length-append,
  take-append_length, drop-append_length, le→leb, length-drop, Option-cases, leb, take, drop,
  take-append-drop, if◌then◌else◌, none, Option, ap, ◌∙◌, sym, refl, inl, inr, length-take_le, All,
}
use level_db.Util.Coding.Fixed.{IsByte}
use level_db.Util.Coding.Varint.{get_varint32-put_varint32}
use level_db.Util.Coding.Decoded.{get_varint32_shorter, get_varint32_takes}
use level_db.Util.Coding.{
  encode_varint32, get_varint32, put_length_prefixed_slice, get_length_prefixed_slice,
}

length_kept : (value : List ℕ) → length value < 2 ^ 32 → length value % 2 ^ 32 ≡ length value
length_kept value h = omega arith

-- For a slice shorter than 2^32, GetLengthPrefixedSlice reads back what PutLengthPrefixedSlice
-- appended and leaves what follows it.
pub get_length_prefixed_slice-put :
    (value rest : List ℕ)
    → length value < 2 ^ 32
    → get_length_prefixed_slice (put_length_prefixed_slice [] value ++ rest) ≡ some (value, rest)
unfolding get_length_prefixed_slice put_length_prefixed_slice
get_length_prefixed_slice-put value rest h = rw (
  length_kept value h,
  append_assoc,
  get_varint32-put_varint32 (length value) (value ++ rest) h,
  le→leb (length value) (length (value ++ rest)) (omega (arith, length-append value rest)),
  take-append_length,
  drop-append_length,
)

guarded :
    (len : ℕ) (tail value rest : List ℕ)
    → (if◌then◌else◌ {A = Option (List ℕ × List ℕ)}
        (leb len (length tail))
        (some (take len tail, drop len tail))
        none)
      ≡ some (value, rest)
    → (length value ≡ len) × (value ++ rest ≡ tail)
guarded len tail value rest e =
    ground (arith, e, length-take_le len tail, take-append-drop len tail)

-- On every input of bytes, a slice that GetLengthPrefixedSlice returns has exactly the length
-- that GetVarint32 reads in front, and it and the rest together are what GetVarint32 leaves; it
-- is shorter than 2^32, and it and the rest together are 1 to 5 bytes shorter than the input.
pub get_length_prefixed_slice_takes :
    (input value rest : List ℕ)
    → All IsByte input
    → get_length_prefixed_slice input ≡ some (value, rest)
    → (get_varint32 input ≡ some (length value, value ++ rest))
      × (length value + length rest < length input)
      × (length input ≤ length value + length rest + 5)
      × (length value < 2 ^ 32)
unfolding get_length_prefixed_slice
get_length_prefixed_slice_takes input value rest h e = elim (Option-cases (get_varint32 input)) [
  | inl q ↦ absurd (ground (arith, q))
  | inr ((len, tail), q) ↦
      let read : Path (Option (List ℕ × List ℕ)) (get_length_prefixed_slice input)
          (if leb len (length tail) then some (take len tail, drop len tail) else none) =
        rw q refl in
      let (exact, whole) = guarded len tail value rest (sym read ∙ e) in
      let (shorter, near, bound) = get_varint32_takes input len tail h q in
      let total = length-append value rest in
      let same : length (value ++ rest) ≡ length tail = ap length whole in
      (q ∙ rw (exact, whole) refl, omega arith, omega arith, omega arith)
]

-- Appending writes the same bytes behind whatever stands there.
pub put_length_prefixed_slice-append :
    (dst value : List ℕ)
    → put_length_prefixed_slice dst value ≡ dst ++ put_length_prefixed_slice [] value
unfolding put_length_prefixed_slice
put_length_prefixed_slice-append dst value =
    append_assoc dst (encode_varint32 (length value % 2 ^ 32)) value

pub get_length_prefixed_slice_shorter :
    (input value rest : List ℕ)
    → get_length_prefixed_slice input ≡ some (value, rest)
    → length rest < length input
unfolding get_length_prefixed_slice
get_length_prefixed_slice_shorter input value rest e = elim (Option-cases (get_varint32 input)) [
  | inl q ↦ absurd (ground (arith, q))
  | inr ((len, tail), q) ↦
      ground (arith, q, get_varint32_shorter input len tail q, length-drop len tail)
]
