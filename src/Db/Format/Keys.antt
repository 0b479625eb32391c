-- ===== src/Db/Format/Keys.antt =====
-- Internal keys as bytes: what is appended is what is parsed.

use level_db.Common.{
  ℕ, ◌+◌, ◌-◌, ◌*◌, ◌%◌, ◌^◌, ◌≤◌, ◌<◌, List, [], ◌++◌, length, some, ◌≡◌, arith, length-append,
  take-append_length, drop-append_length, append-nil,
}
use level_db.Common.Bits.{bit_or-zero, bit_or-one, bit_and-255}
use level_db.Util.Coding.{encode_fixed64}
use level_db.Util.Coding.Fixed.{decode_fixed64-encode_fixed64, length-encode_fixed64}
use level_db.Db.Format.{
  ValueType, deletion, value, type_code, max_sequence_number, ParsedInternalKey,
  internal_key_encoding_length, pack_sequence_and_type, append_internal_key, extract_user_key,
  extract_tag, parse_internal_key,
}

-- `|` is a sum here.
pub pack_lem :
    (seq : ℕ) (t : ValueType)
    → seq ≤ max_sequence_number
    → pack_sequence_and_type seq t ≡ seq * 256 + type_code t
unfolding pack_sequence_and_type
pack_lem seq deletion h = omega (arith, bit_or-zero (seq * 256 % 2 ^ 64))
pack_lem seq value h = omega (arith, bit_or-one (seq * 256 % 2 ^ 64))

-- A string with a tag of eight bytes behind it comes apart.
user_length : (user : List ℕ) (num : ℕ) → length (user ++ encode_fixed64 num) - 8 ≡ length user
user_length user num =
    omega (arith, length-append user (encode_fixed64 num), length-encode_fixed64 num)

pub extract_user_key-tagged :
    (user : List ℕ) (num : ℕ) → extract_user_key (user ++ encode_fixed64 num) ≡ user
unfolding extract_user_key
extract_user_key-tagged user num = rw (user_length user num, take-append_length)

pub extract_tag-tagged :
    (user : List ℕ) (num : ℕ) → num < 2 ^ 64 → extract_tag (user ++ encode_fixed64 num) ≡ num
unfolding extract_tag
extract_tag-tagged user num h =
    rw (user_length user num, drop-append_length)
      (rw (← append-nil (encode_fixed64 num)) (decode_fixed64-encode_fixed64 num [] h))

pub type_code-le : (t : ValueType) → type_code t ≤ 1
type_code-le deletion = omega arith
type_code-le value = omega arith

-- An appended internal key is the user key with its packed tag.
abbrev pub tag_of : ParsedInternalKey → ℕ
tag_of key = key.sequence * 256 + type_code key.type

pub append_internal_key-tagged :
    (result : List ℕ) (key : ParsedInternalKey)
    → key.sequence ≤ max_sequence_number
    → append_internal_key result key ≡ (result ++ key.user_key) ++ encode_fixed64 (tag_of key)
unfolding append_internal_key
append_internal_key-tagged result key h = rw (pack_lem key.sequence key.type h)

pub tag_of-lt : (key : ParsedInternalKey) → key.sequence ≤ max_sequence_number → tag_of key < 2 ^ 64
tag_of-lt key h = omega (arith, type_code-le key.type)

parse_tagged :
    (user : List ℕ) (seq : ℕ) (t : ValueType)
    → seq ≤ max_sequence_number
    → parse_internal_key (user ++ encode_fixed64 (seq * 256 + type_code t))
      ≡ some (record { user_key = user; sequence = seq; type = t })
unfolding parse_internal_key
parse_tagged user seq deletion h =
    rw
      (
        extract_user_key-tagged user (seq * 256 + 0),
        extract_tag-tagged user (seq * 256 + 0) (omega arith),
      )
      (ground (
        arith,
        bit_and-255 (seq * 256 + 0),
        length-append user (encode_fixed64 (seq * 256 + 0)),
        length-encode_fixed64 (seq * 256 + 0),
      ))
parse_tagged user seq value h =
    rw
      (
        extract_user_key-tagged user (seq * 256 + 1),
        extract_tag-tagged user (seq * 256 + 1) (omega arith),
      )
      (ground (
        arith,
        bit_and-255 (seq * 256 + 1),
        length-append user (encode_fixed64 (seq * 256 + 1)),
        length-encode_fixed64 (seq * 256 + 1),
      ))

-- For a sequence number of at most 56 bits, ParseInternalKey reads back the key that
-- AppendInternalKey wrote, and the encoding has the length that InternalKeyEncodingLength gives.
pub parse_internal_key-append :
    (key : ParsedInternalKey)
    → key.sequence ≤ max_sequence_number
    → (parse_internal_key (append_internal_key [] key) ≡ some key)
      × (length (append_internal_key [] key) ≡ internal_key_encoding_length key)
unfolding internal_key_encoding_length
parse_internal_key-append key h = rw (append_internal_key-tagged [] key h) (
  parse_tagged key.user_key key.sequence key.type h,
  omega (
    arith,
    length-append key.user_key (encode_fixed64 (tag_of key)),
    length-encode_fixed64 (tag_of key),
  ),
)
