-- ===== src/Db/Format.antt =====
-- db/dbformat.h and db/dbformat.cpp: internal keys, which are a user key with a tag of eight bytes
-- that packs a sequence number and a value type.
pub mod Keys
pub mod Order
pub mod Shorten
use Prim.Native.Nat.{bit_or, bit_and, Ordering, lt, eq, gt}
use level_db.Common.{
  ℕ, ◌+◌, ◌-◌, ◌*◌, ◌/◌, ◌%◌, ◌^◌, List, [], ◌∷◌, ◌++◌, length, take, drop, ltb, leb, ◌==◌, ◌&&◌,
  if◌then◌else◌, Option, none, some,
}
use level_db.Util.Coding.{u64_mod, put_fixed64, decode_fixed64, encode_varint32, encode_fixed64}
use level_db.Util.Slice.{is_lt}
use level_db.Util.Comparator.{Comparator}

-- config::kNumLevels and config::kMaxMemCompactLevel.
abbrev pub num_levels : ℕ
num_levels = 7

abbrev pub max_mem_compact_level : ℕ
max_mem_compact_level = 2

pub data ValueType : Type 0 where
  deletion value : ValueType

abbrev pub type_code : ValueType → ℕ
type_code deletion = 0
type_code value = 1

abbrev pub value_type_for_seek : ValueType
value_type_for_seek = value

abbrev pub max_sequence_number : ℕ
max_sequence_number = 2 ^ 56 - 1

pub record ParsedInternalKey : Type 0 where
  pub user_key : List ℕ
  pub sequence : ℕ
  pub type : ValueType

unfoldable pub internal_key_encoding_length : ParsedInternalKey → ℕ
internal_key_encoding_length key = length key.user_key + 8

-- `(seq << 8) | t` on 64 bits.
unfoldable pub pack_sequence_and_type : ℕ → ValueType → ℕ
pack_sequence_and_type seq t = bit_or (seq * 2 ^ 8 % u64_mod) (type_code t)

unfoldable pub append_internal_key : List ℕ → ParsedInternalKey → List ℕ
unfolding put_fixed64 pack_sequence_and_type
append_internal_key result key =
    put_fixed64 (result ++ key.user_key) (pack_sequence_and_type key.sequence key.type)

-- The source asserts at least eight bytes here and in the next two.
unfoldable pub extract_user_key : List ℕ → List ℕ
extract_user_key internal_key = take (length internal_key - 8) internal_key

-- `DecodeFixed64(key.data() + key.size() - 8)`
unfoldable pub extract_tag : List ℕ → ℕ
unfolding decode_fixed64
extract_tag internal_key = decode_fixed64 (drop (length internal_key - 8) internal_key)

-- The type byte; ExtractValueType casts it to the enumeration.
unfoldable pub extract_value_type : List ℕ → ℕ
unfolding extract_tag
extract_value_type internal_key = bit_and (extract_tag internal_key) 0xff

-- `none` where the source returns false: the key is too short, or `c > kTypeValue`.
unfoldable pub parse_internal_key : List ℕ → Option ParsedInternalKey
unfolding extract_tag extract_user_key
parse_internal_key internal_key =
    let num = extract_tag internal_key in
    let c = bit_and num 0xff in
    if ltb (length internal_key) 8
    then none
    else if leb c 1
    then some (record {
      user_key = extract_user_key internal_key;
      sequence = num / 2 ^ 8;
      type = if c == 0 then deletion else value;
    })
    else none

-- `anum > bnum` puts `a` first.
abbrev pub newest_first : ℕ → ℕ → Ordering
newest_first anum bnum = if ltb bnum anum then lt else if ltb anum bnum then gt else eq

-- Both halves of Compare: the user keys decide, then the tags.
abbrev pub break_tie : Ordering → Ordering → Ordering
break_tie lt tags = lt
break_tie gt tags = gt
break_tie eq tags = tags

module _ (user_comparator : Comparator) where
  open user_comparator use {compare, find_shortest_separator, find_short_successor}

  unfoldable pub internal_compare : List ℕ → List ℕ → Ordering
  internal_compare a b =
      break_tie (compare (extract_user_key a) (extract_user_key b))
        (newest_first (extract_tag a) (extract_tag b))

  -- The earliest internal key of a shortened user key.
  unfoldable pub earliest : List ℕ → List ℕ
  earliest tmp = put_fixed64 tmp (pack_sequence_and_type max_sequence_number value_type_for_seek)

  unfoldable pub internal_separator : List ℕ → List ℕ → List ℕ
  internal_separator start limit =
      let user_start = extract_user_key start in
      let tmp = find_shortest_separator user_start (extract_user_key limit) in
      if ltb (length tmp) (length user_start) && is_lt (compare user_start tmp)
      then earliest tmp
      else start

  unfoldable pub internal_successor : List ℕ → List ℕ
  internal_successor key =
      let user_key = extract_user_key key in
      let tmp = find_short_successor user_key in
      if ltb (length tmp) (length user_key) && is_lt (compare user_key tmp)
      then earliest tmp
      else key

  unfoldable pub internal_key_comparator : Comparator
  internal_key_comparator = record {
    compare = internal_compare;
    find_shortest_separator = internal_separator;
    find_short_successor = internal_successor;
  }

-- LookupKey: one array with a varint32, the user key and a tag; `kstart` begins at the user key.
pub record LookupKey : Type 0 where
  pub start : List ℕ
  pub kstart : List ℕ

unfoldable pub lookup_key : List ℕ → ℕ → LookupKey
unfolding encode_varint32 encode_fixed64 pack_sequence_and_type
lookup_key user_key s =
    let tagged = user_key ++ encode_fixed64 (pack_sequence_and_type s value_type_for_seek) in
    record { start = encode_varint32 (length user_key + 8) ++ tagged; kstart = tagged }

unfoldable pub memtable_key : LookupKey → List ℕ
memtable_key k = k.start

unfoldable pub lookup_internal_key : LookupKey → List ℕ
lookup_internal_key k = k.kstart

unfoldable pub lookup_user_key : LookupKey → List ℕ
lookup_user_key k = take (length k.kstart - 8) k.kstart
