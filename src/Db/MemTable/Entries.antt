-- ===== src/Db/MemTable/Entries.antt =====
-- What is read back of an entry, and the order of the entries.
use Prim.Native.Nat.{Ordering, lt, eq, gt, bit_and, bit_or}
use mathlib.Core.Path.{ap₂}
use level_db.Common.{
  ℕ, ◌+◌, ◌-◌, ◌*◌, ◌%◌, ◌^◌, ◌<◌, ◌≤◌, List, [], ◌++◌, length, take, drop, if◌then◌else◌, ◌==◌,
  some, ◌≡◌, refl, sym, ap, ◌∙◌, arith, append_assoc, append-nil, length-append, take-append_length,
  drop-append_length,
}
use level_db.Common.Bits.{bit_and-255}
use level_db.Util.Coding.{
  u32_mod, u64_mod, encode_varint32, encode_fixed64, decode_fixed64, get_varint32_ptr, get_varint32,
  put_varint32,
}
use level_db.Util.Coding.Fixed.{length-encode_fixed64, decode_fixed64-encode_fixed64}
use level_db.Util.Coding.Varint.{get_varint32-put_varint32, encode_varint32-encode_varint64}
use level_db.Util.Comparator.{Comparator, IsOrder}
use level_db.Util.Comparator.Facts.{lt_of_lt-le}
use level_db.Db.Format.{
  ParsedInternalKey, ValueType, type_code, value, deletion, max_sequence_number,
  append_internal_key, internal_compare, internal_key_comparator, pack_sequence_and_type,
  value_type_for_seek, lookup_key, memtable_key, lookup_user_key, lookup_internal_key,
}
use level_db.Db.Format.Keys.{pack_lem, append_internal_key-tagged, tag_of, tag_of-lt, type_code-le}
use level_db.Db.Format.Order.{internal_key_comparator-IsOrder}
use level_db.Db.Batch.{Add}
use level_db.Db.SkipList.Ordered.{IsKeyOrder}
use level_db.Db.MemTable.{
  slice_at, encode_entry, encoded_len, key_comparator, Answer, found, deleted, not_here, read_entry,
}

-- An entry whose numbers fit their fields.
pub record Fits (e : Add) : Type 0 where
  pub sequence_fits : e.sequence ≤ max_sequence_number
  pub key_fits : length e.key + 8 < 2 ^ 32
  pub value_fits : length e.value < 2 ^ 32

abbrev pub parsed : Add → ParsedInternalKey
parsed e = record { user_key = e.key; sequence = e.sequence; type = e.type }

abbrev pub internal_key : Add → List ℕ
internal_key e = append_internal_key [] (parsed e)

read_varint32 :
    (v : ℕ) (rest : List ℕ)
    → v < 2 ^ 32
    → get_varint32_ptr (encode_varint32 v ++ rest) ≡ some (v, rest)
unfolding get_varint32 put_varint32
read_varint32 v rest h = get_varint32-put_varint32 v rest h

-- A length-prefixed slice in front of anything.
pub slice_at-prefixed :
    (p rest : List ℕ) → length p < 2 ^ 32 → slice_at (encode_varint32 (length p) ++ (p ++ rest)) ≡ p
unfolding slice_at
slice_at-prefixed p rest h =
    rw (read_varint32 (length p) (p ++ rest) h, slice_at) (take-append_length p rest)

pub slice_at-whole :
    (p : List ℕ) (n : ℕ) → length p ≡ n → n < 2 ^ 32 → slice_at (encode_varint32 n ++ p) ≡ p
slice_at-whole p n e h =
    ap (λ (m : ℕ). slice_at (encode_varint32 m ++ p)) (sym e)
    ∙ ap (λ (q : List ℕ). slice_at (encode_varint32 (length p) ++ q)) (sym (append-nil p))
    ∙ slice_at-prefixed p [] (omega arith)

pub internal_key-tagged :
    (e : Add) → Fits e → internal_key e ≡ e.key ++ encode_fixed64 (tag_of (parsed e))
internal_key-tagged e fits = append_internal_key-tagged [] (parsed e) fits.sequence_fits

length-internal_key : (e : Add) → Fits e → length (internal_key e) ≡ length e.key + 8
length-internal_key e fits =
    ap length (internal_key-tagged e fits)
    ∙ length-append e.key (encode_fixed64 (tag_of (parsed e)))
    ∙ ap (λ (n : ℕ). length e.key + n) (length-encode_fixed64 (tag_of (parsed e)))

-- An entry is a length-prefixed internal key, and the length-prefixed value behind it.
encode_entry-tagged :
    (e : Add)
    → Fits e
    → encode_entry e
      ≡ encode_varint32 (length e.key + 8)
        ++ (e.key
            ++ (encode_fixed64 (tag_of (parsed e))
                ++ (encode_varint32 (length e.value) ++ e.value)))
unfolding encode_entry pack_sequence_and_type
encode_entry-tagged e fits = rw (pack_lem e.sequence e.type fits.sequence_fits) refl

pub slice_at-encode_entry : (e : Add) → Fits e → slice_at (encode_entry e) ≡ internal_key e
slice_at-encode_entry e fits =
    let rest = encode_varint32 (length e.value) ++ e.value in
    let tag = encode_fixed64 (tag_of (parsed e)) in
    ap slice_at (
      encode_entry-tagged e fits
      ∙ ap (λ (l : List ℕ). encode_varint32 (length e.key + 8) ++ l)
          (sym (append_assoc e.key tag rest)
            ∙ ap (λ (k : List ℕ). k ++ rest) (sym (internal_key-tagged e fits)))
      ∙ ap (λ (n : ℕ). encode_varint32 n ++ (internal_key e ++ rest))
          (sym (length-internal_key e fits)))
    ∙ slice_at-prefixed (internal_key e) rest
        (omega (arith, length-internal_key e fits, fits.key_fits))

module _ (c : Comparator) where
  -- The order of the entries, by their internal keys.
  abbrev pub entry_compare : Add → Add → Ordering
  entry_compare a b = internal_compare c (internal_key a) (internal_key b)

  pub key_comparator-encode_entry :
      (a b : Add)
      → Fits a
      → Fits b
      → key_comparator c (encode_entry a) (encode_entry b) ≡ entry_compare a b
  unfolding key_comparator
  key_comparator-encode_entry a b fa fb =
      ap₂ (internal_compare c) (slice_at-encode_entry a fa) (slice_at-encode_entry b fb)

  pub internal_compare-IsKeyOrder : IsOrder c → IsKeyOrder (internal_compare c)
  unfolding internal_key_comparator
  internal_compare-IsKeyOrder ord =
      let order = internal_key_comparator-IsOrder c ord in
      record {
        compare_swap = order.compare_swap;
        lt_trans = λ a b d h h'.
            lt_of_lt-le (internal_key_comparator c) order a b d h (ground (arith, h'));
      }

  pub key_comparator-IsKeyOrder : IsOrder c → IsKeyOrder (key_comparator c)
  unfolding key_comparator
  key_comparator-IsKeyOrder ord =
      let order = internal_compare-IsKeyOrder ord in
      record {
        compare_swap = λ a b. order.compare_swap (slice_at a) (slice_at b);
        lt_trans = λ a b d. order.lt_trans (slice_at a) (slice_at b) (slice_at d);
      }

  -- What Get does with the entry that the search found.
  abbrev pub answer_of : Add → Answer
  answer_of e = elim e.type [ value ↦ found e.value | deletion ↦ deleted ]

  pub slice_at-memtable_key :
      (u : List ℕ) (s : ℕ)
      → length u + 8 < 2 ^ 32
      → slice_at (memtable_key (lookup_key u s)) ≡ lookup_internal_key (lookup_key u s)
  unfolding memtable_key lookup_internal_key lookup_key
  slice_at-memtable_key u s h =
      slice_at-whole (u ++ encode_fixed64 (pack_sequence_and_type s value_type_for_seek))
        (length u + 8)
        (length-append u (encode_fixed64 (pack_sequence_and_type s value_type_for_seek))
          ∙ ap (λ (n : ℕ). length u + n)
              (length-encode_fixed64 (pack_sequence_and_type s value_type_for_seek)))
        h

  pub lookup_user_key-lookup_key : (u : List ℕ) (s : ℕ) → lookup_user_key (lookup_key u s) ≡ u
  unfolding lookup_user_key lookup_key
  lookup_user_key-lookup_key u s =
      let tag = encode_fixed64 (pack_sequence_and_type s value_type_for_seek) in
      ap (λ (n : ℕ). take n (u ++ tag))
        (omega (
          arith,
          length-append u tag,
          length-encode_fixed64 (pack_sequence_and_type s value_type_for_seek),
        ))
      ∙ take-append_length u tag

  -- The parts of an entry, as Get takes it apart.
  module _ (e : Add) (fits : Fits e) where
    abbrev tail : List ℕ
    tail = encode_varint32 (length e.value) ++ e.value

    abbrev tag : List ℕ
    tag = encode_fixed64 (tag_of (parsed e))

    read_key_length :
        get_varint32_ptr (encode_entry e) ≡ some (length e.key + 8, e.key ++ (tag ++ tail))
    read_key_length =
        ap get_varint32_ptr (encode_entry-tagged e fits)
        ∙ read_varint32 (length e.key + 8) (e.key ++ (tag ++ tail)) fits.key_fits

    behind_key : drop (length e.key + 8) (e.key ++ (tag ++ tail)) ≡ tail
    behind_key =
        ap (λ (n : ℕ). drop n (e.key ++ (tag ++ tail)))
          (sym (
            length-append e.key tag
            ∙ ap (λ (n : ℕ). length e.key + n) (length-encode_fixed64 (tag_of (parsed e)))))
        ∙ ap (drop (length (e.key ++ tag))) (sym (append_assoc e.key tag tail))
        ∙ drop-append_length (e.key ++ tag) tail

    read_tag : decode_fixed64 (drop (length e.key) (e.key ++ (tag ++ tail))) ≡ tag_of (parsed e)
    read_tag =
        ap decode_fixed64 (drop-append_length e.key (tag ++ tail))
        ∙ decode_fixed64-encode_fixed64 (tag_of (parsed e)) tail
            (tag_of-lt (parsed e) fits.sequence_fits)

    type_byte : bit_and (tag_of (parsed e)) 255 ≡ type_code e.type
    type_byte = bit_and-255 (tag_of (parsed e)) ∙ omega (arith, type_code-le e.type)

  by_type :
      (t : ValueType) (v : List ℕ)
      → (if type_code t == 1 then found v else if type_code t == 0 then deleted else not_here)
        ≡ (elim t [ value ↦ found v | deletion ↦ deleted ])
  by_type value v = refl
  by_type deletion v = refl

  decided :
      (o : Ordering) (x y : Answer)
      → x ≡ y
      → (elim o [ Ordering.eq ↦ x | _ ↦ not_here ]) ≡ (elim o [ Ordering.eq ↦ y | _ ↦ not_here ])
  decided lt x y h = refl
  decided eq x y h = h
  decided gt x y h = refl

  pub read_entry-encode_entry :
      (e : Add) (u : List ℕ) (s : ℕ)
      → Fits e
      → read_entry c (encode_entry e) (lookup_key u s)
        ≡ (elim (c.compare e.key u) [ Ordering.eq ↦ answer_of e | _ ↦ not_here ])
  unfolding read_entry
  read_entry-encode_entry e u s fits =
      let size : (length e.key + 8 + (u32_mod - 8)) % u32_mod ≡ length e.key =
        omega (arith, fits.key_fits) in
      rw (read_key_length e fits, read_entry)
        (rw
          (
            size,
            take-append_length e.key (tag e fits ++ tail e fits),
            lookup_user_key-lookup_key u s,
          )
          (decided (c.compare e.key u) _ _ (
            rw
              (
                size,
                read_tag e fits,
                behind_key e fits,
                type_byte e fits,
                slice_at-whole e.value (length e.value) refl fits.value_fits,
              )
              (by_type e.type e.value))))

-- If its numbers fit their fields, an entry fills exactly the buffer that Add allocates for it.
length-encode_entry : (e : Add) → Fits e → length (encode_entry e) ≡ encoded_len e
unfolding encode_entry encoded_len
length-encode_entry e fits =
    let number = encode_fixed64 (bit_or (e.sequence * 2 ^ 8 % u64_mod) (type_code e.type)) in
    omega (
      arith,
      length-append (encode_varint32 (length e.key + 8))
          (e.key ++ (number ++ (encode_varint32 (length e.value) ++ e.value))),
      length-append e.key (number ++ (encode_varint32 (length e.value) ++ e.value)),
      length-append number (encode_varint32 (length e.value) ++ e.value),
      length-append (encode_varint32 (length e.value)) e.value,
      length-encode_fixed64 (bit_or (e.sequence * 2 ^ 8 % u64_mod) (type_code e.type)),
      (encode_varint32-encode_varint64 (length e.key + 8) fits.key_fits).1,
      (encode_varint32-encode_varint64 (length e.value) fits.value_fits).1,
    )
