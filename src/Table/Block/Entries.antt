-- ===== src/Table/Block/Entries.antt =====
-- What DecodeEntry and ParseNextKey of table/block.cpp read of what BlockBuilder::Add wrote.
use Prim.Native.Nat.{bit_or}
use mathlib.Core.Path.{ap₂}
use native.Mathlib.Decide.{dec_lt}
use level_db.Common.{
  ℕ, suc, ◌+◌, ◌^◌, ◌≤◌, ◌<◌, List, [], ◌∷◌, ◌++◌, length, take, drop, ltb, if◌then◌else◌, Option,
  some, ◌>>=◌, ◌≡◌, refl, sym, ap, ◌∙◌, arith, append_assoc, length-append, take-append_length,
  drop-append_length, take-append-drop, ==_iff, append-nil, All, Bool, true, false,
}
use level_db.Common.Bits.{bit_and-128, le-bit_or, bit_or-ge}
use level_db.Util.Coding.{encode_varint32, put_varint32, get_varint32, get_varint32_ptr}
use level_db.Util.Coding.Varint.{get_varint32-put_varint32}
use level_db.Table.Block.{
  BlockBuilder, count_shared, add_entry, add, Entry, decode_numbers, check_room, decode_entry,
  parse_next_key, read_entries, add_all,
}

-- A number of one byte.
one_byte : (b : ℕ) (p : List ℕ) → b < 128 → get_varint32_ptr (b ∷ p) ≡ some (b, p)
unfolding get_varint32_ptr
one_byte b p h = ground (arith, bit_and-128 b)

three_bytes :
    (b0 b1 b2 : ℕ) (p : List ℕ)
    → b0 < 128
    → b1 < 128
    → b2 < 128
    → decode_numbers (b0 ∷ b1 ∷ b2 ∷ p)
      ≡ some (record { shared = b0; non_shared = b1; value_length = b2; rest = p })
unfolding decode_numbers
three_bytes b0 b1 b2 p h0 h1 h2 =
    rw (one_byte b0 (b1 ∷ b2 ∷ p) h0, one_byte b1 (b2 ∷ p) h1, one_byte b2 p h2) refl

small_numbers :
    (b0 b1 b2 : ℕ) → bit_or (bit_or b0 b1) b2 < 128 → (b0 < 128) × (b1 < 128) × (b2 < 128)
small_numbers b0 b1 b2 h =
    let l = le-bit_or (bit_or b0 b1) b2 in
    let r = bit_or-ge (bit_or b0 b1) b2 in
    (omega (arith, l, le-bit_or b0 b1), omega (arith, l, bit_or-ge b0 b1), omega (arith, r))

-- On three bytes and more, DecodeEntry answers what the general case of three varints answers.
pub decode_entry-decode_numbers :
    (p : List ℕ) → 3 ≤ length p → decode_entry p ≡ (decode_numbers p >>= check_room)
unfolding decode_entry
decode_entry-decode_numbers [] h = elim h [ ]
decode_entry-decode_numbers (b0 ∷ []) h = absurd (omega arith)
decode_entry-decode_numbers (b0 ∷ b1 ∷ []) h = absurd (omega arith)
decode_entry-decode_numbers (b0 ∷ b1 ∷ b2 ∷ p) h = elim (dec_lt (bit_or (bit_or b0 b1) b2) 128) [
  | yes small ↦
      let (h0, h1, h2) = small_numbers b0 b1 b2 small in
      rw (three_bytes b0 b1 b2 p h0 h1 h2) (ground (arith, small))
  | no large ↦ ground (arith, large)
]

count_shared-le :
    (xs ys : List ℕ) → (count_shared xs ys ≤ length xs) × (count_shared xs ys ≤ length ys)
unfolding count_shared
count_shared-le [] ys = (omega arith, omega arith)
count_shared-le (x ∷ xs) [] = (omega arith, omega arith)
count_shared-le (x ∷ xs) (y ∷ ys) =
    (ground (arith, count_shared-le xs ys), ground (arith, count_shared-le xs ys))

take-count_shared : (xs ys : List ℕ) → take (count_shared xs ys) xs ≡ take (count_shared xs ys) ys
unfolding count_shared
take-count_shared [] ys = refl
take-count_shared (x ∷ xs) [] = refl
take-count_shared (x ∷ xs) (y ∷ ys) = ground (arith, ==_iff x y, take-count_shared xs ys)

encode_varint32-not_empty : (v : ℕ) → 1 ≤ length (encode_varint32 v)
unfolding encode_varint32
encode_varint32-not_empty v = ground arith

read_varint32 :
    (v : ℕ) (rest : List ℕ)
    → v < 2 ^ 32
    → get_varint32_ptr (encode_varint32 v ++ rest) ≡ some (v, rest)
unfolding get_varint32 put_varint32
read_varint32 v rest h = get_varint32-put_varint32 v rest h

-- The entry that shares `s` bytes, in front of `rest`.
abbrev entry : ℕ → List ℕ → List ℕ → List ℕ → List ℕ
entry s key value rest =
    encode_varint32 s
    ++ (encode_varint32 (length (drop s key))
        ++ (encode_varint32 (length value) ++ (drop s key ++ (value ++ rest))))

add_entry-entry :
    (buffer : List ℕ) (s : ℕ) (key value rest : List ℕ)
    → add_entry buffer s key value ++ rest ≡ buffer ++ entry s key value rest
unfolding add_entry put_varint32
add_entry-entry buffer s key value rest = simp append_assoc

decode_numbers-entry :
    (s : ℕ) (key value rest : List ℕ)
    → s < 2 ^ 32
    → length (drop s key) < 2 ^ 32
    → length value < 2 ^ 32
    → decode_numbers (entry s key value rest)
      ≡ some (record {
        shared = s;
        non_shared = length (drop s key);
        value_length = length value;
        rest = drop s key ++ (value ++ rest);
      })
unfolding decode_numbers
decode_numbers-entry s key value rest h0 h1 h2 =
    rw
      (
        read_varint32 s _ h0,
        read_varint32 (length (drop s key)) _ h1,
        read_varint32 (length value) _ h2,
      )
      refl

length-entry : (s : ℕ) (key value rest : List ℕ) → 3 ≤ length (entry s key value rest)
length-entry s key value rest =
    let body = drop s key ++ (value ++ rest) in
    omega (
      arith,
      length-append (encode_varint32 s)
          (encode_varint32 (length (drop s key)) ++ (encode_varint32 (length value) ++ body)),
      length-append (encode_varint32 (length (drop s key)))
          (encode_varint32 (length value) ++ body),
      length-append (encode_varint32 (length value)) body,
      encode_varint32-not_empty s,
      encode_varint32-not_empty (length (drop s key)),
      encode_varint32-not_empty (length value),
    )

length-entry-body :
    (s : ℕ) (key value rest : List ℕ)
    → length (drop s key ++ (value ++ rest)) ≤ length (entry s key value rest)
length-entry-body s key value rest =
    let body = drop s key ++ (value ++ rest) in
    omega (
      arith,
      length-append (encode_varint32 s)
          (encode_varint32 (length (drop s key)) ++ (encode_varint32 (length value) ++ body)),
      length-append (encode_varint32 (length (drop s key)))
          (encode_varint32 (length value) ++ body),
      length-append (encode_varint32 (length value)) body,
    )

-- An entry in front of `rest`, whose key and value and what follows are below 4 GB.
module _ (s : ℕ) (last key value rest : List ℕ) (shared_fits : s < 2 ^ 32)
    (body_fits : length (drop s key ++ (value ++ rest)) < 2 ^ 32) where
  abbrev numbers : Entry
  numbers = record {
    shared = s;
    non_shared = length (drop s key);
    value_length = length value;
    rest = drop s key ++ (value ++ rest);
  }

  body_length :
      length (drop s key ++ (value ++ rest)) ≡ length (drop s key) + (length value + length rest)
  body_length = omega (arith, length-append (drop s key) (value ++ rest), length-append value rest)

  check_room-numbers : check_room numbers ≡ some numbers
  unfolding check_room
  check_room-numbers = ground (arith, body_fits, body_length)

  decode_entry-entry : decode_entry (entry s key value rest) ≡ some numbers
  decode_entry-entry =
      decode_entry-decode_numbers (entry s key value rest) (length-entry s key value rest)
      ∙ ap (λ (o : Option Entry). o >>= check_room)
          (decode_numbers-entry s key value rest shared_fits (omega (arith, body_fits, body_length))
            (omega (arith, body_fits, body_length)))
      ∙ check_room-numbers

  parse_next_key-entry :
      s ≤ length last
      → take s last ≡ take s key
      → parse_next_key last (entry s key value rest) ≡ some (key, value, rest)
  unfolding parse_next_key
  parse_next_key-entry h same = rw (decode_entry-entry) (
      rw
        (
          same,
          take-append_length (drop s key) (value ++ rest),
          drop-append_length (drop s key) (value ++ rest),
          take-append_length value rest,
          drop-append_length value rest,
          take-append-drop s key,
        )
        (ground (arith, h)))

parse_entry-add_entry :
    (buffer : List ℕ) (s : ℕ) (last key value rest : List ℕ)
    → s ≤ length last
    → s ≤ length key
    → take s last ≡ take s key
    → length key < 2 ^ 32
    → length (add_entry buffer s key value ++ rest) < 2 ^ 32
    → parse_next_key last (drop (length buffer) (add_entry buffer s key value ++ rest))
      ≡ some (key, value, rest)
parse_entry-add_entry buffer s last key value rest in_last in_key same key_fits fits =
    let shape = add_entry-entry buffer s key value rest in
    ap (λ (p : List ℕ). parse_next_key last (drop (length buffer) p)) shape
    ∙ ap (parse_next_key last) (drop-append_length buffer (entry s key value rest))
    ∙ parse_next_key-entry s last key value rest (omega arith)
        (omega (
          arith,
          ap length shape,
          fits,
          length-append buffer (entry s key value rest),
          length-entry-body s key value rest,
        ))
        in_last same

either :
    (P : BlockBuilder → Type 0) (t : Bool) (x y : BlockBuilder) → P x → P y → P (if t then x else y)
either P true x y hx hy = hx
either P false x y hx hy = hy

abbrev ReadsBack : BlockBuilder → List ℕ → List ℕ → BlockBuilder → Type 0
ReadsBack b key value after =
    ((rest : List ℕ)
      → length (after.buffer ++ rest) < 2 ^ 32
      → parse_next_key b.last_key (drop (length b.buffer) (after.buffer ++ rest))
        ≡ some (key, value, rest))
    × (after.last_key ≡ key)
    × ((t : List ℕ) × (after.buffer ≡ b.buffer ++ t))

add-ReadsBack :
    (interval : ℕ) (b : BlockBuilder) (key value : List ℕ)
    → length key < 2 ^ 32
    → ReadsBack b key value (add interval b key value)
unfolding add
add-ReadsBack interval b key value key_fits =
    let s = count_shared b.last_key key in
    let (in_last, in_key) = count_shared-le b.last_key key in
    let same = take-count_shared b.last_key key in
    either (ReadsBack b key value) (ltb b.counter interval) _ _
      (
        (λ rest fits.
            parse_entry-add_entry b.buffer s b.last_key key value rest in_last in_key same key_fits
              fits),
        ap (λ (l : List ℕ). l ++ drop s key) same ∙ take-append-drop s key,
        (entry s key value [], sym (append-nil _) ∙ add_entry-entry b.buffer s key value []),
      )
      (
        (λ rest fits.
            parse_entry-add_entry b.buffer 0 b.last_key key value rest (omega arith) (omega arith)
              refl key_fits fits),
        refl,
        (entry 0 key value [], sym (append-nil _) ∙ add_entry-entry b.buffer 0 key value []),
      )

read_entries-next :
    (n : ℕ) (last p key value rest : List ℕ)
    → parse_next_key last p ≡ some (key, value, rest)
    → read_entries (suc n) last p ≡ (read_entries n key rest >>= λ more. some ((key, value) ∷ more))
unfolding read_entries parse_next_key decode_entry
read_entries-next n last [] key value rest e = absurd cc
read_entries-next n last (x ∷ p) key value rest e = rw e refl

-- A key whose length fits in 32 bits.
abbrev KeyFits : List ℕ × List ℕ → Type 0
KeyFits (key, value) = length key < 2 ^ 32

add_all-grows :
    (interval : ℕ) (b : BlockBuilder) (entries : List (List ℕ × List ℕ))
    → All KeyFits entries
    → (t : List ℕ) × ((add_all interval b entries).buffer ≡ b.buffer ++ t)
unfolding add_all
add_all-grows interval b [] fits = ([], sym (append-nil b.buffer))
add_all-grows interval b ((key, value) ∷ entries) (h, fits) =
    let (_, _, (t, e)) = add-ReadsBack interval b key value h in
    let (t', e') = add_all-grows interval (add interval b key value) entries fits in
    (t ++ t', e' ∙ ap (λ (l : List ℕ). l ++ t') e ∙ append_assoc b.buffer t t')

-- If the keys are shorter than 4 GB and so is the buffer after the last Add, ParseNextKey, called
-- again and again on what a run of Add calls appended, starting from the last key that the
-- builder had, reads the pairs back in their order and stops at the end of the buffer, within one
-- call more than there are pairs, whatever the restart interval.
pub read_entries-add_all :
    (interval : ℕ) (b : BlockBuilder) (entries : List (List ℕ × List ℕ))
    → All KeyFits entries
    → length (add_all interval b entries).buffer < 2 ^ 32
    → read_entries
        (suc (length entries))
        b.last_key
        (drop (length b.buffer) (add_all interval b entries).buffer)
      ≡ some entries
unfolding add_all read_entries
read_entries-add_all interval b [] fits total =
    ap (read_entries 1 b.last_key)
      (ap (drop (length b.buffer)) (sym (append-nil b.buffer)) ∙ drop-append_length b.buffer [])
read_entries-add_all interval b ((key, value) ∷ entries) (h, fits) total =
    let after = add interval b key value in
    let (reads, last, _) = add-ReadsBack interval b key value h in
    let (t, e) = add_all-grows interval after entries fits in
    let ih = read_entries-add_all interval after entries fits total in
    let at_t : drop (length after.buffer) (add_all interval after entries).buffer ≡ t =
      ap (drop (length after.buffer)) e ∙ drop-append_length after.buffer t in
    read_entries-next (suc (length entries)) b.last_key
      (drop (length b.buffer) (add_all interval after entries).buffer) key value t
      (ap (λ (p : List ℕ). parse_next_key b.last_key (drop (length b.buffer) p)) e
        ∙ reads t (omega (arith, ap length e, total)))
    ∙ ap (λ (o : Option (List (List ℕ × List ℕ))). o >>= λ more. some ((key, value) ∷ more))
        (ap₂ (read_entries (suc (length entries))) (sym last) (sym at_t) ∙ ih)
