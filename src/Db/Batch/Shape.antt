-- ===== src/Db/Batch/Shape.antt =====
-- What the bytes of a write batch are after any sequence of updates.
use level_db.Common.{
  ℕ, ◌+◌, ◌^◌, ◌<◌, ◌≤◌, List, [], ◌∷◌, ◌++◌, length, take, drop, ◌≡◌, refl, sym, ap, ◌∙◌, arith,
  append-nil, append_assoc, length-append,
}
use level_db.Util.Coding.{encode_fixed32, encode_fixed64, put_length_prefixed_slice}
use level_db.Util.Coding.Fixed.{decode_fixed32-encode_fixed32, decode_fixed64-encode_fixed64}
use level_db.Util.Coding.Prefixed.{put_length_prefixed_slice-append}
use level_db.Db.Format.{deletion, value, type_code}
use level_db.Db.Batch.{
  Call, put, delete, clear, count, set_count, sequence, set_sequence, batch_put, batch_delete,
  append,
}

-- The format, from the comment at the top of write_batch.cpp.
unfoldable pub record_bytes : Call → List ℕ
record_bytes (put key v) =
    type_code value ∷ (put_length_prefixed_slice [] key ++ put_length_prefixed_slice [] v)
record_bytes (delete key) = type_code deletion ∷ put_length_prefixed_slice [] key

unfoldable pub records : List Call → List ℕ
records [] = []
records (c ∷ calls) = record_bytes c ++ records calls

abbrev pub IsBatch : List ℕ → ℕ → List Call → Type 0
IsBatch rep seq calls = rep ≡ encode_fixed64 seq ++ (encode_fixed32 (length calls) ++ records calls)

pub records-append : (xs ys : List Call) → records (xs ++ ys) ≡ records xs ++ records ys
unfolding records
records-append [] ys = refl
records-append (c ∷ xs) ys =
    ap (λ (t : List ℕ). record_bytes c ++ t) (records-append xs ys)
    ∙ sym (append_assoc (record_bytes c) (records xs) (records ys))

module _ (seq n : ℕ) (body : List ℕ) where
  abbrev laid_out : List ℕ
  laid_out = encode_fixed64 seq ++ (encode_fixed32 n ++ body)

  after_sequence : drop 8 laid_out ≡ encode_fixed32 n ++ body
  unfolding encode_fixed64
  after_sequence = refl

  before_count : take 8 laid_out ≡ encode_fixed64 seq
  unfolding encode_fixed64
  before_count = refl

  after_header : drop 12 laid_out ≡ body
  unfolding encode_fixed64 encode_fixed32
  after_header = refl

  pub count-laid_out : n < 2 ^ 32 → count laid_out ≡ n
  unfolding count
  count-laid_out h = rw after_sequence (decode_fixed32-encode_fixed32 n body h)

  pub sequence-laid_out : seq < 2 ^ 64 → sequence laid_out ≡ seq
  unfolding sequence
  sequence-laid_out h = decode_fixed64-encode_fixed64 seq (encode_fixed32 n ++ body) h

  set_count-laid_out :
      (m : ℕ) → set_count laid_out m ≡ encode_fixed64 seq ++ (encode_fixed32 m ++ body)
  unfolding set_count
  set_count-laid_out m = rw (before_count, after_header)

  set_sequence-laid_out :
      (s : ℕ) → set_sequence laid_out s ≡ encode_fixed64 s ++ (encode_fixed32 n ++ body)
  unfolding set_sequence
  set_sequence-laid_out s = rw after_sequence

pub clear-IsBatch : IsBatch clear 0 []
unfolding clear encode_fixed64 encode_fixed32 records
clear-IsBatch = refl

pub count-IsBatch :
    (rep : List ℕ) (seq : ℕ) (calls : List Call)
    → IsBatch rep seq calls
    → length calls < 2 ^ 32
    → count rep ≡ length calls
count-IsBatch rep seq calls b h = rw b (count-laid_out seq (length calls) (records calls) h)

pub body-IsBatch :
    (rep : List ℕ) (seq : ℕ) (calls : List Call)
    → IsBatch rep seq calls
    → (12 ≤ length rep) × (drop 12 rep ≡ records calls)
unfolding encode_fixed64 encode_fixed32
body-IsBatch rep seq calls b = rw b (omega arith, refl)

-- Recording one more call: the count goes up and its bytes go behind the others.
snoc-IsBatch :
    (rep : List ℕ) (seq : ℕ) (calls : List Call) (c : Call)
    → IsBatch rep seq calls
    → length calls < 2 ^ 32
    → IsBatch (set_count rep (count rep + 1) ++ record_bytes c) seq (calls ++ (c ∷ []))
snoc-IsBatch rep seq calls c b h =
    rw
      (
        counted,
        b,
        set_count-laid_out seq (length calls) (records calls) (length (calls ++ (c ∷ []))),
        records-append calls (c ∷ []),
      )
      (unfold records in simp (append_assoc, append-nil))
  where
    counted : count rep + 1 ≡ length (calls ++ (c ∷ []))
    counted = omega (arith, count-IsBatch rep seq calls b h, length-append calls (c ∷ []))

one_slice :
    (dst : List ℕ) (tag : ℕ) (key : List ℕ)
    → put_length_prefixed_slice (dst ++ (tag ∷ [])) key
      ≡ dst ++ (tag ∷ put_length_prefixed_slice [] key)
one_slice dst tag key =
    put_length_prefixed_slice-append (dst ++ (tag ∷ [])) key
    ∙ append_assoc dst (tag ∷ []) (put_length_prefixed_slice [] key)

-- What Put appends is the record of the call.
batch_put_lem :
    (rep key v : List ℕ)
    → batch_put rep key v ≡ set_count rep (count rep + 1) ++ record_bytes (put key v)
unfolding batch_put record_bytes
batch_put_lem rep key v =
    put_length_prefixed_slice-append (put_length_prefixed_slice (counted ++ (1 ∷ [])) key) v
    ∙ ap (λ (t : List ℕ). t ++ put_length_prefixed_slice [] v) (one_slice counted 1 key)
    ∙ append_assoc counted (1 ∷ put_length_prefixed_slice [] key) (put_length_prefixed_slice [] v)
  where
    counted : List ℕ
    counted = set_count rep (count rep + 1)

batch_delete_lem :
    (rep key : List ℕ)
    → batch_delete rep key ≡ set_count rep (count rep + 1) ++ record_bytes (delete key)
unfolding batch_delete record_bytes
batch_delete_lem rep key = one_slice (set_count rep (count rep + 1)) 0 key

-- One update through the interface of WriteBatch.
unfoldable pub update : List ℕ → Call → List ℕ
update rep (put key v) = batch_put rep key v
update rep (delete key) = batch_delete rep key

-- For a batch with fewer than 2^32 calls, Put and Delete add their call at its end: they
-- increment the count, append the record and keep the sequence number.
pub update-IsBatch :
    (rep : List ℕ) (seq : ℕ) (calls : List Call) (c : Call)
    → IsBatch rep seq calls
    → length calls < 2 ^ 32
    → IsBatch (update rep c) seq (calls ++ (c ∷ []))
unfolding update
update-IsBatch rep seq calls (put key v) b h =
    batch_put_lem rep key v ∙ snoc-IsBatch rep seq calls (put key v) b h
update-IsBatch rep seq calls (delete key) b h =
    batch_delete_lem rep key ∙ snoc-IsBatch rep seq calls (delete key) b h

pub set_sequence-IsBatch :
    (rep : List ℕ) (seq s : ℕ) (calls : List Call)
    → IsBatch rep seq calls
    → IsBatch (set_sequence rep s) s calls
set_sequence-IsBatch rep seq s calls b =
    ap (λ (t : List ℕ). set_sequence t s) b
    ∙ set_sequence-laid_out seq (length calls) (records calls) s

-- If the two batches have fewer than 2^32 calls together, Append joins their records, keeps the
-- sequence number of the first and sets the count to the sum.
pub append-IsBatch :
    (dst src : List ℕ) (seq seq' : ℕ) (xs ys : List Call)
    → IsBatch dst seq xs
    → IsBatch src seq' ys
    → length xs + length ys < 2 ^ 32
    → IsBatch (append dst src) seq (xs ++ ys)
unfolding append
append-IsBatch dst src seq seq' xs ys bd bs h =
    rw
      (
        counted,
        bd,
        bs,
        set_count-laid_out seq (length xs) (records xs) (length (xs ++ ys)),
        after_header seq' (length ys) (records ys),
        records-append xs ys,
      )
      (simp append_assoc)
  where
    counted : count dst + count src ≡ length (xs ++ ys)
    counted = omega (
      arith,
      count-IsBatch dst seq xs bd (omega arith),
      count-IsBatch src seq' ys bs (omega arith),
      length-append xs ys,
    )
