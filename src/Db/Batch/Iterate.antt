-- ===== src/Db/Batch/Iterate.antt =====
-- WriteBatch::Iterate and InsertInto: the calls come back in order, the loop ends on any bytes, and
-- the sequence numbers are consecutive.
use level_db.Common.{
  ℕ, zero, suc, ◌+◌, ◌^◌, ◌<◌, ◌≤◌, List, [], ◌∷◌, ◌++◌, length, drop, ◌≡◌, ◌≢◌, refl, ap, ◌∙◌,
  arith, append_assoc, length-append, All, Option-cases, inl, inr, some, ◌⊎◌, le→ltb, ==_iff,
  get_elem?,
}
use Prim.Native.String.{String}
use mathlib.Core.Option
use Prim.Native.Nat.{◌%◌}
use native.Mathlib.Nat.{mod-eq_of_lt}
use level_db.Util.Coding.{u64_mod, put_length_prefixed_slice, get_length_prefixed_slice}
use level_db.Util.Coding.Prefixed.{get_length_prefixed_slice-put, get_length_prefixed_slice_shorter}
use level_db.Util.Status.{ok}
use level_db.Db.Format.{deletion, value, type_code}
use level_db.Db.Batch.{
  Call, put, delete, Next, call, malformed, read_put, read_record, found, stopped, out_of_fuel,
  then_call, iterate_loop, iterate, sequence, Add, inserter, insert_into,
}
use level_db.Db.Batch.Shape.{
  IsBatch, record_bytes, records, count-IsBatch, body-IsBatch, sequence-laid_out,
}

-- The slices of the call have lengths that a varint32 holds.
abbrev pub Fits : Call → Type 0
Fits (put key v) = (length key < 2 ^ 32) × (length v < 2 ^ 32)
Fits (delete key) = length key < 2 ^ 32

read_put-record :
    (key v rest : List ℕ)
    → length key < 2 ^ 32
    → length v < 2 ^ 32
    → read_put ((put_length_prefixed_slice [] key ++ put_length_prefixed_slice [] v) ++ rest)
      ≡ some (key, v, rest)
unfolding read_put
read_put-record key v rest hk hv = rw (
  append_assoc,
  get_length_prefixed_slice-put key (put_length_prefixed_slice [] v ++ rest) hk,
  get_length_prefixed_slice-put v rest hv,
)

-- The tag of a record and what stands behind it.
abbrev tag : Call → ℕ
tag (put key v) = type_code value
tag (delete key) = type_code deletion

abbrev slices : Call → List ℕ
slices (put key v) = put_length_prefixed_slice [] key ++ put_length_prefixed_slice [] v
slices (delete key) = put_length_prefixed_slice [] key

read_record-slices :
    (c : Call) (rest : List ℕ) → Fits c → read_record (tag c) (slices c ++ rest) ≡ call c rest
unfolding read_record
read_record-slices (put key v) rest (hk, hv) = rw (read_put-record key v rest hk hv, read_record)
read_record-slices (delete key) rest h = rw (get_length_prefixed_slice-put key rest h, read_record)

iterate_loop_step :
    (fuel n t : ℕ) (input rest : List ℕ) (c : Call)
    → read_record t input ≡ call c rest
    → iterate_loop (suc fuel) (t ∷ input) n ≡ then_call c (iterate_loop fuel rest (n + 1))
unfolding iterate_loop
iterate_loop_step fuel n t input rest c e = rw (e, iterate_loop)

record_bytes_lem : (c : Call) → record_bytes c ≡ tag c ∷ slices c
unfolding record_bytes
record_bytes_lem (put key v) = refl
record_bytes_lem (delete key) = refl

iterate_loop-records :
    (calls : List Call) (fuel n : ℕ)
    → All Fits calls
    → length calls ≤ fuel
    → iterate_loop fuel (records calls) n ≡ (calls, found (n + length calls))
unfolding records
iterate_loop-records [] fuel n h hf =
    unfold iterate_loop in ap (λ (m : ℕ). ([], found m)) (omega arith)
iterate_loop-records (c ∷ calls) zero n h hf = elim hf [ ]
iterate_loop-records (c ∷ calls) (suc fuel) n (hc, h) hf = rw (record_bytes_lem c) (
    iterate_loop_step fuel n (tag c) (slices c ++ records calls) (records calls) c
      (read_record-slices c (records calls) hc)
    ∙ ap (then_call c) (iterate_loop-records calls fuel (n + 1) h (omega arith))
    ∙ ap (λ (m : ℕ). (c ∷ calls, found m)) (omega arith))

length-records : (calls : List Call) → length calls ≤ length (records calls)
unfolding records
length-records [] = omega arith
length-records (c ∷ calls) = omega (
  arith,
  length-append (record_bytes c) (records calls),
  ap length (record_bytes_lem c),
  length-records calls,
)

-- For a batch whose keys and values are below 4 GB and that has fewer than 2^31 calls, Iterate
-- hands its calls to the handler, in order, and returns OK.
pub iterate-IsBatch :
    (rep : List ℕ) (seq : ℕ) (calls : List Call)
    → IsBatch rep seq calls
    → All Fits calls
    → length calls < 2 ^ 31
    → iterate rep ≡ (calls, ok)
unfolding iterate
iterate-IsBatch rep seq calls b h few = rw (
  le→ltb (length rep) 12 long,
  body,
  iterate_loop-records calls (length (records calls)) 0 h (length-records calls),
  count-IsBatch rep seq calls b (omega arith),
  (==_iff (0 + length calls) (length calls)).1 (omega arith),
)
  where
    long : 12 ≤ length rep
    long = (body-IsBatch rep seq calls b).0

    body : drop 12 rep ≡ records calls
    body = (body-IsBatch rep seq calls b).1

read_put_shorter :
    (input key v rest : List ℕ) → read_put input ≡ some (key, v, rest) → length rest < length input
unfolding read_put
read_put_shorter input key v rest e = elim (Option-cases (get_length_prefixed_slice input)) [
  | inl q ↦ absurd (ground (arith, q))
  | inr ((k, after_key), q) ↦ ground (
    arith,
    q,
    get_length_prefixed_slice_shorter input k after_key q,
    get_length_prefixed_slice_shorter after_key v rest,
  )
]

read_record_shorter :
    (t : ℕ) (input rest : List ℕ) (c : Call)
    → read_record t input ≡ call c rest
    → length rest < length input
unfolding read_record
read_record_shorter t input rest c e = elim (Option-cases (read_put input)) [
  | inl p ↦ elim (Option-cases (get_length_prefixed_slice input)) [
    | inl q ↦ absurd (ground (arith, p, q))
    | inr ((k, r), q) ↦ ground (arith, p, q, get_length_prefixed_slice_shorter input k r q)
  ]
  | inr ((k, v, r), p) ↦ elim (Option-cases (get_length_prefixed_slice input)) [
    | inl q ↦ ground (arith, p, q, read_put_shorter input k v r p)
    | inr ((k', r'), q) ↦ ground (
      arith,
      p,
      q,
      read_put_shorter input k v r p,
      get_length_prefixed_slice_shorter input k' r' q,
    )
  ]
]

Next-cases :
    (r : Next)
    → ((msg : String) × (r ≡ malformed msg)) ⊎ ((c : Call) × (rest : List ℕ) × (r ≡ call c rest))
Next-cases (call c rest) = inr (c, rest, refl)
Next-cases (malformed msg) = inl (msg, refl)

iterate_loop_stop :
    (fuel n t : ℕ) (input : List ℕ) (msg : String)
    → read_record t input ≡ malformed msg
    → iterate_loop (suc fuel) (t ∷ input) n ≡ ([], stopped msg)
unfolding iterate_loop
iterate_loop_stop fuel n t input msg e = rw (e, iterate_loop)

-- On any bytes the loop of Iterate ends, in at most as many rounds as there are bytes.
pub iterate_loop-ends :
    (fuel : ℕ) (input : List ℕ) (n : ℕ)
    → length input ≤ fuel
    → (iterate_loop fuel input n).1 ≢ out_of_fuel
iterate_loop-ends fuel [] n h = unfold iterate_loop in λ e. cc
iterate_loop-ends zero (t ∷ input) n h = elim h [ ]
iterate_loop-ends (suc fuel) (t ∷ input) n h = elim (Next-cases (read_record t input)) [
  | inl (msg, e) ↦ rw (iterate_loop_stop fuel n t input msg e) (λ q. cc)
  | inr (c, rest, e) ↦
      rw (iterate_loop_step fuel n t input rest c e)
        (iterate_loop-ends fuel rest (n + 1) (omega (arith, read_record_shorter t input rest c e)))
]

abbrev pub add_of : ℕ → Call → Add
add_of seq (put key v) = record { sequence = seq; type = value; key = key; value = v }
add_of seq (delete key) = record { sequence = seq; type = deletion; key = key; value = [] }

inserter_step :
    (calls : List Call) (seq i : ℕ)
    → seq + suc (length calls) < 2 ^ 64
    → get_elem? (inserter (seq + 1) calls) i ≡ Option.map (add_of (seq + 1 + i)) (get_elem? calls i)
    → get_elem? (inserter ((seq + 1) % u64_mod) calls) i
      ≡ Option.map (add_of (seq + suc i)) (get_elem? calls i)
inserter_step calls seq i h e =
    ap (λ (m : ℕ). get_elem? (inserter m calls) i)
      (mod-eq_of_lt {n = seq + 1} {m = u64_mod} (omega arith))
    ∙ e
    ∙ ap (λ (m : ℕ). Option.map (add_of m) (get_elem? calls i)) (omega arith)

inserter-get_elem? :
    (calls : List Call) (seq i : ℕ)
    → seq + length calls < 2 ^ 64
    → get_elem? (inserter seq calls) i ≡ Option.map (add_of (seq + i)) (get_elem? calls i)
unfolding inserter
inserter-get_elem? [] seq i h = refl
inserter-get_elem? (put key v ∷ calls) seq zero h =
    ap (λ (m : ℕ). some (add_of m (put key v))) (omega arith)
inserter-get_elem? (delete key ∷ calls) seq zero h =
    ap (λ (m : ℕ). some (add_of m (delete key))) (omega arith)
inserter-get_elem? (put key v ∷ calls) seq (suc i) h =
    inserter_step calls seq i h (inserter-get_elem? calls (seq + 1) i (omega arith))
inserter-get_elem? (delete key ∷ calls) seq (suc i) h =
    inserter_step calls seq i h (inserter-get_elem? calls (seq + 1) i (omega arith))

-- For a batch whose keys and values are below 4 GB, with fewer than 2^31 calls and a last
-- sequence number below 2^64, InsertInto adds the i-th call to the memtable with the sequence
-- number of the batch plus i, for every i, and returns OK.
pub insert_into-IsBatch :
    (rep : List ℕ) (seq : ℕ) (calls : List Call)
    → IsBatch rep seq calls
    → All Fits calls
    → length calls < 2 ^ 31
    → seq + length calls < 2 ^ 64
    → ((i : ℕ)
        → get_elem? (insert_into rep).0 i ≡ Option.map (add_of (seq + i)) (get_elem? calls i))
      × ((insert_into rep).1 ≡ ok)
unfolding insert_into
insert_into-IsBatch rep seq calls b h few hs =
    rw (iterate-IsBatch rep seq calls b h few, read_sequence)
      ((λ (i : ℕ). inserter-get_elem? calls seq i hs), refl)
  where
    read_sequence : sequence rep ≡ seq
    read_sequence = rw b (sequence-laid_out seq (length calls) (records calls) (omega arith))
