-- ===== src/Db/Batch.antt =====
-- leveldb/write_batch.h, db/write_batch_internal.h and db/write_batch.cpp: a batch of updates as one
-- byte string `rep_`, a sequence number (fixed64), a count (fixed32) and the records.
pub mod Shape
pub mod Iterate
use level_db.Common.{
  ℕ, zero, suc, ◌+◌, ◌^◌, ◌%◌, List, [], ◌∷◌, ◌++◌, length, take, drop, replicate, ltb, ◌==◌,
  if◌then◌else◌, Option, none, some, ◌>>=◌, not,
}
use level_db.Util.Coding.{
  u64_mod, encode_fixed32, encode_fixed64, decode_fixed32, decode_fixed64,
  put_length_prefixed_slice, get_length_prefixed_slice,
}
use level_db.Util.Status.{Status, ok, error, corruption}
use level_db.Db.Format.{ValueType, deletion, value, type_code}
use Prim.Native.String.{String}

abbrev pub header_size : ℕ
header_size = 12

-- A call of the handler that Iterate is given.
pub data Call : Type 0 where
  put : List ℕ → List ℕ → Call
  delete : List ℕ → Call

unfoldable pub clear : List ℕ
clear = replicate header_size 0

unfoldable pub count : List ℕ → ℕ
count rep = decode_fixed32 (drop 8 rep)

unfoldable pub set_count : List ℕ → ℕ → List ℕ
set_count rep n = take 8 rep ++ (encode_fixed32 n ++ drop 12 rep)

unfoldable pub sequence : List ℕ → ℕ
sequence rep = decode_fixed64 rep

unfoldable pub set_sequence : List ℕ → ℕ → List ℕ
set_sequence rep seq = encode_fixed64 seq ++ drop 8 rep

unfoldable pub batch_put : List ℕ → List ℕ → List ℕ → List ℕ
batch_put rep key v =
    let counted = set_count rep (count rep + 1) in
    put_length_prefixed_slice (put_length_prefixed_slice (counted ++ (type_code value ∷ [])) key) v

unfoldable pub batch_delete : List ℕ → List ℕ → List ℕ
batch_delete rep key =
    let counted = set_count rep (count rep + 1) in
    put_length_prefixed_slice (counted ++ (type_code deletion ∷ [])) key

unfoldable pub set_contents : List ℕ → List ℕ → List ℕ
set_contents rep contents = contents

unfoldable pub append : List ℕ → List ℕ → List ℕ
append dst src = set_count dst (count dst + count src) ++ drop header_size src

-- The switch in the loop of Iterate, on one record behind its tag.
pub data Next : Type 0 where
  call : Call → List ℕ → Next
  malformed : String → Next

unfoldable pub read_put : List ℕ → Option (List ℕ × List ℕ × List ℕ)
read_put input = do
  (key, after_key) ← get_length_prefixed_slice input
  (v, rest) ← get_length_prefixed_slice after_key
  some (key, v, rest)

unfoldable pub read_record : ℕ → List ℕ → Next
read_record tag input =
    if tag == type_code value
    then (elim (read_put input) [
      | none ↦ malformed "bad WriteBatch Put"
      | some (key, v, rest) ↦ call (put key v) rest
    ])
    else if tag == type_code deletion
    then (elim (get_length_prefixed_slice input) [
      | none ↦ malformed "bad WriteBatch Delete"
      | some (key, rest) ↦ call (delete key) rest
    ])
    else malformed "unknown WriteBatch tag"

-- How the loop ends: the number of records, or the message of an error. `out_of_fuel` is no
-- behaviour of the source; `iterate_loop-ends` excludes it.
pub data Ending : Type 0 where
  found : ℕ → Ending
  stopped : String → Ending
  out_of_fuel : Ending

abbrev pub then_call : Call → List Call × Ending → List Call × Ending
then_call c (calls, end) = (c ∷ calls, end)

unfoldable pub iterate_loop : ℕ → List ℕ → ℕ → List Call × Ending
iterate_loop fuel [] n = ([], found n)
iterate_loop zero (tag ∷ input) n = ([], out_of_fuel)
iterate_loop (suc fuel) (tag ∷ input) n = elim (read_record tag input) [
  | call c rest ↦ then_call c (iterate_loop fuel rest (n + 1))
  | malformed msg ↦ ([], stopped msg)
]

abbrev pub final_status : ℕ → Ending → Status
final_status expected (found n) =
    if n == expected then ok else error corruption "WriteBatch has wrong count"
final_status expected (stopped msg) = error corruption msg
final_status expected out_of_fuel = error corruption "out of fuel"

-- The calls that the handler gets, and the status. Each record takes a byte at least, so the
-- length of the input is enough fuel.
unfoldable pub iterate : List ℕ → List Call × Status
iterate rep =
    if ltb (length rep) header_size
    then ([], error corruption "malformed WriteBatch (too small)")
    else let input = drop header_size rep in
      let (calls, end) = iterate_loop (length input) input 0 in
      (calls, final_status (count rep) end)

-- One call of MemTable::Add.
pub record Add : Type 0 where
  pub sequence : ℕ
  pub type : ValueType
  pub key : List ℕ
  pub value : List ℕ

-- MemTableInserter, with its counter `sequence_` on 64 bits.
unfoldable pub inserter : ℕ → List Call → List Add
inserter seq [] = []
inserter seq (put key v ∷ calls) =
    record { sequence = seq; type = value; key = key; value = v }
    ∷ inserter ((seq + 1) % u64_mod) calls
inserter seq (delete key ∷ calls) =
    record { sequence = seq; type = deletion; key = key; value = [] }
    ∷ inserter ((seq + 1) % u64_mod) calls

unfoldable pub insert_into : List ℕ → List Add × Status
insert_into rep = let (calls, status) = iterate rep in (inserter (sequence rep) calls, status)
