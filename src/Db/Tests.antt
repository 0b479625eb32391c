-- ===== src/Db/Tests.antt =====
-- Runs of db/dbformat.cpp and db/write_batch.cpp on concrete keys and batches.
use level_db.Common.{ℕ, ◌+◌, ◌≤◌, List, [], ◌∷◌, ◌++◌, ◌≡◌, ◌≢◌, ◌↔◌, refl, arith, none, get_elem?}
use Prim.Native.Nat.{gt}
use mathlib.Core.Option
use level_db.Util.Coding.{get_length_prefixed_slice, decode_fixed32}
use level_db.Util.Status.{ok, error, corruption}
use level_db.Util.Comparator.{IsOrder, Shortens, bytewise_comparator}
use level_db.Util.Comparator.Bytewise.{bytewise_comparator-IsOrder, bytewise_comparator-Shortens}
use level_db.Db.Format.{
  ParsedInternalKey, deletion, value, append_internal_key, parse_internal_key, newest_first,
  break_tie, internal_compare, internal_key_comparator, lookup_key, lookup_internal_key,
}
use level_db.Db.Format.Order.{
  internal_key_comparator-IsOrder, internal_compare-append, lookup_key_visibility,
}
use level_db.Db.Format.Shorten.{internal_key_comparator-Shortens}
use level_db.Db.Batch.{
  Call, put, delete, clear, count, append, iterate, iterate_loop, read_record, out_of_fuel,
  insert_into,
}
use level_db.Db.Batch.Shape.{IsBatch, clear-IsBatch, update, update-IsBatch, append-IsBatch}
use level_db.Db.Batch.Iterate.{iterate-IsBatch, iterate_loop-ends, insert_into-IsBatch, add_of}

-- Internal keys.
abbrev foo : List ℕ
foo = 102 ∷ 111 ∷ 111 ∷ []

abbrev foo_at_7 : ParsedInternalKey
foo_at_7 = record { user_key = foo; sequence = 7; type = value }

abbrev foo_at_9 : ParsedInternalKey
foo_at_9 = record { user_key = foo; sequence = 9; type = deletion }

foo_at_7_bytes :
    append_internal_key [] foo_at_7 ≡ 102 ∷ 111 ∷ 111 ∷ 1 ∷ 7 ∷ 0 ∷ 0 ∷ 0 ∷ 0 ∷ 0 ∷ 0 ∷ []
unfolding append_internal_key
foo_at_7_bytes = refl

bad_type : parse_internal_key (102 ∷ 2 ∷ 0 ∷ 0 ∷ 0 ∷ 0 ∷ 0 ∷ 0 ∷ 0 ∷ []) ≡ none
unfolding parse_internal_key
bad_type = refl

internal_key_comparator-IsOrder_example : IsOrder (internal_key_comparator bytewise_comparator)
internal_key_comparator-IsOrder_example =
    internal_key_comparator-IsOrder bytewise_comparator bytewise_comparator-IsOrder

internal_key_comparator-Shortens_example : Shortens (internal_key_comparator bytewise_comparator)
internal_key_comparator-Shortens_example =
    internal_key_comparator-Shortens bytewise_comparator bytewise_comparator-IsOrder
      bytewise_comparator-Shortens

internal_compare-append_example :
    internal_compare bytewise_comparator
      (append_internal_key [] foo_at_7)
      (append_internal_key [] foo_at_9)
    ≡ break_tie
        (bytewise_comparator.compare foo foo)
        (break_tie (newest_first 7 9) (newest_first 1 0))
internal_compare-append_example =
    internal_compare-append bytewise_comparator foo_at_7 foo_at_9 (omega arith) (omega arith)

lookup_key_visibility_example :
    (internal_compare bytewise_comparator
        (lookup_internal_key (lookup_key foo 8))
        (append_internal_key [] foo_at_7)
      ≢ gt)
    ↔ (7 ≤ 8)
lookup_key_visibility_example =
    lookup_key_visibility bytewise_comparator foo_at_7 8 bytewise_comparator-IsOrder (omega arith)
      (omega arith)

-- Write batches.
abbrev one_put : List Call
one_put = put foo (1 ∷ 2 ∷ []) ∷ []

abbrev put_and_delete : List Call
put_and_delete = put foo (1 ∷ 2 ∷ []) ∷ delete foo ∷ []

put-IsBatch : IsBatch (update clear (put foo (1 ∷ 2 ∷ []))) 0 one_put
put-IsBatch = update-IsBatch clear 0 [] (put foo (1 ∷ 2 ∷ [])) clear-IsBatch (omega arith)

iterate_short : iterate (0 ∷ 0 ∷ []) ≡ ([], error corruption "malformed WriteBatch (too small)")
unfolding iterate
iterate_short = refl

iterate_wrong_count :
    iterate (0 ∷ 0 ∷ 0 ∷ 0 ∷ 0 ∷ 0 ∷ 0 ∷ 0 ∷ 2 ∷ 0 ∷ 0 ∷ 0 ∷ 0 ∷ 1 ∷ 97 ∷ [])
    ≡ (delete (97 ∷ []) ∷ [], error corruption "WriteBatch has wrong count")
unfolding iterate iterate_loop read_record get_length_prefixed_slice count decode_fixed32
iterate_wrong_count = refl

append-IsBatch_example :
    IsBatch
      (append (update clear (put foo (1 ∷ 2 ∷ []))) (update clear (put foo (1 ∷ 2 ∷ []))))
      0
      (one_put ++ one_put)
append-IsBatch_example =
    append-IsBatch (update clear (put foo (1 ∷ 2 ∷ []))) (update clear (put foo (1 ∷ 2 ∷ []))) 0 0
      one_put one_put put-IsBatch put-IsBatch (omega arith)

iterate-IsBatch_example : iterate (update clear (put foo (1 ∷ 2 ∷ []))) ≡ (one_put, ok)
iterate-IsBatch_example =
    iterate-IsBatch (update clear (put foo (1 ∷ 2 ∷ []))) 0 one_put put-IsBatch
      ((omega arith, omega arith), tt) (omega arith)

iterate_loop-ends_example : (iterate_loop 3 (1 ∷ 9 ∷ 7 ∷ []) 0).1 ≢ out_of_fuel
iterate_loop-ends_example = iterate_loop-ends 3 (1 ∷ 9 ∷ 7 ∷ []) 0 (omega arith)

insert_into-IsBatch_example :
    ((i : ℕ)
      → get_elem? (insert_into (update clear (put foo (1 ∷ 2 ∷ [])))).0 i
        ≡ Option.map (add_of (0 + i)) (get_elem? one_put i))
    × ((insert_into (update clear (put foo (1 ∷ 2 ∷ [])))).1 ≡ ok)
insert_into-IsBatch_example =
    insert_into-IsBatch (update clear (put foo (1 ∷ 2 ∷ []))) 0 one_put put-IsBatch
      ((omega arith, omega arith), tt) (omega arith) (omega arith)
