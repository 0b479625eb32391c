-- ===== src/Db/Compaction/Tests.antt =====
-- Runs of a compaction under the byte-wise comparator.
use Prim.Native.Nat.{lt}
use level_db.Common.{ℕ, ◌≤◌, List, [], ◌∷◌, map, none, ◌≡◌, ap, ◌∙◌, arith}
use level_db.Util.Comparator.{bytewise_comparator}
use level_db.Util.Comparator.Bytewise.{bytewise_comparator-IsOrder}
use level_db.Db.Format.{value, deletion, break_tie}
use level_db.Db.Format.Order.{internal_compare-append}
use level_db.Db.Batch.{Add}
use level_db.Db.Compaction.{compact, first_state}
use level_db.Db.Compaction.Reads.{read}
use level_db.Db.Compaction.Kept.{encoded, read-compact, IsAscending}

-- A deletion at 9 hides a put at 5; the snapshot 9 is the oldest in use.
abbrev delete_then_put : List Add
delete_then_put =
    record { sequence = 9; type = deletion; key = 97 ∷ []; value = [] }
    ∷ record { sequence = 5; type = value; key = 97 ∷ []; value = 120 ∷ [] }
    ∷ []

delete_then_put-IsAscending : IsAscending bytewise_comparator delete_then_put
delete_then_put-IsAscending =
    let order =
      internal_compare-append bytewise_comparator
        (record { user_key = 97 ∷ []; sequence = 9; type = deletion })
        (record { user_key = 97 ∷ []; sequence = 5; type = value }) (omega arith) (omega arith) in
    (
      (order ∙ ap (λ o. break_tie o lt) (bytewise_comparator-IsOrder.compare_self (97 ∷ [])), tt),
      (tt, tt),
    )

read-compact_example :
    (kept : List Add) × (compact bytewise_comparator 9
        (first_state [])
        (map encoded delete_then_put)
      ≡ map encoded kept)
    × ((u : List ℕ) (s : ℕ)
        → 9 ≤ s
        → read bytewise_comparator u s none kept
          ≡ read bytewise_comparator u s none delete_then_put)
read-compact_example =
    read-compact bytewise_comparator 9 delete_then_put [] (λ u s. none) bytewise_comparator-IsOrder
      (omega arith) (omega arith) delete_then_put-IsAscending tt (λ u s h i. none)

-- A put at 5, hidden at the snapshot 9 by one at 9, is kept behind a key that does not parse.
abbrev put_9 : List ℕ × List ℕ
put_9 = (97 ∷ 1 ∷ 9 ∷ 0 ∷ 0 ∷ 0 ∷ 0 ∷ 0 ∷ 0 ∷ [], 120 ∷ [])

abbrev put_5 : List ℕ × List ℕ
put_5 = (97 ∷ 1 ∷ 5 ∷ 0 ∷ 0 ∷ 0 ∷ 0 ∷ 0 ∷ 0 ∷ [], 121 ∷ [])

abbrev damaged : List ℕ
damaged = 1 ∷ 2 ∷ []
