-- ===== src/Db/MemTable/Tests.antt =====
-- Runs of the memtable under the byte-wise comparator.

use level_db.Common.{ℕ, List, [], ◌∷◌, some, ◌≡◌, arith}
use level_db.Util.Comparator.{bytewise_comparator}
use level_db.Util.Comparator.Bytewise.{bytewise_comparator-IsOrder}
use level_db.Db.Format.{value, lookup_key}
use level_db.Db.Batch.{Add}
use level_db.Db.SkipList.{SkipList}
use level_db.Db.MemTable.{Answer, new_table, add, get}
use level_db.Db.MemTable.Entries.{Fits}
use level_db.Db.MemTable.Lookups.{Newest}
use level_db.Db.MemTable.History.{Holds, new_table-Holds, add-Holds, get-Newest}

abbrev pub first_put : Add
first_put = record { sequence = 7; type = value; key = 97 ∷ []; value = 120 ∷ 121 ∷ [] }

first_put-Fits : Fits first_put
first_put-Fits = record {
  sequence_fits = omega arith;
  key_fits = omega arith;
  value_fits = omega arith;
}

add-Holds_example :
    (table : SkipList (List ℕ)) × (add bytewise_comparator new_table first_put ≡ some table)
    × Holds bytewise_comparator table (first_put ∷ [])
add-Holds_example =
    add-Holds bytewise_comparator new_table [] first_put bytewise_comparator-IsOrder
      (new_table-Holds bytewise_comparator) first_put-Fits (λ x i. absurd i)

pub with_put :
    (table : SkipList (List ℕ)) × (add bytewise_comparator new_table first_put ≡ some table)
    × Holds bytewise_comparator table (first_put ∷ [])
with_put =
    add-Holds bytewise_comparator new_table [] first_put bytewise_comparator-IsOrder
      (new_table-Holds bytewise_comparator) first_put-Fits (λ x i. absurd i)

get-Newest_example :
    (answer : Answer) × (get bytewise_comparator with_put.0 (lookup_key (97 ∷ []) 9) ≡ some answer)
    × Newest bytewise_comparator (97 ∷ []) 9 (first_put ∷ []) answer
get-Newest_example =
    get-Newest bytewise_comparator with_put.0 (first_put ∷ []) (97 ∷ []) 9
      bytewise_comparator-IsOrder with_put.2 (omega arith) (omega arith)
