-- ===== src/Db/SkipList/Tests.antt =====
-- Runs of the skip list on numbers.
use Prim.Native.Nat.{compare}
use mathlib.Core.Option
use level_db.Common.{ℕ, [], ◌∷◌, Option, some, ◌≡◌, arith}
use level_db.Db.SkipList.{SkipList, new_list, find_greater_or_equal, insert, visit, seek_to_first}
use level_db.Db.SkipList.Ordered.{IsKeyOrder, insert_sorted, first_from}
use level_db.Db.SkipList.Refines.{
  Represents, new_list-Represents, insert-Represents, find_greater_or_equal-first_from,
}
use level_db.Db.SkipList.Iteration.{visit-keys}

compare-IsKeyOrder : IsKeyOrder compare
compare-IsKeyOrder = record {
  compare_swap = λ a b. ground arith;
  lt_trans = λ a b c h h'. ground arith;
}

-- The list with 5, and with 3 and 5.
with_five :
    (s : SkipList ℕ) × (insert compare (new_list 0) 5 ≡ some s) × Represents compare s (5 ∷ [])
unfolding insert_sorted
with_five =
    insert-Represents compare compare-IsKeyOrder (new_list 0) 5 [] (new_list-Represents compare 0)
      tt

insert-Represents_example :
    (s : SkipList ℕ) × (insert compare with_five.0 3 ≡ some s)
    × Represents compare s (insert_sorted compare 3 (5 ∷ []))
insert-Represents_example =
    insert-Represents compare compare-IsKeyOrder with_five.0 3 (5 ∷ []) with_five.2 (λ c. cc, tt)

find_greater_or_equal-first_from_example :
    (found : Option ℕ) × (prev : ℕ → ℕ) × (find_greater_or_equal compare with_five.0 4
      ≡ some (found, prev))
    × (Option.map with_five.0.key found ≡ first_from compare 4 (5 ∷ []))
find_greater_or_equal-first_from_example =
    find_greater_or_equal-first_from compare compare-IsKeyOrder with_five.0 4 (5 ∷ []) with_five.2

visit-keys_example : visit with_five.0 with_five.0.allocated (seek_to_first with_five.0) ≡ 5 ∷ []
visit-keys_example = visit-keys compare with_five.0 (5 ∷ []) with_five.2
