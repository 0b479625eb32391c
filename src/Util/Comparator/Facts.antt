-- ===== src/Util/Comparator/Facts.antt =====
-- What follows from the laws of a comparator alone; the clients use no other fact about it.
use Prim.Native.Nat.{lt, eq, gt}
use level_db.Common.{ℕ, List, ◌≡◌, ◌≢◌, arith}
use level_db.Util.Comparator.{Comparator, IsOrder}

module _ (c : Comparator) (ord : IsOrder c) where
  open c use {compare}

  pub lt_of_lt-le : (a b d : List ℕ) → compare a b ≡ lt → compare b d ≢ gt → compare a d ≡ lt
  lt_of_lt-le a b d p q = ground (
    arith,
    ord.compare_swap a b,
    ord.compare_swap a d,
    ord.compare_swap b d,
    ord.compare-le_trans a b d,
    ord.compare-le_trans b d a,
  )

  pub lt_of_le-lt : (a b d : List ℕ) → compare a b ≢ gt → compare b d ≡ lt → compare a d ≡ lt
  lt_of_le-lt a b d p q = ground (
    arith,
    ord.compare_swap a b,
    ord.compare_swap a d,
    ord.compare_swap b d,
    ord.compare-le_trans a b d,
    ord.compare-le_trans d a b,
  )

  -- Keys that compare equal compare alike with every other key.
  pub compare_congr_left : (a b d : List ℕ) → compare a b ≡ eq → compare a d ≡ compare b d
  compare_congr_left a b d p = ground (
    arith,
    ord.compare_swap a b,
    ord.compare_swap a d,
    ord.compare_swap b d,
    ord.compare-le_trans a b d,
    ord.compare-le_trans b a d,
    ord.compare-le_trans d a b,
    ord.compare-le_trans d b a,
  )

  pub compare_congr_right : (a b d : List ℕ) → compare a b ≡ eq → compare d a ≡ compare d b
  compare_congr_right a b d p =
      ground (arith, compare_congr_left a b d p, ord.compare_swap d a, ord.compare_swap d b)
