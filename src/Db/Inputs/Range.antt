-- ===== src/Db/Inputs/Range.antt =====
-- GetRange: the two keys bound all files, and each is the key of a file.
use Prim.Native.Nat.{gt}
use level_db.Common.{ℕ, List, [], ◌∷◌, All, if◌then◌else◌, ◌≡◌, ◌≢◌, arith}
use level_db.Util.Slice.{is_lt, is_gt}
use level_db.Util.Slice.Order.{flip}
use level_db.Util.Comparator.{Comparator, IsOrder}
use level_db.Db.Format.{internal_compare, internal_key_comparator}
use level_db.Db.Format.Order.{internal_key_comparator-IsOrder}
use level_db.Db.VersionEdit.{FileMetaData}
use level_db.Db.Inputs.{range_loop, get_range}

module _ (c : Comparator) where
  abbrev pub IsUnder : List ℕ → List ℕ → Type 0
  IsUnder a b = internal_compare c a b ≢ gt

  abbrev pub IsWithin : List ℕ × List ℕ → FileMetaData → Type 0
  IsWithin range f = IsUnder range.0 f.smallest × IsUnder f.largest range.1

  module _ (ord : IsOrder c) where
    IsUnder-trans : (a b d : List ℕ) → IsUnder a b → IsUnder b d → IsUnder a d
    unfolding internal_key_comparator
    IsUnder-trans = (internal_key_comparator-IsOrder c ord).compare-le_trans

    IsUnder-self : (a : List ℕ) → IsUnder a a
    unfolding internal_key_comparator
    IsUnder-self a h = ground (arith, h, (internal_key_comparator-IsOrder c ord).compare_self a)

    under_swap : (a b : List ℕ) → internal_compare c b a ≡ flip (internal_compare c a b)
    unfolding internal_key_comparator
    under_swap = (internal_key_comparator-IsOrder c ord).compare_swap

    abbrev lower_of : List ℕ → List ℕ → List ℕ
    lower_of a s = if is_lt (internal_compare c a s) then a else s

    abbrev upper_of : List ℕ → List ℕ → List ℕ
    upper_of a l = if is_gt (internal_compare c a l) then a else l

    lower_of_bounds : (a s : List ℕ) → IsUnder (lower_of a s) a × IsUnder (lower_of a s) s
    lower_of_bounds a s = ground (arith, IsUnder-self a, IsUnder-self s, under_swap a s)

    upper_of_bounds : (a l : List ℕ) → IsUnder a (upper_of a l) × IsUnder l (upper_of a l)
    upper_of_bounds a l = ground (arith, IsUnder-self a, IsUnder-self l, under_swap a l)

    range_loop_bounds :
        (inputs : List FileMetaData) (s l : List ℕ)
        → IsUnder (range_loop c inputs s l).0 s
          × IsUnder l (range_loop c inputs s l).1
          × All (IsWithin (range_loop c inputs s l)) inputs
    unfolding range_loop
    range_loop_bounds [] s l = (IsUnder-self s, IsUnder-self l, tt)
    range_loop_bounds (f ∷ inputs) s l =
        let s' = lower_of f.smallest s in
        let l' = upper_of f.largest l in
        let (low, high, within) = range_loop_bounds inputs s' l' in
        let (p, q) = lower_of_bounds f.smallest s in
        let (p', q') = upper_of_bounds f.largest l in
        let range = range_loop c inputs s' l' in
        (
          IsUnder-trans range.0 s' s low q,
          IsUnder-trans l l' range.1 q' high,
          (
            (IsUnder-trans range.0 s' f.smallest low p, IsUnder-trans f.largest l' range.1 p' high),
            within,
          ),
        )

    -- The range of some files holds them all.
    pub get_range-IsWithin :
        (inputs : List FileMetaData) → All (IsWithin (get_range c inputs)) inputs
    unfolding get_range
    get_range-IsWithin [] = tt
    get_range-IsWithin (f ∷ inputs) =
        let (low, high, within) = range_loop_bounds inputs f.smallest f.largest in
        ((low, high), within)
