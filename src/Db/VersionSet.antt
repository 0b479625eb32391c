-- ===== src/Db/VersionSet.antt =====
-- db/version_set.cpp: the search for the files of a level that a key range touches.
pub mod Search
pub mod Overlap
pub mod Tests
use Prim.Native.Nat.{Ordering}
use level_db.Common.{
  ℕ, zero, suc, ◌+◌, ◌/◌, ◌%◌, Bool, true, false, not, ◌||◌, List, [], ◌∷◌, length, get_elem?, ltb,
  leb, Option, none, some, if◌then◌else◌,
}
use level_db.Util.Coding.{u32_mod}
use level_db.Util.Slice.{is_lt, is_gt}
use level_db.Util.Comparator.{Comparator}
use level_db.Db.Format.{
  max_sequence_number, value_type_for_seek, append_internal_key, extract_user_key, internal_compare,
}
use level_db.Db.VersionEdit.{FileMetaData}

module _ (user_comparator : Comparator) where
  open user_comparator use {compare}

  -- `icmp.Compare(files[mid]->largest, key) < 0`; the loop stays inside the vector.
  unfoldable pub largest_below : List FileMetaData → List ℕ → ℕ → Bool
  largest_below files key mid = elim (get_elem? files mid) [
    | none ↦ false
    | some f ↦ is_lt (internal_compare user_comparator f.largest key)
  ]

  -- A NULL key is none.
  unfoldable pub after_file : Option (List ℕ) → FileMetaData → Bool
  after_file none f = false
  after_file (some user_key) f = is_gt (compare user_key (extract_user_key f.largest))

  unfoldable pub before_file : Option (List ℕ) → FileMetaData → Bool
  before_file none f = false
  before_file (some user_key) f = is_lt (compare user_key (extract_user_key f.smallest))

-- The binary search on uint32 indices, where `below mid` is the comparison of the source. Each
-- round takes one from `right - left` at least.
unfoldable pub find_loop : (ℕ → Bool) → ℕ → ℕ → ℕ → ℕ
find_loop below zero left right = right
find_loop below (suc fuel) left right =
    let mid = (left + right) % u32_mod / 2 in
    elim (ltb left right) [
      | false ↦ right
      | true ↦ elim (below mid) [
        | true ↦ find_loop below fuel (mid + 1) right
        | false ↦ find_loop below fuel left mid
      ]
    ]

module _ (user_comparator : Comparator) where
  unfoldable pub find_file : List FileMetaData → List ℕ → ℕ
  find_file files key =
      find_loop (largest_below user_comparator files key) (length files) 0 (length files)

  -- The check against all files.
  unfoldable pub any_overlaps : List FileMetaData → Option (List ℕ) → Option (List ℕ) → Bool
  any_overlaps [] smallest largest = false
  any_overlaps (f ∷ files) smallest largest =
      let rest = any_overlaps files smallest largest in
      if after_file user_comparator smallest f || before_file user_comparator largest f
      then rest
      else true

  unfoldable pub first_index : List FileMetaData → Option (List ℕ) → ℕ
  first_index files none = 0
  first_index files (some user_key) =
      let small = append_internal_key [] (record {
        user_key = user_key;
        sequence = max_sequence_number;
        type = value_type_for_seek;
      }) in
      find_file files small

  unfoldable pub some_file_overlaps_range :
      Bool → List FileMetaData → Option (List ℕ) → Option (List ℕ) → Bool
  some_file_overlaps_range false files smallest largest = any_overlaps files smallest largest
  some_file_overlaps_range true files smallest largest =
      let index = first_index files smallest in
      elim (get_elem? files index) [
        | none ↦ false
        | some f ↦ not (before_file user_comparator largest f)
      ]
