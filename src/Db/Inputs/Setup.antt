-- ===== src/Db/Inputs/Setup.antt =====
-- db/version_set.cpp: SetupOtherInputs, PickCompaction and CompactRange, which complete the inputs
-- of a compaction. The new `compact_pointer_` of the level is a field of the result.
pub mod Covers
use level_db.Common.{
  ℕ, suc, ◌+◌, Bool, true, false, ◌&&◌, ◌||◌, List, [], ◌∷◌, length, take, ltb, leb, ◌==◌,
  if◌then◌else◌, Option, none, some, ◌>>=◌, ◌≡◌, refl, sym, ap, ◌∙◌, arith, Bool-cases, inl, inr,
}
use level_db.Util.Slice.{is_gt}
use level_db.Util.Comparator.{Comparator, IsOrder}
use level_db.Db.Format.{num_levels, extract_user_key, internal_compare}
use level_db.Db.VersionEdit.{FileMetaData}
use level_db.Db.Inputs.{
  target_file_size, expanded_compaction_byte_size_limit, total_file_size, get_overlapping_inputs,
  get_range, get_range2,
}

pub record Compaction : Type 0 where
  pub inputs0 : List FileMetaData
  pub inputs1 : List FileMetaData
  pub grandparents : List FileMetaData
  pub compact_pointer : List ℕ

-- The inputs of both levels and `largest`.
abbrev pub Grown : Type 0
Grown = List FileMetaData × List FileMetaData × List ℕ

module _ (user_comparator : Comparator) (files : ℕ → List FileMetaData) where
  -- GetOverlappingInputs on a range of internal keys.
  abbrev pub overlaps_of : ℕ → List ℕ × List ℕ → Option (List FileMetaData)
  overlaps_of level range =
      get_overlapping_inputs user_comparator files level (some range.0) (some range.1)

  -- The larger inputs with their limit, if they take no more files of the next level.
  unfoldable pub expand_inputs : ℕ → List FileMetaData → List FileMetaData → List ℕ → Option Grown
  expand_inputs level inputs0 inputs1 largest = do
    expanded0 ← overlaps_of level (get_range2 user_comparator inputs0 inputs1)
    expanded1 ← overlaps_of (level + 1) (get_range user_comparator expanded0)
    (if ltb (length inputs0) (length expanded0)
          && ltb (total_file_size inputs1 + total_file_size expanded0)
              expanded_compaction_byte_size_limit
          && (length expanded1 == length inputs1)
        then some (expanded0, expanded1, (get_range user_comparator expanded0).1)
        else some (inputs0, inputs1, largest))

  unfoldable pub grow_inputs : ℕ → List FileMetaData → List FileMetaData → List ℕ → Option Grown
  grow_inputs level inputs0 [] largest = some (inputs0, [], largest)
  grow_inputs level inputs0 (f ∷ inputs1) largest =
      expand_inputs level inputs0 (f ∷ inputs1) largest

  unfoldable pub find_grandparents :
      ℕ → List FileMetaData → List FileMetaData → Option (List FileMetaData)
  find_grandparents level inputs0 inputs1 =
      if ltb (level + 2) num_levels
      then overlaps_of (level + 2) (get_range2 user_comparator inputs0 inputs1)
      else some []

  unfoldable pub setup_other_inputs : ℕ → List FileMetaData → Option Compaction
  setup_other_inputs level inputs0 = do
    inputs1 ← overlaps_of (level + 1) (get_range user_comparator inputs0)
    grown ← grow_inputs level inputs0 inputs1 (get_range user_comparator inputs0).1
    grandparents ← find_grandparents level grown.0 grown.1
    some (record {
      inputs0 = grown.0;
      inputs1 = grown.1;
      grandparents = grandparents;
      compact_pointer = grown.2;
    })

  -- The first file behind `compact_pointer_`, or the first of the level.
  unfoldable pub first_after : List ℕ → List FileMetaData → List FileMetaData
  first_after pointer [] = []
  first_after pointer (f ∷ level_files) =
      let rest = first_after pointer level_files in
      if (length pointer == 0) || is_gt (internal_compare user_comparator f.largest pointer)
      then f ∷ []
      else rest

  unfoldable pub size_input : List ℕ → List FileMetaData → List FileMetaData
  size_input pointer level_files = elim (first_after pointer level_files) [
    | [] ↦ take 1 level_files
    | f ∷ more ↦ f ∷ more
  ]

  -- PickCompaction behind the choice of a first file: level 0 takes what overlaps it.
  unfoldable pub complete_inputs : ℕ → List FileMetaData → Option Compaction
  complete_inputs level inputs = do
    inputs0 ← (if level == 0 then overlaps_of 0 (get_range user_comparator inputs) else some inputs)
    setup_other_inputs level inputs0

  -- The files up to the one that reaches the limit.
  unfoldable pub cut_inputs : ℕ → ℕ → List FileMetaData → List FileMetaData
  cut_inputs limit total [] = []
  cut_inputs limit total (f ∷ inputs) =
      let rest = cut_inputs limit (total + f.file_size) inputs in
      if leb limit (total + f.file_size) then f ∷ [] else f ∷ rest

  -- CompactRange; the inner `none` is NULL.
  unfoldable pub compact_range : ℕ → Option (List ℕ) → Option (List ℕ) → Option (Option Compaction)
  compact_range level begin end = do
    inputs ← get_overlapping_inputs user_comparator files level begin end
    elim inputs [
      | [] ↦ some none
      | f ∷ more ↦
          setup_other_inputs level (cut_inputs target_file_size 0 (f ∷ more)) >>= λ c. some (some c)
    ]

  -- PickCompaction: the level to compact for its size, if its score is 1 at least, and else the
  -- file that seeks are to compact, if there is one. The inner `none` is NULL.
  unfoldable pub pick_compaction :
      (ℕ → List ℕ) → Option ℕ → Option (FileMetaData × ℕ) → Option (Option Compaction)
  pick_compaction compact_pointer none none = some none
  pick_compaction compact_pointer none (some (f, level)) =
      complete_inputs level (f ∷ []) >>= λ c. some (some c)
  pick_compaction compact_pointer (some level) file_to_compact =
      complete_inputs level (size_input (compact_pointer level) (files level)) >>= λ c.
      some (some c)
