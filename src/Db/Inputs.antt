-- ===== src/Db/Inputs.antt =====
-- db/version_set.cpp: the files that a compaction takes, and the level of a flushed memtable.
--
-- A version is its files by level. A key that may be NULL is an Option; int64 sums of file sizes
-- are natural numbers, which stay below 2^63 where the files do.
pub mod Overlapping
pub mod Closure
pub mod Levels
pub mod Range
pub mod Setup
mod Tests
use level_db.Common.{
  ℕ, zero, suc, ◌+◌, ◌*◌, Bool, true, false, ◌&&◌, List, [], ◌∷◌, ◌++◌, length, get_elem?, ltb,
  ◌==◌, if◌then◌else◌, Option, none, some, ◌>>=◌,
}
use level_db.Util.Slice.{is_lt, is_gt}
use level_db.Util.Comparator.{Comparator}
use level_db.Db.Format.{
  max_mem_compact_level, max_sequence_number, value_type_for_seek, deletion, append_internal_key,
  extract_user_key, internal_compare,
}
use level_db.Db.VersionEdit.{FileMetaData}
use level_db.Db.VersionSet.{some_file_overlaps_range}

abbrev pub target_file_size : ℕ
target_file_size = 2 * 1048576

abbrev pub max_grand_parent_overlap_bytes : ℕ
max_grand_parent_overlap_bytes = 10 * target_file_size

abbrev pub expanded_compaction_byte_size_limit : ℕ
expanded_compaction_byte_size_limit = 25 * target_file_size

unfoldable pub total_file_size : List FileMetaData → ℕ
total_file_size [] = 0
total_file_size (f ∷ files) = f.file_size + total_file_size files

-- One run of the loop of GetOverlappingInputs: to the end, or to a restart with a wider range.
pub data Pass : Type 0 where
  done : List FileMetaData → Pass
  restart : Option (List ℕ) → Option (List ℕ) → Pass

-- `inputs->push_back(f)`; a restart clears the inputs.
abbrev pub push_front : FileMetaData → Pass → Pass
push_front f (done inputs) = done (f ∷ inputs)
push_front f (restart user_begin user_end) = restart user_begin user_end

-- The internal keys `start` and `limit` of PickLevelForMemTableOutput.
abbrev pub range_start : List ℕ → List ℕ
range_start smallest_user_key = append_internal_key [] (record {
  user_key = smallest_user_key;
  sequence = max_sequence_number;
  type = value_type_for_seek;
})

abbrev pub range_limit : List ℕ → List ℕ
range_limit largest_user_key =
    append_internal_key [] (record { user_key = largest_user_key; sequence = 0; type = deletion })

-- The locals of Compaction that ShouldStopBefore keeps.
pub record StopState : Type 0 where
  pub grandparent_index : ℕ
  pub seen_key : Bool
  pub overlapped_bytes : ℕ

module _ (user_comparator : Comparator) where
  open user_comparator use {compare}

  -- The three tests on a key that may be NULL.
  unfoldable pub is_below : List ℕ → Option (List ℕ) → Bool
  is_below key none = false
  is_below key (some bound) = is_lt (compare key bound)

  unfoldable pub is_above : List ℕ → Option (List ℕ) → Bool
  is_above key none = false
  is_above key (some bound) = is_gt (compare key bound)

  unfoldable pub overlap_pass : Bool → Option (List ℕ) → Option (List ℕ) → List FileMetaData → Pass
  overlap_pass level0 user_begin user_end [] = done []
  overlap_pass level0 user_begin user_end (f ∷ files) =
      let file_start = extract_user_key f.smallest in
      let file_limit = extract_user_key f.largest in
      let rest = overlap_pass level0 user_begin user_end files in
      if is_below file_limit user_begin
      then rest
      else if is_above file_start user_end
      then rest
      else if level0 && is_below file_start user_begin
      then restart (some file_start) user_end
      else if level0 && is_above file_limit user_end
      then restart user_begin (some file_limit)
      else push_front f rest

  -- The restarts; `none` stands for fuel that has run out.
  unfoldable pub overlap_loop :
      ℕ → Bool → List FileMetaData → Option (List ℕ) → Option (List ℕ) → Option (List FileMetaData)
  overlap_loop zero level0 files user_begin user_end = none
  overlap_loop (suc fuel) level0 files user_begin user_end =
      elim (overlap_pass level0 user_begin user_end files) [
        | done inputs ↦ some inputs
        | restart user_begin' user_end' ↦ overlap_loop fuel level0 files user_begin' user_end'
      ]

  abbrev pub user_key_of : Option (List ℕ) → Option (List ℕ)
  user_key_of none = none
  user_key_of (some key) = some (extract_user_key key)

  -- Version::GetOverlappingInputs
  unfoldable pub get_overlapping_inputs :
      (ℕ → List FileMetaData) → ℕ → Option (List ℕ) → Option (List ℕ) → Option (List FileMetaData)
  get_overlapping_inputs files level begin end =
      overlap_loop (suc (2 * length (files level))) (level == 0) (files level) (user_key_of begin)
        (user_key_of end)

  -- VersionSet::GetRange on the files behind the first.
  unfoldable pub range_loop : List FileMetaData → List ℕ → List ℕ → List ℕ × List ℕ
  range_loop [] smallest largest = (smallest, largest)
  range_loop (f ∷ inputs) smallest largest =
      range_loop inputs
        (if is_lt (internal_compare user_comparator f.smallest smallest)
          then f.smallest
          else smallest)
        (if is_gt (internal_compare user_comparator f.largest largest) then f.largest else largest)

  -- The source asserts that there is a file.
  unfoldable pub get_range : List FileMetaData → List ℕ × List ℕ
  get_range [] = ([], [])
  get_range (f ∷ inputs) = range_loop inputs f.smallest f.largest

  unfoldable pub get_range2 : List FileMetaData → List FileMetaData → List ℕ × List ℕ
  get_range2 inputs1 inputs2 = get_range (inputs1 ++ inputs2)

  unfoldable pub overlap_in_level : (ℕ → List FileMetaData) → ℕ → List ℕ → List ℕ → Bool
  overlap_in_level files level smallest_user_key largest_user_key =
      some_file_overlaps_range user_comparator (ltb 0 level) (files level) (some smallest_user_key)
        (some largest_user_key)

  module _ (files : ℕ → List FileMetaData) (smallest_user_key largest_user_key : List ℕ) where
    -- The sum of the sizes that overlap the range in a level.
    unfoldable pub overlap_bytes : ℕ → Option ℕ
    overlap_bytes level = do
      overlaps ←
          get_overlapping_inputs files level (some (range_start smallest_user_key))
            (some (range_limit largest_user_key))
      some (total_file_size overlaps)

    -- The loop of PickLevelForMemTableOutput; the fuel is `kMaxMemCompactLevel - level`.
    unfoldable pub pick_level : ℕ → ℕ → Option ℕ
    pick_level zero level = some level
    pick_level (suc fuel) level =
        let deeper = pick_level fuel (level + 1) in
        if overlap_in_level files (level + 1) smallest_user_key largest_user_key
        then some level
        else (elim (overlap_bytes (level + 2)) [
          | none ↦ none
          | some sum ↦ if ltb max_grand_parent_overlap_bytes sum then some level else deeper
        ])

    unfoldable pub pick_level_for_mem_table_output : Option ℕ
    pick_level_for_mem_table_output =
        let level = pick_level max_mem_compact_level 0 in
        if overlap_in_level files 0 smallest_user_key largest_user_key then some 0 else level

  -- The while loop of ShouldStopBefore, which does not change `grandparent_index_`; `none` stands
  -- for fuel that has run out.
  unfoldable pub skip_grandparents : ℕ → List FileMetaData → List ℕ → StopState → Option StopState
  skip_grandparents zero grandparents internal_key st = none
  skip_grandparents (suc fuel) grandparents internal_key st =
      elim (get_elem? grandparents st.grandparent_index) [
        | none ↦ some st
        | some f ↦
            let again = skip_grandparents fuel grandparents internal_key (record st {
              overlapped_bytes =
                  if st.seen_key then st.overlapped_bytes + f.file_size else st.overlapped_bytes;
            }) in
            if is_gt (internal_compare user_comparator internal_key f.largest)
            then again
            else some st
      ]

  unfoldable pub should_stop_before :
      ℕ → List FileMetaData → List ℕ → StopState → Option (Bool × StopState)
  should_stop_before fuel grandparents internal_key st = do
    st' ← skip_grandparents fuel grandparents internal_key st
    (if ltb max_grand_parent_overlap_bytes st'.overlapped_bytes
        then some (true, record st' { seen_key = true; overlapped_bytes = 0 })
        else some (false, record st' { seen_key = true }))
