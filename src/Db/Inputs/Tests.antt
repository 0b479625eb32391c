-- ===== src/Db/Inputs/Tests.antt =====
-- Runs of the choice of inputs on chained files in level 0.
use level_db.Common.{
  ℕ, ◌<◌, ◌≤◌, true, false, List, [], ◌∷◌, All, map, none, some, ◌==◌, ◌>>=◌, if◌then◌else◌, ◌≡◌,
  refl,
}
use level_db.Util.Comparator.{bytewise_comparator}
use level_db.Util.Comparator.Bytewise.{bytewise_comparator-IsOrder}
use level_db.Db.Format.{internal_compare, extract_user_key, extract_tag}
use level_db.Db.VersionEdit.{FileMetaData, file_meta_data}
use level_db.Db.Inputs.{
  StopState, is_below, is_above, overlap_pass, overlap_loop, user_key_of, get_overlapping_inputs,
  get_range, overlap_in_level, pick_level_for_mem_table_output, should_stop_before,
}
use level_db.Db.Inputs.Closure.{IsClosure, get_overlapping_inputs-IsClosure}
use level_db.Db.Inputs.Range.{IsWithin}
use level_db.Db.Inputs.Setup.{Compaction, setup_other_inputs}
use level_db.Db.Inputs.Setup.Covers.{touching_range, setup_other_inputs-Covers}
use level_db.Db.Inputs.Levels.{
  is_past, stop_answer, should_stop_before-ends, pick_level_for_mem_table_output-IsFree,
}

-- The internal key of the user key `b` at sequence number 5.
abbrev key_of : ℕ → List ℕ
key_of b = b ∷ 1 ∷ 5 ∷ 0 ∷ 0 ∷ 0 ∷ 0 ∷ 0 ∷ 0 ∷ []

abbrev file : ℕ → ℕ → ℕ → FileMetaData
file number low high = file_meta_data number 100 (key_of low) (key_of high)

abbrev chained : ℕ → List FileMetaData
chained level =
    if level == 0 then file 3 99 102 ∷ file 4 97 99 ∷ file 5 101 103 ∷ file 6 110 111 ∷ [] else []

-- The file of the range is joined by the two that overlap it and not by the fourth.
chained_run :
    (get_overlapping_inputs bytewise_comparator chained 0 (some (key_of 100)) (some (key_of 100))
      >>= λ inputs. some (map (λ f. f.number) inputs))
    ≡ some (3 ∷ 4 ∷ 5 ∷ [])
unfolding get_overlapping_inputs overlap_loop overlap_pass is_below is_above bytewise_comparator
    extract_user_key
chained_run = refl

get_overlapping_inputs-IsClosure_example :
    (inputs : List FileMetaData) × (get_overlapping_inputs bytewise_comparator chained 0
        (some (key_of 100))
        (some (key_of 100))
      ≡ some inputs)
    × IsClosure bytewise_comparator true
        (chained 0)
        (user_key_of bytewise_comparator (some (key_of 100)))
        (user_key_of bytewise_comparator (some (key_of 100)))
        inputs
get_overlapping_inputs-IsClosure_example =
    get_overlapping_inputs-IsClosure bytewise_comparator chained 0 (some (key_of 100))
      (some (key_of 100)) bytewise_comparator-IsOrder

abbrev fresh_stop : StopState
fresh_stop = record { grandparent_index = 0; seen_key = false; overlapped_bytes = 0 }

-- The key 105 is past the first grandparent, and the loop does not end.
should_stop_before-ends_example :
    should_stop_before bytewise_comparator 9 (chained 0) (key_of 105) fresh_stop ≡ (
      if is_past bytewise_comparator (chained 0) (key_of 105) fresh_stop
      then none
      else some (stop_answer bytewise_comparator (chained 0) (key_of 105) fresh_stop))
should_stop_before-ends_example =
    should_stop_before-ends bytewise_comparator (chained 0) (key_of 105) 8 fresh_stop

past_run : is_past bytewise_comparator (chained 0) (key_of 105) fresh_stop ≡ true
unfolding internal_compare bytewise_comparator extract_user_key extract_tag
past_run = refl

pick_level_for_mem_table_output-IsFree_example :
    (last : ℕ) × (pick_level_for_mem_table_output bytewise_comparator chained (104 ∷ []) (105 ∷ [])
      ≡ some last)
    × (last ≤ 2)
    × (0 < last
        → (j : ℕ) → j ≤ last
        → overlap_in_level bytewise_comparator chained j (104 ∷ []) (105 ∷ []) ≡ false)
pick_level_for_mem_table_output-IsFree_example =
    pick_level_for_mem_table_output-IsFree bytewise_comparator bytewise_comparator-IsOrder chained
      (104 ∷ []) (105 ∷ [])

setup_other_inputs-Covers_example :
    (result : Compaction) × (setup_other_inputs bytewise_comparator chained 0 (chained 0)
      ≡ some result)
    × (result.inputs1
        ≡ touching_range bytewise_comparator bytewise_comparator-IsOrder chained 1
            (get_range bytewise_comparator result.inputs0))
    × All
        (IsWithin bytewise_comparator (get_range bytewise_comparator result.inputs0))
        result.inputs0
    × (result.compact_pointer ≡ (get_range bytewise_comparator result.inputs0).1)
setup_other_inputs-Covers_example =
    setup_other_inputs-Covers bytewise_comparator bytewise_comparator-IsOrder chained 0 (chained 0)
