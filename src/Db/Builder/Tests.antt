-- ===== src/Db/Builder/Tests.antt =====
-- Runs of the builder: a compaction that replaces two files by one, after a flush.
use level_db.Common.{ℕ, true, List, [], ◌∷◌, map, none, ◌==◌, if◌then◌else◌, ◌≡◌, refl}
use level_db.Util.Comparator.{bytewise_comparator}
use level_db.Util.Comparator.Bytewise.{bytewise_comparator-IsOrder}
use level_db.Db.VersionEdit.{FileMetaData, VersionEdit, file_meta_data}
use level_db.Db.Builder.{
  apply_all, save_to, new_builder, apply, save_level, apply_new, apply_deleted, insert_file,
  fresh_file, by_smallest_key, maybe_add_files, upper_bound, erase,
}
use level_db.Db.Builder.Contents.{has}
use level_db.Db.Builder.Edits.{present, save_to-apply_all}
use level_db.Db.Builder.Order.{IsInOrder}
use level_db.Db.Builder.Saved.{save_to-IsInOrder}
use level_db.Db.Format.{internal_compare, extract_user_key, extract_tag}

-- The internal key of the user key `b` at sequence number 5.
abbrev key_of : ℕ → List ℕ
key_of b = b ∷ 1 ∷ 5 ∷ 0 ∷ 0 ∷ 0 ∷ 0 ∷ 0 ∷ 0 ∷ []

abbrev file : ℕ → ℕ → ℕ → FileMetaData
file number low high = file_meta_data number 100 (key_of low) (key_of high)

-- Level 1 holds three files.
abbrev three_files : ℕ → List FileMetaData
three_files level = if level == 1 then file 3 97 98 ∷ file 4 100 101 ∷ file 5 110 111 ∷ [] else []

abbrev edit_of : List (ℕ × ℕ) → List (ℕ × FileMetaData) → VersionEdit
edit_of deleted added = record {
  comparator = none;
  log_number = none;
  prev_log_number = none;
  next_file_number = none;
  last_sequence = none;
  compact_pointers = [];
  deleted_files = deleted;
  new_files = added;
}

-- A flush to level 0, then a compaction of it with file 4 into file 7.
abbrev two_edits : List VersionEdit
two_edits =
    edit_of [] ((0, file 6 99 102) ∷ [])
    ∷ edit_of ((0, 6) ∷ (1, 4) ∷ []) ((1, file 7 99 102) ∷ [])
    ∷ []

abbrev no_pointers : ℕ → List ℕ
no_pointers level = []

save_to_run :
    map
      (λ f. f.number)
      (save_to bytewise_comparator three_files
        (apply_all bytewise_comparator two_edits (new_builder no_pointers))
        1)
    ≡ 3 ∷ 7 ∷ 5 ∷ []
unfolding save_to apply_all apply save_level apply_new apply_deleted insert_file fresh_file
    by_smallest_key maybe_add_files upper_bound erase internal_compare bytewise_comparator
    extract_user_key extract_tag
save_to_run = refl

save_to-apply_all_example :
    has 4 (
      save_to bytewise_comparator three_files
        (apply_all bytewise_comparator two_edits (new_builder no_pointers))
        1)
    ≡ present 1 4 two_edits true
save_to-apply_all_example =
    save_to-apply_all bytewise_comparator three_files no_pointers two_edits 1 4
      bytewise_comparator-IsOrder

three_files-IsInOrder : IsInOrder bytewise_comparator (three_files 1)
unfolding by_smallest_key internal_compare bytewise_comparator extract_user_key extract_tag
three_files-IsInOrder = ((refl, (refl, tt)), ((refl, tt), (tt, tt)))

save_to-IsInOrder_example : IsInOrder bytewise_comparator (
    save_to bytewise_comparator three_files
      (apply_all bytewise_comparator two_edits (new_builder no_pointers))
      1)
save_to-IsInOrder_example =
    save_to-IsInOrder bytewise_comparator three_files no_pointers two_edits 1
      bytewise_comparator-IsOrder three_files-IsInOrder
