-- ===== src/Db/Compaction.antt =====
-- db/db_impl.cpp, db/version_set.cpp: which entries a compaction drops.
--
-- The levels that IsBaseLevelForKey looks at are lists of files; an index of `level_ptrs_` is the
-- list of the files from there on.
pub mod Base
pub mod Reads
pub mod Unchanged
pub mod Kept
mod Tests
use Prim.Native.Nat.{Ordering, eq}
use level_db.Common.{
  ℕ, Bool, true, false, not, ◌&&◌, List, [], ◌∷◌, leb, if◌then◌else◌, Option, none, some,
}
use level_db.Util.Slice.{is_lt, is_gt}
use level_db.Util.Comparator.{Comparator}
use level_db.Db.Format.{
  ParsedInternalKey, ValueType, deletion, value, max_sequence_number, parse_internal_key,
  extract_user_key,
}
use level_db.Db.VersionEdit.{FileMetaData}

-- `current_user_key`, none without `has_current_user_key`; `last_sequence_for_key`; `level_ptrs_`.
pub record DropState : Type 0 where
  pub current_user_key : Option (List ℕ)
  pub last_sequence_for_key : ℕ
  pub level_files : List (List FileMetaData)

abbrev pub is_deletion : ValueType → Bool
is_deletion deletion = true
is_deletion value = false

module _ (user_comparator : Comparator) where
  open user_comparator use {compare}

  -- One level: whether a file has the key in its range, and the files from the stop on.
  unfoldable pub advance : List FileMetaData → List ℕ → Bool × List FileMetaData
  advance [] user_key = (false, [])
  advance (f ∷ files) user_key =
      let rest = advance files user_key in
      if is_gt (compare user_key (extract_user_key f.largest))
      then rest
      else (not (is_lt (compare user_key (extract_user_key f.smallest))), f ∷ files)

  unfoldable pub is_base_level_for_key :
      List (List FileMetaData) → List ℕ → Bool × List (List FileMetaData)
  is_base_level_for_key [] user_key = (true, [])
  is_base_level_for_key (files ∷ levels) user_key =
      let (hit, files') = advance files user_key in
      let (base, levels') = is_base_level_for_key levels user_key in
      if hit then (false, files' ∷ levels) else (base, files' ∷ levels')

  unfoldable pub is_first_occurrence : Option (List ℕ) → List ℕ → Bool
  is_first_occurrence none user_key = true
  is_first_occurrence (some current) user_key = elim (compare user_key current) [
    | Ordering.eq ↦ false
    | _ ↦ true
  ]

  -- The state behind the first test.
  unfoldable pub at_key : DropState → List ℕ → DropState
  at_key st user_key =
      if is_first_occurrence st.current_user_key user_key
      then (record st {
        current_user_key = some user_key;
        last_sequence_for_key = max_sequence_number;
      })
      else st

  module _ (smallest_snapshot : ℕ) where
    -- Whether a parsed key is dropped.
    unfoldable pub decide_parsed : DropState → ParsedInternalKey → Bool × DropState
    decide_parsed st0 ikey =
        let st = at_key st0 ikey.user_key in
        let (base, levels) = is_base_level_for_key st.level_files ikey.user_key in
        let next = record st { last_sequence_for_key = ikey.sequence } in
        if leb st.last_sequence_for_key smallest_snapshot
        then (true, next)
        else if is_deletion ikey.type && leb ikey.sequence smallest_snapshot
        then (base, record next { level_files = levels })
        else (false, next)

    -- Keys that do not parse are kept, and the next key counts as new.
    unfoldable pub decide : DropState → List ℕ → Bool × DropState
    decide st key = elim (parse_internal_key key) [
      | none ↦ (
        false,
        record st { current_user_key = none; last_sequence_for_key = max_sequence_number },
      )
      | some ikey ↦ decide_parsed st ikey
    ]

    -- What the loop adds to the output tables.
    unfoldable pub compact : DropState → List (List ℕ × List ℕ) → List (List ℕ × List ℕ)
    compact st [] = []
    compact st ((key, v) ∷ input) =
        let (drop, st') = decide st key in
        let rest = compact st' input in if drop then rest else (key, v) ∷ rest

-- The state before the loop.
abbrev pub first_state : List (List FileMetaData) → DropState
first_state levels = record {
  current_user_key = none;
  last_sequence_for_key = max_sequence_number;
  level_files = levels;
}
