-- ===== src/Db/Builder/Saved.antt =====
-- The order of the files that SaveTo leaves after any edits.
use mathlib.Core.Path.{subst}
use level_db.Common.{ℕ, List, [], ◌∷◌, ◌==◌, sym, Bool-cases, inl, inr}
use level_db.Util.Comparator.{Comparator, IsOrder}
use level_db.Db.VersionEdit.{FileMetaData, VersionEdit}
use level_db.Db.Builder.{
  LevelState, Builder, update, erase, insert_file, fresh_file, apply_deleted, apply_new, apply,
  apply_all, save_to, new_builder,
}
use level_db.Db.Builder.Contents.{apply_deleted_lem}
use level_db.Db.Builder.Order.{IsInOrder, save_level-IsInOrder, insert_file-IsInOrder}

module _ (c : Comparator) (ord : IsOrder c) where
  abbrev AddedInOrder : (ℕ → LevelState) → Type 0
  AddedInOrder levels = (level : ℕ) → IsInOrder c (levels level).added_files

  update-AddedInOrder :
      (levels : ℕ → LevelState) (l : ℕ) (state : LevelState)
      → AddedInOrder levels
      → IsInOrder c state.added_files
      → AddedInOrder (update levels l state)
  update-AddedInOrder levels l state a h level = elim (Bool-cases (level == l)) [
    | inl e ↦ rw e h
    | inr e ↦ rw e (a level)
  ]

  apply_new-AddedInOrder :
      (pairs : List (ℕ × FileMetaData)) (levels : ℕ → LevelState)
      → AddedInOrder levels
      → AddedInOrder (apply_new c pairs levels)
  unfolding apply_new
  apply_new-AddedInOrder [] levels a = a
  apply_new-AddedInOrder ((l, f) ∷ pairs) levels a =
      let state = levels l in
      let state' : LevelState = record {
        deleted_files = erase f.number state.deleted_files;
        added_files = insert_file c (fresh_file c f) state.added_files;
      } in
      apply_new-AddedInOrder pairs (update levels l state') (
        update-AddedInOrder levels l state' a
          (insert_file-IsInOrder c ord (fresh_file c f) state.added_files (a l)))

  apply-AddedInOrder :
      (edit : VersionEdit) (b : Builder)
      → AddedInOrder b.levels
      → AddedInOrder (apply c edit b).levels
  unfolding apply
  apply-AddedInOrder edit b a =
      apply_new-AddedInOrder edit.new_files (apply_deleted c edit.deleted_files b.levels) (λ level.
        subst (IsInOrder c) (sym (apply_deleted_lem c level 0 edit.deleted_files b.levels).1)
          (a level))

  apply_all-AddedInOrder :
      (edits : List VersionEdit) (b : Builder)
      → AddedInOrder b.levels
      → AddedInOrder (apply_all c edits b).levels
  unfolding apply_all
  apply_all-AddedInOrder [] b a = a
  apply_all-AddedInOrder (edit ∷ edits) b a =
      apply_all-AddedInOrder edits (apply c edit b) (apply-AddedInOrder edit b a)

module _ (c : Comparator) where
  -- If the user comparator is a total order and the files of a level of the base version are in
  -- the order of BySmallestKey, then the files that SaveTo leaves in that level after any edits
  -- are in that order.
  pub save_to-IsInOrder :
      (base : ℕ → List FileMetaData) (pointers : ℕ → List ℕ) (edits : List VersionEdit) (level : ℕ)
      → IsOrder c
      → IsInOrder c (base level)
      → IsInOrder c (save_to c base (apply_all c edits (new_builder pointers)) level)
  unfolding save_to
  save_to-IsInOrder base pointers edits level ord h =
      let state = (apply_all c edits (new_builder pointers)).levels level in
      save_level-IsInOrder c ord state.deleted_files (base level) state.added_files h
        (apply_all-AddedInOrder c ord edits (new_builder pointers) (λ l. tt) level)
