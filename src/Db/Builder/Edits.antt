-- ===== src/Db/Builder/Edits.antt =====
-- Applying a sequence of edits at once leaves the files that the edits leave one after another.
use level_db.Common.{
  ℕ, Bool, not, ◌&&◌, ◌||◌, List, [], ◌∷◌, ◌==◌, ==_iff, ◌≡◌, refl, sym, ap, ◌∙◌, arith, Bool-cases,
  inl, inr,
}
use level_db.Util.Comparator.{Comparator, IsOrder}
use level_db.Db.VersionEdit.{FileMetaData, VersionEdit}
use level_db.Db.Builder.{
  LevelState, Builder, update, count, erase, insert_file, fresh_file, apply_deleted, apply_new,
  apply, apply_all, save_to, new_builder,
}
use level_db.Db.Builder.Contents.{
  has, has-save_level, has-insert_file, count-erase, deletes, adds, apply_deleted_lem,
}

-- Whether the number is in a level behind some edits, one after another.
abbrev pub present : ℕ → ℕ → List VersionEdit → Bool → Bool
present level n [] before = before
present level n (edit ∷ edits) before =
    present level n edits
      (adds level n edit.new_files || (before && not (deletes level n edit.deleted_files)))

module _ (c : Comparator) (ord : IsOrder c) (n : ℕ) (base : List FileMetaData) where
  -- What SaveTo would leave from this state.
  abbrev inside : LevelState → Bool
  inside state = (has n base || has n state.added_files) && not (count n state.deleted_files)

  inside_new :
      (f : FileMetaData) (state : LevelState)
      → inside (record {
        deleted_files = erase f.number state.deleted_files;
        added_files = insert_file c (fresh_file c f) state.added_files;
      })
        ≡ (f.number == n) || inside state
  unfolding fresh_file
  inside_new f state = ground (
    arith,
    has-insert_file c ord n (fresh_file c f) state.added_files,
    count-erase n f.number state.deleted_files,
  )

  inside-apply_new :
      (level : ℕ) (pairs : List (ℕ × FileMetaData)) (levels : ℕ → LevelState)
      → inside (apply_new c pairs levels level) ≡ adds level n pairs || inside (levels level)
  unfolding apply_new
  inside-apply_new level [] levels = refl
  inside-apply_new level ((l, f) ∷ pairs) levels =
      let state = levels l in
      let state' : LevelState = record {
        deleted_files = erase f.number state.deleted_files;
        added_files = insert_file c (fresh_file c f) state.added_files;
      } in
      let ih = inside-apply_new level pairs (update levels l state') in
      elim (Bool-cases (level == l)) [
        | inl h ↦
            let same = ap levels ((==_iff level l).0 h) in
            let there : inside (update levels l state' level) ≡ inside state' = rw h refl in
            let here =
              there ∙ inside_new f state ∙ ap (λ st. (f.number == n) || inside st) (sym same) in
            ground (arith, ih, here, h)
        | inr h ↦
            let there : inside (update levels l state' level) ≡ inside (levels level) = rw h refl in
            ground (arith, ih, there, h)
      ]

  -- One edit.
  inside-apply :
      (level : ℕ) (edit : VersionEdit) (b : Builder)
      → inside ((apply c edit b).levels level)
        ≡ adds level n edit.new_files
          || (inside (b.levels level) && not (deletes level n edit.deleted_files))
  unfolding apply
  inside-apply level edit b =
      let (counts, keeps) = apply_deleted_lem c level n edit.deleted_files b.levels in
      let kept = ap (has n) keeps in
      ground (
        arith,
        inside-apply_new level edit.new_files (apply_deleted c edit.deleted_files b.levels),
        counts,
        kept,
      )

  inside-apply_all :
      (level : ℕ) (edits : List VersionEdit) (b : Builder)
      → inside ((apply_all c edits b).levels level)
        ≡ present level n edits (inside (b.levels level))
  unfolding apply_all
  inside-apply_all level [] b = refl
  inside-apply_all level (edit ∷ edits) b =
      inside-apply_all level edits (apply c edit b)
      ∙ ap (present level n edits) (inside-apply level edit b)

module _ (c : Comparator) where
  -- If the user comparator is a total order, then SaveTo, after any edits were applied in their
  -- order to a builder on a version, leaves in each level exactly the file numbers that the edits
  -- leave one after another: those that an edit adds, and those that were there and that it does
  -- not delete.
  pub save_to-apply_all :
      (base : ℕ → List FileMetaData) (pointers : ℕ → List ℕ) (edits : List VersionEdit)
      (level n : ℕ)
      → IsOrder c
      → has n (save_to c base (apply_all c edits (new_builder pointers)) level)
        ≡ present level n edits (has n (base level))
  unfolding save_to
  save_to-apply_all base pointers edits level n ord =
      let state = (apply_all c edits (new_builder pointers)).levels level in
      has-save_level c n state.deleted_files (base level) state.added_files
      ∙ inside-apply_all c ord n (base level) level edits (new_builder pointers)
      ∙ ap (present level n edits) (ground arith)
