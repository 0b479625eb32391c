-- ===== src/Db/Builder/Contents.antt =====
-- Which files SaveTo leaves in each level.

use level_db.Common.{
  ℕ, Bool, true, false, not, ◌&&◌, ◌||◌, List, [], ◌∷◌, ◌++◌, ◌==◌, ==_iff, ◌≡◌, refl, ap, arith,
  Bool-cases, inl, inr,
}
use level_db.Util.Slice.Order.{flip}
use level_db.Util.Comparator.{Comparator, IsOrder}
use level_db.Db.Format.{internal_compare, internal_key_comparator}
use level_db.Db.Format.Order.{internal_key_comparator-IsOrder}
use level_db.Db.VersionEdit.{FileMetaData}
use level_db.Db.Builder.{
  LevelState, update, count, erase, by_smallest_key, insert_file, apply_deleted, maybe_add_files,
  upper_bound, save_level,
}

-- A file with the number is in the list.
abbrev pub has : ℕ → List FileMetaData → Bool
has n [] = false
has n (f ∷ files) = f.number == n || has n files

-- A pair of the edit deletes or adds the number at the level.
abbrev pub deletes : ℕ → ℕ → List (ℕ × ℕ) → Bool
deletes level n [] = false
deletes level n ((l, m) ∷ pairs) = (level == l) && (m == n) || deletes level n pairs

abbrev pub adds : ℕ → ℕ → List (ℕ × FileMetaData) → Bool
adds level n [] = false
adds level n ((l, f) ∷ pairs) = (level == l) && (f.number == n) || adds level n pairs

has-append : (n : ℕ) (fs gs : List FileMetaData) → has n (fs ++ gs) ≡ has n fs || has n gs
has-append n [] gs = refl
has-append n (f ∷ fs) gs = ground (arith, has-append n fs gs)

count-same : (m n : ℕ) (numbers : List ℕ) → (m == n) ≡ true → count m numbers ≡ count n numbers
count-same m n numbers h = ap (λ (k : ℕ). count k numbers) ((==_iff m n).0 h)

has-maybe_add_files :
    (c : Comparator) (n : ℕ) (deleted : List ℕ) (files : List FileMetaData)
    → has n (maybe_add_files c deleted files) ≡ has n files && not (count n deleted)
unfolding maybe_add_files
has-maybe_add_files c n deleted [] = refl
has-maybe_add_files c n deleted (f ∷ files) =
    ground (arith, has-maybe_add_files c n deleted files, count-same f.number n deleted)

pub count-erase :
    (n m : ℕ) (numbers : List ℕ) → count n (erase m numbers) ≡ count n numbers && not (m == n)
unfolding erase
count-erase n m [] = refl
count-erase n m (k ∷ numbers) =
    ground (arith, count-erase n m numbers, ==_iff k m, ==_iff k n, ==_iff m n)

module _ (c : Comparator) where
  has-upper_bound :
      (n : ℕ) (f : FileMetaData) (files : List FileMetaData)
      → has n (upper_bound c f files).0 || has n (upper_bound c f files).1 ≡ has n files
  unfolding upper_bound
  has-upper_bound n f [] = refl
  has-upper_bound n f (g ∷ files) = ground (arith, has-upper_bound n f files)

  pub has-save_level :
      (n : ℕ) (deleted : List ℕ) (base added : List FileMetaData)
      → has n (save_level c deleted base added)
        ≡ (has n base || has n added) && not (count n deleted)
  unfolding save_level
  has-save_level n deleted base [] = ground (arith, has-maybe_add_files c n deleted base)
  has-save_level n deleted base (f ∷ added) =
      let front = (upper_bound c f base).0 in
      let rest = (upper_bound c f base).1 in
      let one = maybe_add_files c deleted (f ∷ []) in
      ground (
        arith,
        has-append n (maybe_add_files c deleted front) (one ++ save_level c deleted rest added),
        has-append n one (save_level c deleted rest added),
        has-maybe_add_files c n deleted front,
        has-maybe_add_files c n deleted (f ∷ []),
        has-save_level n deleted rest added,
        has-upper_bound n f base,
      )

  module _ (ord : IsOrder c) where
    pub internal_swap : (a b : List ℕ) → internal_compare c b a ≡ flip (internal_compare c a b)
    unfolding internal_key_comparator
    internal_swap = (internal_key_comparator-IsOrder c ord).compare_swap

    -- Two files that neither comes before the other have one number.
    same_number :
        (f g : FileMetaData)
        → by_smallest_key c f g ≡ false
        → by_smallest_key c g f ≡ false
        → f.number ≡ g.number
    unfolding by_smallest_key
    same_number f g h h' = ground (arith, h, h', internal_swap f.smallest g.smallest)

    pub has-insert_file :
        (n : ℕ) (f : FileMetaData) (files : List FileMetaData)
        → has n (insert_file c f files) ≡ (f.number == n) || has n files
    unfolding insert_file
    has-insert_file n f [] = refl
    has-insert_file n f (g ∷ files) = ground (arith, has-insert_file n f files, same_number f g)

  pub apply_deleted_lem :
      (level n : ℕ) (pairs : List (ℕ × ℕ)) (levels : ℕ → LevelState)
      → (count n (apply_deleted c pairs levels level).deleted_files
          ≡ count n (levels level).deleted_files || deletes level n pairs)
        × ((apply_deleted c pairs levels level).added_files ≡ (levels level).added_files)
  unfolding apply_deleted
  apply_deleted_lem level n [] levels = (ground arith, refl)
  apply_deleted_lem level n ((l, m) ∷ pairs) levels =
      let state = levels l in
      let levels' = update levels l (record state { deleted_files = m ∷ state.deleted_files }) in
      let (counts, keeps) = apply_deleted_lem level n pairs levels' in
      elim (Bool-cases (level == l)) [
        | inl h ↦
            let same = ap levels ((==_iff level l).0 h) in
            (ground (arith, counts, h, same), ground (arith, keeps, h, same))
        | inr h ↦ (ground (arith, counts, h), ground (arith, keeps, h))
      ]
