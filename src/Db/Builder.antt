-- ===== src/Db/Builder.antt =====
-- db/version_set.cpp: VersionSet::Builder, which applies version edits to the files of a version.
--
-- The arrays over the levels are functions; a set of file numbers is a list of them. What
-- BySmallestKey orders is a sorted list. The asserts of MaybeAddFile and SaveTo are left out.
pub mod Contents
pub mod Edits
pub mod Order
pub mod Saved
mod Tests
use Prim.Native.Nat.{Ordering}
use level_db.Common.{
  ℕ, ◌+◌, ◌/◌, Bool, true, false, ◌||◌, List, [], ◌∷◌, ◌++◌, ltb, ◌==◌, if◌then◌else◌,
}
use level_db.Util.Comparator.{Comparator}
use level_db.Db.Format.{internal_compare}
use level_db.Db.VersionEdit.{FileMetaData, VersionEdit}

pub record LevelState : Type 0 where
  pub deleted_files : List ℕ
  pub added_files : List FileMetaData

-- `levels_`, with `vset_->compact_pointer_`, which Apply sets.
pub record Builder : Type 0 where
  pub levels : ℕ → LevelState
  pub compact_pointer : ℕ → List ℕ

abbrev pub update {ℓ} : {A : Type ℓ} → (ℕ → A) → ℕ → A → ℕ → A
update f level a i = if i == level then a else f i

-- std::set::count, insert and erase on file numbers.
abbrev pub count : ℕ → List ℕ → Bool
count n [] = false
count n (m ∷ numbers) = m == n || count n numbers

unfoldable pub erase : ℕ → List ℕ → List ℕ
erase n [] = []
erase n (m ∷ numbers) = let rest = erase n numbers in if m == n then rest else m ∷ rest

module _ (user_comparator : Comparator) where
  -- BySmallestKey
  unfoldable pub by_smallest_key : FileMetaData → FileMetaData → Bool
  by_smallest_key f1 f2 = elim (internal_compare user_comparator f1.smallest f2.smallest) [
    | Ordering.lt ↦ true
    | Ordering.gt ↦ false
    | Ordering.eq ↦ ltb f1.number f2.number
  ]

  -- FileSet::insert: an equivalent file that is there stays.
  unfoldable pub insert_file : FileMetaData → List FileMetaData → List FileMetaData
  insert_file f [] = f ∷ []
  insert_file f (g ∷ files) =
      let rest = insert_file f files in
      if by_smallest_key f g
      then f ∷ g ∷ files
      else if by_smallest_key g f
      then g ∷ rest
      else g ∷ files

  -- The copy of a new file: one seek for every 16 KB, and a hundred at least. The int that holds
  -- the quotient is wide enough for files below 2^45 bytes.
  unfoldable pub fresh_file : FileMetaData → FileMetaData
  fresh_file f =
      let seeks = f.file_size / 16384 in
      record f { refs = 1; allowed_seeks = if ltb seeks 100 then 100 else seeks }

  unfoldable pub apply_pointers : List (ℕ × List ℕ) → (ℕ → List ℕ) → ℕ → List ℕ
  apply_pointers [] pointers = pointers
  apply_pointers ((level, key) ∷ rest) pointers = apply_pointers rest (update pointers level key)

  unfoldable pub apply_deleted : List (ℕ × ℕ) → (ℕ → LevelState) → ℕ → LevelState
  apply_deleted [] levels = levels
  apply_deleted ((level, number) ∷ rest) levels =
      let state = levels level in
      apply_deleted rest
        (update levels level (record state { deleted_files = number ∷ state.deleted_files }))

  unfoldable pub apply_new : List (ℕ × FileMetaData) → (ℕ → LevelState) → ℕ → LevelState
  apply_new [] levels = levels
  apply_new ((level, f) ∷ rest) levels =
      let state = levels level in
      apply_new rest (
        update levels level (record {
          deleted_files = erase f.number state.deleted_files;
          added_files = insert_file (fresh_file f) state.added_files;
        }))

  -- Builder::Apply
  unfoldable pub apply : VersionEdit → Builder → Builder
  apply edit builder = record {
    levels = apply_new edit.new_files (apply_deleted edit.deleted_files builder.levels);
    compact_pointer = apply_pointers edit.compact_pointers builder.compact_pointer;
  }

  -- MaybeAddFile on some files in turn: what it appends to the files of the level.
  unfoldable pub maybe_add_files : List ℕ → List FileMetaData → List FileMetaData
  maybe_add_files deleted [] = []
  maybe_add_files deleted (f ∷ files) =
      let rest = maybe_add_files deleted files in
      if count f.number deleted then rest else (record f { refs = f.refs + 1 }) ∷ rest

  -- std::upper_bound on a sorted range: the files up to the one, and those from there on.
  unfoldable pub upper_bound :
      FileMetaData → List FileMetaData → List FileMetaData × List FileMetaData
  upper_bound f [] = ([], [])
  upper_bound f (g ∷ files) =
      let (front, rest) = upper_bound f files in
      if by_smallest_key f g then ([], g ∷ files) else (g ∷ front, rest)

  -- SaveTo in one level.
  unfoldable pub save_level : List ℕ → List FileMetaData → List FileMetaData → List FileMetaData
  save_level deleted base [] = maybe_add_files deleted base
  save_level deleted base (f ∷ added) =
      let (front, rest) = upper_bound f base in
      maybe_add_files deleted front
      ++ (maybe_add_files deleted (f ∷ []) ++ save_level deleted rest added)

  unfoldable pub save_to : (ℕ → List FileMetaData) → Builder → ℕ → List FileMetaData
  save_to base builder level =
      let state = builder.levels level in
      save_level state.deleted_files (base level) state.added_files

-- The builder for a version, before any edit.
abbrev pub new_builder : (ℕ → List ℕ) → Builder
new_builder compact_pointer = record {
  levels = λ level. record { deleted_files = []; added_files = [] };
  compact_pointer = compact_pointer;
}

-- The edits of a MANIFEST in their order.
unfoldable pub apply_all : Comparator → List VersionEdit → Builder → Builder
apply_all user_comparator [] builder = builder
apply_all user_comparator (edit ∷ edits) builder =
    apply_all user_comparator edits (apply user_comparator edit builder)
