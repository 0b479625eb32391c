-- ===== src/Db/VersionSet/Tests.antt =====
-- Runs of FindFile and SomeFileOverlapsRange on a level of two files.
use Prim.Native.Nat.{gt}
use level_db.Common.{
  ℕ, zero, suc, ◌^◌, ◌≤◌, true, false, List, [], ◌∷◌, get_elem?, some, ◌≡◌, ◌≢◌, refl, arith, ◌⊎◌,
  inl, inr,
}
use mathlib.Core.Path.{subst}
use level_db.Util.Coding.{decode_fixed64}
use level_db.Util.Comparator.{bytewise_comparator}
use level_db.Util.Comparator.Bytewise.{bytewise_comparator-IsOrder}
use level_db.Db.Format.{extract_user_key, extract_tag, internal_compare}
use level_db.Db.VersionEdit.{FileMetaData, file_meta_data}
use level_db.Db.VersionSet.{largest_below, find_loop, find_file, some_file_overlaps_range}
use level_db.Db.VersionSet.Overlap.{IsSorted, some_file_overlaps_range_sorted}

-- The internal key of the user key `b` at sequence number 5.
abbrev pub key_of : ℕ → List ℕ
key_of b = b ∷ 1 ∷ 5 ∷ 0 ∷ 0 ∷ 0 ∷ 0 ∷ 0 ∷ 0 ∷ []

abbrev first_file : FileMetaData
first_file = file_meta_data 1 100 (key_of 97) (key_of 99)

abbrev second_file : FileMetaData
second_file = file_meta_data 2 100 (key_of 101) (key_of 103)

abbrev pub level : List FileMetaData
level = first_file ∷ second_file ∷ []

at_level :
    (i : ℕ) (f : FileMetaData)
    → get_elem? level i ≡ some f
    → ((i ≡ 0) × (first_file ≡ f)) ⊎ ((i ≡ 1) × (second_file ≡ f))
at_level zero f e = inl (refl, cc)
at_level (suc zero) f e = inr (refl, cc)
at_level (suc (suc i)) f e = absurd cc

abbrev OrderOf : FileMetaData → FileMetaData → Type 0
OrderOf f g =
    (internal_compare bytewise_comparator f.largest g.largest ≢ gt)
    × (bytewise_comparator.compare (extract_user_key f.smallest) (extract_user_key g.smallest) ≢ gt)

first_self : OrderOf first_file first_file
unfolding bytewise_comparator internal_compare extract_user_key extract_tag
first_self = ((λ e. cc), (λ e. cc))

first_second : OrderOf first_file second_file
unfolding bytewise_comparator internal_compare extract_user_key extract_tag
first_second = ((λ e. cc), (λ e. cc))

second_self : OrderOf second_file second_file
unfolding bytewise_comparator internal_compare extract_user_key extract_tag
second_self = ((λ e. cc), (λ e. cc))

as-OrderOf : (a b f g : FileMetaData) → a ≡ f → b ≡ g → OrderOf a b → OrderOf f g
as-OrderOf a b f g p q o = subst (λ x. OrderOf x g) p (subst (OrderOf a) q o)

level-OrderOf :
    (i j : ℕ) (f g : FileMetaData)
    → i ≤ j
    → get_elem? level i ≡ some f
    → get_elem? level j ≡ some g
    → OrderOf f g
level-OrderOf i j f g h ef eg = elim (at_level i f ef) [
  | inl (i0, p) ↦ elim (at_level j g eg) [
    | inl (j0, q) ↦ as-OrderOf first_file first_file f g p q first_self
    | inr (j1, q) ↦ as-OrderOf first_file second_file f g p q first_second
  ]
  | inr (i1, p) ↦ elim (at_level j g eg) [
    | inl (j0, q) ↦ absurd (omega (arith, i1, j0, h))
    | inr (j1, q) ↦ as-OrderOf second_file second_file f g p q second_self
  ]
]

level_tag : (i : ℕ) (f : FileMetaData) → get_elem? level i ≡ some f → extract_tag f.largest ≤ 2 ^ 63
unfolding extract_tag decode_fixed64
level_tag i f e = elim (at_level i f e) [
  | inl (i0, p) ↦ subst (λ x. extract_tag x.largest ≤ 2 ^ 63) p (omega arith)
  | inr (i1, p) ↦ subst (λ x. extract_tag x.largest ≤ 2 ^ 63) p (omega arith)
]

pub level-IsSorted : IsSorted bytewise_comparator level
level-IsSorted = record {
  largest_order = λ i j f g h ef eg. (level-OrderOf i j f g h ef eg).0;
  smallest_order = λ i j f g h ef eg. (level-OrderOf i j f g h ef eg).1;
  largest_tag = λ i f e. omega (arith, level_tag i f e);
}

find_file_run : find_file bytewise_comparator level (key_of 100) ≡ 1
unfolding find_file find_loop largest_below internal_compare bytewise_comparator extract_user_key
find_file_run = refl

some_file_overlaps_range_sorted_example :
    some_file_overlaps_range bytewise_comparator true level (some (100 ∷ [])) (some (102 ∷ []))
    ≡ some_file_overlaps_range bytewise_comparator false level (some (100 ∷ [])) (some (102 ∷ []))
some_file_overlaps_range_sorted_example =
    some_file_overlaps_range_sorted bytewise_comparator bytewise_comparator-IsOrder level
      level-IsSorted (omega arith) (some (100 ∷ [])) (some (102 ∷ []))
