-- ===== src/Db/VersionSet/Overlap.antt =====
-- FindFile and SomeFileOverlapsRange on the sorted files of a level.
use Prim.Native.Nat.{Ordering, lt, eq, gt}
use level_db.Common.{
  ℕ, zero, suc, ◌+◌, ◌*◌, ◌^◌, ◌<◌, ◌≤◌, Bool, true, false, ◌||◌, List, [], ◌∷◌, length, get_elem?,
  Option, none, some, ◌≡◌, ◌≢◌, refl, sym, ap, ◌∙◌, arith, Bool-cases, Option-cases, ◌⊎◌, inl, inr,
  get_elem?-some, get_elem?-length,
}
use level_db.Util.Slice.{is_lt}
use level_db.Util.Comparator.{Comparator, IsOrder}
use level_db.Util.Comparator.Facts.{lt_of_le-lt, lt_of_lt-le}
use level_db.Db.Format.{
  value, max_sequence_number, append_internal_key, extract_user_key, extract_tag, internal_compare,
  internal_key_comparator,
}
use level_db.Db.Format.Keys.{
  extract_user_key-tagged, extract_tag-tagged, append_internal_key-tagged,
}
use level_db.Db.Format.Order.{internal_key_comparator-IsOrder}
use level_db.Db.VersionEdit.{FileMetaData}
use level_db.Db.VersionSet.{
  largest_below, after_file, before_file, find_file, any_overlaps, first_index,
  some_file_overlaps_range,
}
use level_db.Db.VersionSet.Search.{Splits, find_loop-Splits}

-- The files come in the order of their largest keys, and of their smallest user keys.
pub record IsSorted (c : Comparator) (files : List FileMetaData) : Type 0 where
  pub largest_order :
      (i j : ℕ) (f g : FileMetaData)
      → i ≤ j
      → get_elem? files i ≡ some f
      → get_elem? files j ≡ some g
      → internal_compare c f.largest g.largest ≢ gt
  pub smallest_order :
      (i j : ℕ) (f g : FileMetaData)
      → i ≤ j
      → get_elem? files i ≡ some f
      → get_elem? files j ≡ some g
      → c.compare (extract_user_key f.smallest) (extract_user_key g.smallest) ≢ gt
  -- The tags are those of keys that the database writes.
  pub largest_tag :
      (i : ℕ) (f : FileMetaData)
      → get_elem? files i ≡ some f
      → extract_tag f.largest ≤ max_sequence_number * 256 + 1

is_lt-lt : (o : Ordering) → is_lt o ≡ true → o ≡ lt
is_lt-lt lt e = refl
is_lt-lt eq e = absurd cc
is_lt-lt gt e = absurd cc

-- A range that ends before a file ends before the later ones.
before_file_later :
    (c : Comparator) (largest : Option (List ℕ)) (f g : FileMetaData)
    → IsOrder c
    → c.compare (extract_user_key f.smallest) (extract_user_key g.smallest) ≢ gt
    → before_file c largest f ≡ true
    → before_file c largest g ≡ true
unfolding before_file
before_file_later c none f g ord h b = absurd cc
before_file_later c (some key) f g ord h b = ap is_lt (
    lt_of_lt-le c ord key (extract_user_key f.smallest) (extract_user_key g.smallest)
      (is_lt-lt (c.compare key (extract_user_key f.smallest)) b) h)

module _ (c : Comparator) (ord : IsOrder c) (files : List FileMetaData)
    (sorted : IsSorted c files) where
  pub below_of :
      (key : List ℕ) (i : ℕ) (f : FileMetaData)
      → get_elem? files i ≡ some f
      → largest_below c files key i ≡ is_lt (internal_compare c f.largest key)
  unfolding largest_below
  below_of key i f e = rw (e, largest_below)

  internal_lt_of_le-lt :
      (a b d : List ℕ)
      → internal_compare c a b ≢ gt
      → internal_compare c b d ≡ lt
      → internal_compare c a d ≡ lt
  unfolding internal_key_comparator
  internal_lt_of_le-lt a b d p q =
      lt_of_le-lt (internal_key_comparator c) (internal_key_comparator-IsOrder c ord) a b d p q

  downward :
      (key : List ℕ) (i j : ℕ)
      → i ≤ j
      → j < length files
      → largest_below c files key j ≡ true
      → largest_below c files key i ≡ true
  downward key i j h hj e =
      let (g, eg) = get_elem?-some files j hj in
      let (f, ef) = get_elem?-some files i (omega arith) in
      below_of key i f ef
      ∙ ap is_lt (
          internal_lt_of_le-lt f.largest g.largest key (sorted.largest_order i j f g h ef eg)
            (is_lt-lt (internal_compare c g.largest key) (sym (below_of key j g eg) ∙ e)))

  -- If the user comparator is a total order and fewer than 2^31 files are sorted, FindFile
  -- returns the index that splits them: the largest key of every file below it is below the key,
  -- and that of no file from it on is.
  pub find_file-Splits :
      (key : List ℕ)
      → length files < 2 ^ 31
      → Splits (largest_below c files key) (length files) (find_file c files key)
  unfolding find_file
  find_file-Splits key few =
      find_loop-Splits (largest_below c files key) (length files) few (downward key) (length files)
        0 (length files) (omega arith) (omega arith) (omega arith) (λ j h. absurd (omega arith))
        (λ j h h'. absurd (omega arith))

  abbrev seek_key : List ℕ → List ℕ
  seek_key user_key =
      append_internal_key []
        (record { user_key = user_key; sequence = max_sequence_number; type = value })

  -- The earliest internal key of a user key is above a largest key exactly if the user key is.
  seek_above :
      (user_key : List ℕ) (f : FileMetaData)
      → extract_tag f.largest ≤ max_sequence_number * 256 + 1
      → is_lt (internal_compare c f.largest (seek_key user_key)) ≡ after_file c (some user_key) f
  unfolding internal_compare after_file
  seek_above user_key f h =
      rw
        (
          append_internal_key-tagged []
              (record { user_key = user_key; sequence = max_sequence_number; type = value })
              (omega arith),
          extract_user_key-tagged user_key (max_sequence_number * 256 + 1),
          extract_tag-tagged user_key (max_sequence_number * 256 + 1) (omega arith),
          ord.compare_swap (extract_user_key f.largest) user_key,
        )
        (ground (arith, h))

  -- The file at the index is the first that the range does not come after.
  abbrev IsFirst : Option (List ℕ) → ℕ → Type 0
  IsFirst smallest r =
      ((j : ℕ) (f : FileMetaData)
        → j < r
        → get_elem? files j ≡ some f
        → after_file c smallest f ≡ true)
      × ((j : ℕ) (f : FileMetaData)
          → r ≤ j
          → get_elem? files j ≡ some f
          → after_file c smallest f ≡ false)

  first_index-IsFirst :
      (smallest : Option (List ℕ))
      → length files < 2 ^ 31
      → IsFirst smallest (first_index c files smallest)
  unfolding first_index
  first_index-IsFirst none few = unfold after_file in ((λ j f h e. elim h [ ]), (λ j f h e. refl))
  first_index-IsFirst (some user_key) few =
      let (bound, lo, hi) = find_file-Splits (seek_key user_key) few in
      (
        (λ j f h e. sym (at j f e) ∙ lo j h),
        (λ j f h e. sym (at j f e) ∙ hi j h (get_elem?-length files j f e)),
      )
    where
      at :
          (j : ℕ) (f : FileMetaData)
          → get_elem? files j ≡ some f
          → largest_below c files (seek_key user_key) j ≡ after_file c (some user_key) f
      at j f e =
          below_of (seek_key user_key) j f e ∙ seek_above user_key f (sorted.largest_tag j f e)

le_or_lt : (m n : ℕ) → (m ≤ n) ⊎ (n < m)
le_or_lt m n = omega arith

or_true : (b : Bool) → b || true ≡ true
or_true true = refl
or_true false = refl

module _ (c : Comparator) (s l : Option (List ℕ)) where
  any_overlaps-some :
      (files : List FileMetaData) (i : ℕ) (f : FileMetaData)
      → get_elem? files i ≡ some f
      → after_file c s f ≡ false
      → before_file c l f ≡ false
      → any_overlaps c files s l ≡ true
  unfolding any_overlaps
  any_overlaps-some [] i f e a b = absurd cc
  any_overlaps-some (g ∷ files) zero f e a b =
      let same : g ≡ f = cc in rw (ap (after_file c s) same ∙ a, ap (before_file c l) same ∙ b)
  any_overlaps-some (g ∷ files) (suc i) f e a b =
      elim (Bool-cases (after_file c s g || before_file c l g)) [
        | inl q ↦ rw (q, any_overlaps-some files i f e a b)
        | inr q ↦ rw q
      ]

  any_overlaps-none :
      (files : List FileMetaData)
      → ((i : ℕ) (f : FileMetaData)
          → get_elem? files i ≡ some f
          → after_file c s f || before_file c l f ≡ true)
      → any_overlaps c files s l ≡ false
  unfolding any_overlaps
  any_overlaps-none [] h = refl
  any_overlaps-none (g ∷ files) h =
      rw (h 0 g refl, any_overlaps-none files (λ i f e. h (suc i) f e))

module _ (c : Comparator) (ord : IsOrder c) (files : List FileMetaData) (sorted : IsSorted c files)
    (few : length files < 2 ^ 31) (s l : Option (List ℕ)) where
  abbrev index : ℕ
  index = first_index c files s

  no_file :
      (before : (j : ℕ) (f : FileMetaData)
        → index ≤ j
        → get_elem? files j ≡ some f
        → before_file c l f ≡ true)
      → any_overlaps c files s l ≡ false
  no_file before = any_overlaps-none c s l files (λ j f e. elim (le_or_lt index j) [
    | inl h ↦ rw (before j f h e) (or_true (after_file c s f))
    | inr h ↦ rw ((first_index-IsFirst c ord files sorted s few).0 j f h e) refl
  ])

  past_end :
      (j : ℕ) (f : FileMetaData)
      → index ≤ j
      → get_elem? files index ≡ none
      → get_elem? files j ≡ some f
      → before_file c l f ≡ true
  past_end j f h e e' =
      let (g, found) = get_elem?-some files index (omega (arith, get_elem?-length files j f e')) in
      absurd cc

  -- If the user comparator is a total order and fewer than 2^31 files are sorted by their largest
  -- keys and by their smallest user keys, with the tags of written keys, then the binary search
  -- of SomeFileOverlapsRange answers for every range, open or closed at either end, what its
  -- check against all files answers.
  pub some_file_overlaps_range_sorted :
      some_file_overlaps_range c true files s l ≡ some_file_overlaps_range c false files s l
  unfolding some_file_overlaps_range
  some_file_overlaps_range_sorted = elim (Option-cases (get_elem? files index)) [
    | inl e ↦ rw (e, some_file_overlaps_range) (sym (no_file (λ j f h e'. past_end j f h e e')))
    | inr (f, e) ↦ elim (Bool-cases (before_file c l f)) [
      | inl b ↦
          rw (e, some_file_overlaps_range, b)
            (sym (
              no_file (λ j g h e'.
                before_file_later c l f g ord (sorted.smallest_order index j f g h e e') b)))
      | inr b ↦
          rw (e, some_file_overlaps_range, b)
            (sym (
              any_overlaps-some c s l files index f e
                ((first_index-IsFirst c ord files sorted s few).1 index f (omega arith) e) b))
    ]
  ]
