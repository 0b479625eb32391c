-- ===== src/Db/Compaction/Base.antt =====
-- IsBaseLevelForKey: what it answers, and what the files that it has passed do not hold.
use Prim.Native.Nat.{lt, eq, gt}
use level_db.Common.{
  ℕ, true, false, not, List, [], ◌∷◌, All, ◌≡◌, ◌≢◌, ◌⊎◌, inl, inr, sym, ◌∙◌, arith, Bool-cases,
}
use level_db.Util.Slice.{is_lt, is_gt}
use level_db.Util.Comparator.{Comparator, IsOrder}
use level_db.Util.Comparator.Facts.{lt_of_lt-le, lt_of_le-lt, compare_congr_left}
use level_db.Db.Format.{extract_user_key}
use level_db.Db.VersionEdit.{FileMetaData}
use level_db.Db.Compaction.{advance, is_base_level_for_key}

module _ (c : Comparator) where
  abbrev pub low : FileMetaData → List ℕ
  low f = extract_user_key f.smallest

  abbrev pub high : FileMetaData → List ℕ
  high f = extract_user_key f.largest

  -- The user key is outside the range of the file.
  abbrev pub IsOutside : List ℕ → FileMetaData → Type 0
  IsOutside u f = (c.compare u (high f) ≡ gt) ⊎ (c.compare u (low f) ≡ lt)

  abbrev pub NoFile : List ℕ → List (List FileMetaData) → Type 0
  NoFile u levels = All (All (IsOutside u)) levels

  -- The files of a level are in order and have disjoint ranges.
  abbrev pub IsDisjoint : List FileMetaData → Type 0
  IsDisjoint [] = Unit
  IsDisjoint (f ∷ files) = All (λ g. c.compare (high f) (low g) ≡ lt) files × IsDisjoint files

  module _ (ord : IsOrder c) (k u : List ℕ) where
    above_high :
        (f : FileMetaData)
        → c.compare k (high f) ≡ gt
        → c.compare k u ≢ gt
        → c.compare u (high f) ≡ gt
    above_high f p h =
        let before : c.compare (high f) k ≡ lt = ground (arith, p, ord.compare_swap k (high f)) in
        ground (arith, lt_of_lt-le c ord (high f) k u before h, ord.compare_swap (high f) u)

    advance-IsDisjoint :
        (files : List FileMetaData) → IsDisjoint files → IsDisjoint (advance c files k).1
    unfolding advance
    advance-IsDisjoint [] d = tt
    advance-IsDisjoint (f ∷ files) (apart, d) = elim (Bool-cases (is_gt (c.compare k (high f)))) [
      | inl h ↦ rw h (advance-IsDisjoint files d)
      | inr h ↦ rw h (apart, d)
    ]

    -- The files passed have no key from k on.
    advance-passed :
        (files : List FileMetaData)
        → c.compare k u ≢ gt
        → All (IsOutside u) (advance c files k).1
        → All (IsOutside u) files
    unfolding advance
    advance-passed [] h = λ a. tt
    advance-passed (f ∷ files) h = elim (Bool-cases (is_gt (c.compare k (high f)))) [
      | inl p ↦ λ a. (inl (above_high f (ground (arith, p)) h), advance-passed files h (rw p at a))
      | inr p ↦ λ a. rw p at a
    ]

    beyond_all :
        (f : FileMetaData) (files : List FileMetaData)
        → c.compare u (high f) ≢ gt
        → All (λ g. c.compare (high f) (low g) ≡ lt) files
        → All (IsOutside u) files
    beyond_all f [] h apart = tt
    beyond_all f (g ∷ files) h (p, apart) =
        (inr (lt_of_le-lt c ord u (high f) (low g) h p), beyond_all f files h apart)

    advance-miss :
        (files : List FileMetaData)
        → IsDisjoint files
        → c.compare k u ≡ eq
        → (advance c files k).0 ≡ false
        → All (IsOutside u) files
    unfolding advance
    advance-miss [] d h = λ miss. tt
    advance-miss (f ∷ files) (apart, d) h = elim (Bool-cases (is_gt (c.compare k (high f)))) [
      | inl p ↦ λ miss. (
        inl (above_high f (ground (arith, p)) (ground (arith, h))),
        advance-miss files d h (rw p at miss),
      )
      | inr p ↦ λ miss.
          let miss' : not (is_lt (c.compare k (low f))) ≡ false = rw p at miss in
          (
            inr (sym (compare_congr_left c ord k u (low f) h) ∙ ground (arith, miss')),
            beyond_all f files (ground (arith, p, compare_congr_left c ord k u (high f) h)) apart,
          )
    ]

    pub base-IsDisjoint :
        (levels : List (List FileMetaData))
        → All IsDisjoint levels
        → All IsDisjoint (is_base_level_for_key c levels k).1
    unfolding is_base_level_for_key
    base-IsDisjoint [] d = tt
    base-IsDisjoint (files ∷ levels) (d, ds) = elim (Bool-cases (advance c files k).0) [
      | inl h ↦ rw h (advance-IsDisjoint files d, ds)
      | inr h ↦ rw h (advance-IsDisjoint files d, base-IsDisjoint levels ds)
    ]

    -- The files passed over hold no user key from k on.
    pub base-passed :
        (levels : List (List FileMetaData))
        → c.compare k u ≢ gt
        → NoFile u (is_base_level_for_key c levels k).1
        → NoFile u levels
    unfolding is_base_level_for_key
    base-passed [] h = λ a. tt
    base-passed (files ∷ levels) h = elim (Bool-cases (advance c files k).0) [
      | inl p ↦ λ a.
          let (first, rest) : NoFile u ((advance c files k).1 ∷ levels) = rw p at a in
          (advance-passed files h first, rest)
      | inr p ↦ λ a.
          let (first, rest) : NoFile u
              ((advance c files k).1 ∷ (is_base_level_for_key c levels k).1) =
            rw p at a in
          (advance-passed files h first, base-passed levels h rest)
    ]

    -- If the answer is true, no file has the key in its range.
    pub base-NoFile :
        (levels : List (List FileMetaData))
        → All IsDisjoint levels
        → c.compare k u ≡ eq
        → (is_base_level_for_key c levels k).0 ≡ true
        → NoFile u levels
    unfolding is_base_level_for_key
    base-NoFile [] d h = λ answer. tt
    base-NoFile (files ∷ levels) (d, ds) h = elim (Bool-cases (advance c files k).0) [
      | inl p ↦ λ answer. let no_true : false ≡ true = rw p at answer in absurd cc
      | inr p ↦ λ answer. (advance-miss files d h p, base-NoFile levels ds h (rw p at answer))
    ]
