-- ===== src/Db/Inputs/Overlapping.antt =====
-- One pass of GetOverlappingInputs: it ends with all files that touch the range, or widens it.

use level_db.Common.{
  ℕ, ◌+◌, ◌*◌, ◌<◌, ◌≤◌, Bool, true, false, not, ◌&&◌, List, [], ◌∷◌, length, All, if◌then◌else◌,
  Option, none, some, ◌≡◌, refl, ap, ◌∙◌, arith, Bool-cases, inl, inr,
}
use level_db.Util.Comparator.{Comparator, IsOrder}
use level_db.Util.Comparator.Facts.{lt_of_lt-le}
use level_db.Db.Format.{extract_user_key}
use level_db.Db.VersionEdit.{FileMetaData}
use level_db.Db.Inputs.{Pass, done, restart, push_front, is_below, is_above, overlap_pass}

abbrev pub start_of : FileMetaData → List ℕ
start_of f = extract_user_key f.smallest

abbrev pub limit_of : FileMetaData → List ℕ
limit_of f = extract_user_key f.largest

module _ (c : Comparator) where
  -- The file and the range have a key in common.
  abbrev pub touches : Option (List ℕ) → Option (List ℕ) → FileMetaData → Bool
  touches low high f = not (is_below c (limit_of f) low) && not (is_above c (start_of f) high)

  abbrev pub touching : Option (List ℕ) → Option (List ℕ) → List FileMetaData → List FileMetaData
  touching low high [] = []
  touching low high (f ∷ files) =
      let rest = touching low high files in if touches low high f then f ∷ rest else rest

  -- The file lies in the range.
  abbrev pub IsInside : Option (List ℕ) → Option (List ℕ) → FileMetaData → Type 0
  IsInside low high f =
      (is_below c (start_of f) low ≡ false) × (is_above c (limit_of f) high ≡ false)

  -- How many files reach out of the range.
  abbrev pub outliers : Option (List ℕ) → Option (List ℕ) → List FileMetaData → ℕ
  outliers low high [] = 0
  outliers low high (f ∷ files) =
      (if is_below c (start_of f) low then 1 else 0)
      + (if is_above c (limit_of f) high then 1 else 0)
      + outliers low high files

  pub outliers-le :
      (low high : Option (List ℕ)) (files : List FileMetaData)
      → outliers low high files ≤ 2 * length files
  outliers-le low high [] = omega arith
  outliers-le low high (f ∷ files) = ground (arith, outliers-le low high files)

  -- The second range holds the first.
  pub record IsWider (low high low' high' : Option (List ℕ)) : Type 0 where
    pub below : (key : List ℕ) → is_below c key low' ≡ true → is_below c key low ≡ true
    pub above : (key : List ℕ) → is_above c key high' ≡ true → is_above c key high ≡ true

  wider_one :
      (low high low' high' : Option (List ℕ)) (f : FileMetaData)
      → IsWider low high low' high'
      → ((if is_below c (start_of f) low' then 1 else 0)
          ≤ (if is_below c (start_of f) low then 1 else 0))
        × ((if is_above c (limit_of f) high' then 1 else 0)
            ≤ (if is_above c (limit_of f) high then 1 else 0))
  wider_one low high low' high' f w =
      (ground (arith, w.below (start_of f)), ground (arith, w.above (limit_of f)))

  outliers-IsWider :
      (low high low' high' : Option (List ℕ)) (files : List FileMetaData)
      → IsWider low high low' high'
      → outliers low' high' files ≤ outliers low high files
  outliers-IsWider low high low' high' [] w = omega arith
  outliers-IsWider low high low' high' (f ∷ files) w =
      let (p, q) = wider_one low high low' high' f w in
      omega (arith, p, q, outliers-IsWider low high low' high' files w)

  module _ (ord : IsOrder c) where
    widen_below :
        (low high : Option (List ℕ)) (key : List ℕ)
        → is_below c key low ≡ true
        → IsWider low high (some key) high
    unfolding is_below
    widen_below none high key h = absurd cc
    widen_below (some bound) high key h = record {
      below = λ k p. ground (arith, h, p, lt_of_lt-le c ord k key bound);
      above = λ k p. p;
    }

    widen_above :
        (low high : Option (List ℕ)) (key : List ℕ)
        → is_above c key high ≡ true
        → IsWider low high low (some key)
    unfolding is_above
    widen_above low none key h = absurd cc
    widen_above low (some bound) key h = record {
      below = λ k p. p;
      above = λ k p. ground (
        arith,
        h,
        p,
        ord.compare_swap k key,
        ord.compare_swap key bound,
        ord.compare_swap k bound,
        lt_of_lt-le c ord bound key k,
      );
    }

    not_below_self : (key : List ℕ) → is_below c key (some key) ≡ false
    unfolding is_below
    not_below_self key = ground (arith, ord.compare_self key)

    not_above_self : (key : List ℕ) → is_above c key (some key) ≡ false
    unfolding is_above
    not_above_self key = ground (arith, ord.compare_self key)

    -- What one pass ends with.
    pub data PassEnds (level0 : Bool) (low high : Option (List ℕ)) (files : List FileMetaData)
        (p : Pass) : Type 0 where
      finished :
          p ≡ done (touching low high files)
          → (level0 ≡ true → All (IsInside low high) (touching low high files))
          → PassEnds level0 low high files p
      widened :
          (low' high' : Option (List ℕ))
          → p ≡ restart low' high'
          → level0 ≡ true
          → IsWider low high low' high'
          → outliers low' high' files < outliers low high files
          → PassEnds level0 low high files p

    module _ (level0 : Bool) (low high : Option (List ℕ)) (f : FileMetaData)
        (files : List FileMetaData) where
      outliers_head :
          (low' high' : Option (List ℕ))
          → IsWider low high low' high'
          → outliers low' high' files < outliers low high files
          → outliers low' high' (f ∷ files) < outliers low high (f ∷ files)
      outliers_head low' high' w less =
          let (p, q) = wider_one low high low' high' f w in omega (arith, p, q, less)

      skip_head :
          (p : Pass)
          → touches low high f ≡ false
          → PassEnds level0 low high files p
          → PassEnds level0 low high (f ∷ files) p
      skip_head p h (finished e inside) = finished (e ∙ ap done (rw h refl)) (λ l. rw h (inside l))
      skip_head p h (widened low' high' e l w less) =
          widened low' high' e l w (outliers_head low' high' w less)

      keep_head :
          (p : Pass)
          → touches low high f ≡ true
          → (level0 ≡ true → IsInside low high f)
          → PassEnds level0 low high files p
          → PassEnds level0 low high (f ∷ files) (push_front f p)
      keep_head p h here (finished e inside) =
          finished (ap (push_front f) e ∙ ap done (rw h refl)) (λ l. rw h (here l, inside l))
      keep_head p h here (widened low' high' e l w less) =
          widened low' high' (ap (push_front f) e) l w (outliers_head low' high' w less)

      from_below :
          level0 ≡ true
          → is_below c (start_of f) low ≡ true
          → PassEnds level0 low high (f ∷ files) (restart (some (start_of f)) high)
      from_below l h =
          let w = widen_below low high (start_of f) h in
          widened (some (start_of f)) high refl l w (
            ground (
              arith,
              h,
              not_below_self (start_of f),
              outliers-IsWider low high (some (start_of f)) high files w,
            ))

      from_above :
          level0 ≡ true
          → is_above c (limit_of f) high ≡ true
          → PassEnds level0 low high (f ∷ files) (restart low (some (limit_of f)))
      from_above l h =
          let w = widen_above low high (limit_of f) h in
          widened low (some (limit_of f)) refl l w (
            ground (
              arith,
              h,
              not_above_self (limit_of f),
              outliers-IsWider low high low (some (limit_of f)) files w,
            ))

    pub overlap_pass-PassEnds :
        (level0 : Bool) (low high : Option (List ℕ)) (files : List FileMetaData)
        → PassEnds level0 low high files (overlap_pass c level0 low high files)
    unfolding overlap_pass
    overlap_pass-PassEnds level0 low high [] = finished refl (λ h. tt)
    overlap_pass-PassEnds level0 low high (f ∷ files) =
        let ih = overlap_pass-PassEnds level0 low high files in
        let p = overlap_pass c level0 low high files in
        elim (Bool-cases (is_below c (limit_of f) low)) [
          | inl h1 ↦ rw h1 (skip_head level0 low high f files p (rw h1 refl) ih)
          | inr h1 ↦ elim (Bool-cases (is_above c (start_of f) high)) [
            | inl h2 ↦ rw (h1, h2) (skip_head level0 low high f files p (rw (h1, h2) refl) ih)
            | inr h2 ↦ elim (Bool-cases (level0 && is_below c (start_of f) low)) [
              | inl h3 ↦
                  rw (h1, h2, h3)
                    (from_below level0 low high f files (ground (arith, h3)) (ground (arith, h3)))
              | inr h3 ↦ elim (Bool-cases (level0 && is_above c (limit_of f) high)) [
                | inl h4 ↦
                    rw (h1, h2, h3, h4)
                      (from_above level0 low high f files (ground (arith, h4)) (ground (arith, h4)))
                | inr h4 ↦
                    rw (h1, h2, h3, h4)
                      (keep_head level0 low high f files p (rw (h1, h2) refl)
                        (λ l. (ground (arith, h3, l), ground (arith, h4, l))) ih)
              ]
            ]
          ]
        ]
