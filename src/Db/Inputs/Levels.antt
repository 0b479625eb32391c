-- ===== src/Db/Inputs/Levels.antt =====
-- The range of some files, the level of a flushed memtable, and the end of an output table.

use level_db.Common.{
  ℕ, zero, suc, ◌+◌, ◌<◌, ◌≤◌, Bool, true, false, List, get_elem?, ltb, if◌then◌else◌, none, some,
  ◌≡◌, refl, ap, ◌∙◌, arith, Bool-cases, Option-cases, ◌⊎◌, inl, inr,
}
use level_db.Util.Slice.{is_gt}
use level_db.Util.Comparator.{Comparator, IsOrder}
use level_db.Db.Format.{internal_compare}
use level_db.Db.VersionEdit.{FileMetaData}
use level_db.Db.Inputs.{
  range_start, range_limit, max_grand_parent_overlap_bytes, total_file_size, StopState,
  overlap_in_level, overlap_bytes, pick_level, pick_level_for_mem_table_output, skip_grandparents,
  should_stop_before,
}
use level_db.Db.Inputs.Closure.{get_overlapping_inputs-IsClosure}

module _ (c : Comparator) (grandparents : List FileMetaData) (internal_key : List ℕ) where
  -- The current grandparent ends before the key.
  abbrev pub is_past : StopState → Bool
  is_past st = elim (get_elem? grandparents st.grandparent_index) [
    | none ↦ false
    | some f ↦ is_gt (internal_compare c internal_key f.largest)
  ]

  -- The answer of ShouldStopBefore behind its loop.
  abbrev pub stop_answer : StopState → Bool × StopState
  stop_answer st =
      if ltb max_grand_parent_overlap_bytes st.overlapped_bytes
      then (true, record st { seen_key = true; overlapped_bytes = 0 })
      else (false, record st { seen_key = true })

  skip_forever :
      (fuel : ℕ) (st : StopState)
      → is_past st ≡ true
      → skip_grandparents c fuel grandparents internal_key st ≡ none
  unfolding skip_grandparents
  skip_forever zero st h = refl
  skip_forever (suc fuel) st h = elim (Option-cases (get_elem? grandparents st.grandparent_index)) [
    | inl e ↦ let no : false ≡ true = rw (e, is_past) at h in absurd cc
    | inr (f, e) ↦
        rw (e, skip_grandparents)
          (ground (
            arith,
            h,
            e,
            skip_forever fuel (record st {
              overlapped_bytes =
                  if st.seen_key then st.overlapped_bytes + f.file_size else st.overlapped_bytes;
            }),
          ))
  ]

  skip_nothing :
      (fuel : ℕ) (st : StopState)
      → is_past st ≡ false
      → skip_grandparents c (suc fuel) grandparents internal_key st ≡ some st
  unfolding skip_grandparents
  skip_nothing fuel st h = elim (Option-cases (get_elem? grandparents st.grandparent_index)) [
    | inl e ↦ rw (e, skip_grandparents)
    | inr (f, e) ↦ rw (e, skip_grandparents) (ground (arith, h, e))
  ]

  -- ShouldStopBefore runs out of any amount of fuel if the largest key of the current grandparent
  -- file is below the key, and otherwise returns after one test whether the overlapped bytes
  -- exceed the bound, which it then resets.
  pub should_stop_before-ends :
      (fuel : ℕ) (st : StopState)
      → should_stop_before c (suc fuel) grandparents internal_key st
        ≡ (if is_past st then none else some (stop_answer st))
  unfolding should_stop_before
  should_stop_before-ends fuel st = elim (Bool-cases (is_past st)) [
    | inl h ↦ rw (skip_forever (suc fuel) st h, h)
    | inr h ↦ rw (skip_nothing fuel st h, h) (ground arith)
  ]

module _ (c : Comparator) (ord : IsOrder c) (files : ℕ → List FileMetaData)
    (smallest largest : List ℕ) where
  overlap_bytes-some :
      (level : ℕ) → (n : ℕ) × (overlap_bytes c files smallest largest level ≡ some n)
  unfolding overlap_bytes
  overlap_bytes-some level =
      let (inputs, e, _) =
        get_overlapping_inputs-IsClosure c files level (some (range_start smallest))
          (some (range_limit largest)) ord in
      (total_file_size inputs, rw e refl)

  -- No file of the levels behind the first up to the second overlaps the range.
  abbrev IsFree : ℕ → ℕ → Type 0
  IsFree level last =
      (j : ℕ) → level < j → j ≤ last → overlap_in_level c files j smallest largest ≡ false

  pick_level-IsFree :
      (fuel level : ℕ)
      → (last : ℕ) × (pick_level c files smallest largest fuel level ≡ some last)
        × (level ≤ last)
        × (last ≤ level + fuel)
        × IsFree level last
  unfolding pick_level
  pick_level-IsFree zero level =
      (level, refl, omega arith, omega arith, λ j h h'. absurd (omega arith))
  pick_level-IsFree (suc fuel) level =
      let (last, e, lo, hi, free) = pick_level-IsFree fuel (level + 1) in
      let (sum, se) = overlap_bytes-some (level + 2) in
      elim (Bool-cases (overlap_in_level c files (level + 1) smallest largest)) [
        | inl h ↦ (level, rw h refl, omega arith, omega arith, λ j p p'. absurd (omega arith))
        | inr h ↦ elim (Bool-cases (ltb max_grand_parent_overlap_bytes sum)) [
          | inl k ↦ (
            level,
            rw (h, se, pick_level, k),
            omega arith,
            omega arith,
            λ j p p'. absurd (omega arith),
          )
          | inr k ↦ (
            last,
            rw (h, se, pick_level, k) e,
            omega (arith, lo),
            omega (arith, hi),
            λ j p p'. elim (next_or_later level j p) [
              | inl q ↦ ap (λ (i : ℕ). overlap_in_level c files i smallest largest) q ∙ h
              | inr q ↦ free j q p'
            ],
          )
        ]
      ]
    where
      next_or_later : (m j : ℕ) → m < j → (j ≡ m + 1) ⊎ (m + 1 < j)
      next_or_later m j h = omega arith

  -- If the user comparator is a total order, PickLevelForMemTableOutput ends with a level not
  -- above 2, and if it is above 0, no level from 0 up to it overlaps the range of the new table,
  -- as OverlapInLevel tells.
  pub pick_level_for_mem_table_output-IsFree :
      (last : ℕ) × (pick_level_for_mem_table_output c files smallest largest ≡ some last)
      × (last ≤ 2)
      × (0 < last → (j : ℕ) → j ≤ last → overlap_in_level c files j smallest largest ≡ false)
  unfolding pick_level_for_mem_table_output
  pick_level_for_mem_table_output-IsFree =
      let (last, e, lo, hi, free) = pick_level-IsFree 2 0 in
      elim (Bool-cases (overlap_in_level c files 0 smallest largest)) [
        | inl h ↦ (0, rw h refl, omega arith, λ no. absurd (omega arith))
        | inr h ↦ (
          last,
          rw h e,
          omega (arith, hi),
          λ pos j p. elim (zero_or_more j) [
            | inl q ↦ ap (λ (i : ℕ). overlap_in_level c files i smallest largest) q ∙ h
            | inr q ↦ free j q p
          ],
        )
      ]
    where
      zero_or_more : (j : ℕ) → (j ≡ 0) ⊎ (0 < j)
      zero_or_more j = omega arith
