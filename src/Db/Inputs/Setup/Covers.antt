-- ===== src/Db/Inputs/Setup/Covers.antt =====
-- SetupOtherInputs takes all files of the next level that overlap the range of the first inputs.
use level_db.Common.{
  ℕ, ◌+◌, ◌&&◌, List, [], ◌∷◌, All, length, ltb, ◌==◌, some, ◌>>=◌, ◌≡◌, refl, ap, ◌∙◌, arith,
  Bool-cases, inl, inr,
}
use mathlib.Core.Path.{ap₂}
use level_db.Util.Comparator.{Comparator, IsOrder}
use level_db.Db.Format.{num_levels, extract_user_key}
use level_db.Db.VersionEdit.{FileMetaData}
use level_db.Db.Inputs.{expanded_compaction_byte_size_limit, total_file_size, get_range, get_range2}
use level_db.Db.Inputs.Overlapping.{touching}
use level_db.Db.Inputs.Closure.{get_overlapping_inputs-IsClosure}
use level_db.Db.Inputs.Range.{IsWithin, get_range-IsWithin}
use level_db.Db.Inputs.Setup.{
  Compaction, Grown, overlaps_of, expand_inputs, grow_inputs, find_grandparents, setup_other_inputs,
}

module _ (c : Comparator) (ord : IsOrder c) (files : ℕ → List FileMetaData) where
  overlaps_of-some :
      (level : ℕ) (range : List ℕ × List ℕ)
      → (inputs : List FileMetaData) × (overlaps_of c files level range ≡ some inputs)
  overlaps_of-some level range =
      let (inputs, e, _) =
        get_overlapping_inputs-IsClosure c files level (some range.0) (some range.1) ord in
      (inputs, e)

  -- The files of a level that touch a range of internal keys.
  abbrev pub touching_range : ℕ → List ℕ × List ℕ → List FileMetaData
  touching_range level range =
      touching c (some (extract_user_key range.0)) (some (extract_user_key range.1)) (files level)

  overlaps_of-next :
      (level : ℕ) (range : List ℕ × List ℕ)
      → overlaps_of c files (level + 1) range ≡ some (touching_range (level + 1) range)
  overlaps_of-next level range =
      let (inputs, e, cl) =
        get_overlapping_inputs-IsClosure c files (level + 1) (some range.0) (some range.1) ord in
      let (low, high) = cl.unchanged (ground arith) in
      e ∙ ap some (cl.chosen ∙ ap₂ (λ l h. touching c l h (files (level + 1))) low high)

  -- The two lists of inputs and the limit belong together.
  abbrev Covers : ℕ → Grown → Type 0
  Covers level inputs =
      (inputs.1 ≡ touching_range (level + 1) (get_range c inputs.0))
      × (inputs.2 ≡ (get_range c inputs.0).1)

  expand_inputs-Covers :
      (level : ℕ) (inputs0 inputs1 : List FileMetaData) (largest : List ℕ)
      → Covers level (inputs0, inputs1, largest)
      → (grown : Grown) × (expand_inputs c files level inputs0 inputs1 largest ≡ some grown)
        × Covers level grown
  unfolding expand_inputs
  expand_inputs-Covers level inputs0 inputs1 largest h =
      let (expanded0, e) = overlaps_of-some level (get_range2 c inputs0 inputs1) in
      let expanded1 = touching_range (level + 1) (get_range c expanded0) in
      elim (Bool-cases (
        ltb (length inputs0) (length expanded0)
        && ltb (total_file_size inputs1 + total_file_size expanded0)
            expanded_compaction_byte_size_limit
        && (length expanded1 == length inputs1))) [
          | inl t ↦ (
            (expanded0, expanded1, (get_range c expanded0).1),
            rw (e, overlaps_of-next level (get_range c expanded0), t) refl,
            (refl, refl),
          )
          | inr t ↦ (
            (inputs0, inputs1, largest),
            rw (e, overlaps_of-next level (get_range c expanded0), t) refl,
            h,
          )
        ]

  grow_inputs-Covers :
      (level : ℕ) (inputs0 inputs1 : List FileMetaData) (largest : List ℕ)
      → Covers level (inputs0, inputs1, largest)
      → (grown : Grown) × (grow_inputs c files level inputs0 inputs1 largest ≡ some grown)
        × Covers level grown
  unfolding grow_inputs
  grow_inputs-Covers level inputs0 [] largest h = ((inputs0, [], largest), refl, h)
  grow_inputs-Covers level inputs0 (f ∷ inputs1) largest h =
      expand_inputs-Covers level inputs0 (f ∷ inputs1) largest h

  find_grandparents-some :
      (level : ℕ) (inputs0 inputs1 : List FileMetaData)
      → (files' : List FileMetaData) × (find_grandparents c files level inputs0 inputs1
          ≡ some files')
  unfolding find_grandparents
  find_grandparents-some level inputs0 inputs1 = elim (Bool-cases (ltb (level + 2) num_levels)) [
    | inl h ↦ rw h (overlaps_of-some (level + 2) (get_range2 c inputs0 inputs1))
    | inr h ↦ rw h ([], refl)
  ]

  -- If the user comparator is a total order, SetupOtherInputs ends, and whether or not it has
  -- expanded the inputs, the second inputs are exactly the files of the next level that touch the
  -- range of the first, that range holds all the first inputs, and its end is the new compaction
  -- pointer.
  pub setup_other_inputs-Covers :
      (level : ℕ) (inputs : List FileMetaData)
      → (result : Compaction) × (setup_other_inputs c files level inputs ≡ some result)
        × (result.inputs1 ≡ touching_range (level + 1) (get_range c result.inputs0))
        × All (IsWithin c (get_range c result.inputs0)) result.inputs0
        × (result.compact_pointer ≡ (get_range c result.inputs0).1)
  unfolding setup_other_inputs
  setup_other_inputs-Covers level inputs =
      let first = touching_range (level + 1) (get_range c inputs) in
      let (grown, g, covers) =
        grow_inputs-Covers level inputs first (get_range c inputs).1 (refl, refl) in
      let (grandparents, e) = find_grandparents-some level grown.0 grown.1 in
      (
        record {
          inputs0 = grown.0;
          inputs1 = grown.1;
          grandparents = grandparents;
          compact_pointer = grown.2;
        },
        rw (overlaps_of-next level (get_range c inputs), ◌>>=◌, g, ◌>>=◌, e) refl,
        covers.0,
        get_range-IsWithin c ord grown.0,
        covers.1,
      )
