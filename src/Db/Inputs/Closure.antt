-- ===== src/Db/Inputs/Closure.antt =====
-- GetOverlappingInputs: the restarts end, with all files that touch the widened range.

use level_db.Common.{
  ℕ, zero, suc, ◌*◌, ◌<◌, Bool, true, false, List, length, All, ◌==◌, Option, some, ◌≡◌, refl,
  arith,
}
use level_db.Util.Comparator.{Comparator, IsOrder}
use level_db.Db.VersionEdit.{FileMetaData}
use level_db.Db.Inputs.{overlap_pass, overlap_loop, user_key_of, get_overlapping_inputs}
use level_db.Db.Inputs.Overlapping.{
  start_of, limit_of, touches, touching, IsInside, outliers, outliers-le, IsWider, PassEnds,
  finished, widened, overlap_pass-PassEnds,
}

module _ (c : Comparator) where
  module _ (ord : IsOrder c) where
    IsWider-trans :
        (low high low' high' low'' high'' : Option (List ℕ))
        → IsWider c low high low' high'
        → IsWider c low' high' low'' high''
        → IsWider c low high low'' high''
    IsWider-trans low high low' high' low'' high'' w w' = record {
      below = λ k p. w.below k (w'.below k p);
      above = λ k p. w.above k (w'.above k p);
    }

    IsWider-touches :
        (low high low' high' : Option (List ℕ)) (f : FileMetaData)
        → IsWider c low high low' high'
        → touches c low high f ≡ true
        → touches c low' high' f ≡ true
    IsWider-touches low high low' high' f w h =
        ground (arith, h, w.below (limit_of f), w.above (start_of f))

  -- The inputs are the files that touch a range which holds the one asked for; in level 0 they lie
  -- inside it, and in the other levels it is the one asked for.
  pub record IsClosure (level0 : Bool) (files : List FileMetaData) (begin end : Option (List ℕ))
      (inputs : List FileMetaData) : Type 0 where
    pub low : Option (List ℕ)
    pub high : Option (List ℕ)
    pub chosen : inputs ≡ touching c low high files
    pub contained : level0 ≡ true → All (IsInside c low high) inputs
    pub wider : (f : FileMetaData) → touches c begin end f ≡ true → touches c low high f ≡ true
    pub unchanged : level0 ≡ false → (low ≡ begin) × (high ≡ end)

  module _ (ord : IsOrder c) (level0 : Bool) (files : List FileMetaData)
      (begin end : Option (List ℕ)) where
    overlap_loop-IsClosure :
        (fuel : ℕ) (low high : Option (List ℕ))
        → outliers c low high files < fuel
        → IsWider c begin end low high
        → (level0 ≡ false → (low ≡ begin) × (high ≡ end))
        → (inputs : List FileMetaData) × (overlap_loop c fuel level0 files low high ≡ some inputs)
          × IsClosure level0 files begin end inputs
    unfolding overlap_loop
    overlap_loop-IsClosure zero low high less w same = absurd (omega arith)
    overlap_loop-IsClosure (suc fuel) low high less w same =
        by_end (overlap_loop-IsClosure fuel) (overlap_pass-PassEnds c ord level0 low high files)
      where
        by_end :
            ((low' high' : Option (List ℕ))
              → outliers c low' high' files < fuel
              → IsWider c begin end low' high'
              → (level0 ≡ false → (low' ≡ begin) × (high' ≡ end))
              → (inputs : List FileMetaData) × (overlap_loop c fuel level0 files low' high'
                  ≡ some inputs)
                × IsClosure level0 files begin end inputs)
            → PassEnds c ord level0 low high files (overlap_pass c level0 low high files)
            → (inputs : List FileMetaData) × (overlap_loop c (suc fuel) level0 files low high
                ≡ some inputs)
              × IsClosure level0 files begin end inputs
        by_end again (finished e inside) = (
          touching c low high files,
          rw (e, overlap_loop),
          record {
            low = low;
            high = high;
            chosen = refl;
            contained = inside;
            wider = λ f. IsWider-touches ord begin end low high f w;
            unchanged = same;
          },
        )
        by_end again (widened low' high' e l w' less') =
            rw (e, overlap_loop)
              (again low' high' (omega arith) (IsWider-trans ord begin end low high low' high' w w')
                (λ no. absurd cc))

  -- If the user comparator is a total order, GetOverlappingInputs ends, with all restarts it
  -- makes in level 0, and returns exactly the files of the level that touch a range. Every file
  -- that touches the range that was asked for touches that one; outside level 0 it is the same
  -- range, and in level 0 all returned files lie inside it.
  pub get_overlapping_inputs-IsClosure :
      (files : ℕ → List FileMetaData) (level : ℕ) (begin end : Option (List ℕ))
      → IsOrder c
      → (inputs : List FileMetaData) × (get_overlapping_inputs c files level begin end
          ≡ some inputs)
        × IsClosure (level == 0) (files level) (user_key_of c begin) (user_key_of c end) inputs
  unfolding get_overlapping_inputs
  get_overlapping_inputs-IsClosure files level begin end ord =
      let low = user_key_of c begin in
      let high = user_key_of c end in
      overlap_loop-IsClosure ord (level == 0) (files level) low high
        (suc (2 * length (files level))) low high
        (omega (arith, outliers-le c low high (files level)))
        (record { below = λ k p. p; above = λ k p. p }) (λ h. (refl, refl))
