-- ===== src/Db/Version/Sorted.antt =====
-- FindFile in one sorted level of a version: the file that Version::Get reads is the first whose
-- largest key is not below the key.
use level_db.Common.{
  ℕ, zero, suc, ◌++◌, ◌^◌, ◌<◌, ◌≤◌, Bool, true, false, List, [], ◌∷◌, All, length, get_elem?,
  if◌then◌else◌, none, some, ◌≡◌, refl, sym, ap, ◌∙◌, arith, get_elem?-length,
}
use level_db.Util.Slice.{is_lt}
use level_db.Util.Comparator.{Comparator, IsOrder}
use level_db.Db.Format.{
  internal_compare, extract_user_key, LookupKey, lookup_user_key, lookup_internal_key,
}
use level_db.Db.VersionEdit.{FileMetaData}
use level_db.Db.VersionSet.{find_file}
use level_db.Db.VersionSet.Overlap.{IsSorted, below_of, find_file-Splits}
use level_db.Db.Version.{candidate}

-- The list splits at the first file that fails the test.
data SplitAt (test : FileMetaData → Bool) (files : List FileMetaData) (r : ℕ) : Type 0 where
  all_pass : get_elem? files r ≡ none → All (λ f. test f ≡ true) files → SplitAt test files r
  stops :
      (before : List FileMetaData) (f : FileMetaData) (behind : List FileMetaData)
      → files ≡ before ++ (f ∷ behind)
      → get_elem? files r ≡ some f
      → All (λ g. test g ≡ true) before
      → test f ≡ false
      → SplitAt test files r

split_at :
    (test : FileMetaData → Bool) (files : List FileMetaData) (r : ℕ)
    → r ≤ length files
    → ((j : ℕ) (f : FileMetaData) → j < r → get_elem? files j ≡ some f → test f ≡ true)
    → ((f : FileMetaData) → get_elem? files r ≡ some f → test f ≡ false)
    → SplitAt test files r
split_at test [] r bound lo hi = all_pass refl tt
split_at test (f ∷ files) zero bound lo hi = stops [] f files refl refl tt (hi f refl)
split_at test (f ∷ files) (suc r) bound lo hi =
    further (split_at test files r (omega arith) (λ j g h e. lo (suc j) g (omega arith) e) hi)
  where
    further : SplitAt test files r → SplitAt test (f ∷ files) (suc r)
    further (all_pass e h) = all_pass e (lo 0 f (omega arith) refl, h)
    further (stops before g behind e at h h') =
        stops (f ∷ before) g behind (ap (◌∷◌ f) e) at (lo 0 f (omega arith) refl, h) h'

module _ (c : Comparator) where
  abbrev below : List ℕ → FileMetaData → Bool
  below key f = is_lt (internal_compare c f.largest key)

  -- A scan for the file that may hold the key: the first whose largest key is not below it, if the
  -- user key is not before that file.
  abbrev pub scan_level : LookupKey → List FileMetaData → List FileMetaData
  scan_level k [] = []
  scan_level k (f ∷ files) =
      let rest = scan_level k files in
      if below (lookup_internal_key k) f
      then rest
      else if is_lt (c.compare (lookup_user_key k) (extract_user_key f.smallest))
      then []
      else f ∷ []

  scan_level-pass :
      (k : LookupKey) (before behind : List FileMetaData)
      → All (λ g. below (lookup_internal_key k) g ≡ true) before
      → scan_level k (before ++ behind) ≡ scan_level k behind
  scan_level-pass k [] behind h = refl
  scan_level-pass k (f ∷ before) behind (h, hs) = rw h (scan_level-pass k before behind hs)

  scan_level-none :
      (k : LookupKey) (files : List FileMetaData)
      → All (λ g. below (lookup_internal_key k) g ≡ true) files
      → scan_level k files ≡ []
  scan_level-none k [] h = refl
  scan_level-none k (f ∷ files) (h, hs) = rw h (scan_level-none k files hs)

  module _ (ord : IsOrder c) (files : List FileMetaData) (sorted : IsSorted c files)
      (few : length files < 2 ^ 31) where
    find_file-SplitAt : (key : List ℕ) → SplitAt (below key) files (find_file c files key)
    find_file-SplitAt key =
        let (bound, lo, hi) = find_file-Splits c ord files sorted key few in
        split_at (below key) files (find_file c files key) bound
          (λ j f h e. sym (below_of c ord files sorted key j f e) ∙ lo j h)
          (λ f e.
            sym (below_of c ord files sorted key (find_file c files key) f e)
            ∙ hi (find_file c files key) (omega arith) (get_elem?-length files _ f e))

    -- The binary search finds what the scan finds.
    pub candidate-scan : (k : LookupKey) → candidate c k files ≡ scan_level k files
    unfolding candidate
    candidate-scan k = by_split (find_file-SplitAt (lookup_internal_key k))
      where
        by_split :
            SplitAt
              (below (lookup_internal_key k))
              files
              (find_file c files (lookup_internal_key k))
            → candidate c k files ≡ scan_level k files
        by_split (all_pass e h) = rw (e, candidate) (sym (scan_level-none k files h))
        by_split (stops before f behind split at all_below stop) =
            rw (at, candidate)
              (sym (
                ap (scan_level k) split
                ∙ scan_level-pass k before (f ∷ behind) all_below
                ∙ rw stop refl))
