-- ===== src/Db/Version/Lookup.antt =====
-- Version::Get over all levels: the first read that decides, in the order of the files.
use level_db.Common.{
  ℕ, suc, ◌^◌, ◌<◌, true, List, [], ◌∷◌, ◌++◌, All, map, length, Option, none, some, ◌≡◌, ◌↔◌, refl,
  sym, ap, ◌∙◌,
}
use level_db.Util.Status.{Status, ok, error, corruption, is_ok}
use level_db.Util.Comparator.{Comparator, IsOrder}
use level_db.Db.Format.{LookupKey, lookup_user_key}
use level_db.Db.VersionEdit.{FileMetaData}
use level_db.Db.VersionSet.Overlap.{IsSorted}
use level_db.Db.Version.{
  TableCache, Saved, not_saved, saved, saved_deletion, saved_corrupt, ReadStats, no_stats,
  GetResult, got, failed, absent, read_file, charge_seek, search_files, candidate, overlapping,
  sort_newest_first, search_levels, get_from,
}
use level_db.Db.Version.Sorted.{scan_level, candidate-scan}
use level_db.Db.Version.LevelZero.{
  IsNewestFirst, Member, holds_key, sort-IsNewestFirst, chosen-Member,
}

-- A read decides unless it is OK and has met no entry of the key.
abbrev pub decision : Status × Saved → Option GetResult
decision (ok, not_saved) = none
decision (ok, saved v) = some (got v)
decision (ok, saved_deletion) = some absent
decision (ok, saved_corrupt) = some (failed (error corruption "corrupted key for "))
decision (error code msg, s) = some (failed (error code msg))

abbrev pub first_of : Option GetResult → Option GetResult → Option GetResult
first_of none rest = rest
first_of (some r) rest = some r

first_of_assoc : (a b d : Option GetResult) → first_of (first_of a b) d ≡ first_of a (first_of b d)
first_of_assoc none b d = refl
first_of_assoc (some r) b d = refl

-- NotFound if no read decides.
abbrev pub conclude : Option GetResult → GetResult
conclude none = absent
conclude (some r) = r

abbrev pub flatten : List (List FileMetaData) → List FileMetaData
flatten [] = []
flatten (files ∷ levels) = files ++ flatten levels

-- A level is sorted, and a 32-bit index reaches its files.
abbrev pub IsSortedLevel : Comparator → List FileMetaData → Type 0
IsSortedLevel c files = IsSorted c files × (length files < 2 ^ 31)

-- The files that are read in the levels from 1 on: one at most of each.
abbrev pub levels_read : Comparator → LookupKey → List (List FileMetaData) → List FileMetaData
levels_read c k levels = flatten (map (scan_level c k) levels)

module _ (c : Comparator) (cache : TableCache) (k : LookupKey) where
  -- The first of the reads of some files that decides.
  abbrev pub first_decision : List FileMetaData → Option GetResult
  first_decision [] = none
  first_decision (f ∷ files) = first_of (decision (read_file c cache k f)) (first_decision files)

  first_decision-append :
      (files more : List FileMetaData)
      → first_decision (files ++ more) ≡ first_of (first_decision files) (first_decision more)
  first_decision-append [] more = refl
  first_decision-append (f ∷ files) more =
      ap (first_of (decision (read_file c cache k f))) (first_decision-append files more)
      ∙ sym (
          first_of_assoc (decision (read_file c cache k f)) (first_decision files)
            (first_decision more))

  search_files-first :
      (level : ℕ) (files : List FileMetaData) (stats : ReadStats)
      → (search_files c cache k level files stats).0 ≡ first_decision files
  unfolding search_files is_ok
  search_files-first level [] stats = refl
  search_files-first level (f ∷ files) stats = by_read (read_file c cache k f) refl (
      search_files-first level files
        (record (charge_seek stats) { last_file_read = some (f, level) }))
    where
      charged : ReadStats
      charged = record (charge_seek stats) { last_file_read = some (f, level) }

      by_read :
          (r : Status × Saved)
          → read_file c cache k f ≡ r
          → (search_files c cache k level files charged).0 ≡ first_decision files
          → (search_files c cache k level (f ∷ files) stats).0 ≡ first_decision (f ∷ files)
      by_read (ok, not_saved) e again = rw e again
      by_read (ok, saved v) e again = rw e refl
      by_read (ok, saved_deletion) e again = rw e refl
      by_read (ok, saved_corrupt) e again = rw e refl
      by_read (error code msg, s) e again = rw e refl

  then_levels :
      (found : Option GetResult) (stats : ReadStats) (rest : GetResult × ReadStats)
      (more : Option GetResult)
      → rest.0 ≡ conclude more
      → (elim found as (λ x. GetResult × ReadStats) [ none ↦ rest | some r ↦ (r, stats) ]).0
        ≡ conclude (first_of found more)
  then_levels none stats rest more h = h
  then_levels (some r) stats rest more h = refl

  -- Some files, and the levels behind them.
  joined :
      (level : ℕ) (files chosen : List FileMetaData) (levels : List (List FileMetaData))
      (stats : ReadStats)
      → files ≡ chosen
      → first_of
          (search_files c cache k level files stats).0
          (first_decision (levels_read c k levels))
        ≡ first_decision (chosen ++ levels_read c k levels)
  joined level files chosen levels stats e =
      ap (λ x. first_of x (first_decision (levels_read c k levels)))
        (search_files-first level files stats ∙ ap first_decision e)
      ∙ sym (first_decision-append chosen (levels_read c k levels))

  module _ (ord : IsOrder c) where
    search_levels-first :
        (level : ℕ) (levels : List (List FileMetaData)) (stats : ReadStats)
        → All (IsSortedLevel c) levels
        → (search_levels c cache k level levels stats).0
          ≡ conclude (first_decision (levels_read c k levels))
    unfolding search_levels
    search_levels-first level [] stats sorted = refl
    search_levels-first level (files ∷ levels) stats ((s, few), sorted) =
        let read = search_files c cache k level (candidate c k files) stats in
        then_levels read.0 read.1 (search_levels c cache k (suc level) levels read.1)
          (first_decision (levels_read c k levels))
          (search_levels-first (suc level) levels read.1 sorted)
        ∙ ap conclude (
            joined level (candidate c k files) (scan_level c k files) levels stats
              (candidate-scan c ord files s few k))

    -- If the user comparator is a total order and the levels from 1 on have fewer than 2^31 files
    -- each, sorted by their largest keys and by their smallest user keys, with the tags of
    -- written keys, then Version::Get, over any table cache, returns what the first read that
    -- decides returns, and NotFound if none does, where the files are read in this order: the
    -- files of level 0 that have the user key in their range, all of them and no others, larger
    -- file numbers first; then of each further level the first file whose largest key is not
    -- below the lookup key, unless the user key is before its smallest one. A read decides unless
    -- it is OK and has met no entry of the key.
    pub get_from-first_decision :
        (level0 : List FileMetaData) (levels : List (List FileMetaData))
        → All (IsSortedLevel c) levels
        → (newest : List FileMetaData) × IsNewestFirst newest
          × ((f : FileMetaData)
              → Member f newest ↔ (Member f level0 × (holds_key c (lookup_user_key k) f ≡ true)))
          × ((get_from c cache k (level0 ∷ levels)).0
              ≡ conclude (first_decision (newest ++ levels_read c k levels)))
    unfolding get_from
    get_from-first_decision level0 levels sorted =
        let newest = sort_newest_first (overlapping c (lookup_user_key k) level0) in
        (
          newest,
          sort-IsNewestFirst (overlapping c (lookup_user_key k) level0),
          (λ f. chosen-Member c (lookup_user_key k) f level0),
          then_levels (search_files c cache k 0 newest no_stats).0
                (search_files c cache k 0 newest no_stats).1
                (search_levels c cache k 1 levels (search_files c cache k 0 newest no_stats).1)
                (first_decision (levels_read c k levels))
                (search_levels-first 1 levels (search_files c cache k 0 newest no_stats).1 sorted)
              ∙ ap conclude (joined 0 newest newest levels no_stats refl),
        )
