-- ===== src/Db/Version/Tests.antt =====
-- Runs of Version::Get on two files in level 0 and two in level 1.
use level_db.Common.{
  true, List, [], ◌∷◌, ◌++◌, ◌==◌, if◌then◌else◌, none, some, ◌≡◌, ◌↔◌, arith, All,
}
use level_db.Util.Status.{ok, error, io_error}
use level_db.Util.Comparator.{bytewise_comparator}
use level_db.Util.Comparator.Bytewise.{bytewise_comparator-IsOrder}
use level_db.Db.Format.{lookup_key, lookup_user_key}
use level_db.Db.VersionEdit.{FileMetaData, file_meta_data}
use level_db.Db.VersionSet.Tests.{key_of, level, level-IsSorted}
use level_db.Db.Version.{TableCache, get_from}
use level_db.Db.Version.LevelZero.{IsNewestFirst, Member, holds_key}
use level_db.Db.Version.Lookup.{
  IsSortedLevel, first_decision, levels_read, conclude, get_from-first_decision,
}

-- The table of file 6 has nothing to say, that of file 5 has a value.
abbrev pub small_cache : TableCache
small_cache = record {
  get = λ number size ikey.
      if number == 6
      then (ok, none)
      else if number == 5
      then (ok, some (key_of 98, 120 ∷ []))
      else (error io_error "unread", none);
}

abbrev pub small_level0 : List FileMetaData
small_level0 =
    file_meta_data 5 100 (key_of 97) (key_of 99)
    ∷ file_meta_data 6 100 (key_of 98) (key_of 100)
    ∷ []

pub small-IsSorted : All (IsSortedLevel bytewise_comparator) (level ∷ [])
small-IsSorted = ((level-IsSorted, omega arith), tt)

get_from-first_decision_example :
    (newest : List FileMetaData) × IsNewestFirst newest
    × ((f : FileMetaData)
        → Member f newest ↔ (
            Member f small_level0
            × (holds_key bytewise_comparator (lookup_user_key (lookup_key (98 ∷ []) 5)) f ≡ true)))
    × ((get_from bytewise_comparator small_cache
          (lookup_key (98 ∷ []) 5)
          (small_level0 ∷ level ∷ [])).0
        ≡ conclude (
            first_decision bytewise_comparator small_cache
              (lookup_key (98 ∷ []) 5)
              (newest ++ levels_read bytewise_comparator (lookup_key (98 ∷ []) 5) (level ∷ []))))
get_from-first_decision_example =
    get_from-first_decision bytewise_comparator small_cache (lookup_key (98 ∷ []) 5)
      bytewise_comparator-IsOrder small_level0 (level ∷ []) small-IsSorted
