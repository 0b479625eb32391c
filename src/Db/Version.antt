-- ===== src/Db/Version.antt =====
-- db/version_set.cpp: Version::Get, the lookup of a key in the files of the levels.
--
-- A version is its lists of files, level 0 first. The table cache is an interface: TableCache::Get
-- calls SaveValue once at most, with the entry that the table's iterator stands on. Nothing is assumed
-- of what it returns.
pub mod Sources
pub mod Sorted
pub mod LevelZero
pub mod Lookup
pub mod Tests
use Prim.Native.Nat.{Ordering}
use level_db.Common.{
  ℕ, suc, ◌&&◌, not, List, [], ◌∷◌, ltb, get_elem?, if◌then◌else◌, Option, none, some,
}
use level_db.Util.Slice.{is_lt, is_gt}
use level_db.Util.Status.{Status, error, not_found, corruption, is_ok}
use level_db.Util.Comparator.{Comparator}
use level_db.Db.Format.{
  value, deletion, parse_internal_key, extract_user_key, LookupKey, lookup_user_key,
  lookup_internal_key,
}
use level_db.Db.VersionEdit.{FileMetaData}
use level_db.Db.VersionSet.{find_file}

-- TableCache::Get at a file number, a file size and an internal key.
pub record TableCache : Type 0 where
  pub get : ℕ → ℕ → List ℕ → Status × Option (List ℕ × List ℕ)

-- SaverState, with the value that SaveValue assigns.
pub data Saved : Type 0 where
  not_saved : Saved
  saved : List ℕ → Saved
  saved_deletion : Saved
  saved_corrupt : Saved

-- GetStats, with the locals `last_file_read` and `last_file_read_level`.
pub record ReadStats : Type 0 where
  pub seek_file : Option (FileMetaData × ℕ)
  pub last_file_read : Option (FileMetaData × ℕ)

abbrev pub no_stats : ReadStats
no_stats = record { seek_file = none; last_file_read = none }

-- The status, and the value if Get has assigned it.
pub data GetResult : Type 0 where
  got : List ℕ → GetResult
  failed : Status → GetResult

-- `return Status::NotFound(Slice())`
abbrev pub absent : GetResult
absent = failed (error not_found "")

-- Seeks are charged to the file that was read before a second one.
unfoldable pub charge_seek : ReadStats → ReadStats
charge_seek stats = elim stats.last_file_read [
  | none ↦ stats
  | some last ↦ elim stats.seek_file [
    | none ↦ record stats { seek_file = some last }
    | some first ↦ stats
  ]
]

-- std::sort by NewestFirst.
unfoldable pub insert_newest : FileMetaData → List FileMetaData → List FileMetaData
insert_newest f [] = f ∷ []
insert_newest f (g ∷ files) =
    let rest = insert_newest f files in if ltb g.number f.number then f ∷ g ∷ files else g ∷ rest

unfoldable pub sort_newest_first : List FileMetaData → List FileMetaData
sort_newest_first [] = []
sort_newest_first (f ∷ files) = insert_newest f (sort_newest_first files)

module _ (user_comparator : Comparator) where
  open user_comparator use {compare}

  -- SaveValue, with the state before it.
  unfoldable pub save_value : List ℕ → List ℕ → List ℕ → Saved → Saved
  save_value user_key ikey v s = elim (parse_internal_key ikey) [
    | none ↦ saved_corrupt
    | some parsed_key ↦ elim (compare parsed_key.user_key user_key) [
      | Ordering.eq ↦ elim parsed_key.type [ value ↦ saved v | deletion ↦ saved_deletion ]
      | _ ↦ s
    ]
  ]

  -- The files of level 0 whose range holds the key.
  unfoldable pub overlapping : List ℕ → List FileMetaData → List FileMetaData
  overlapping user_key [] = []
  overlapping user_key (f ∷ files) =
      let rest = overlapping user_key files in
      if not (is_lt (compare user_key (extract_user_key f.smallest)))
        && not (is_gt (compare user_key (extract_user_key f.largest)))
      then f ∷ rest
      else rest

  -- The file of a sorted level that may hold the key.
  unfoldable pub candidate : LookupKey → List FileMetaData → List FileMetaData
  candidate k files =
      elim (get_elem? files (find_file user_comparator files (lookup_internal_key k))) [
        | none ↦ []
        | some f ↦
            if is_lt (compare (lookup_user_key k) (extract_user_key f.smallest)) then [] else f ∷ []
      ]

  module _ (table_cache : TableCache) (k : LookupKey) where
    -- What SaveValue leaves in the saver, behind the status of the read.
    unfoldable pub read_file : FileMetaData → Status × Saved
    read_file f =
        let (s, entry) = table_cache.get f.number f.file_size (lookup_internal_key k) in
        (
          s,
          elim entry [
            | none ↦ not_saved
            | some (ikey, v) ↦ save_value (lookup_user_key k) ikey v not_saved
          ],
        )

    -- The loop over the files of one level: `none` where it goes on to the next level. The user
    -- key in the message of the corruption is left out.
    unfoldable pub search_files : ℕ → List FileMetaData → ReadStats → Option GetResult × ReadStats
    search_files level [] stats = (none, stats)
    search_files level (f ∷ files) stats =
        let stats' = record (charge_seek stats) { last_file_read = some (f, level) } in
        let rest = search_files level files stats' in
        let (s, saver) = read_file f in
        if is_ok s
        then (elim saver [
          | not_saved ↦ rest
          | saved v ↦ (some (got v), stats')
          | saved_deletion ↦ (some absent, stats')
          | saved_corrupt ↦ (some (failed (error corruption "corrupted key for ")), stats')
        ])
        else (some (failed s), stats')

    -- The levels from 1 on.
    unfoldable pub search_levels : ℕ → List (List FileMetaData) → ReadStats → GetResult × ReadStats
    search_levels level [] stats = (absent, stats)
    search_levels level (files ∷ levels) stats =
        let (result, stats') = search_files level (candidate k files) stats in
        let rest = search_levels (suc level) levels stats' in
        elim result [ none ↦ rest | some r ↦ (r, stats') ]

    -- Version::Get; the first list holds the files of level 0.
    unfoldable pub get_from : List (List FileMetaData) → GetResult × ReadStats
    get_from [] = (absent, no_stats)
    get_from (level0 ∷ levels) =
        let files = sort_newest_first (overlapping (lookup_user_key k) level0) in
        let (result, stats) = search_files 0 files no_stats in
        let rest = search_levels 1 levels stats in elim result [ none ↦ rest | some r ↦ (r, stats) ]
