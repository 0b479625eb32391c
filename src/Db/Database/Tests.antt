-- ===== src/Db/Database/Tests.antt =====
-- DBImpl::Get on a database with one entry in the memtable, two tables in level 0 and two in level 1.
use level_db.Common.{true, List, [], ◌∷◌, ◌++◌, none, some, ◌≡◌, ◌↔◌, refl, arith}
use level_db.Util.Comparator.{bytewise_comparator}
use level_db.Util.Comparator.Bytewise.{bytewise_comparator-IsOrder}
use level_db.Db.Format.{lookup_key}
use level_db.Db.VersionEdit.{FileMetaData}
use level_db.Db.VersionSet.Tests.{level}
use level_db.Db.MemTable.{Answer}
use level_db.Db.MemTable.Lookups.{Newest}
use level_db.Db.MemTable.Tests.{first_put, with_put}
use level_db.Db.Version.LevelZero.{IsNewestFirst, Member, holds_key}
use level_db.Db.Version.Lookup.{first_decision, levels_read, conclude}
use level_db.Db.Version.Tests.{small_cache, small_level0, small-IsSorted}
use level_db.Db.Database.{Database, db_get}
use level_db.Db.Database.Snapshot.{IsDatabase, or_files, db_get-Newest}

abbrev small_database : Database
small_database = record {
  mem = with_put.0;
  imm = none;
  current = small_level0 ∷ level ∷ [];
  last_sequence = 7;
}

small-IsDatabase :
    IsDatabase bytewise_comparator small_database (first_put ∷ []) [] small_level0 (level ∷ [])
small-IsDatabase = record {
  in_mem = with_put.2;
  in_imm = refl;
  newer = λ x y i j. absurd j;
  files = refl;
  sorted = small-IsSorted;
}

-- At the snapshot 5 the put at 7 is not seen.
db_get-Newest_example :
    (a : Answer) × Newest bytewise_comparator (98 ∷ []) 5 ((first_put ∷ []) ++ []) a
    × (newest : List FileMetaData) × IsNewestFirst newest
    × ((f : FileMetaData)
        → Member f newest
          ↔ (Member f small_level0 × (holds_key bytewise_comparator (98 ∷ []) f ≡ true)))
    × (db_get bytewise_comparator small_cache small_database (some 5) (98 ∷ [])
        ≡ some (
            or_files a (
              conclude (
                first_decision bytewise_comparator small_cache (lookup_key (98 ∷ []) 5) (
                  newest
                  ++ levels_read bytewise_comparator (lookup_key (98 ∷ []) 5) (level ∷ []))))))
db_get-Newest_example =
    db_get-Newest bytewise_comparator small_cache small_database (first_put ∷ []) [] small_level0
      (level ∷ []) (some 5) (98 ∷ []) bytewise_comparator-IsOrder small-IsDatabase (omega arith)
      (omega arith)
