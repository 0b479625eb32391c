-- ===== src/Db/Database.antt =====
-- db/db_impl.cpp: DBImpl::Get, over the memtables and the current version.
--
-- The charge of a seek to a file (UpdateStats) and the counts of references come after the answer
-- and are left out, and so is the mutex.
pub mod Snapshot
mod Tests
use level_db.Common.{ℕ, List, Option, none, some, ◌>>=◌}
use level_db.Util.Comparator.{Comparator}
use level_db.Db.Format.{LookupKey, lookup_key}
use level_db.Db.VersionEdit.{FileMetaData}
use level_db.Db.SkipList.{SkipList}
use level_db.Db.MemTable.{Answer, not_here, found, deleted}
use level_db.Db.MemTable
use level_db.Db.Version.{TableCache, GetResult, got, absent, get_from}

-- `mem_`, `imm_` or none for NULL, the files of the current version, and LastSequence().
pub record Database : Type 0 where
  pub mem : SkipList (List ℕ)
  pub imm : Option (SkipList (List ℕ))
  pub current : List (List FileMetaData)
  pub last_sequence : ℕ

-- `options.snapshot`, or the newest state.
abbrev pub snapshot_of : Database → Option ℕ → ℕ
snapshot_of db none = db.last_sequence
snapshot_of db (some number) = number

-- What a memtable's Get has set, or else what the next part says.
abbrev pub or_next : Answer → Option GetResult → Option GetResult
or_next not_here next = next
or_next (found v) next = some (got v)
or_next deleted next = some absent

module _ (user_comparator : Comparator) where
  unfoldable pub get_imm : Option (SkipList (List ℕ)) → LookupKey → Option Answer
  get_imm none lkey = some not_here
  get_imm (some imm) lkey = MemTable.get user_comparator imm lkey

  -- DBImpl::Get. `none` is a search in a broken skip list.
  unfoldable pub db_get : TableCache → Database → Option ℕ → List ℕ → Option GetResult
  db_get table_cache db snapshot key =
      let lkey = lookup_key key (snapshot_of db snapshot) in
      do
        in_mem ← MemTable.get user_comparator db.mem lkey
        or_next in_mem do
          in_imm ← get_imm db.imm lkey
          or_next in_imm (some (get_from user_comparator table_cache lkey db.current).0)
