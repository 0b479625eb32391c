-- ===== src/Db/Database/Snapshot.antt =====
-- What DBImpl::Get answers at a snapshot.
use level_db.Common.{
  ℕ, ◌+◌, ◌^◌, ◌<◌, ◌≤◌, List, [], ◌∷◌, ◌++◌, length, All, Option, none, some, ◌>>=◌, ◌≡◌, ◌↔◌,
  refl, sym, true,
}
use mathlib.Core.Path.{subst}
use level_db.Util.Comparator.{Comparator, IsOrder}
use level_db.Db.Format.{max_sequence_number, lookup_key}
use level_db.Db.Batch.{Add}
use level_db.Db.VersionEdit.{FileMetaData}
use level_db.Db.SkipList.{SkipList}
use level_db.Db.MemTable.{Answer, not_here, found, deleted}
use level_db.Db.MemTable.Entries.{lookup_user_key-lookup_key}
use level_db.Db.MemTable.Lookups.{Newest, nothing}
use level_db.Db.MemTable.History.{Holds, get-Newest}
use level_db.Db.Version.{TableCache, GetResult, got, absent}
use level_db.Db.Version.Sources.{or_else, IsNewer, Newest-append}
use level_db.Db.Version.LevelZero.{IsNewestFirst, Member, holds_key}
use level_db.Db.Version.Lookup.{
  IsSortedLevel, first_decision, levels_read, conclude, get_from-first_decision,
}
use level_db.Db.Database.{Database, snapshot_of, or_next, get_imm, db_get}

-- The answer of the memtables, or else that of the files.
abbrev pub or_files : Answer → GetResult → GetResult
or_files not_here r = r
or_files (found v) r = got v
or_files deleted r = absent

or_next-or_files :
    (a b : Answer) (r : GetResult)
    → or_next a (or_next b (some r)) ≡ some (or_files (or_else a b) r)
or_next-or_files not_here not_here r = refl
or_next-or_files not_here (found v) r = refl
or_next-or_files not_here deleted r = refl
or_next-or_files (found v) b r = refl
or_next-or_files deleted b r = refl

module _ (c : Comparator) where
  -- The immutable memtable holds the entries, and none where there is no such table.
  abbrev pub HoldsImm : Option (SkipList (List ℕ)) → List Add → Type 0
  HoldsImm none es = es ≡ []
  HoldsImm (some imm) es = Holds c imm es

  -- The memtables hold these entries, the first not older ones; the levels from 1 on are sorted.
  pub record IsDatabase (db : Database) (mem imm : List Add) (level0 : List FileMetaData)
      (levels : List (List FileMetaData)) : Type 0 where
    pub in_mem : Holds c db.mem mem
    pub in_imm : HoldsImm db.imm imm
    pub newer : IsNewer c mem imm
    pub files : db.current ≡ level0 ∷ levels
    pub sorted : All (IsSortedLevel c) levels

  get_imm-Newest :
      (u : List ℕ) (s : ℕ) (imm : Option (SkipList (List ℕ))) (es : List Add)
      → IsOrder c
      → HoldsImm imm es
      → length u + 8 < 2 ^ 32
      → s ≤ max_sequence_number
      → (a : Answer) × (get_imm c imm (lookup_key u s) ≡ some a) × Newest c u s es a
  unfolding get_imm
  get_imm-Newest u s none es ord empty hu hs = (
    not_here,
    refl,
    subst (λ l. Newest c u s l not_here) (sym empty) (nothing (λ e i. absurd i) refl),
  )
  get_imm-Newest u s (some imm) es ord holds hu hs = get-Newest c imm es u s ord holds hu hs

  -- If the user comparator is a total order, the memtables hold entries, those of the first one
  -- not older, the levels of the current version from 1 on are sorted as for Version::Get, the
  -- user key is shorter than 2^32 - 8 and the snapshot not above the largest sequence number,
  -- then DBImpl::Get ends over any table cache. If an entry of the key in the memtables is not
  -- above the snapshot, or LastSequence without one, it answers with the value of the one that
  -- has the largest such sequence number, or NotFound if that is a deletion. Otherwise it answers
  -- with the first read that decides in the files of the current version, read in the order of
  -- Version::Get, and NotFound if none does.
  pub db_get-Newest :
      (cache : TableCache) (db : Database) (mem imm : List Add) (level0 : List FileMetaData)
      (levels : List (List FileMetaData)) (snapshot : Option ℕ) (u : List ℕ)
      → IsOrder c
      → IsDatabase db mem imm level0 levels
      → length u + 8 < 2 ^ 32
      → snapshot_of db snapshot ≤ max_sequence_number
      → (a : Answer) × Newest c u (snapshot_of db snapshot) (mem ++ imm) a
        × (newest : List FileMetaData) × IsNewestFirst newest
        × ((f : FileMetaData) → Member f newest ↔ (Member f level0 × (holds_key c u f ≡ true)))
        × (db_get c cache db snapshot u
            ≡ some (
                or_files a (
                  conclude (
                    first_decision c cache
                      (lookup_key u (snapshot_of db snapshot))
                      (newest ++ levels_read c (lookup_key u (snapshot_of db snapshot)) levels)))))
  unfolding db_get
  db_get-Newest cache db mem imm level0 levels snapshot u ord inv hu hs =
      let s = snapshot_of db snapshot in
      let (a, read_mem, first) = get-Newest c db.mem mem u s ord inv.in_mem hu hs in
      let (b, read_imm, second) = get_imm-Newest u s db.imm imm ord inv.in_imm hu hs in
      let (newest, order, members, read_files) =
        get_from-first_decision c cache (lookup_key u s) ord level0 levels inv.sorted in
      (
        or_else a b,
        Newest-append c u s ord mem imm a b inv.newer first second,
        newest,
        order,
        (λ f.
            subst (λ key. Member f newest ↔ (Member f level0 × (holds_key c key f ≡ true)))
              (lookup_user_key-lookup_key c u s) (members f)),
        rw (read_mem, ◌>>=◌, read_imm, inv.files, read_files) (or_next-or_files a b _),
      )
