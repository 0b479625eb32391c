-- ===== src/Lib.antt =====
-- A model of LevelDB (a C++ key-value store) and of what its formats and algorithms guarantee.
--
-- The program. A database keeps recent updates in a memtable and older ones in sorted tables on
-- disk. An update is a write batch; it gets a sequence number, goes to a log and then, record by
-- record, into the memtable under internal keys. Tables carry a footer that finds their index and
-- a Bloom filter that saves reads. The set of tables changes by version edits, which a MANIFEST
-- file records. Every one of these formats stands on the codings of util/coding.cpp.
--
-- The files. Bytes are natural numbers below 256 and a string is a list of them; a pointer into a
-- string is the list from there on; a function that advances its input returns what is left. A
-- uint32 or uint64 is a natural number with its wrap-around written out.
--   Common             lists, comparisons, binary digits of native numbers
--   Util/Coding        util/coding.h, util/coding.cpp: fixed and variable length integers,
--                      length-prefixed slices
--   Util/Slice         leveldb/slice.h: comparison and prefixes of byte strings
--   Util/Status        leveldb/status.h, util/status.cpp: results with a code and a message
--   Util/Comparator    leveldb/comparator.h, util/comparator.cpp: the interface of a key order
--                      with its laws (IsOrder, Shortens), and the byte-wise order
--   Util/Hash          util/hash.cpp: the hash of a key
--   Util/Bloom         util/bloom.cpp: CreateFilter (create_filter) and KeyMayMatch (key_may_match)
--   Util/Crc32c        util/crc32c.h: the masked form of a checksum
--   Util/Logging       util/logging.cpp: ConsumeDecimalNumber; the conversion %06llu of snprintf
--   Util/Env           util/env.cpp: WriteStringToFile over the methods of leveldb/env.h, an
--                      interface (Env) whose calls Traced records
--   Util/Random        util/random.h: the generator behind the heights of the skip list
--   Table/Format       table/format.h, table/format.cpp: BlockHandle and Footer
--   Table/Block        table/block_builder.cpp, table/block.cpp: BlockBuilder::Add, DecodeEntry and
--                      ParseNextKey without its restart index
--   Db/Format          db/dbformat.h, db/dbformat.cpp: internal keys, their comparator over any
--                      user comparator, LookupKey
--   Db/Batch           leveldb/write_batch.h, db/write_batch_internal.h, db/write_batch.cpp:
--                      WriteBatch; the handler of Iterate is seen as the list of calls it gets,
--                      and the memtable of InsertInto as the list of its Add calls
--   Db/VersionEdit     db/version_edit.h, db/version_edit.cpp: EncodeTo and DecodeFrom
--   Db/Log             db/log_format.h, db/log_writer.cpp, db/log_reader.cpp: AddRecord and
--                      ReadRecord, with the checksum as a parameter
--   Db/SkipList        db/skiplist.h: the skip list on a store of nodes and pointers
--   Db/MemTable        db/memtable.cpp: Add and Get, over the skip list
--   Db/Compaction      db/db_impl.cpp, db/version_set.cpp: the entries that DoCompactionWork drops,
--                      and IsBaseLevelForKey
--   Db/VersionSet      db/version_set.cpp: FindFile and SomeFileOverlapsRange
--   Db/Version         db/version_set.cpp: Version::Get over the levels; the table cache is an
--                      interface (TableCache)
--   Db/Builder         db/version_set.cpp: VersionSet::Builder, which applies edits to a version
--   Db/Inputs          db/version_set.cpp: GetOverlappingInputs, GetRange, SetupOtherInputs,
--                      PickCompaction, CompactRange, PickLevelForMemTableOutput, ShouldStopBefore
--   Db/Filename        db/filename.cpp: the names of files, ParseFileName, SetCurrentFile
--   Db/Database        db/db_impl.cpp: DBImpl::Get over the memtables and the current version
--
-- Loops. A loop over the bytes of an input is structural recursion, or recursion on fuel where one
-- round takes several bytes: Iterate gets the length of the input, and DecodeFrom one more, and
-- each round takes a byte at least. FindFile gets the number of files, and each round halves the
-- interval. AddRecord gets two rounds for each byte and two more: a round that finds room for a
-- header alone takes no byte, but the next one does. ReadRecord gets one round for each byte that
-- is left and one more, and the loop in it that fills the buffer two: a read leaves enough for a
-- header or was the last. The searches of the skip list get the number of its nodes and its height:
-- each round passes a node or goes down a level. GetOverlappingInputs gets two restarts
-- for each file and one run more: a restart leaves one end of a file less out of the range. The
-- varint encoders recurse on the accessibility of the value.
--
-- Not modelled. Files, threads and the clock (util/env_posix.cpp, port/) are calls of the
-- operating system; the reads, appends and skips of the log are taken to succeed, and
-- ReadFileToString is left out. The skip list has one thread at a time, and its memory barriers are
-- left out. The checksum itself, Finish, Seek and Prev of blocks, the iterators of tables, the
-- caches and the arena are not in this library; a table is read through the interface TableCache.
-- Of the version set, Recover, LogAndApply and Finalize are left, and of the database the writers,
-- the recovery and the threads.
-- DebugString functions only print.
pub mod Common
pub mod Util
pub mod Db
pub mod Table
