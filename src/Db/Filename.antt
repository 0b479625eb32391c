-- ===== src/Db/Filename.antt =====
-- db/filename.cpp: the names of the files of a database, ParseFileName and SetCurrentFile.
--
-- Bytes are written out: "log", "sst", "dbtmp", "MANIFEST-", "CURRENT", "LOCK", "LOG", "LOG.old".
pub mod Parsed
pub mod Current
mod Tests
use level_db.Common.{
  ℕ, suc, ◌+◌, Bool, true, false, ◌||◌, List, [], ◌∷◌, ◌++◌, length, if◌then◌else◌, Option, none,
  some, ◌>>=◌,
}
use level_db.Util.Slice.{slice_eq, starts_with, remove_prefix}
use level_db.Util.Status.{Status}
use level_db.Util.Logging.{consume_decimal_number}
use level_db.Util.Logging.Print.{print_06}
use level_db.Util.Env.{Env, if_ok, if_failed, write_string_to_file_sync}

pub data FileType : Type 0 where
  log_file db_lock_file table_file descriptor_file current_file temp_file info_log_file : FileType

abbrev pub manifest_prefix : List ℕ
manifest_prefix = 77 ∷ 65 ∷ 78 ∷ 73 ∷ 70 ∷ 69 ∷ 83 ∷ 84 ∷ 45 ∷ []

abbrev pub current : List ℕ
current = 67 ∷ 85 ∷ 82 ∷ 82 ∷ 69 ∷ 78 ∷ 84 ∷ []

abbrev pub lock : List ℕ
lock = 76 ∷ 79 ∷ 67 ∷ 75 ∷ []

abbrev pub info_log : List ℕ
info_log = 76 ∷ 79 ∷ 71 ∷ []

abbrev pub old_info_log : List ℕ
old_info_log = 76 ∷ 79 ∷ 71 ∷ 46 ∷ 111 ∷ 108 ∷ 100 ∷ []

abbrev pub log_suffix : List ℕ
log_suffix = 108 ∷ 111 ∷ 103 ∷ []

abbrev pub table_suffix : List ℕ
table_suffix = 115 ∷ 115 ∷ 116 ∷ []

abbrev pub temp_suffix : List ℕ
temp_suffix = 100 ∷ 98 ∷ 116 ∷ 109 ∷ 112 ∷ []

-- "/%06llu." and the suffix; the buffer of 100 bytes is never full.
unfoldable pub make_file_name : List ℕ → ℕ → List ℕ → List ℕ
make_file_name name number suffix = name ++ (47 ∷ (print_06 number ++ (46 ∷ suffix)))

unfoldable pub log_file_name : List ℕ → ℕ → List ℕ
unfolding make_file_name
log_file_name name number = make_file_name name number log_suffix

unfoldable pub table_file_name : List ℕ → ℕ → List ℕ
unfolding make_file_name
table_file_name name number = make_file_name name number table_suffix

unfoldable pub descriptor_file_name : List ℕ → ℕ → List ℕ
descriptor_file_name dbname number = dbname ++ (47 ∷ (manifest_prefix ++ print_06 number))

unfoldable pub current_file_name : List ℕ → List ℕ
current_file_name dbname = dbname ++ (47 ∷ current)

unfoldable pub lock_file_name : List ℕ → List ℕ
lock_file_name dbname = dbname ++ (47 ∷ lock)

unfoldable pub temp_file_name : List ℕ → ℕ → List ℕ
unfolding make_file_name
temp_file_name dbname number = make_file_name dbname number temp_suffix

unfoldable pub info_log_file_name : List ℕ → List ℕ
info_log_file_name dbname = dbname ++ (47 ∷ info_log)

unfoldable pub old_info_log_file_name : List ℕ → List ℕ
old_info_log_file_name dbname = dbname ++ (47 ∷ old_info_log)

-- The last branch: the number in front of a suffix.
unfoldable pub parse_suffix : ℕ × List ℕ → Option (ℕ × FileType)
unfolding slice_eq
parse_suffix (num, suffix) =
    if slice_eq suffix (46 ∷ log_suffix)
    then some (num, log_file)
    else if slice_eq suffix (46 ∷ table_suffix)
    then some (num, table_file)
    else if slice_eq suffix (46 ∷ temp_suffix)
    then some (num, temp_file)
    else none

-- The branch of a descriptor: the number is all that is left.
unfoldable pub parse_descriptor : ℕ × List ℕ → Option (ℕ × FileType)
parse_descriptor (num, []) = some (num, descriptor_file)
parse_descriptor (num, c ∷ rest) = none

-- `none` where the source returns false.
unfoldable pub parse_file_name : List ℕ → Option (ℕ × FileType)
unfolding slice_eq starts_with
parse_file_name rest =
    if slice_eq rest current
    then some (0, current_file)
    else if slice_eq rest lock
    then some (0, db_lock_file)
    else if slice_eq rest info_log || slice_eq rest old_info_log
    then some (0, info_log_file)
    else if starts_with rest manifest_prefix
    then consume_decimal_number (remove_prefix (length manifest_prefix) rest) >>= parse_descriptor
    else consume_decimal_number rest >>= parse_suffix

module _ {S : Type 0} (env : Env S) where
  -- The assertion on the prefix of the name is left out.
  unfoldable pub set_current_file : List ℕ → ℕ → S → S × Status
  unfolding descriptor_file_name temp_file_name current_file_name
  set_current_file dbname descriptor_number s =
      let manifest = descriptor_file_name dbname descriptor_number in
      let contents = remove_prefix (length dbname + 1) manifest in
      let tmp = temp_file_name dbname descriptor_number in
      if_failed (env.delete_file tmp) (
        if_ok true (env.rename_file tmp (current_file_name dbname))
          (write_string_to_file_sync env (contents ++ (10 ∷ [])) tmp s))
