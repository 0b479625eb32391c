-- ===== src/Db/Filename/Tests.antt =====
-- Runs of the names of files, and of SetCurrentFile on a disk that is full.
use level_db.Common.{ℕ, ◌+◌, map, true, false, List, [], ◌∷◌, ◌++◌, none, some, ◌≡◌, refl, arith}
use level_db.Util.Slice.{memcmp, slice_eq, starts_with, remove_prefix}
use level_db.Util.Status.{ok, error, io_error, is_ok}
use level_db.Util.Logging.{consume_loop, consume_decimal_number}
use level_db.Util.Logging.Print.{print_loop, print_06}
use level_db.Util.Env.{
  Env, if_ok, if_failed, write_opened, do_write_string_to_file, write_string_to_file_sync,
}
use level_db.Util.Env.Traced.{traced, Ends}
use level_db.Db.Filename.{
  descriptor_file, log_file, table_file, temp_file, current_file, db_lock_file, info_log_file,
  make_file_name, log_file_name, table_file_name, temp_file_name, descriptor_file_name,
  current_file_name, lock_file_name, info_log_file_name, old_info_log_file_name, parse_descriptor,
  parse_file_name, set_current_file,
}
use level_db.Db.Filename.Parsed.{Reads, parse_file_name-names}
use level_db.Db.Filename.Current.{replace_calls, set_current_file-Ends}

-- "db/000042.log"
log_42 :
    log_file_name (100 ∷ 98 ∷ []) 42
    ≡ 100 ∷ 98 ∷ 47 ∷ 48 ∷ 48 ∷ 48 ∷ 48 ∷ 52 ∷ 50 ∷ 46 ∷ 108 ∷ 111 ∷ 103 ∷ []
unfolding log_file_name make_file_name print_06 print_loop
log_42 = refl

-- "MANIFEST-3x", which goes on behind the number.
manifest_rest : parse_file_name (77 ∷ 65 ∷ 78 ∷ 73 ∷ 70 ∷ 69 ∷ 83 ∷ 84 ∷ 45 ∷ 51 ∷ 120 ∷ []) ≡ none
unfolding parse_file_name slice_eq starts_with memcmp remove_prefix parse_descriptor
    consume_decimal_number consume_loop
manifest_rest = refl

-- A disk on which everything succeeds but Sync.
abbrev full_disk : Env ℕ
full_disk = record {
  new_writable_file = λ f s. (s + 1, ok);
  append = λ f text s. (s + 1, ok);
  sync = λ f s. (s, error io_error "no space left");
  close = λ f s. (s + 1, ok);
  delete_file = λ f s. (s + 1, ok);
  rename_file = λ f g s. (s + 1, ok);
}

-- Sync fails, the temporary file is deleted twice, and nothing is renamed.
full_disk_run :
    map (λ call. call.1) (set_current_file (traced full_disk) (100 ∷ []) 5 (0, [])).0.1
    ≡ true ∷ true ∷ false ∷ true ∷ true ∷ []
unfolding set_current_file write_string_to_file_sync do_write_string_to_file write_opened if_ok
    if_failed is_ok
full_disk_run = refl

parse_file_name-names_example :
    Reads (100 ∷ []) (log_file_name (100 ∷ []) 1234567) 1234567 log_file
    × Reads (100 ∷ []) (table_file_name (100 ∷ []) 1234567) 1234567 table_file
    × Reads (100 ∷ []) (temp_file_name (100 ∷ []) 1234567) 1234567 temp_file
    × Reads (100 ∷ []) (descriptor_file_name (100 ∷ []) 1234567) 1234567 descriptor_file
    × Reads (100 ∷ []) (current_file_name (100 ∷ [])) 0 current_file
    × Reads (100 ∷ []) (lock_file_name (100 ∷ [])) 0 db_lock_file
    × Reads (100 ∷ []) (info_log_file_name (100 ∷ [])) 0 info_log_file
    × Reads (100 ∷ []) (old_info_log_file_name (100 ∷ [])) 0 info_log_file
parse_file_name-names_example = parse_file_name-names (100 ∷ []) 1234567 (omega arith)

set_current_file-Ends_example :
    (name : List ℕ) × (parse_file_name name ≡ some (5, descriptor_file))
    × (descriptor_file_name (100 ∷ []) 5 ≡ (100 ∷ []) ++ (47 ∷ name))
    × Ends
        (temp_file_name (100 ∷ []) 5)
        (replace_calls
          (temp_file_name (100 ∷ []) 5)
          (current_file_name (100 ∷ []))
          (name ++ (10 ∷ [])))
        (set_current_file (traced full_disk) (100 ∷ []) 5 (0, []))
set_current_file-Ends_example =
    set_current_file-Ends full_disk (100 ∷ []) 5 0 (omega arith) (omega arith)
