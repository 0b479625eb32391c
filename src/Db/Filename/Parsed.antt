-- ===== src/Db/Filename/Parsed.antt =====
-- ParseFileName on the names that the functions of db/filename.cpp build, without the directory.

use level_db.Common.{
  ℕ, suc, ◌+◌, ◌^◌, ◌<◌, ◌≤◌, List, [], ◌∷◌, ◌++◌, length, drop, All, some, ◌>>=◌, ◌≡◌, refl, ap,
  ◌∙◌, arith, append-nil,
}
use level_db.Util.Slice.{memcmp, slice_eq, starts_with, remove_prefix}
use level_db.Util.Logging.{consume_decimal_number}
use level_db.Util.Logging.Decimal.{IsDigit}
use level_db.Util.Logging.Print.{
  print_06, print_06-IsDigit, length-print_06, consume_decimal_number-print_06,
}
use level_db.Db.Filename.{
  FileType, log_file, db_lock_file, table_file, descriptor_file, current_file, temp_file,
  info_log_file, manifest_prefix, current, lock, info_log, old_info_log, log_suffix, table_suffix,
  temp_suffix, make_file_name, log_file_name, table_file_name, descriptor_file_name,
  current_file_name, lock_file_name, temp_file_name, info_log_file_name, old_info_log_file_name,
  parse_suffix, parse_descriptor, parse_file_name,
}

-- The name without the directory and the slash.
abbrev pub base_name : List ℕ → List ℕ → List ℕ
base_name dbname name = remove_prefix (length dbname + 1) name

pub base_name-append : (dbname rest : List ℕ) → base_name dbname (dbname ++ (47 ∷ rest)) ≡ rest
unfolding remove_prefix
base_name-append [] rest = refl
base_name-append (c ∷ dbname) rest =
    let one_more : suc (length dbname) + 1 ≡ suc (length dbname + 1) = omega arith in
    ap (λ (k : ℕ). drop k (c ∷ (dbname ++ (47 ∷ rest)))) one_more ∙ base_name-append dbname rest

-- A string of digits is none of the fixed names.
digit_name :
    (d : ℕ) (ds : List ℕ)
    → IsDigit d
    → parse_file_name (d ∷ ds) ≡ (consume_decimal_number (d ∷ ds) >>= parse_suffix)
unfolding parse_file_name slice_eq starts_with memcmp
digit_name d ds h = ground (arith, h)

number_name :
    (digits rest : List ℕ)
    → All IsDigit digits
    → 1 ≤ length digits
    → parse_file_name (digits ++ rest) ≡ (consume_decimal_number (digits ++ rest) >>= parse_suffix)
number_name [] rest h ne = absurd (omega arith)
number_name (d ∷ ds) rest (h, hs) ne = digit_name d (ds ++ rest) h

parse_number :
    (n : ℕ) (suffix : List ℕ)
    → n < 2 ^ 64
    → parse_file_name (print_06 n ++ (46 ∷ suffix)) ≡ parse_suffix (n, 46 ∷ suffix)
parse_number n suffix h =
    number_name (print_06 n) (46 ∷ suffix) (print_06-IsDigit n) (omega (arith, length-print_06 n))
    ∙ rw (consume_decimal_number-print_06 n (46 ∷ suffix) h refl) refl

parse_manifest :
    (rest : List ℕ)
    → parse_file_name (manifest_prefix ++ rest) ≡ (consume_decimal_number rest >>= parse_descriptor)
unfolding parse_file_name slice_eq starts_with memcmp remove_prefix
parse_manifest rest = ground arith

pub parse_descriptor_name :
    (n : ℕ)
    → n < 2 ^ 64
    → parse_file_name (manifest_prefix ++ print_06 n) ≡ some (n, descriptor_file)
unfolding parse_descriptor
parse_descriptor_name n h =
    parse_manifest (print_06 n)
    ∙ rw (← append-nil (print_06 n)) (rw (consume_decimal_number-print_06 n [] h tt) refl)

abbrev pub Reads : List ℕ → List ℕ → ℕ → FileType → Type 0
Reads dbname name number type = parse_file_name (base_name dbname name) ≡ some (number, type)

-- For a number below 2^64 and any directory, ParseFileName reads from the name of a log, table,
-- temporary or descriptor file, without the directory, its number and type, and from the names of
-- CURRENT, LOCK, LOG and LOG.old the number 0 and their types.
pub parse_file_name-names :
    (dbname : List ℕ) (n : ℕ)
    → n < 2 ^ 64
    → Reads dbname (log_file_name dbname n) n log_file
      × Reads dbname (table_file_name dbname n) n table_file
      × Reads dbname (temp_file_name dbname n) n temp_file
      × Reads dbname (descriptor_file_name dbname n) n descriptor_file
      × Reads dbname (current_file_name dbname) 0 current_file
      × Reads dbname (lock_file_name dbname) 0 db_lock_file
      × Reads dbname (info_log_file_name dbname) 0 info_log_file
      × Reads dbname (old_info_log_file_name dbname) 0 info_log_file
unfolding log_file_name table_file_name temp_file_name make_file_name descriptor_file_name
    current_file_name lock_file_name info_log_file_name old_info_log_file_name parse_suffix slice_eq
    starts_with memcmp parse_file_name
parse_file_name-names dbname n h = (
  rw (base_name-append dbname (print_06 n ++ (46 ∷ log_suffix))) (parse_number n log_suffix h),
  rw (base_name-append dbname (print_06 n ++ (46 ∷ table_suffix))) (parse_number n table_suffix h),
  rw (base_name-append dbname (print_06 n ++ (46 ∷ temp_suffix))) (parse_number n temp_suffix h),
  rw (base_name-append dbname (manifest_prefix ++ print_06 n)) (parse_descriptor_name n h),
  rw (base_name-append dbname current) refl,
  rw (base_name-append dbname lock) refl,
  rw (base_name-append dbname info_log) refl,
  rw (base_name-append dbname old_info_log) refl,
)
