-- ===== src/Db/VersionEdit.antt =====
-- db/version_edit.h and db/version_edit.cpp: a change of the set of files, and its record in the
-- MANIFEST.
pub mod Shape
pub mod RoundTrip
pub mod Decoded
mod Tests
use level_db.Common.{
  ℕ, zero, suc, ◌+◌, ◌^◌, List, [], ◌∷◌, ◌++◌, map, length, ltb, ◌==◌, if◌then◌else◌, Option, none,
  some, ◌>>=◌,
}
use Prim.Native.String.{String}
use level_db.Util.Coding.{
  put_varint32, put_varint64, put_length_prefixed_slice, get_varint32, get_varint64,
  get_length_prefixed_slice,
}
use level_db.Util.Status.{Status, ok, corruption, status_with}
use level_db.Db.Format.{num_levels}

pub record FileMetaData : Type 0 where
  pub refs : ℕ
  pub allowed_seeks : ℕ
  pub number : ℕ
  pub file_size : ℕ
  pub smallest : List ℕ
  pub largest : List ℕ

-- What the constructor of FileMetaData sets, with the fields that AddFile fills.
abbrev pub file_meta_data : ℕ → ℕ → List ℕ → List ℕ → FileMetaData
file_meta_data number file_size smallest largest = record {
  refs = 0;
  allowed_seeks = 2 ^ 30;
  number = number;
  file_size = file_size;
  smallest = smallest;
  largest = largest;
}

-- A field and its `has_` flag are one Option: each setter sets both, Clear resets both, and the
-- value is read only where the flag is set. `deleted_files` is a std::set, here its elements in
-- increasing order.
pub record VersionEdit : Type 0 where
  pub comparator : Option (List ℕ)
  pub log_number : Option ℕ
  pub prev_log_number : Option ℕ
  pub next_file_number : Option ℕ
  pub last_sequence : Option ℕ
  pub compact_pointers : List (ℕ × List ℕ)
  pub deleted_files : List (ℕ × ℕ)
  pub new_files : List (ℕ × FileMetaData)

-- A new edit has no compaction pointers; Clear leaves them as they are.
unfoldable pub clear : VersionEdit → VersionEdit
clear edit = record {
  comparator = none;
  log_number = none;
  prev_log_number = none;
  next_file_number = none;
  last_sequence = none;
  compact_pointers = edit.compact_pointers;
  deleted_files = [];
  new_files = [];
}

-- std::set::insert on pairs, which are ordered by the level and then by the number: one step at
-- the element `(level', number')`.
abbrev pub insert_at : ℕ × ℕ → ℕ × ℕ → List (ℕ × ℕ) → List (ℕ × ℕ) → List (ℕ × ℕ)
insert_at (level, number) (level', number') files rest =
    if ltb level level'
    then (level, number) ∷ (level', number') ∷ files
    else if ltb level' level
    then (level', number') ∷ rest
    else if ltb number number'
    then (level, number) ∷ (level', number') ∷ files
    else if ltb number' number
    then (level', number') ∷ rest
    else (level', number') ∷ files

unfoldable pub insert : ℕ × ℕ → List (ℕ × ℕ) → List (ℕ × ℕ)
insert d [] = d ∷ []
insert d (d' ∷ files) = insert_at d d' files (insert d files)

-- One entry of the record, which is also one call of a setter.
pub data Field : Type 0 where
  comparator_name : List ℕ → Field
  log_number : ℕ → Field
  prev_log_number : ℕ → Field
  next_file_number : ℕ → Field
  last_sequence : ℕ → Field
  compact_pointer : ℕ × List ℕ → Field
  deleted_file : ℕ × ℕ → Field
  new_file : ℕ × FileMetaData → Field

-- SetComparatorName, SetLogNumber and the others.
unfoldable pub set_field : VersionEdit → Field → VersionEdit
set_field edit (comparator_name name) = record edit { comparator = some name }
set_field edit (log_number num) = record edit { log_number = some num }
set_field edit (prev_log_number num) = record edit { prev_log_number = some num }
set_field edit (next_file_number num) = record edit { next_file_number = some num }
set_field edit (last_sequence seq) = record edit { last_sequence = some seq }
set_field edit (compact_pointer p) = record edit {
  compact_pointers = edit.compact_pointers ++ (p ∷ []);
}
set_field edit (deleted_file d) = record edit { deleted_files = insert d edit.deleted_files }
set_field edit (new_file f) = record edit { new_files = edit.new_files ++ (f ∷ []) }

-- The constants of `enum Tag`.
abbrev pub tag : Field → ℕ
tag (comparator_name name) = 1
tag (log_number num) = 2
tag (next_file_number num) = 3
tag (last_sequence seq) = 4
tag (compact_pointer p) = 5
tag (deleted_file d) = 6
tag (new_file f) = 7
tag (prev_log_number num) = 9

unfoldable pub put_payload : List ℕ → Field → List ℕ
put_payload dst (comparator_name name) = put_length_prefixed_slice dst name
put_payload dst (log_number num) = put_varint64 dst num
put_payload dst (prev_log_number num) = put_varint64 dst num
put_payload dst (next_file_number num) = put_varint64 dst num
put_payload dst (last_sequence seq) = put_varint64 dst seq
put_payload dst (compact_pointer (level, key)) =
    put_length_prefixed_slice (put_varint32 dst level) key
put_payload dst (deleted_file (level, number)) = put_varint64 (put_varint32 dst level) number
put_payload dst (new_file (level, f)) =
    put_length_prefixed_slice
      (put_length_prefixed_slice
        (put_varint64 (put_varint64 (put_varint32 dst level) f.number) f.file_size) f.smallest)
      f.largest

abbrev pub optional : {A : Type 0} → (A → Field) → Option A → List Field
optional f none = []
optional f (some a) = f a ∷ []

-- The entries in the order of EncodeTo.
unfoldable pub fields : VersionEdit → List Field
fields edit =
    optional comparator_name edit.comparator
    ++ (optional log_number edit.log_number
        ++ (optional prev_log_number edit.prev_log_number
            ++ (optional next_file_number edit.next_file_number
                ++ (optional last_sequence edit.last_sequence
                    ++ (map compact_pointer edit.compact_pointers
                        ++ (map deleted_file edit.deleted_files ++ map new_file edit.new_files))))))

unfoldable pub put_fields : List ℕ → List Field → List ℕ
put_fields dst [] = dst
put_fields dst (f ∷ fs) = put_fields (put_payload (put_varint32 dst (tag f)) f) fs

unfoldable pub encode_to : List ℕ → VersionEdit → List ℕ
encode_to dst edit = put_fields dst (fields edit)

unfoldable pub get_level : List ℕ → Option (ℕ × List ℕ)
get_level input = do
  (v, rest) ← get_varint32 input
  if ltb v num_levels then some (v, rest) else none

-- InternalKey::DecodeFrom takes the bytes as they are.
abbrev pub get_internal_key : List ℕ → Option (List ℕ × List ℕ)
get_internal_key input = get_length_prefixed_slice input

unfoldable pub get_name : List ℕ → Option (Field × List ℕ)
get_name input = do
  (name, rest) ← get_length_prefixed_slice input
  some (comparator_name name, rest)

unfoldable pub get_number : (ℕ → Field) → List ℕ → Option (Field × List ℕ)
get_number f input = do (num, rest) ← get_varint64 input; some (f num, rest)

unfoldable pub get_compact_pointer : List ℕ → Option (Field × List ℕ)
get_compact_pointer input = do
  (level, after_level) ← get_level input
  (key, rest) ← get_internal_key after_level
  some (compact_pointer (level, key), rest)

unfoldable pub get_deleted_file : List ℕ → Option (Field × List ℕ)
get_deleted_file input = do
  (level, after_level) ← get_level input
  (number, rest) ← get_varint64 after_level
  some (deleted_file (level, number), rest)

unfoldable pub get_new_file : List ℕ → Option (Field × List ℕ)
get_new_file input = do
  (level, after_level) ← get_level input
  (number, after_number) ← get_varint64 after_level
  (file_size, after_size) ← get_varint64 after_number
  (smallest, after_smallest) ← get_internal_key after_size
  (largest, rest) ← get_internal_key after_smallest
  some (new_file (level, file_meta_data number file_size smallest largest), rest)

-- One case of the switch in DecodeFrom: what it stores, or `msg`.
pub data Next : Type 0 where
  field : Field → List ℕ → Next
  bad : String → Next

abbrev pub or_bad : String → Option (Field × List ℕ) → Next
or_bad msg none = bad msg
or_bad msg (some (f, rest)) = field f rest

unfoldable pub read_field : ℕ → List ℕ → Next
read_field t input =
    if t == 1
    then or_bad "comparator name" (get_name input)
    else if t == 2
    then or_bad "log number" (get_number log_number input)
    else if t == 9
    then or_bad "previous log number" (get_number prev_log_number input)
    else if t == 3
    then or_bad "next file number" (get_number next_file_number input)
    else if t == 4
    then or_bad "last sequence number" (get_number last_sequence input)
    else if t == 5
    then or_bad "compaction pointer" (get_compact_pointer input)
    else if t == 6
    then or_bad "deleted file" (get_deleted_file input)
    else if t == 7
    then or_bad "new-file entry" (get_new_file input)
    else bad "unknown tag"

-- How the loop ends. `out_of_fuel` is no behaviour of the source; `decode_loop-ends` excludes it.
pub data Ending : Type 0 where
  finished : Ending
  failed : String → Ending
  out_of_fuel : Ending

abbrev pub at_end : List ℕ → Ending
at_end [] = finished
at_end (b ∷ input) = failed "invalid tag"

unfoldable pub decode_loop : ℕ → List ℕ → VersionEdit → VersionEdit × Ending
decode_loop zero input edit = (edit, out_of_fuel)
decode_loop (suc fuel) input edit = elim (get_varint32 input) [
  | none ↦ (edit, at_end input)
  | some (t, payload) ↦ elim (read_field t payload) [
    | bad msg ↦ (edit, failed msg)
    | field f rest ↦ decode_loop fuel rest (set_field edit f)
  ]
]

abbrev pub result : Ending → Status
result finished = ok
result (failed msg) = status_with corruption "VersionEdit" msg
result out_of_fuel = status_with corruption "VersionEdit" "out of fuel"

-- Each round takes a byte at least, so one round more than there are bytes is enough.
unfoldable pub decode_from : VersionEdit → List ℕ → VersionEdit × Status
decode_from edit src =
    let (decoded, end) = decode_loop (suc (length src)) src (clear edit) in (decoded, result end)
