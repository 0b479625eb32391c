-- ===== src/Db/VersionEdit/Tests.antt =====
-- Runs of db/version_edit.cpp on a concrete edit.
use level_db.Common.{[], ◌∷◌, none, some, ◌≡◌, ◌≢◌, refl, arith, inl, All}
use level_db.Util.Coding.{put_length_prefixed_slice, put_varint64, get_varint32}
use level_db.Util.Status.{status_with, ok, error, corruption}
use level_db.Db.VersionEdit.{
  VersionEdit, file_meta_data, encode_to, decode_from, decode_loop, out_of_fuel, fields, put_fields,
  put_payload, read_field, get_deleted_file, get_level, clear,
}
use level_db.Db.VersionEdit.Shape.{Fits}
use level_db.Db.VersionEdit.RoundTrip.{decode_from-encode_to}
use level_db.Db.VersionEdit.Decoded.{IsWellFormed, decode_loop-ends}

abbrev empty_edit : VersionEdit
empty_edit = record {
  comparator = none;
  log_number = none;
  prev_log_number = none;
  next_file_number = none;
  last_sequence = none;
  compact_pointers = [];
  deleted_files = [];
  new_files = [];
}

abbrev edit : VersionEdit
edit = record {
  comparator = some (99 ∷ []);
  log_number = some 300;
  prev_log_number = none;
  next_file_number = some 12;
  last_sequence = none;
  compact_pointers = (2, 97 ∷ []) ∷ [];
  deleted_files = (0, 4) ∷ (1, 3) ∷ [];
  new_files = (1, file_meta_data 11 5000 (97 ∷ []) (98 ∷ [])) ∷ [];
}

edit_bytes :
    encode_to [] edit
    ≡ 1 ∷ 1 ∷ 99 ∷ 2 ∷ 172 ∷ 2 ∷ 3 ∷ 12 ∷ 5 ∷ 2 ∷ 1 ∷ 97 ∷ 6 ∷ 0 ∷ 4 ∷ 6 ∷ 1 ∷ 3 ∷ 7 ∷ 1 ∷ 11 ∷ 136
      ∷ 39 ∷ 1 ∷ 97 ∷ 1 ∷ 98 ∷ []
unfolding encode_to put_fields fields put_payload put_length_prefixed_slice put_varint64
edit_bytes = refl

bad_level :
    decode_from empty_edit (6 ∷ 7 ∷ 1 ∷ [])
    ≡ (empty_edit, error corruption "VersionEdit: deleted file")
unfolding decode_from decode_loop get_varint32 read_field get_deleted_file get_level clear
    status_with
bad_level = refl

edit-Fits : All Fits (fields edit)
unfolding fields
edit-Fits = (
  omega arith,
  (
    omega arith,
    (
      omega arith,
      (
        (omega arith, omega arith),
        (
          (omega arith, omega arith),
          (
            (omega arith, omega arith),
            ((omega arith, (omega arith, omega arith, omega arith, omega arith, refl)), tt),
          ),
        ),
      ),
    ),
  ),
)

-- The pointers of the edit that is decoded into stay, in front of the decoded ones.
decode_from-encode_to_example :
    decode_from (record empty_edit { compact_pointers = (5, []) ∷ [] }) (encode_to [] edit)
    ≡ (record edit { compact_pointers = (5, []) ∷ (2, 97 ∷ []) ∷ [] }, ok)
decode_from-encode_to_example =
    decode_from-encode_to (record empty_edit { compact_pointers = (5, []) ∷ [] }) edit edit-Fits
      ((inl (omega arith), tt), (tt, tt))

decode_loop-ends_example :
    ((decode_loop 4 (6 ∷ 9 ∷ 1 ∷ []) empty_edit).1 ≢ out_of_fuel)
    × IsWellFormed (decode_loop 4 (6 ∷ 9 ∷ 1 ∷ []) empty_edit).0
decode_loop-ends_example =
    decode_loop-ends 4 (6 ∷ 9 ∷ 1 ∷ []) empty_edit (omega arith) (tt, tt, tt, tt)
