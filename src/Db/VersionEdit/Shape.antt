-- ===== src/Db/VersionEdit/Shape.antt =====
-- The bytes of one entry of a version edit, and of a sequence of entries.
use level_db.Common.{
  ℕ, ◌^◌, ◌<◌, List, [], ◌∷◌, ◌++◌, length, some, ◌≡◌, refl, sym, ap, ◌∙◌, arith, append_assoc,
  append-nil, lt→ltb,
}
use level_db.Util.Coding.{put_varint32, put_varint64, put_length_prefixed_slice}
use level_db.Util.Coding.Varint.{get_varint32-put_varint32, get_varint64-put_varint64}
use level_db.Util.Coding.Prefixed.{get_length_prefixed_slice-put, put_length_prefixed_slice-append}
use level_db.Db.Format.{num_levels}
use level_db.Db.VersionEdit.{
  FileMetaData, file_meta_data, Field, comparator_name, log_number, prev_log_number,
  next_file_number, last_sequence, compact_pointer, deleted_file, new_file, tag, put_payload,
  put_fields, get_level, get_name, get_number, get_compact_pointer, get_deleted_file, get_new_file,
  field, or_bad, read_field,
}

-- The values are in the range of their C++ types, the level is one of the tree, and a new file
-- carries the counters that AddFile gives it.
abbrev pub FileFits : FileMetaData → Type 0
FileFits f =
    (f.number < 2 ^ 64)
    × (f.file_size < 2 ^ 64)
    × (length f.smallest < 2 ^ 32)
    × (length f.largest < 2 ^ 32)
    × (f ≡ file_meta_data f.number f.file_size f.smallest f.largest)

abbrev pub Fits : Field → Type 0
Fits (comparator_name name) = length name < 2 ^ 32
Fits (log_number num) = num < 2 ^ 64
Fits (prev_log_number num) = num < 2 ^ 64
Fits (next_file_number num) = num < 2 ^ 64
Fits (last_sequence seq) = seq < 2 ^ 64
Fits (compact_pointer (level, key)) = (level < num_levels) × (length key < 2 ^ 32)
Fits (deleted_file (level, number)) = (level < num_levels) × (number < 2 ^ 64)
Fits (new_file (level, f)) = (level < num_levels) × FileFits f

put_varint64-append : (dst : List ℕ) (v : ℕ) → put_varint64 dst v ≡ dst ++ put_varint64 [] v
unfolding put_varint64
put_varint64-append dst v = refl

get_level-put :
    (level : ℕ) (rest : List ℕ)
    → level < num_levels
    → get_level (put_varint32 [] level ++ rest) ≡ some (level, rest)
unfolding get_level
get_level-put level rest h =
    rw (get_varint32-put_varint32 level rest (omega arith), lt→ltb level 7 h)

-- An entry appends its tag and its payload.
put_payload-append : (dst : List ℕ) (f : Field) → put_payload dst f ≡ dst ++ put_payload [] f
unfolding put_payload put_varint32 put_varint64 put_length_prefixed_slice
put_payload-append dst (comparator_name name) = simp append_assoc
put_payload-append dst (log_number num) = refl
put_payload-append dst (prev_log_number num) = refl
put_payload-append dst (next_file_number num) = refl
put_payload-append dst (last_sequence seq) = refl
put_payload-append dst (compact_pointer (level, key)) = simp append_assoc
put_payload-append dst (deleted_file (level, number)) = simp append_assoc
put_payload-append dst (new_file (level, f)) = simp append_assoc

module _ (level : ℕ) (f : FileMetaData) (rest : List ℕ) where
  abbrev after_smallest : List ℕ
  after_smallest = put_length_prefixed_slice [] f.largest ++ rest

  abbrev after_size : List ℕ
  after_size = put_length_prefixed_slice [] f.smallest ++ after_smallest

  abbrev after_number : List ℕ
  after_number = put_varint64 [] f.file_size ++ after_size

  abbrev after_level : List ℕ
  after_level = put_varint64 [] f.number ++ after_number

  new_file_bytes :
      put_payload [] (new_file (level, f)) ++ rest ≡ put_varint32 [] level ++ after_level
  unfolding put_payload put_varint32 put_varint64 put_length_prefixed_slice
  new_file_bytes = simp append_assoc

  read_new_file :
      level < num_levels
      → FileFits f
      → get_new_file (put_payload [] (new_file (level, f)) ++ rest)
        ≡ some (new_file (level, f), rest)
  unfolding get_new_file
  read_new_file hl (hn, hs, hsm, hlg, fresh) = rw (
    new_file_bytes,
    get_level-put level after_level hl,
    get_varint64-put_varint64 f.number after_number hn,
    get_varint64-put_varint64 f.file_size after_size hs,
    get_length_prefixed_slice-put f.smallest after_smallest hsm,
    get_length_prefixed_slice-put f.largest rest hlg,
    ← fresh,
  )

-- The decoder reads back the payload of an entry.
pub read_field-put_payload :
    (f : Field) (rest : List ℕ)
    → Fits f
    → read_field (tag f) (put_payload [] f ++ rest) ≡ field f rest
unfolding read_field put_payload get_name get_number get_compact_pointer get_deleted_file
read_field-put_payload (comparator_name name) rest h =
    rw (get_length_prefixed_slice-put name rest h)
read_field-put_payload (log_number num) rest h = rw (get_varint64-put_varint64 num rest h)
read_field-put_payload (prev_log_number num) rest h = rw (get_varint64-put_varint64 num rest h)
read_field-put_payload (next_file_number num) rest h = rw (get_varint64-put_varint64 num rest h)
read_field-put_payload (last_sequence seq) rest h = rw (get_varint64-put_varint64 seq rest h)
read_field-put_payload (compact_pointer (level, key)) rest (hl, hk) = rw (
  put_length_prefixed_slice-append (put_varint32 [] level) key,
  append_assoc,
  get_level-put level (put_length_prefixed_slice [] key ++ rest) hl,
  get_length_prefixed_slice-put key rest hk,
)
read_field-put_payload (deleted_file (level, number)) rest (hl, hn) = rw (
  put_varint64-append (put_varint32 [] level) number,
  append_assoc,
  get_level-put level (put_varint64 [] number ++ rest) hl,
  get_varint64-put_varint64 number rest hn,
)
read_field-put_payload (new_file (level, f)) rest (hl, hf) =
    ap (or_bad "new-file entry") (read_new_file level f rest hl hf)

-- The bytes of one entry, and of a sequence of entries.
unfoldable pub entry : Field → List ℕ
entry f = put_varint32 [] (tag f) ++ put_payload [] f

unfoldable pub entries : List Field → List ℕ
entries [] = []
entries (f ∷ fs) = entry f ++ entries fs

put_entry : (dst : List ℕ) (f : Field) → put_payload (put_varint32 dst (tag f)) f ≡ dst ++ entry f
unfolding entry put_varint32
put_entry dst f =
    put_payload-append (dst ++ put_varint32 [] (tag f)) f
    ∙ append_assoc dst (put_varint32 [] (tag f)) (put_payload [] f)

pub put_fields-entries : (dst : List ℕ) (fs : List Field) → put_fields dst fs ≡ dst ++ entries fs
unfolding put_fields entries
put_fields-entries dst [] = sym (append-nil dst)
put_fields-entries dst (f ∷ fs) =
    put_fields-entries (put_payload (put_varint32 dst (tag f)) f) fs
    ∙ ap (λ (t : List ℕ). t ++ entries fs) (put_entry dst f)
    ∙ append_assoc dst (entry f) (entries fs)

pub tag-lt : (f : Field) → tag f < 2 ^ 32
tag-lt (comparator_name name) = omega arith
tag-lt (log_number num) = omega arith
tag-lt (prev_log_number num) = omega arith
tag-lt (next_file_number num) = omega arith
tag-lt (last_sequence seq) = omega arith
tag-lt (compact_pointer p) = omega arith
tag-lt (deleted_file d) = omega arith
tag-lt (new_file f) = omega arith
