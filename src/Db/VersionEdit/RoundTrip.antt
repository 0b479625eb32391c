-- ===== src/Db/VersionEdit/RoundTrip.antt =====
-- VersionEdit::DecodeFrom behind VersionEdit::EncodeTo.
use level_db.Common.{
  ℕ, zero, suc, ◌<◌, ◌≤◌, List, [], ◌∷◌, ◌++◌, map, length, Option, some, none, ◌≡◌, refl, sym, ap,
  ◌∙◌, arith, append_assoc, append-nil, length-append, All, ◌⊎◌,
}
use level_db.Util.Coding.{get_varint32}
use level_db.Util.Coding.Varint.{get_varint32-put_varint32}
use level_db.Util.Coding.Decoded.{get_varint32_shorter}
use level_db.Util.Status.{ok}
use level_db.Db.VersionEdit.{
  FileMetaData, VersionEdit, clear, insert, insert_at, Field, comparator_name, log_number,
  prev_log_number, next_file_number, last_sequence, compact_pointer, deleted_file, new_file,
  set_field, tag, put_payload, optional, fields, encode_to, field, read_field, finished,
  decode_loop, decode_from,
}
use level_db.Db.VersionEdit.Shape.{
  Fits, read_field-put_payload, entry, entries, put_fields-entries, tag-lt,
}

abbrev pub set_fields : VersionEdit → List Field → VersionEdit
set_fields edit [] = edit
set_fields edit (f ∷ fs) = set_fields (set_field edit f) fs

get_varint32-entry :
    (f : Field) (rest : List ℕ)
    → get_varint32 (entry f ++ rest) ≡ some (tag f, put_payload [] f ++ rest)
unfolding entry
get_varint32-entry f rest =
    rw append_assoc (get_varint32-put_varint32 (tag f) (put_payload [] f ++ rest) (tag-lt f))

pub decode_loop_step :
    (fuel t : ℕ) (input payload rest : List ℕ) (edit : VersionEdit) (f : Field)
    → get_varint32 input ≡ some (t, payload)
    → read_field t payload ≡ field f rest
    → decode_loop (suc fuel) input edit ≡ decode_loop fuel rest (set_field edit f)
unfolding decode_loop
decode_loop_step fuel t input payload rest edit f p q = rw (p, decode_loop, q, decode_loop)

decode_loop-entries :
    (fs : List Field) (fuel : ℕ) (edit : VersionEdit)
    → All Fits fs
    → length fs < fuel
    → decode_loop fuel (entries fs) edit ≡ (set_fields edit fs, finished)
unfolding entries
decode_loop-entries fs zero edit h hf = elim hf [ ]
decode_loop-entries [] (suc fuel) edit h hf = unfold decode_loop get_varint32 in refl
decode_loop-entries (f ∷ fs) (suc fuel) edit (hf, h) few =
    decode_loop_step fuel (tag f) (entry f ++ entries fs) (put_payload [] f ++ entries fs)
      (entries fs) edit f (get_varint32-entry f (entries fs))
      (read_field-put_payload f (entries fs) hf)
    ∙ decode_loop-entries fs fuel (set_field edit f) h (omega arith)

length-entries : (fs : List Field) → length fs ≤ length (entries fs)
unfolding entries
length-entries [] = omega arith
length-entries (f ∷ fs) = omega (
  arith,
  get_varint32_shorter (entry f ++ entries fs) (tag f) (put_payload [] f ++ entries fs)
      (get_varint32-entry f (entries fs)),
  length-append (put_payload [] f) (entries fs),
  length-entries fs,
)

-- std::set keeps its elements in this order, each once.
abbrev pub Before : ℕ × ℕ → ℕ × ℕ → Type 0
Before (level, number) (level', number') =
    (level < level') ⊎ ((level ≡ level') × (number < number'))

abbrev pub Increasing : List (ℕ × ℕ) → Type 0
Increasing [] = Unit
Increasing (d ∷ ds) = All (Before d) ds × Increasing ds

pub insert_at-after :
    (d d' : ℕ × ℕ) (files rest : List (ℕ × ℕ)) → Before d' d → insert_at d d' files rest ≡ d' ∷ rest
insert_at-after d d' files rest h = ground arith

insert-last :
    (ds : List (ℕ × ℕ)) (d : ℕ × ℕ) → All (λ x. Before x d) ds → insert d ds ≡ ds ++ (d ∷ [])
unfolding insert
insert-last [] d h = refl
insert-last (d' ∷ ds) d (h, hs) =
    ap (insert_at d d' ds) (insert-last ds d hs) ∙ insert_at-after d d' ds (ds ++ (d ∷ [])) h

set_fields-append :
    (edit : VersionEdit) (fs gs : List Field)
    → set_fields edit (fs ++ gs) ≡ set_fields (set_fields edit fs) gs
set_fields-append edit [] gs = refl
set_fields-append edit (f ∷ fs) gs = set_fields-append (set_field edit f) fs gs

set_compact_pointers :
    (edit : VersionEdit) (ps : List (ℕ × List ℕ))
    → set_fields edit (map compact_pointer ps)
      ≡ record edit { compact_pointers = edit.compact_pointers ++ ps }
unfolding set_field
set_compact_pointers edit [] =
    ap (λ (t : List (ℕ × List ℕ)). record edit { compact_pointers = t })
      (sym (append-nil edit.compact_pointers))
set_compact_pointers edit (p ∷ ps) =
    set_compact_pointers (set_field edit (compact_pointer p)) ps
    ∙ ap (λ (t : List (ℕ × List ℕ)). record edit { compact_pointers = t })
        (append_assoc edit.compact_pointers (p ∷ []) ps)

set_new_files :
    (edit : VersionEdit) (fs : List (ℕ × FileMetaData))
    → set_fields edit (map new_file fs) ≡ record edit { new_files = edit.new_files ++ fs }
unfolding set_field
set_new_files edit [] =
    ap (λ (t : List (ℕ × FileMetaData)). record edit { new_files = t })
      (sym (append-nil edit.new_files))
set_new_files edit (f ∷ fs) =
    set_new_files (set_field edit (new_file f)) fs
    ∙ ap (λ (t : List (ℕ × FileMetaData)). record edit { new_files = t })
        (append_assoc edit.new_files (f ∷ []) fs)

pub All-snoc :
    {A : Type 0} (P : A → Type 0) (xs : List A) (a : A) → All P xs → P a → All P (xs ++ (a ∷ []))
All-snoc P [] a h p = (p, tt)
All-snoc P (x ∷ xs) a (hx, h) p = (hx, All-snoc P xs a h p)

behind_both :
    (xs : List (ℕ × ℕ)) (d : ℕ × ℕ) (ds : List (ℕ × ℕ))
    → All (λ d'. All (λ x. Before x d') xs) ds
    → All (Before d) ds
    → All (λ d'. All (λ x. Before x d') (xs ++ (d ∷ []))) ds
behind_both xs d [] h g = tt
behind_both xs d (d' ∷ ds) (hd, h) (gd, g) =
    (All-snoc (λ x. Before x d') xs d hd gd, behind_both xs d ds h g)

-- Increasing elements that come behind all those in the set are appended.
set_deleted_files :
    (edit : VersionEdit) (ds : List (ℕ × ℕ))
    → All (λ d. All (λ x. Before x d) edit.deleted_files) ds
    → Increasing ds
    → set_fields edit (map deleted_file ds)
      ≡ record edit { deleted_files = edit.deleted_files ++ ds }
unfolding set_field
set_deleted_files edit [] h inc =
    ap (λ (t : List (ℕ × ℕ)). record edit { deleted_files = t })
      (sym (append-nil edit.deleted_files))
set_deleted_files edit (d ∷ ds) (hd, h) (first, inc) =
    ap (λ (t : List (ℕ × ℕ)). set_fields (record edit { deleted_files = t }) (map deleted_file ds))
      (insert-last edit.deleted_files d hd)
    ∙ set_deleted_files (record edit { deleted_files = edit.deleted_files ++ (d ∷ []) }) ds
        (behind_both edit.deleted_files d ds h first) inc
    ∙ ap (λ (t : List (ℕ × ℕ)). record edit { deleted_files = t })
        (append_assoc edit.deleted_files (d ∷ []) ds)

-- The entry of an optional field, on an edit `e none` that does not have it set.
set_option :
    {A : Type 0} (e : Option A → VersionEdit) (f : A → Field) (o : Option A) (rest : List Field)
    → ((a : A) → set_field (e none) (f a) ≡ e (some a))
    → set_fields (e none) (optional f o ++ rest) ≡ set_fields (e o) rest
set_option e f none rest h = refl
set_option e f (some a) rest h = ap (λ (t : VersionEdit). set_fields t rest) (h a)

abbrev only_fields :
    Option (List ℕ) → Option ℕ → Option ℕ → Option ℕ → Option ℕ → List (ℕ × List ℕ) → VersionEdit
only_fields c l p n s ps = record {
  comparator = c;
  log_number = l;
  prev_log_number = p;
  next_file_number = n;
  last_sequence = s;
  compact_pointers = ps;
  deleted_files = [];
  new_files = [];
}

set_optional :
    (c : Option (List ℕ)) (l p n s : Option ℕ) (ps : List (ℕ × List ℕ)) (rest : List Field)
    → set_fields (only_fields none none none none none ps) (
        optional comparator_name c
        ++ (optional log_number l
            ++ (optional prev_log_number p
                ++ (optional next_file_number n ++ (optional last_sequence s ++ rest)))))
      ≡ set_fields (only_fields c l p n s ps) rest
unfolding set_field
set_optional c l p n s ps rest =
    set_option (λ o. only_fields o none none none none ps) comparator_name c
      (optional log_number l
        ++ (optional prev_log_number p
            ++ (optional next_file_number n ++ (optional last_sequence s ++ rest))))
      (λ a. refl)
    ∙ set_option (λ o. only_fields c o none none none ps) log_number l
        (optional prev_log_number p
          ++ (optional next_file_number n ++ (optional last_sequence s ++ rest)))
        (λ a. refl)
    ∙ set_option (λ o. only_fields c l o none none ps) prev_log_number p
        (optional next_file_number n ++ (optional last_sequence s ++ rest)) (λ a. refl)
    ∙ set_option (λ o. only_fields c l p o none ps) next_file_number n
        (optional last_sequence s ++ rest) (λ a. refl)
    ∙ set_option (λ o. only_fields c l p n o ps) last_sequence s rest (λ a. refl)

behind_none : (ds : List (ℕ × ℕ)) → All (λ d. All (λ x. Before x d) []) ds
behind_none [] = tt
behind_none (d ∷ ds) = (tt, behind_none ds)

set_all :
    (old edit : VersionEdit)
    → Increasing edit.deleted_files
    → set_fields (clear old) (fields edit)
      ≡ record edit { compact_pointers = old.compact_pointers ++ edit.compact_pointers }
unfolding clear fields
set_all old edit inc =
    set_optional edit.comparator edit.log_number edit.prev_log_number edit.next_file_number
      edit.last_sequence old.compact_pointers (pointers ++ (deleted ++ added))
    ∙ set_fields-append (tops old.compact_pointers) pointers (deleted ++ added)
    ∙ ap (λ (t : VersionEdit). set_fields t (deleted ++ added))
        (set_compact_pointers (tops old.compact_pointers) edit.compact_pointers)
    ∙ set_fields-append (tops all_pointers) deleted added
    ∙ ap (λ (t : VersionEdit). set_fields t added)
        (set_deleted_files (tops all_pointers) edit.deleted_files (behind_none edit.deleted_files)
          inc)
    ∙ set_new_files (record (tops all_pointers) { deleted_files = edit.deleted_files })
        edit.new_files
  where
    tops : List (ℕ × List ℕ) → VersionEdit
    tops ps =
        only_fields edit.comparator edit.log_number edit.prev_log_number edit.next_file_number
          edit.last_sequence ps

    all_pointers : List (ℕ × List ℕ)
    all_pointers = old.compact_pointers ++ edit.compact_pointers

    pointers : List Field
    pointers = map compact_pointer edit.compact_pointers

    deleted : List Field
    deleted = map deleted_file edit.deleted_files

    added : List Field
    added = map new_file edit.new_files

-- For an edit whose values fit their types, whose levels are below kNumLevels, whose new files
-- carry the counters of AddFile and whose set of deleted files is increasing, DecodeFrom reads
-- back what EncodeTo wrote, in every field but the compaction pointers, which come behind those
-- that the target edit had before, since Clear keeps them; and it returns OK.
pub decode_from-encode_to :
    (old edit : VersionEdit)
    → All Fits (fields edit)
    → Increasing edit.deleted_files
    → decode_from old (encode_to [] edit)
      ≡ (record edit { compact_pointers = old.compact_pointers ++ edit.compact_pointers }, ok)
unfolding decode_from encode_to
decode_from-encode_to old edit h inc =
    rw
      (
        put_fields-entries [] (fields edit),
        decode_loop-entries (fields edit) (suc (length (entries (fields edit)))) (clear old) h
            (omega (arith, length-entries (fields edit))),
      )
      (ap (λ (e : VersionEdit). (e, ok)) (set_all old edit inc))
