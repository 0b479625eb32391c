-- ===== src/Db/VersionEdit/Decoded.antt =====
-- VersionEdit::DecodeFrom on any bytes: it ends, and what it stores is well formed.
use level_db.Common.{
  Bool, true, false, ℕ, zero, suc, ◌<◌, ◌≤◌, ◌==◌, List, [], ◌∷◌, length, Option, some, none, ◌≡◌,
  ◌≢◌, refl, sym, ap, ◌∙◌, arith, All, ◌>>=◌, Option-cases, ◌⊎◌, inl, inr, if◌then◌else◌,
}
use mathlib.Core.Path.{ap₂, subst}
use Prim.Native.String.{String}
use level_db.Util.Coding.{get_varint32, get_varint64, get_length_prefixed_slice}
use level_db.Util.Coding.Decoded.{get_varint32_shorter, get_varint64_takes}
use level_db.Util.Coding.Prefixed.{get_length_prefixed_slice_shorter}
use level_db.Db.Format.{num_levels}
use level_db.Db.VersionEdit.{
  VersionEdit, insert, insert_at, Field, comparator_name, log_number, prev_log_number,
  next_file_number, last_sequence, compact_pointer, deleted_file, new_file, set_field, Next, field,
  bad, or_bad, read_field, get_level, get_name, get_number, get_compact_pointer, get_deleted_file,
  get_new_file, out_of_fuel, at_end, failed, decode_loop,
}
use level_db.Db.VersionEdit.RoundTrip.{
  Before, Increasing, decode_loop_step, All-snoc, insert_at-after,
}

-- The level of an entry is one of the tree.
abbrev pub LevelFits : Field → Type 0
LevelFits (compact_pointer (level, key)) = level < num_levels
LevelFits (deleted_file (level, number)) = level < num_levels
LevelFits (new_file (level, f)) = level < num_levels
LevelFits (comparator_name name) = Unit
LevelFits (log_number num) = Unit
LevelFits (prev_log_number num) = Unit
LevelFits (next_file_number num) = Unit
LevelFits (last_sequence seq) = Unit

get_level_takes :
    (input : List ℕ) (level : ℕ) (rest : List ℕ)
    → get_level input ≡ some (level, rest)
    → (level < num_levels) × (length rest < length input)
unfolding get_level
get_level_takes input level rest e = elim (Option-cases (get_varint32 input)) [
  | inl q ↦ absurd (ground (arith, q))
  | inr ((v, r), q) ↦ ground (arith, q, get_varint32_shorter input v r q)
]

-- What each case of the switch reads: an entry with a level of the tree, from a byte at least.
abbrev Reads : List ℕ → Option (Field × List ℕ) → Type 0
Reads input none = Unit
Reads input (some (f, rest)) = LevelFits f × (length rest < length input)

-- A parser that takes a byte at least.
abbrev Shortening : {A : Type 0} → (List ℕ → Option (A × List ℕ)) → Type 0
Shortening {A = A} parse =
    (input : List ℕ) (a : A) (rest : List ℕ)
    → parse input ≡ some (a, rest)
    → length rest < length input

read_then :
    {A : Type 0} (base input : List ℕ) (parse : List ℕ → Option (A × List ℕ))
    (next : A × List ℕ → Option (Field × List ℕ))
    → Shortening parse
    → length input ≤ length base
    → ((a : A) (rest : List ℕ)
        → parse input ≡ some (a, rest)
        → length rest < length base
        → Reads base (next (a, rest)))
    → Reads base (parse input >>= next)
read_then base input parse next short h k = elim (Option-cases (parse input)) [
  | inl q ↦ rw q tt
  | inr ((a, rest), q) ↦ rw q (k a rest q (omega (arith, short input a rest q)))
]

get_level_shorter : Shortening get_level
get_level_shorter input level rest q = (get_level_takes input level rest q).1

get_varint64_shorter : Shortening get_varint64
get_varint64_shorter input v rest q = omega (arith, get_varint64_takes input v rest q)

get_name-Reads : (input : List ℕ) → Reads input (get_name input)
unfolding get_name
get_name-Reads input =
    read_then input input get_length_prefixed_slice (λ (name, r). some (comparator_name name, r))
      get_length_prefixed_slice_shorter (omega arith) (λ name r q h. (tt, h))

get_number-Reads :
    (f : ℕ → Field) (input : List ℕ)
    → ((n : ℕ) → LevelFits (f n))
    → Reads input (get_number f input)
unfolding get_number
get_number-Reads f input fits =
    read_then input input get_varint64 (λ (n, r). some (f n, r)) get_varint64_shorter (omega arith)
      (λ n r q h. (fits n, h))

get_compact_pointer-Reads : (input : List ℕ) → Reads input (get_compact_pointer input)
unfolding get_compact_pointer
get_compact_pointer-Reads input =
    read_then input input get_level _ get_level_shorter (omega arith) (λ level r q h.
      read_then input r get_length_prefixed_slice _ get_length_prefixed_slice_shorter (omega arith)
        (λ key r' q' h'. ((get_level_takes input level r q).0, h')))

get_deleted_file-Reads : (input : List ℕ) → Reads input (get_deleted_file input)
unfolding get_deleted_file
get_deleted_file-Reads input =
    read_then input input get_level _ get_level_shorter (omega arith) (λ level r q h.
      read_then input r get_varint64 _ get_varint64_shorter (omega arith)
        (λ n r' q' h'. ((get_level_takes input level r q).0, h')))

get_new_file-Reads : (input : List ℕ) → Reads input (get_new_file input)
unfolding get_new_file
get_new_file-Reads input =
    read_then input input get_level _ get_level_shorter (omega arith) (λ level r q h.
      read_then input r get_varint64 _ get_varint64_shorter (omega arith) (λ n r1 q1 h1.
        read_then input r1 get_varint64 _ get_varint64_shorter (omega arith) (λ sz r2 q2 h2.
          read_then input r2 get_length_prefixed_slice _ get_length_prefixed_slice_shorter
            (omega arith)
            (λ sm r3 q3 h3.
              read_then input r3 get_length_prefixed_slice _ get_length_prefixed_slice_shorter
                (omega arith) (λ lg r4 q4 h4. ((get_level_takes input level r q).0, h4))))))

abbrev ReadsNext : List ℕ → Next → Type 0
ReadsNext input (bad msg) = Unit
ReadsNext input (field f rest) = LevelFits f × (length rest < length input)

or_bad-ReadsNext :
    (msg : String) (input : List ℕ) (o : Option (Field × List ℕ))
    → Reads input o
    → ReadsNext input (or_bad msg o)
or_bad-ReadsNext msg input none h = tt
or_bad-ReadsNext msg input (some (f, rest)) h = h

either_case :
    (input : List ℕ) (b : Bool) (x y : Next)
    → ReadsNext input x
    → ReadsNext input y
    → ReadsNext input (if b then x else y)
either_case input true x y hx hy = hx
either_case input false x y hx hy = hy

case :
    (input : List ℕ) (b : Bool) (msg : String) (o : Option (Field × List ℕ)) (y : Next)
    → Reads input o
    → ReadsNext input y
    → ReadsNext input (if b then or_bad msg o else y)
case input b msg o y h hy = either_case input b (or_bad msg o) y (or_bad-ReadsNext msg input o h) hy

read_field-ReadsNext : (t : ℕ) (input : List ℕ) → ReadsNext input (read_field t input)
unfolding read_field
read_field-ReadsNext t input =
    case input (t == 1) "comparator name" (get_name input) _ (get_name-Reads input) (
      case input (t == 2) "log number" (get_number log_number input) _
        (get_number-Reads log_number input (λ n. tt))
        (case input (t == 9) "previous log number" (get_number prev_log_number input) _
          (get_number-Reads prev_log_number input (λ n. tt))
          (case input (t == 3) "next file number" (get_number next_file_number input) _
            (get_number-Reads next_file_number input (λ n. tt))
            (case input (t == 4) "last sequence number" (get_number last_sequence input) _
              (get_number-Reads last_sequence input (λ n. tt))
              (case input (t == 5) "compaction pointer" (get_compact_pointer input) _
                (get_compact_pointer-Reads input)
                (case input (t == 6) "deleted file" (get_deleted_file input) _
                  (get_deleted_file-Reads input)
                  (case input (t == 7) "new-file entry" (get_new_file input) _
                    (get_new_file-Reads input) tt)))))))

decode_loop_stop :
    (fuel : ℕ) (input : List ℕ) (edit : VersionEdit)
    → get_varint32 input ≡ none
    → decode_loop (suc fuel) input edit ≡ (edit, at_end input)
unfolding decode_loop
decode_loop_stop fuel input edit e = rw (e, decode_loop)

decode_loop_bad :
    (fuel t : ℕ) (input payload : List ℕ) (edit : VersionEdit) (msg : String)
    → get_varint32 input ≡ some (t, payload)
    → read_field t payload ≡ bad msg
    → decode_loop (suc fuel) input edit ≡ (edit, failed msg)
unfolding decode_loop
decode_loop_bad fuel t input payload edit msg p q = rw (p, decode_loop, q, decode_loop)

Next-cases :
    (r : Next)
    → ((msg : String) × (r ≡ bad msg)) ⊎ ((f : Field) × (rest : List ℕ) × (r ≡ field f rest))
Next-cases (field f rest) = inr (f, rest, refl)
Next-cases (bad msg) = inl (msg, refl)

at_end-ends : (input : List ℕ) → at_end input ≢ out_of_fuel
at_end-ends [] e = cc
at_end-ends (b ∷ input) e = cc

-- The levels of the entries are those of the tree, and the set of deleted files is increasing, so
-- it holds each file once.
abbrev pub IsWellFormed : VersionEdit → Type 0
IsWellFormed edit =
    All (λ p. p.0 < num_levels) edit.compact_pointers
    × All (λ d. d.0 < num_levels) edit.deleted_files
    × Increasing edit.deleted_files
    × All (λ f. f.0 < num_levels) edit.new_files

compare-cases : (m n : ℕ) → (m < n) ⊎ ((n < m) ⊎ (m ≡ n))
compare-cases m n = omega arith

Before-cases : (d d' : ℕ × ℕ) → Before d d' ⊎ (Before d' d ⊎ (d ≡ d'))
Before-cases (l, n) (l', n') = elim (compare-cases l l') [
  | inl h ↦ inl (inl h)
  | inr (inl h) ↦ inr (inl (inl h))
  | inr (inr h) ↦ elim (compare-cases n n') [
    | inl k ↦ inl (inr (h, k))
    | inr (inl k) ↦ inr (inl (inr (sym h, k)))
    | inr (inr k) ↦ inr (inr (ap₂ (λ (a b : ℕ). (a, b)) h k))
  ]
]

insert_at-Before :
    (d d' : ℕ × ℕ) (files rest : List (ℕ × ℕ))
    → Before d d'
    → insert_at d d' files rest ≡ d ∷ d' ∷ files
insert_at-Before d d' files rest h = ground arith

insert_at_self : (d : ℕ × ℕ) (files rest : List (ℕ × ℕ)) → insert_at d d files rest ≡ d ∷ files
insert_at_self d files rest = ground arith

insert_at-equal :
    (d d' : ℕ × ℕ) (files rest : List (ℕ × ℕ)) → d ≡ d' → insert_at d d' files rest ≡ d' ∷ files
insert_at-equal d d' files rest e =
    ap (λ (t : ℕ × ℕ). insert_at t d' files rest) e ∙ insert_at_self d' files rest

Before-trans : (a b c : ℕ × ℕ) → Before a b → Before b c → Before a c
Before-trans a b c h k = ground arith

behind-All : (a b : ℕ × ℕ) (ds : List (ℕ × ℕ)) → Before a b → All (Before b) ds → All (Before a) ds
behind-All a b [] h k = tt
behind-All a b (d ∷ ds) h (k, ks) = (Before-trans a b d h k, behind-All a b ds h ks)

All-insert :
    (P : ℕ × ℕ → Type 0) (d : ℕ × ℕ) (ds : List (ℕ × ℕ)) → P d → All P ds → All P (insert d ds)
unfolding insert
All-insert P d [] p h = (p, tt)
All-insert P d (d' ∷ ds) p (h, hs) = elim (Before-cases d d') [
  | inl b ↦ rw (insert_at-Before d d' ds (insert d ds) b) (p, (h, hs))
  | inr (inl b) ↦ rw (insert_at-after d d' ds (insert d ds) b) (h, All-insert P d ds p hs)
  | inr (inr e) ↦ rw (insert_at-equal d d' ds (insert d ds) e) (h, hs)
]

insert-Increasing : (d : ℕ × ℕ) (ds : List (ℕ × ℕ)) → Increasing ds → Increasing (insert d ds)
unfolding insert
insert-Increasing d [] inc = (tt, tt)
insert-Increasing d (d' ∷ ds) (first, inc) = elim (Before-cases d d') [
  | inl b ↦
      rw (insert_at-Before d d' ds (insert d ds) b) ((b, behind-All d d' ds b first), (first, inc))
  | inr (inl b) ↦
      rw (insert_at-after d d' ds (insert d ds) b)
        (All-insert (Before d') d ds b first, insert-Increasing d ds inc)
  | inr (inr e) ↦ rw (insert_at-equal d d' ds (insert d ds) e) (first, inc)
]

set_field-IsWellFormed :
    (edit : VersionEdit) (f : Field)
    → LevelFits f
    → IsWellFormed edit
    → IsWellFormed (set_field edit f)
unfolding set_field
set_field-IsWellFormed edit (comparator_name name) h w = w
set_field-IsWellFormed edit (log_number num) h w = w
set_field-IsWellFormed edit (prev_log_number num) h w = w
set_field-IsWellFormed edit (next_file_number num) h w = w
set_field-IsWellFormed edit (last_sequence seq) h w = w
set_field-IsWellFormed edit (compact_pointer p) h (hp, hd, inc, hn) =
    (All-snoc (λ q. q.0 < num_levels) edit.compact_pointers p hp h, hd, inc, hn)
set_field-IsWellFormed edit (deleted_file d) h (hp, hd, inc, hn) = (
  hp,
  All-insert (λ x. x.0 < num_levels) d edit.deleted_files h hd,
  insert-Increasing d edit.deleted_files inc,
  hn,
)
set_field-IsWellFormed edit (new_file f) h (hp, hd, inc, hn) =
    (hp, hd, inc, All-snoc (λ x. x.0 < num_levels) edit.new_files f hn h)

taken :
    (t : ℕ) (payload rest : List ℕ) (f : Field)
    → read_field t payload ≡ field f rest
    → LevelFits f × (length rest < length payload)
taken t payload rest f q = subst (ReadsNext payload) q (read_field-ReadsNext t payload)

-- From a well-formed edit, on any bytes, the loop of DecodeFrom ends, in at most one round more
-- than there are bytes, and leaves the edit well formed: its levels below kNumLevels and its set
-- of deleted files increasing.
pub decode_loop-ends :
    (fuel : ℕ) (input : List ℕ) (edit : VersionEdit)
    → length input < fuel
    → IsWellFormed edit
    → ((decode_loop fuel input edit).1 ≢ out_of_fuel) × IsWellFormed (decode_loop fuel input edit).0
decode_loop-ends zero input edit h w = elim h [ ]
decode_loop-ends (suc fuel) input edit h w = elim (Option-cases (get_varint32 input)) [
  | inl p ↦ rw (decode_loop_stop fuel input edit p) (at_end-ends input, w)
  | inr ((t, payload), p) ↦ elim (Next-cases (read_field t payload)) [
    | inl (msg, q) ↦ rw (decode_loop_bad fuel t input payload edit msg p q) ((λ e. cc), w)
    | inr (f, rest, q) ↦
        let (fits, shorter) = taken t payload rest f q in
        rw (decode_loop_step fuel t input payload rest edit f p q) (
          decode_loop-ends fuel rest (set_field edit f)
            (omega (arith, shorter, get_varint32_shorter input t payload p))
            (set_field-IsWellFormed edit f fits w))
  ]
]
