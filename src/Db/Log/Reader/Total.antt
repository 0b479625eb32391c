-- ===== src/Db/Log/Reader/Total.antt =====
-- ReadRecord ends on any file.
use mathlib.Core.Path.{subst}
use level_db.Common.{
  ℕ, zero, suc, ◌+◌, ◌≤◌, ◌<◌, Bool, true, false, List, [], length, take, drop, ◌==◌, if◌then◌else◌,
  Option, none, some, ◌≡◌, ◌≢◌, ◌⊎◌, inl, inr, refl, sym, ap, ◌∙◌, arith, length-append,
  length-drop, take-append-drop, ltb, ltb→lt, lt→ltb, Bool-cases,
}
use Prim.Native.String.{String}
use level_db.Db.Log.Reader.{
  LogReader, Outcome, outcome, sub_u64, out_of_fuel, report_corruption, report_partial, refill,
  end_of_file, parse_record, length_field, read_physical_loop, read_physical_record, dispatch, Step,
  returned, continued, read_loop, read_record, eof_code, bad_record,
}

abbrev size : LogReader → ℕ
size r = length r.buffer + length r.file

report_corruption-size :
    (r : LogReader) (bytes : ℕ) (reason : String) → size (report_corruption r bytes reason) ≡ size r
unfolding report_corruption
report_corruption-size r bytes reason = ground arith

report_partial-size :
    (r : LogReader) (scratch : List ℕ) (split : Bool) (reason : String)
    → size (report_partial r scratch split reason) ≡ size r
report_partial-size r scratch split reason =
    ground (arith, report_corruption-size r (length scratch) reason)

-- A round that goes on leaves a smaller reader.
abbrev Decreases : ℕ → Step → Type 0
Decreases n (returned r bytes) = Unit
Decreases n (continued r scratch split at) = size r < n

if_holds : (P : Step → Type 0) (b : Bool) (x y : Step) → P x → P y → P (if b then x else y)
if_holds P true x y px py = px
if_holds P false x y px py = py

dispatch-Decreases :
    (r : LogReader) (scratch : List ℕ) (split : Bool) (at offset type : ℕ) (fragment : List ℕ)
    (n : ℕ)
    → (type ≡ eof_code) ⊎ (size r < n)
    → Decreases n (dispatch r scratch split at offset type fragment)
unfolding dispatch
dispatch-Decreases r scratch split at offset type fragment n (inl e) = rw e tt
dispatch-Decreases r scratch split at offset type fragment n (inr h) =
    if_holds (Decreases n) (type == 1) _ _ tt (
      if_holds (Decreases n) (type == 2) _ _
        (omega (arith, report_partial-size r scratch split "partial record without end(2)"))
        (if_holds (Decreases n) (type == 3) _ _
          (if_holds (Decreases n) split _ _ h (omega (arith, report_corruption-size r)))
          (if_holds (Decreases n) (type == 4) _ _
            (if_holds (Decreases n) split _ _ tt (omega (arith, report_corruption-size r)))
            (if_holds (Decreases n) (type == eof_code) _ _ tt (
              if_holds (Decreases n) (type == bad_record) _ _
                (if_holds (Decreases n) split _ _ (omega (arith, report_corruption-size r)) h)
                (omega (arith, report_corruption-size r)))))))

refill-size : (r : LogReader) → size (refill r) ≡ length r.file
unfolding refill
refill-size r = omega (
  arith,
  length-append (take 32768 r.file) (drop 32768 r.file),
  ap length (take-append-drop 32768 r.file),
)

ltb-false : (a b : ℕ) → ltb a b ≡ false → b ≤ a
ltb-false a b h = ground (arith, h)

-- A read that leaves too little for a header was a short one.
refill-short : (r : LogReader) → ltb (length (refill r).buffer) 7 ≡ true → (refill r).eof ≡ true
unfolding refill
refill-short r h =
    let few = ltb→lt (length (take 32768 r.file)) 7 h in
    rw (lt→ltb (length (take 32768 r.file)) 32768 (omega arith)) refl

module _ (extend : ℕ → List ℕ → ℕ) where
  parse_record-size :
      (r : LogReader) → 7 ≤ length r.buffer → size (parse_record extend r).0 < size r
  unfolding parse_record report_corruption
  parse_record-size r long = ground (arith, long, length-drop (7 + length_field r.buffer) r.buffer)

  -- The rounds of the loop that fills the buffer.
  fill_parse :
      (fuel : ℕ) (r : LogReader)
      → ltb (length r.buffer) 7 ≡ false
      → read_physical_loop extend (suc fuel) r ≡ some (parse_record extend r)
  unfolding read_physical_loop
  fill_parse fuel r long = rw long refl

  fill_end :
      (fuel : ℕ) (r : LogReader)
      → ltb (length r.buffer) 7 ≡ true
      → r.eof ≡ true
      → read_physical_loop extend (suc fuel) r ≡ some (end_of_file r)
  unfolding read_physical_loop
  fill_end fuel r short ended = simp (short, ended)

  fill_again :
      (fuel : ℕ) (r : LogReader)
      → ltb (length r.buffer) 7 ≡ true
      → r.eof ≡ false
      → read_physical_loop extend (suc fuel) r ≡ read_physical_loop extend fuel (refill r)
  unfolding read_physical_loop
  fill_again fuel r short going = simp (short, going)

  -- A call of ReadPhysicalRecord ends; it finds the end of the file, or takes something off what
  -- is left.
  read_physical_record-size :
      (r : LogReader)
      → (result : LogReader × ℕ × List ℕ) × (read_physical_record extend r ≡ some result)
        × ((result.1 ≡ eof_code) ⊎ (size result.0 < size r))
  unfolding read_physical_record end_of_file
  read_physical_record-size r = elim (Bool-cases (ltb (length r.buffer) 7)) [
    | inr long ↦
        (parse_record extend r, fill_parse 1 r long, inr (parse_record-size r (ltb-false _ _ long)))
    | inl short ↦ elim (Bool-cases r.eof) [
      | inl ended ↦ (end_of_file r, fill_end 1 r short ended, inl refl)
      | inr going ↦ elim (Bool-cases (ltb (length (refill r).buffer) 7)) [
        | inl short' ↦ (
          end_of_file (refill r),
          fill_again 1 r short going ∙ fill_end 0 (refill r) short' (refill-short r short'),
          inl refl,
        )
        | inr long' ↦ (
          parse_record extend (refill r),
          fill_again 1 r short going ∙ fill_parse 0 (refill r) long',
          inr (omega (arith, refill-size r, parse_record-size (refill r) (ltb-false _ _ long'))),
        )
      ]
    ]
  ]

  module _ (r : LogReader) (scratch : List ℕ) (split : Bool) (at : ℕ) where
    abbrev round : LogReader × ℕ × List ℕ → Step
    round (r', type, fragment) =
        dispatch r' scratch split at (sub_u64 r.end_of_buffer_offset (length r.buffer)) type
          fragment

    loop_returned :
        (fuel : ℕ) (r'' : LogReader) (bytes : Option (List ℕ)) (result : LogReader × ℕ × List ℕ)
        → read_physical_record extend r ≡ some result
        → round result ≡ returned r'' bytes
        → read_loop extend (suc fuel) r scratch split at ≡ (r'', outcome bytes)
    unfolding read_loop
    loop_returned fuel r'' bytes result h e = rw (h, read_loop) (rw (e, read_loop) refl)

    loop_continued :
        (fuel : ℕ) (r'' : LogReader) (scratch' : List ℕ) (split' : Bool) (at' : ℕ)
        (result : LogReader × ℕ × List ℕ)
        → read_physical_record extend r ≡ some result
        → round result ≡ continued r'' scratch' split' at'
        → read_loop extend (suc fuel) r scratch split at
          ≡ read_loop extend fuel r'' scratch' split' at'
    unfolding read_loop
    loop_continued fuel r'' scratch' split' at' result h e =
        rw (h, read_loop) (rw (e, read_loop) refl)

  read_loop-Total :
      (fuel : ℕ) (r : LogReader) (scratch : List ℕ) (split : Bool) (at : ℕ)
      → size r < fuel
      → (read_loop extend fuel r scratch split at).1 ≢ out_of_fuel
  read_loop-Total zero r scratch split at h = absurd (omega arith)
  read_loop-Total (suc fuel) r scratch split at h =
      let (result, read, smaller) = read_physical_record-size r in
      let offset = sub_u64 r.end_of_buffer_offset (length r.buffer) in
      go result read (round r scratch split at result) refl
        (dispatch-Decreases result.0 scratch split at offset result.1 result.2 (size r) smaller)
        (read_loop-Total fuel)
    where
      go :
          (result : LogReader × ℕ × List ℕ)
          → read_physical_record extend r ≡ some result
          → (s : Step) → round r scratch split at result ≡ s
          → Decreases (size r) s
          → ((r' : LogReader) (scratch' : List ℕ) (split' : Bool) (at' : ℕ)
              → size r' < fuel
              → (read_loop extend fuel r' scratch' split' at').1 ≢ out_of_fuel)
          → (read_loop extend (suc fuel) r scratch split at).1 ≢ out_of_fuel
      go result read (returned r'' none) e small ih =
          let answer =
            ap (λ (x : LogReader × Outcome). x.1)
              (loop_returned r scratch split at fuel r'' none result read e) in
          λ k. cc
      go result read (returned r'' (some bytes)) e small ih =
          let answer =
            ap (λ (x : LogReader × Outcome). x.1)
              (loop_returned r scratch split at fuel r'' (some bytes) result read e) in
          λ k. cc
      go result read (continued r'' scratch' split' at') e small ih =
          subst (λ (x : LogReader × Outcome). x.1 ≢ out_of_fuel)
            (sym (loop_continued r scratch split at fuel r'' scratch' split' at' result read e))
            (ih r'' scratch' split' at' (omega arith))

  -- With any checksum function, in any state of the reader and on any bytes left of the file, the
  -- loop of ReadRecord and the loop of ReadPhysicalRecord in it end: ReadRecord returns a record
  -- or reports the end of the file.
  pub read_record-Total : (r : LogReader) → (read_record extend r).1 ≢ out_of_fuel
  unfolding read_record
  read_record-Total r = read_loop-Total _ _ [] false 0 (omega arith)
