-- ===== src/Db/Log/Reader/Records.antt =====
-- The reader returns what the writer wrote: over blocks, fragments and any number of records.
use mathlib.Core.Path.{subst}
use level_db.Common.{
  ℕ, zero, suc, ◌+◌, ◌≤◌, ◌<◌, Bool, true, false, not, List, [], ◌++◌, length, if◌then◌else◌,
  Option, some, ◌≡◌, refl, sym, ap, ◌∙◌, arith, append_assoc, append-nil, length-append,
}
use level_db.Db.Log.{record_code, record_type}
use level_db.Db.Log.Chain.{Chain, ending, more, trailer, physical}
use level_db.Db.Log.Reader.{
  LogReader, returned, continued, dispatch, Outcome, got, outcome, sub_u64, read_physical_record,
  read_loop,
}
use level_db.Db.Log.Reader.Physical.{At, length-physical, read_physical_record-At}

module _ (extend : ℕ → List ℕ → ℕ) where
  module _ (fuel : ℕ) (r r' : LogReader) (scratch fragment : List ℕ) (split : Bool)
      (at type : ℕ) where
    pub read_loop-returned :
        (r'' : ℕ → LogReader) (bytes : Option (List ℕ))
        → read_physical_record extend r ≡ some (r', type, fragment)
        → ((offset : ℕ)
            → dispatch r' scratch split at offset type fragment ≡ returned (r'' offset) bytes)
        → read_loop extend (suc fuel) r scratch split at
          ≡ (r'' (sub_u64 r.end_of_buffer_offset (length r.buffer)), outcome bytes)
    unfolding read_loop
    read_loop-returned r'' bytes e d = rw (e, read_loop) (rw (d _, read_loop) refl)

    read_loop-continued :
        (r'' : LogReader) (scratch' : List ℕ) (split' : Bool) (at' : ℕ → ℕ)
        → read_physical_record extend r ≡ some (r', type, fragment)
        → ((offset : ℕ)
            → dispatch r' scratch split at offset type fragment
              ≡ continued r'' scratch' split' (at' offset))
        → read_loop extend (suc fuel) r scratch split at
          ≡ read_loop extend fuel r'' scratch' split'
              (at' (sub_u64 r.end_of_buffer_offset (length r.buffer)))
    unfolding read_loop
    read_loop-continued r'' scratch' split' at' e d = rw (e, read_loop) (rw (d _, read_loop) refl)

  At-record :
      (r : LogReader) (o n : ℕ) (all : List ℕ)
      → At r o all
      → At (record r { last_record_offset = n }) o all
  At-record r o n all at = record {
    buffered = at.buffered;
    unread = at.unread;
    ended = at.ended;
    from_start = at.from_start;
    no_drops = at.no_drops;
    unchecked = at.unchecked;
  }

  -- What is returned at the end of a record whose first part is in `scratch`.
  abbrev pub whole : Bool → List ℕ → List ℕ → List ℕ
  whole begin scratch left = if begin then left else scratch ++ left

  abbrev pub Returns : LogReader × Outcome → List ℕ → ℕ → List ℕ → Type 0
  Returns result bytes o rest = (r' : LogReader) × (result ≡ (r', got bytes)) × At r' o rest

  read_last :
      (fuel : ℕ) (r r' : LogReader) (begin : Bool) (scratch p : List ℕ) (at o : ℕ) (rest : List ℕ)
      → read_physical_record extend r ≡ some (r', record_code (record_type begin true), p)
      → At r' o rest
      → Returns
          (read_loop extend (suc fuel) r scratch (not begin) at)
          (whole begin scratch p)
          o
          rest
  unfolding dispatch
  read_last fuel r r' true scratch p at o rest e stands = (
    _,
    read_loop-returned fuel r r' scratch p false at 1
        (λ (offset : ℕ). record r' { last_record_offset = offset }) (some p) e
        (λ (offset : ℕ). refl),
    At-record r' o _ rest stands,
  )
  read_last fuel r r' false scratch p at o rest e stands = (
    _,
    read_loop-returned fuel r r' scratch p true at 4
        (λ (offset : ℕ). record r' { last_record_offset = at }) (some (scratch ++ p)) e
        (λ (offset : ℕ). refl),
    At-record r' o at rest stands,
  )

  read_part :
      (fuel : ℕ) (r r' : LogReader) (begin : Bool) (scratch p : List ℕ) (at : ℕ)
      → read_physical_record extend r ≡ some (r', record_code (record_type begin false), p)
      → (at' : ℕ) × (read_loop extend (suc fuel) r scratch (not begin) at
          ≡ read_loop extend fuel r' (whole begin scratch p) true at')
  unfolding dispatch
  read_part fuel r r' true scratch p at e = (
    _,
    read_loop-continued fuel r r' scratch p false at 2 r' p true (λ (offset : ℕ). offset) e
        (λ (offset : ℕ). refl),
  )
  read_part fuel r r' false scratch p at e = (
    at,
    read_loop-continued fuel r r' scratch p true at 3 r' (scratch ++ p) true (λ (offset : ℕ). at) e
        (λ (offset : ℕ). refl),
  )

  code_range :
      (begin end : Bool)
      → (0 < record_code (record_type begin end)) × (record_code (record_type begin end) < 128)
  code_range true true = omega arith
  code_range true false = omega arith
  code_range false true = omega arith
  code_range false false = omega arith

  long_enough :
      (o code : ℕ) (p later bytes : List ℕ)
      → bytes ≡ trailer o ++ (physical extend code p ++ later)
      → 7 + length later ≤ length bytes
  long_enough o code p later bytes e = omega (
    arith,
    ap length e,
    length-append (trailer o) (physical extend code p ++ later),
    length-append (physical extend code p) later,
    length-physical extend code p,
  )

  joined :
      (begin : Bool) (scratch p left all : List ℕ)
      → all ≡ p ++ left
      → whole false (whole begin scratch p) left ≡ whole begin scratch all
  joined true scratch p left all e = sym e
  joined false scratch p left all e = append_assoc scratch p left ∙ ap (◌++◌ scratch) (sym e)

  grouped : (a b c d all : List ℕ) → all ≡ a ++ (b ++ c) → all ++ d ≡ a ++ (b ++ (c ++ d))
  grouped a b c d all e = rw e (simp append_assoc)

  -- A chain of fragments is read as the record that it holds.
  pub read_loop-Chain :
      {o : ℕ} {begin : Bool} {left bytes : List ℕ} {o' : ℕ}
      → Chain extend o begin left bytes o'
      → (fuel : ℕ) (r : LogReader) (scratch rest : List ℕ) (at : ℕ) → length bytes ≤ fuel
      → At r o (bytes ++ rest)
      → Returns (read_loop extend fuel r scratch (not begin) at) (whole begin scratch left) o' rest
  read_loop-Chain (ending o begin p bytes o' room e ends) zero r scratch rest at enough stands =
      absurd
        (omega (arith, long_enough o _ p [] bytes (e ∙ ap (◌++◌ (trailer o)) (sym (append-nil _)))))
  read_loop-Chain (ending o begin p bytes o' room e ends) (suc fuel) r scratch rest at enough
        stands =
      let code = record_code (record_type begin true) in
      let stands' =
        subst (λ (all : List ℕ). At r o all)
          (grouped (trailer o) (physical extend code p) [] rest bytes
            (e ∙ ap (◌++◌ (trailer o)) (sym (append-nil _))))
          stands in
      let (r', parsed, done) =
        read_physical_record-At extend r o o' code p rest (code_range begin true).0
          (code_range begin true).1 ends (omega arith) stands' in
      read_last fuel r r' begin scratch p at o' rest parsed done
  read_loop-Chain (more o begin p left later all bytes o1 o' room e1 chain cut e) zero r scratch
        rest at enough stands =
      absurd (omega (arith, long_enough o _ p later bytes e))
  read_loop-Chain (more o begin p left later all bytes o1 o' room e1 chain cut e) (suc fuel) r
        scratch rest at enough stands =
      let code = record_code (record_type begin false) in
      let stands' =
        subst (λ (all : List ℕ). At r o all)
          (grouped (trailer o) (physical extend code p) later rest bytes e) stands in
      let (r', parsed, done) =
        read_physical_record-At extend r o o1 code p (later ++ rest) (code_range begin false).0
          (code_range begin false).1 e1 (omega arith) stands' in
      let (at', step) = read_part fuel r r' begin scratch p at parsed in
      let (r'', result, done') =
        read_loop-Chain chain fuel r' (whole begin scratch p) rest at'
          (omega (arith, long_enough o _ p later bytes e)) done in
      (
        r'',
        step
            ∙ result
            ∙ ap (λ (bytes : List ℕ). (r'', got bytes)) (joined begin scratch p left all cut),
        done',
      )
