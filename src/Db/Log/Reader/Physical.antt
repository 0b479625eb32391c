-- ===== src/Db/Log/Reader/Physical.antt =====
-- One call of ReadPhysicalRecord on what the writer emitted.
use mathlib.Core.Path.{ap₂, subst}
use level_db.Common.{
  ℕ, zero, suc, ◌+◌, ◌-◌, ◌/◌, ◌%◌, ◌^◌, ◌<◌, ◌≤◌, Bool, true, false, List, [], ◌∷◌, ◌++◌, length,
  take, drop, replicate, get_or, ltb, ◌==◌, if◌then◌else◌, ◌≡◌, refl, ap, ◌∙◌, arith, append_assoc,
  length-append, length-replicate, take-append, drop-append, take-append_length, drop-append_length,
  Bool-cases, inl, inr, le→ltb, lt→ltb, ltb→lt, some,
}
use level_db.Common.Bits.{bit_or-shifted}
use level_db.Util.Coding.{encode_fixed32, store_bytes}
use level_db.Util.Coding.Fixed.{length-encode_fixed32}
use level_db.Util.Hash.{signed_char}
use level_db.Util.Crc32c.{mask}
use level_db.Db.Log.Chain.{trailer, start, header, physical}
use level_db.Db.Log.Reader.{
  LogReader, refill, length_field, parse_record, read_physical_loop, read_physical_record,
}

-- The reader stands at the offset o of a block, before the bytes `all`, and has reported nothing.
pub record At (r : LogReader) (o : ℕ) (all : List ℕ) : Type 0 where
  pub buffered : r.buffer ≡ take (32768 - o) all
  pub unread : r.file ≡ drop (32768 - o) all
  pub ended : r.eof ≡ ltb (length r.buffer) (32768 - o)
  pub from_start : r.initial_offset ≡ 0
  pub no_drops : r.drops ≡ []
  pub unchecked : r.checksum ≡ false

if_self : (b : Bool) → (if b then true else false) ≡ b
if_self true = refl
if_self false = refl

pub ltb_zero : (a : ℕ) → ltb a 0 ≡ false
ltb_zero a = ground arith

cut_padding :
    (k : ℕ) (all : List ℕ)
    → (take k (replicate k 0 ++ all) ≡ replicate k 0) × (drop k (replicate k 0 ++ all) ≡ all)
cut_padding zero all = (refl, refl)
cut_padding (suc k) all = (ap (◌∷◌ 0) (cut_padding k all).0, (cut_padding k all).1)

ltb-add : (k a b x y : ℕ) → x ≡ k + a → y ≡ k + b → ltb x y ≡ ltb a b
ltb-add k a b x y e f = ground arith

module _ (extend : ℕ → List ℕ → ℕ) where
  pub length-physical : (code : ℕ) (p : List ℕ) → length (physical extend code p) ≡ 7 + length p
  length-physical code p = omega (
    arith,
    length-append (header extend code p) p,
    length-append (encode_fixed32 (mask (extend (extend 0 (code ∷ [])) p)))
        (length p % 256 ∷ length p / 256 ∷ code ∷ []),
    length-encode_fixed32 (mask (extend (extend 0 (code ∷ [])) p)),
  )

  -- The fields of a header.
  header_fields :
      (code : ℕ) (p tail : List ℕ)
      → length p < 2 ^ 16
      → (length_field (header extend code p ++ (p ++ tail)) ≡ length p)
        × (get_or (header extend code p ++ (p ++ tail)) 6 0 ≡ code)
        × (drop 6 (header extend code p ++ (p ++ tail)) ≡ code ∷ (p ++ tail))
  unfolding encode_fixed32 store_bytes
  header_fields code p tail h =
      (bit_or-shifted 8 (length p % 256) (length p / 256) (omega arith) ∙ omega arith, refl, refl)

  -- A record that passes each of the tests is handed out.
  parse_record_good :
      (r : LogReader) (len type : ℕ)
      → length_field r.buffer ≡ len
      → ltb (length r.buffer) (7 + len) ≡ false
      → signed_char (get_or r.buffer 6 0) ≡ type
      → (type == 0) ≡ false
      → r.checksum ≡ false
      → r.initial_offset ≡ 0
      → parse_record extend r
        ≡ (record r { buffer = drop (7 + len) r.buffer }, type, take len (drop 7 r.buffer))
  unfolding parse_record
  parse_record_good r len type e1 e2 e3 e4 e5 e6 = rw (e1, e2, e3, e4, e5, e6) (rw ltb_zero refl)

  cut_record :
      (code : ℕ) (p tail : List ℕ)
      → (drop (7 + length p) (header extend code p ++ (p ++ tail)) ≡ tail)
        × (take (length p) (drop 7 (header extend code p ++ (p ++ tail))) ≡ p)
        × (take (1 + length p) (drop 6 (header extend code p ++ (p ++ tail))) ≡ code ∷ p)
  unfolding encode_fixed32 store_bytes
  cut_record code p tail =
      let seven : 7 + length p ≡ suc (suc (suc (suc (suc (suc (suc (length p))))))) = omega arith in
      let one : 1 + length p ≡ suc (length p) = omega arith in
      (
        rw seven (drop-append_length p tail),
        take-append_length p tail,
        rw one (ap (◌∷◌ code) (take-append_length p tail)),
      )

  -- What one physical record in front of the buffer gives.
  parse_physical :
      (r : LogReader) (code : ℕ) (p tail : List ℕ)
      → 0 < code
      → code < 128
      → length p < 2 ^ 16
      → r.checksum ≡ false
      → r.initial_offset ≡ 0
      → r.buffer ≡ physical extend code p ++ tail
      → parse_record extend r ≡ (record r { buffer = tail }, code, p)
  parse_physical r code p tail positive small short off from_start e =
      let e' = e ∙ append_assoc (header extend code p) p tail in
      let (len_ok, type_ok, at_type) = header_fields code p tail short in
      let (rest_ok, payload_ok, crc_bytes) = cut_record code p tail in
      parse_record_good r (length p) code (ap length_field e' ∙ len_ok)
        (rw e (
          le→ltb _ _
            (omega (arith, length-append (physical extend code p) tail, length-physical code p))))
        (ap (λ (b : List ℕ). signed_char (get_or b 6 0)) e' ∙ ap signed_char type_ok ∙ ground arith)
        (ground arith) off from_start
      ∙ ap₂ (λ (b q : List ℕ). (record r { buffer = b }, code, q))
          (ap (drop (7 + length p)) e' ∙ rest_ok)
          (ap (λ (b : List ℕ). take (length p) (drop 7 b)) e' ∙ payload_ok)

  -- The reader that stands before the zeros at the end of a block, and goes on to the next one.
  refill-At :
      (r : LogReader) (o : ℕ) (all : List ℕ)
      → 32768 - o < 7
      → At r o (replicate (32768 - o) 0 ++ all)
      → (r.eof ≡ false) × (length r.buffer < 7) × At (refill r) 0 all
  unfolding refill
  refill-At r o all h at =
      let buffer_eq : r.buffer ≡ replicate (32768 - o) 0 =
        at.buffered ∙ (cut_padding (32768 - o) all).0 in
      let measure = ap length buffer_eq ∙ length-replicate {A = ℕ} (32768 - o) 0 in
      let file_eq : r.file ≡ all = at.unread ∙ (cut_padding (32768 - o) all).1 in
      (
        at.ended ∙ le→ltb (length r.buffer) (32768 - o) (omega arith),
        omega arith,
        record {
          buffered = rw file_eq refl;
          unread = rw file_eq refl;
          ended = rw (at.ended, le→ltb (length r.buffer) (32768 - o) (omega arith)) (if_self _);
          from_start = at.from_start;
          no_drops = at.no_drops;
          unchecked = at.unchecked;
        },
      )

  -- The reader at a header hands out its record and stands behind it.
  parse-At :
      (r : LogReader) (o o' code : ℕ) (p rest : List ℕ)
      → 0 < code
      → code < 128
      → o' ≡ o + (7 + length p)
      → o' ≤ 32768
      → At r o (physical extend code p ++ rest)
      → (7 ≤ length r.buffer)
        × (parse_record extend r ≡ (record r { buffer = take (32768 - o') rest }, code, p))
        × At (record r { buffer = take (32768 - o') rest }) o' rest
  parse-At r o o' code p rest positive small e room at =
      let measure = length-physical code p in
      let left : 32768 - o - length (physical extend code p) ≡ 32768 - o' = omega arith in
      let buffer_eq : r.buffer ≡ physical extend code p ++ take (32768 - o') rest =
        at.buffered
        ∙ take-append (32768 - o) (physical extend code p) rest (omega arith)
        ∙ ap (λ (n : ℕ). physical extend code p ++ take n rest) left in
      let file_eq : r.file ≡ drop (32768 - o') rest =
        at.unread
        ∙ drop-append (32768 - o) (physical extend code p) rest (omega arith)
        ∙ ap (λ (n : ℕ). drop n rest) left in
      let total =
        ap length buffer_eq ∙ length-append (physical extend code p) (take (32768 - o') rest) in
      (
        omega arith,
        parse_physical r code p (take (32768 - o') rest) positive small (omega arith) at.unchecked
            at.from_start buffer_eq,
        record {
          buffered = refl;
          unread = file_eq;
          ended = at.ended ∙ ltb-add (7 + length p) _ _ _ _ (omega arith) (omega arith);
          from_start = at.from_start;
          no_drops = at.no_drops;
          unchecked = at.unchecked;
        },
      )

  read_now :
      (r : LogReader)
      → 7 ≤ length r.buffer
      → read_physical_record extend r ≡ some (parse_record extend r)
  unfolding read_physical_record read_physical_loop
  read_now r h = rw (le→ltb (length r.buffer) 7 h) refl

  read_next :
      (r : LogReader)
      → length r.buffer < 7
      → r.eof ≡ false
      → 7 ≤ length (refill r).buffer
      → read_physical_record extend r ≡ some (parse_record extend (refill r))
  unfolding read_physical_record read_physical_loop refill parse_record
  read_next r h ended h' =
      rw (lt→ltb (length r.buffer) 7 h, le→ltb (length (refill r).buffer) 7 h') (simp ended)

  -- The next physical record, behind the zeros if the block ends here.
  abbrev Handed : LogReader → ℕ → List ℕ → ℕ → List ℕ → Type 0
  Handed r code p o' rest =
      (r' : LogReader) × (read_physical_record extend r ≡ some (r', code, p)) × At r' o' rest

  pub read_physical_record-At :
      (r : LogReader) (o o' code : ℕ) (p rest : List ℕ)
      → 0 < code
      → code < 128
      → o' ≡ start o + (7 + length p)
      → o' ≤ 32768
      → At r o (trailer o ++ (physical extend code p ++ rest))
      → Handed r code p o' rest
  read_physical_record-At r o o' code p rest positive small e room at =
      elim (Bool-cases (ltb (32768 - o) 7)) [
        | inl full ↦
            let at' =
              subst
                (λ (b : Bool).
                  At r o (
                    (if b then replicate (32768 - o) 0 else [])
                    ++ (physical extend code p ++ rest)))
                full at in
            let begins : start o ≡ 0 = rw full refl in
            let (going, short, fresh) =
              refill-At r o (physical extend code p ++ rest) (ltb→lt _ _ full) at' in
            let (long, parsed, done) =
              parse-At (refill r) 0 o' code p rest positive small (omega arith) room fresh in
            (_, read_next r short going long ∙ ap some parsed, done)
        | inr fits ↦
            let at' =
              subst
                (λ (b : Bool).
                  At r o (
                    (if b then replicate (32768 - o) 0 else [])
                    ++ (physical extend code p ++ rest)))
                fits at in
            let begins : start o ≡ o = rw fits refl in
            let (long, parsed, done) =
              parse-At r o o' code p rest positive small (omega arith) room at' in
            (_, read_now r long ∙ ap some parsed, done)
      ]
