-- ===== src/Db/Log/RoundTrip.antt =====
-- A log of any number of records, written and read.
use mathlib.Core.Path.{subst}
use level_db.Common.{
  ℕ, zero, suc, ◌+◌, ◌-◌, ◌*◌, Bool, true, false, List, [], ◌∷◌, ◌++◌, length, take, drop, map, ltb,
  if◌then◌else◌, none, some, ◌≡◌, refl, sym, ap, ◌∙◌, arith, append_assoc, append-nil,
  length-append, take-append-drop, Bool-cases, inl, inr,
}
use level_db.Db.Log.{LogWriter, new_writer, add_record, add_records}
use level_db.Db.Log.Writer.{IsWriter}
use level_db.Db.Log.Chain.{Chain, ending, more, add_loop-Chain, Added}
use level_db.Db.Log.Reader.{
  LogReader, Outcome, got, finished, read_physical_record, read_physical_loop, refill, end_of_file,
  eof_code, dispatch, read_loop, read_record, read_all, new_reader, skip_to_initial_block,
}
use level_db.Db.Log.Reader.Physical.{At, ltb_zero}
use level_db.Db.Log.Reader.Records.{Returns, read_loop-Chain, read_loop-returned}

nothing_taken : (n : ℕ) → length (take {A = ℕ} n []) ≡ 0
nothing_taken zero = refl
nothing_taken (suc n) = refl

nothing_dropped : (n : ℕ) → drop {A = ℕ} n [] ≡ []
nothing_dropped zero = refl
nothing_dropped (suc n) = refl

module _ (extend : ℕ → List ℕ → ℕ) where
  data Chains : ℕ → List (List ℕ) → List ℕ → Type 0 where
    nothing : (o : ℕ) → Chains o [] []
    next :
        (o o1 : ℕ) (slice : List ℕ) (slices : List (List ℕ)) (bytes later all : List ℕ)
        → Chain extend o true slice bytes o1
        → Chains o1 slices later
        → all ≡ bytes ++ later
        → Chains o (slice ∷ slices) all

  add_record-Chain :
      (w : LogWriter) (slice : List ℕ)
      → IsWriter w
      → Added extend (2 * length slice + 2) w true slice
  add_record-Chain w slice h =
      add_loop-Chain extend (2 * length slice + 2) w true slice h (ground arith)

  AllAdded : LogWriter → List (List ℕ) → Type 0
  AllAdded w slices =
      (w' : LogWriter) × (bytes : List ℕ) × (add_records extend w slices ≡ some w')
      × (w'.dest ≡ w.dest ++ bytes)
      × Chains w.block_offset slices bytes

  add_records-Chains : (slices : List (List ℕ)) (w : LogWriter) → IsWriter w → AllAdded w slices
  unfolding AllAdded add_records add_record
  add_records-Chains [] w h = (w, [], refl, sym (append-nil w.dest), nothing w.block_offset)
  add_records-Chains (slice ∷ slices) w h =
      let (w1, bytes, added, dest, chain, h1) = add_record-Chain w slice h in
      let (w2, later, all_added, dest2, chains) = add_records-Chains slices w1 h1 in
      (
        w2,
        bytes ++ later,
        rw added all_added,
        dest2 ∙ ap (λ (d : List ℕ). d ++ later) dest ∙ append_assoc w.dest bytes later,
        next w.block_offset w1.block_offset slice slices bytes later _ chain chains refl,
      )

  -- An empty block and the end of a full one are the same place.
  Chains-full :
      {slices : List (List ℕ)} {bytes : List ℕ} → Chains 0 slices bytes → Chains 32768 slices bytes
  Chains-full (nothing o) = nothing 32768
  Chains-full (next o o1 slice slices bytes later all chain chains e) =
      next 32768 o1 slice slices bytes later all (full chain) chains e
    where
      full : Chain extend 0 true slice bytes o1 → Chain extend 32768 true slice bytes o1
      full (ending o begin p bytes o' room e ends) = ending 32768 begin p bytes o' room e ends
      full (more o begin p left later all bytes o1 o' room e1 chain cut e) =
          more 32768 begin p left later all bytes o1 o' room e1 chain cut e

  from_start_eq :
      (r : LogReader)
      → r.initial_offset ≡ 0
      → read_record extend r ≡ read_loop extend (suc (length r.buffer + length r.file)) r [] false 0
  unfolding read_record
  from_start_eq r e =
      ap
        (λ (b : Bool).
          read_loop extend
            (suc (
              length (if b then skip_to_initial_block r else r).buffer
              + length (if b then skip_to_initial_block r else r).file))
            (if b then skip_to_initial_block r else r) [] false 0)
        (ap (ltb r.last_record_offset) e ∙ ltb_zero r.last_record_offset)

  read_record-Chain :
      {o : ℕ} {slice bytes : List ℕ} {o' : ℕ}
      → Chain extend o true slice bytes o'
      → (r : LogReader) (rest : List ℕ) → At r o (bytes ++ rest)
      → Returns extend (read_record extend r) slice o' rest
  read_record-Chain {o} {slice} {bytes} {o'} chain r rest stands =
      let all = bytes ++ rest in
      let measure = ap length (take-append-drop (32768 - o) all) in
      let (r', result, done) =
        read_loop-Chain extend chain (suc (length r.buffer + length r.file)) r [] rest 0
          (omega (
            arith,
            ap length stands.buffered,
            ap length stands.unread,
            length-append (take (32768 - o) all) (drop (32768 - o) all),
            length-append bytes rest,
            measure,
          ))
          stands in
      (r', from_start_eq r stands.from_start ∙ result, done)

  at_the_end :
      (r : LogReader)
      → length r.buffer ≡ 0
      → r.eof ≡ true
      → read_physical_record extend r ≡ some (r, eof_code, [])
  unfolding read_physical_record read_physical_loop end_of_file
  at_the_end r e ended = simp (e, ended)

  before_the_end :
      (r : LogReader)
      → length r.buffer ≡ 0
      → r.eof ≡ false
      → length (refill r).buffer ≡ 0
      → read_physical_record extend r ≡ some (refill r, eof_code, [])
  unfolding read_physical_record read_physical_loop end_of_file refill
  before_the_end r e ended e' = simp (e, ended, e')

  refill_empty :
      (r : LogReader) → r.file ≡ [] → (length (refill r).buffer ≡ 0) × ((refill r).drops ≡ r.drops)
  unfolding refill
  refill_empty r f = (rw f refl, refl)

  -- Behind the last record the reader finds the end of the file, and reports nothing.
  no_bytes_left :
      (r : LogReader) (o : ℕ)
      → At r o []
      → (r' : LogReader) × (read_physical_record extend r ≡ some (r', eof_code, []))
        × (r'.drops ≡ [])
  no_bytes_left r o stands =
      let empty = ap length stands.buffered ∙ nothing_taken (32768 - o) in
      elim (Bool-cases r.eof) [
        | inl ended ↦ (r, at_the_end r empty ended, stands.no_drops)
        | inr going ↦
            let (empty', same) = refill_empty r (stands.unread ∙ nothing_dropped (32768 - o)) in
            (refill r, before_the_end r empty going empty', same ∙ stands.no_drops)
      ]

  Finishes : LogReader × Outcome → Type 0
  Finishes result = (r' : LogReader) × (result ≡ (r', finished)) × (r'.drops ≡ [])

  read_record-nothing : (r : LogReader) (o : ℕ) → At r o [] → Finishes (read_record extend r)
  unfolding Finishes dispatch
  read_record-nothing r o stands =
      let (r', read, clean) = no_bytes_left r o stands in
      (
        r',
        from_start_eq r stands.from_start
            ∙ read_loop-returned extend (length r.buffer + length r.file) r r' [] [] false 0
                eof_code (λ (offset : ℕ). r') none read (λ (offset : ℕ). refl),
        clean,
      )

  read_all_step :
      (n : ℕ) (r r1 r2 : LogReader) (result : Outcome) (results : List Outcome)
      → read_record extend r ≡ (r1, result)
      → read_all extend n r1 ≡ (r2, results)
      → read_all extend (suc n) r ≡ (r2, result ∷ results)
  unfolding read_all
  read_all_step n r r1 r2 result results e f =
      ap (λ (x : LogReader × Outcome). ((read_all extend n x.0).0, x.1 ∷ (read_all extend n x.0).1))
        e
      ∙ ap (λ (y : LogReader × List Outcome). (y.0, result ∷ y.1)) f

  abbrev AllRead : ℕ → LogReader → List (List ℕ) → Type 0
  AllRead n r slices =
      (r' : LogReader) × (read_all extend n r ≡ (r', map got slices ++ (finished ∷ [])))
      × (r'.drops ≡ [])

  read_all-Chains :
      {o : ℕ} {slices : List (List ℕ)} {bytes : List ℕ}
      → Chains o slices bytes
      → (r : LogReader) → At r o bytes
      → AllRead (suc (length slices)) r slices
  unfolding read_all Finishes
  read_all-Chains (nothing o) r stands =
      let (r', result, clean) = read_record-nothing r o stands in (r', rw result refl, clean)
  read_all-Chains (next o o1 slice slices bytes later all chain chains e) r stands =
      let (r1, result, stands1) =
        read_record-Chain chain r later (subst (λ (b : List ℕ). At r o b) e stands) in
      let (r2, results, clean) = read_all-Chains chains r1 stands1 in
      (r2, read_all_step (suc (length slices)) r r1 r2 (got slice) _ result results, clean)

  -- Any records that AddRecord writes to a new file, with any checksum function, a reader that
  -- does not verify checksums returns from its start in their order, and then no more; nothing is
  -- reported as dropped, whatever the two numbers are that the constructor of the reader leaves
  -- unset.
  pub read_all-add_records :
      (slices : List (List ℕ)) (stale_record stale_end : ℕ)
      → (w : LogWriter) × (r : LogReader) × (add_records extend new_writer slices ≡ some w)
        × (read_all extend (suc (length slices)) (new_reader w.dest false 0 stale_record stale_end)
            ≡ (r, map got slices ++ (finished ∷ [])))
        × (r.drops ≡ [])
  unfolding AllAdded
  read_all-add_records slices stale_record stale_end =
      let (w, bytes, added, dest, chains) =
        add_records-Chains slices new_writer (omega arith, refl) in
      let fresh : At (new_reader w.dest false 0 stale_record stale_end) 32768 bytes = record {
        buffered = refl;
        unread = dest;
        ended = refl;
        from_start = refl;
        no_drops = refl;
        unchecked = refl;
      } in
      let (r, results, clean) = read_all-Chains (Chains-full chains) _ fresh in
      (w, r, added, results, clean)
