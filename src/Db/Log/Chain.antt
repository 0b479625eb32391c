-- ===== src/Db/Log/Chain.antt =====
-- What the writer puts into the file for one record: a chain of fragments over the blocks.
use mathlib.Core.Path.{ap₂}
use level_db.Common.{
  ℕ, zero, suc, ◌+◌, ◌-◌, ◌/◌, ◌%◌, ◌≤◌, Bool, true, false, List, [], ◌∷◌, ◌++◌, length, take, drop,
  replicate, ltb, ◌==◌, if◌then◌else◌, some, ◌≡◌, inl, inr, sym, ap, ◌∙◌, arith, append-nil,
  append_assoc, append_regroup, length-take_le, length-drop, take-append-drop, take_all,
}
use level_db.Util.Coding.{encode_fixed32}
use level_db.Util.Crc32c.{mask}
use level_db.Db.Log.{
  LogWriter, record_code, record_type, switch_block, emit_physical_record, emit_fragment, add_loop,
}
use level_db.Db.Log.Writer.{
  IsWriter, switch_block-IsWriter, emit_fragment-IsWriter, zero_or_more, fragment_bounds,
  add_loop_done, add_loop_more, need_less, need, fragment,
}

-- The zeros at the end of a block without room for a header, and where the header stands.
abbrev pub trailer : ℕ → List ℕ
trailer o = if ltb (32768 - o) 7 then replicate (32768 - o) 0 else []

abbrev pub start : ℕ → ℕ
start o = if ltb (32768 - o) 7 then 0 else o

module _ (extend : ℕ → List ℕ → ℕ) where
  abbrev pub header : ℕ → List ℕ → List ℕ
  header code p =
      encode_fixed32 (mask (extend (extend 0 (code ∷ [])) p))
      ++ (length p % 256 ∷ length p / 256 ∷ code ∷ [])

  abbrev pub physical : ℕ → List ℕ → List ℕ
  physical code p = header code p ++ p

  -- `Chain o begin left bytes o'`: from the offset o in a block on, the bytes hold the fragments
  -- of `left`, and end at o'.
  pub data Chain : ℕ → Bool → List ℕ → List ℕ → ℕ → Type 0 where
    ending :
        (o : ℕ) (begin : Bool) (p bytes : List ℕ) (o' : ℕ)
        → start o + (7 + length p) ≤ 32768
        → bytes ≡ trailer o ++ physical (record_code (record_type begin true)) p
        → o' ≡ start o + (7 + length p)
        → Chain o begin p bytes o'
    more :
        (o : ℕ) (begin : Bool) (p left later whole bytes : List ℕ) (o1 o' : ℕ)
        → start o + (7 + length p) ≤ 32768
        → o1 ≡ start o + (7 + length p)
        → Chain o1 false left later o'
        → whole ≡ p ++ left
        → bytes ≡ trailer o ++ (physical (record_code (record_type begin false)) p ++ later)
        → Chain o begin whole bytes o'

  switched :
      (w : LogWriter)
      → ((switch_block w).dest ≡ w.dest ++ trailer w.block_offset)
        × ((switch_block w).block_offset ≡ start w.block_offset)
  unfolding switch_block
  switched w = ground (arith, append-nil w.dest)

  emit_fragment_dest :
      (w : LogWriter) (begin : Bool) (left : List ℕ) (n : ℕ)
      → (emit_fragment extend (switch_block w) begin left n).dest
        ≡ w.dest
          ++ (trailer w.block_offset
              ++ physical (record_code (record_type begin (length left == n))) (take n left))
  unfolding emit_fragment emit_physical_record
  emit_fragment_dest w begin left n = rw ((switched w).0) (simp append_assoc)

  module _ (o n : ℕ) (begin : Bool) (left : List ℕ) where
    ends_here :
        (o' : ℕ)
        → length left - n ≡ 0
        → n ≤ length left
        → start o + (7 + n) ≤ 32768
        → o' ≡ start o + (7 + n)
        → Chain o begin left
            (trailer o
              ++ physical (record_code (record_type begin (length left == n))) (take n left))
            o'
    ends_here o' p small room e =
        let same : n ≡ length left = omega arith in
        let test : (length left == n) ≡ true = ground arith in
        ending o begin left _ o' (omega arith)
          (ap₂
            (λ (b : Bool) (q : List ℕ). trailer o ++ physical (record_code (record_type begin b)) q)
            test (take_all n left (omega arith)))
          (omega arith)

    goes_further :
        (m o1 o' : ℕ) (later : List ℕ)
        → length left - n ≡ suc m
        → n ≤ length left
        → start o + (7 + n) ≤ 32768
        → o1 ≡ start o + (7 + n)
        → Chain o1 false (drop n left) later o'
        → Chain o begin left
            (trailer o
              ++ (physical (record_code (record_type begin (length left == n))) (take n left)
                  ++ later))
            o'
    goes_further m o1 o' later p small room e chain =
        let measure = length-take_le n left small in
        let test : (length left == n) ≡ false = ground arith in
        more o begin (take n left) (drop n left) later left _ o1 o' (omega arith) (omega arith)
          chain (sym (take-append-drop n left))
          (ap
            (λ (b : Bool).
              trailer o ++ (physical (record_code (record_type begin b)) (take n left) ++ later))
            test)

  abbrev pub Added : ℕ → LogWriter → Bool → List ℕ → Type 0
  Added fuel w begin left =
      (w' : LogWriter) × (bytes : List ℕ) × (add_loop extend fuel w begin left ≡ some w')
      × (w'.dest ≡ w.dest ++ bytes)
      × Chain w.block_offset begin left bytes w'.block_offset
      × IsWriter w'

  pub add_loop-Chain :
      (fuel : ℕ) (w : LogWriter) (begin : Bool) (left : List ℕ)
      → IsWriter w
      → need extend w.block_offset (length left) ≤ fuel
      → Added fuel w begin left
  add_loop-Chain zero w begin left h hf = absurd (ground (arith, hf))
  add_loop-Chain (suc fuel) w begin left h hf =
      let (h1, room, moved) = switch_block-IsWriter w h in
      let (small, bounded) = fragment_bounds extend (switch_block w) left room in
      let n = fragment extend w left in
      let o = w.block_offset in
      let e = (switched w).1 in
      let w2 = emit_fragment extend (switch_block w) begin left n in
      let (h2, offset2) =
        emit_fragment-IsWriter extend (switch_block w) begin left n h1 small bounded in
      let fits : start o + (7 + n) ≤ 32768 = omega arith in
      let dest1 = emit_fragment_dest w begin left n in
      elim (zero_or_more extend (length left - n)) [
        | inl p ↦ (
          w2,
          trailer o ++ physical (record_code (record_type begin (length left == n))) (take n left),
          add_loop_done extend fuel w begin left p,
          dest1,
          ends_here o n begin left w2.block_offset p small fits (offset2 ∙ omega arith),
          h2,
        )
        | inr (m, p) ↦
            let (w', later, written, dest2, chain, h3) =
              add_loop-Chain fuel w2 false (drop n left) h2 (
                need_less extend o (switch_block w).block_offset (length left) m fuel
                  w2.block_offset (length (drop n left)) room moved p offset2 (length-drop n left)
                  hf) in
            (
              w',
              trailer o
                  ++ (physical (record_code (record_type begin (length left == n))) (take n left)
                      ++ later),
              add_loop_more extend fuel m w begin left p ∙ written,
              dest2
                  ∙ ap (λ (d : List ℕ). d ++ later) dest1
                  ∙ append_regroup w.dest (trailer o) _ later,
              goes_further o n begin left m w2.block_offset w'.block_offset later p small fits
                  (offset2 ∙ omega arith) chain,
              h3,
            )
      ]
