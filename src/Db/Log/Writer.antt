-- ===== src/Db/Log/Writer.antt =====
-- Every record is written, and the writer knows where it stands in the current block.
use level_db.Common.{
  ℕ, zero, suc, ◌+◌, ◌-◌, ◌*◌, ◌%◌, ◌≤◌, Bool, true, false, List, ◌++◌, length, take, drop,
  replicate, ltb, ◌==◌, if◌then◌else◌, some, ◌≡◌, ◌⊎◌, inl, inr, refl, ◌∙◌, arith, length-append,
  length-replicate, length-take_le, length-drop,
}
use level_db.Util.Coding.{encode_fixed32}
use level_db.Util.Coding.Fixed.{length-encode_fixed32}
use level_db.Db.Log.{
  LogWriter, RecordType, record_type, switch_block, emit_physical_record, emit_fragment, add_loop,
  add_record,
}

-- `block_offset_` is the position in the current block; it is the block size at the end of one.
abbrev pub IsWriter : LogWriter → Type 0
IsWriter w = (w.block_offset ≤ 32768) × (length w.dest % 32768 ≡ w.block_offset % 32768)

pub switch_block-IsWriter :
    (w : LogWriter)
    → IsWriter w
    → IsWriter (switch_block w)
      × ((switch_block w).block_offset + 7 ≤ 32768)
      × ((w.block_offset ≡ (switch_block w).block_offset) ⊎ ((switch_block w).block_offset ≡ 0))
unfolding switch_block
switch_block-IsWriter w (h, e) = ground (
  arith,
  h,
  e,
  length-append w.dest (replicate (32768 - w.block_offset) 0),
  length-replicate {A = ℕ} (32768 - w.block_offset) 0,
)

module _ (extend : ℕ → List ℕ → ℕ) where
  length-emit :
      (dest header payload : List ℕ)
      → length ((dest ++ header) ++ payload) ≡ length dest + (length header + length payload)
  length-emit dest header payload =
      omega (arith, length-append (dest ++ header) payload, length-append dest header)

  length-header : (crc : ℕ) (tail : List ℕ) → length (encode_fixed32 crc ++ tail) ≡ 4 + length tail
  length-header crc tail =
      omega (arith, length-append (encode_fixed32 crc) tail, length-encode_fixed32 crc)

  emit_physical_record-length :
      (w : LogWriter) (t : RecordType) (payload : List ℕ)
      → (length (emit_physical_record extend w t payload).dest
          ≡ length w.dest + (7 + length payload))
        × ((emit_physical_record extend w t payload).block_offset
            ≡ w.block_offset + (7 + length payload))
  unfolding emit_physical_record
  emit_physical_record-length w t payload = rw (length-emit, length-header) (omega arith, refl)

  pub emit_fragment-IsWriter :
      (w : LogWriter) (begin : Bool) (left : List ℕ) (n : ℕ)
      → IsWriter w
      → n ≤ length left
      → w.block_offset + 7 + n ≤ 32768
      → IsWriter (emit_fragment extend w begin left n)
        × ((emit_fragment extend w begin left n).block_offset ≡ w.block_offset + (7 + n))
  unfolding emit_fragment
  emit_fragment-IsWriter w begin left n (h, e) hn room = omega (
    arith,
    emit_physical_record-length w (record_type begin (length left == n)) (take n left),
    length-take_le n left hn,
  )

  -- The rounds that are enough: one more where the block has room for a header alone.
  abbrev pub need : ℕ → ℕ → ℕ
  need offset len = if offset == 32761 then 2 * len + 2 else 2 * len + 1

  abbrev pub fragment : LogWriter → List ℕ → ℕ
  fragment w left =
      let avail = 32768 - (switch_block w).block_offset - 7 in
      if ltb (length left) avail then length left else avail

  pub fragment_bounds :
      (w : LogWriter) (left : List ℕ)
      → w.block_offset + 7 ≤ 32768
      → ((if ltb (length left) (32768 - w.block_offset - 7)
            then length left
            else 32768 - w.block_offset - 7)
          ≤ length left)
        × (w.block_offset
              + 7
              + (if ltb (length left) (32768 - w.block_offset - 7)
                  then length left
                  else 32768 - w.block_offset - 7)
            ≤ 32768)
  fragment_bounds w left room = ground (arith, room)

  pub zero_or_more : (n : ℕ) → (n ≡ 0) ⊎ ((m : ℕ) × (n ≡ suc m))
  zero_or_more zero = inl refl
  zero_or_more (suc m) = inr (m, refl)

  module _ (fuel : ℕ) where
    pub add_loop_done :
        (w : LogWriter) (begin : Bool) (left : List ℕ)
        → length left - fragment w left ≡ 0
        → add_loop extend (suc fuel) w begin left
          ≡ some (emit_fragment extend (switch_block w) begin left (fragment w left))
    unfolding add_loop
    add_loop_done w begin left p = rw (p, add_loop)

    pub add_loop_more :
        (m : ℕ) (w : LogWriter) (begin : Bool) (left : List ℕ)
        → length left - fragment w left ≡ suc m
        → add_loop extend (suc fuel) w begin left
          ≡ add_loop extend fuel
              (emit_fragment extend (switch_block w) begin left (fragment w left))
              false
              (drop (fragment w left) left)
    unfolding add_loop
    add_loop_more m w begin left p = rw (p, add_loop)

  abbrev pub cut : ℕ → ℕ → ℕ
  cut offset len = if ltb len (32768 - offset - 7) then len else 32768 - offset - 7

  pub need_less :
      (offset offset1 len m fuel offset2 len' : ℕ)
      → offset1 + 7 ≤ 32768
      → (offset ≡ offset1) ⊎ (offset1 ≡ 0)
      → len - cut offset1 len ≡ suc m
      → offset2 ≡ offset1 + (7 + cut offset1 len)
      → len' ≡ len - cut offset1 len
      → need offset len ≤ suc fuel
      → need offset2 len' ≤ fuel
  need_less offset offset1 len m fuel offset2 len' room moved p e2 el hf =
      ground (arith, room, moved, p, e2, el, hf)

  add_loop-IsWriter :
      (fuel : ℕ) (w : LogWriter) (begin : Bool) (left : List ℕ)
      → IsWriter w
      → need w.block_offset (length left) ≤ fuel
      → (w' : LogWriter) × ((add_loop extend fuel w begin left ≡ some w') × IsWriter w')
  add_loop-IsWriter zero w begin left h hf = absurd (ground (arith, hf))
  add_loop-IsWriter (suc fuel) w begin left h hf =
      let (h1, room, moved) = switch_block-IsWriter w h in
      let (small, bounded) = fragment_bounds (switch_block w) left room in
      let (h2, offset2) =
        emit_fragment-IsWriter (switch_block w) begin left (fragment w left) h1 small bounded in
      elim (zero_or_more (length left - fragment w left)) [
        | inl p ↦ (
          emit_fragment extend (switch_block w) begin left (fragment w left),
          (add_loop_done fuel w begin left p, h2),
        )
        | inr (m, p) ↦
            let (w', (written, h3)) =
              add_loop-IsWriter fuel
                (emit_fragment extend (switch_block w) begin left (fragment w left)) false
                (drop (fragment w left) left) h2
                (need_less w.block_offset (switch_block w).block_offset (length left) m fuel
                  (emit_fragment extend (switch_block w) begin left (fragment w left)).block_offset
                  (length (drop (fragment w left) left)) room moved p offset2
                  (length-drop (fragment w left) left) hf) in
            (w', (add_loop_more fuel m w begin left p ∙ written, h3))
      ]

  -- With any checksum, AddRecord ends on every record, and if block_offset_ is at most the block
  -- size and is the length of the file modulo the block size before, so it is after.
  pub add_record-IsWriter :
      (w : LogWriter) (slice : List ℕ)
      → IsWriter w
      → (w' : LogWriter) × ((add_record extend w slice ≡ some w') × IsWriter w')
  unfolding add_record
  add_record-IsWriter w slice h =
      add_loop-IsWriter (2 * length slice + 2) w true slice h (ground arith)
