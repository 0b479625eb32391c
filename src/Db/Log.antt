-- ===== src/Db/Log.antt =====
-- db/log_format.h and db/log_writer.cpp: the writer of the log, which fragments records over blocks.
pub mod Writer
pub mod Chain
pub mod Reader
pub mod RoundTrip
mod Tests
use level_db.Common.{
  ℕ, zero, suc, ◌+◌, ◌-◌, ◌*◌, ◌/◌, ◌%◌, Bool, true, false, List, [], ◌∷◌, ◌++◌, length, take, drop,
  replicate, ltb, ◌==◌, if◌then◌else◌, Option, none, some, ◌>>=◌,
}
use level_db.Util.Coding.{encode_fixed32}
use level_db.Util.Crc32c.{mask}

pub data RecordType : Type 0 where
  full first middle last : RecordType

abbrev pub record_code : RecordType → ℕ
record_code full = 1
record_code first = 2
record_code middle = 3
record_code last = 4

abbrev pub block_size : ℕ
block_size = 32768

abbrev pub header_size : ℕ
header_size = 7

-- The bytes appended to `dest_`, which takes every append, and `block_offset_`.
pub record LogWriter : Type 0 where
  pub dest : List ℕ
  pub block_offset : ℕ

abbrev pub new_writer : LogWriter
new_writer = record { dest = []; block_offset = 0 }

-- A trailer of zeros where no header fits in the block.
unfoldable pub switch_block : LogWriter → LogWriter
switch_block w =
    let leftover = block_size - w.block_offset in
    if ltb leftover header_size
    then (record { dest = w.dest ++ replicate leftover 0; block_offset = 0 })
    else w

abbrev pub record_type : Bool → Bool → RecordType
record_type true true = full
record_type true false = first
record_type false true = last
record_type false false = middle

-- `extend crc bytes` is crc32c::Extend, and `type_crc_[t]` is its value on the type byte.
module _ (extend : ℕ → List ℕ → ℕ) where
  unfoldable pub emit_physical_record : LogWriter → RecordType → List ℕ → LogWriter
  emit_physical_record w t payload =
      let n = length payload in
      let crc = extend (extend 0 (record_code t ∷ [])) payload in
      let header = encode_fixed32 (mask crc) ++ (n % 256 ∷ n / 256 ∷ record_code t ∷ []) in
      record {
        dest = (w.dest ++ header) ++ payload;
        block_offset = w.block_offset + (header_size + n);
      }

  -- One round of the loop, behind the switch to a new block.
  unfoldable pub emit_fragment : LogWriter → Bool → List ℕ → ℕ → LogWriter
  emit_fragment w begin left fragment_length =
      emit_physical_record w (record_type begin (length left == fragment_length))
        (take fragment_length left)

  -- `none` is no behaviour of the source: the rounds did not suffice.
  unfoldable pub add_loop : ℕ → LogWriter → Bool → List ℕ → Option LogWriter
  add_loop zero w begin left = none
  add_loop (suc fuel) w begin left =
      let w = switch_block w in
      let avail = block_size - w.block_offset - header_size in
      let fragment_length = if ltb (length left) avail then length left else avail in
      let w = emit_fragment w begin left fragment_length in
      elim (length left - fragment_length) [
        | zero ↦ some w
        | suc more ↦ add_loop fuel w false (drop fragment_length left)
      ]

  -- A round takes a byte, but for one that finds room for a header alone; the next one does.
  unfoldable pub add_record : LogWriter → List ℕ → Option LogWriter
  add_record w slice = add_loop (2 * length slice + 2) w true slice

  -- Calls of AddRecord, one after the other.
  unfoldable pub add_records : LogWriter → List (List ℕ) → Option LogWriter
  add_records w [] = some w
  add_records w (slice ∷ slices) = add_record w slice >>= λ (w' : LogWriter). add_records w' slices
