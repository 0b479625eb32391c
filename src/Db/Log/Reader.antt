-- ===== src/Db/Log/Reader.antt =====
-- db/log_reader.cpp: the reader of the log. `file_` is what is left of the file: a read takes as
-- many bytes as are asked for, or all that are left, and neither Read nor Skip fails.
pub mod Physical
pub mod Records
pub mod Total
use Prim.Native.Nat.{bit_or}
use Prim.Native.String.{String}
use level_db.Common.{
  ℕ, zero, suc, ◌+◌, ◌-◌, ◌*◌, ◌/◌, ◌%◌, ◌^◌, Bool, true, false, not, ◌&&◌, List, [], ◌∷◌, ◌++◌,
  length, take, drop, get_or, ltb, leb, ◌==◌, if◌then◌else◌, Option, none, some,
}
use level_db.Util.Coding.{u64_mod, decode_fixed32}
use level_db.Util.Hash.{signed_char}
use level_db.Util.Crc32c.{unmask}
use level_db.Db.Log.{block_size, header_size}

-- `drops` are the calls of the reporter.
pub record LogReader : Type 0 where
  pub file : List ℕ
  pub checksum : Bool
  pub buffer : List ℕ
  pub eof : Bool
  pub last_record_offset : ℕ
  pub end_of_buffer_offset : ℕ
  pub initial_offset : ℕ
  pub drops : List (ℕ × String)

-- The constructor sets neither `last_record_offset_` nor `end_of_buffer_offset_`: they are any
-- numbers, `stale_record` and `stale_end`.
abbrev pub new_reader : List ℕ → Bool → ℕ → ℕ → ℕ → LogReader
new_reader file checksum initial_offset stale_record stale_end = record {
  file = file;
  checksum = checksum;
  buffer = [];
  eof = false;
  last_record_offset = stale_record;
  end_of_buffer_offset = stale_end;
  initial_offset = initial_offset;
  drops = [];
}

-- The return values of ReadPhysicalRecord beside the types of records.
abbrev pub eof_code : ℕ
eof_code = 5

abbrev pub bad_record : ℕ
bad_record = 6

-- Subtraction of uint64.
abbrev pub sub_u64 : ℕ → ℕ → ℕ
sub_u64 a b = (a + (u64_mod - b % u64_mod)) % u64_mod

unfoldable pub report_corruption : LogReader → ℕ → String → LogReader
report_corruption r bytes reason =
    if leb r.initial_offset (sub_u64 (sub_u64 r.end_of_buffer_offset (length r.buffer)) bytes)
    then record r { drops = r.drops ++ ((bytes, reason) ∷ []) }
    else r

unfoldable pub skip_to_initial_block : LogReader → LogReader
skip_to_initial_block r =
    let offset_in_block = r.initial_offset % block_size in
    let block_start =
      r.initial_offset
      - offset_in_block
      + (if ltb (block_size - 6) offset_in_block then block_size else 0) in
    record r { end_of_buffer_offset = block_start; file = drop block_start r.file }

-- A read of the next block into the empty buffer.
unfoldable pub refill : LogReader → LogReader
refill r =
    let block = take block_size r.file in
    record r {
      buffer = block;
      file = drop block_size r.file;
      end_of_buffer_offset = (r.end_of_buffer_offset + length block) % u64_mod;
      eof = if ltb (length block) block_size then true else r.eof;
    }

unfoldable pub end_of_file : LogReader → LogReader × ℕ × List ℕ
end_of_file r =
    let dropped =
      report_corruption (record r { buffer = [] }) (length r.buffer)
        "truncated record at end of file" in
    (if length r.buffer == 0 then r else dropped, eof_code, [])

-- `header[4] & 0xff | (header[5] & 0xff) << 8`
abbrev pub length_field : List ℕ → ℕ
length_field header = bit_or (get_or header 4 0) (get_or header 5 0 * 2 ^ 8)

module _ (extend : ℕ → List ℕ → ℕ) where
  abbrev pub crc_matches : List ℕ → ℕ → Bool
  crc_matches header len =
      extend 0 (take (1 + len) (drop 6 header)) == unmask (decode_fixed32 header)

  -- The part of ReadPhysicalRecord behind the loop that fills the buffer.
  unfoldable pub parse_record : LogReader → LogReader × ℕ × List ℕ
  parse_record r =
      let len = length_field r.buffer in
      let type = signed_char (get_or r.buffer 6 0) in
      let cleared = record r { buffer = [] } in
      let rest = drop (header_size + len) r.buffer in
      if ltb (length r.buffer) (header_size + len)
      then (report_corruption cleared (length r.buffer) "bad record length", bad_record, [])
      else if (type == 0) && (len == 0)
      then (cleared, bad_record, [])
      else if r.checksum && not (crc_matches r.buffer len)
      then (report_corruption cleared (length r.buffer) "checksum mismatch", bad_record, [])
      else if ltb (sub_u64 (sub_u64 (sub_u64 r.end_of_buffer_offset (length rest)) header_size) len)
          r.initial_offset
      then (record r { buffer = rest }, bad_record, [])
      else (record r { buffer = rest }, type, take len (drop header_size r.buffer))

  -- The loop that fills the buffer; `none` is no behaviour of the source.
  unfoldable pub read_physical_loop : ℕ → LogReader → Option (LogReader × ℕ × List ℕ)
  read_physical_loop zero r = none
  read_physical_loop (suc fuel) r =
      let again = read_physical_loop fuel (refill r) in
      if ltb (length r.buffer) header_size
      then (if r.eof then some (end_of_file r) else again)
      else some (parse_record r)

  -- A full read leaves the bytes of a header in the buffer, and a short one sets `eof_`.
  unfoldable pub read_physical_record : LogReader → Option (LogReader × ℕ × List ℕ)
  read_physical_record r = read_physical_loop 2 r

-- What the switch of ReadRecord does: it returns, or goes on with `scratch`,
-- `in_fragmented_record` and `prospective_record_offset`.
pub data Step : Type 0 where
  returned : LogReader → Option (List ℕ) → Step
  continued : LogReader → List ℕ → Bool → ℕ → Step

abbrev pub is_empty : List ℕ → Bool
is_empty [] = true
is_empty (x ∷ xs) = false

abbrev pub report_partial : LogReader → List ℕ → Bool → String → LogReader
report_partial r scratch in_fragmented reason =
    if in_fragmented && not (is_empty scratch)
    then report_corruption r (length scratch) reason
    else r

-- The number in the message about an unknown type is left out.
unfoldable pub dispatch : LogReader → List ℕ → Bool → ℕ → ℕ → ℕ → List ℕ → Step
dispatch r scratch in_fragmented prospective offset type fragment =
    if type == 1
    then returned
        (record (report_partial r scratch in_fragmented "partial record without end(1)") {
          last_record_offset = offset;
        })
        (some fragment)
    else if type == 2
    then continued (report_partial r scratch in_fragmented "partial record without end(2)") fragment
        true offset
    else if type == 3
    then (if in_fragmented
        then continued r (scratch ++ fragment) true prospective
        else continued
            (report_corruption r (length fragment) "missing start of fragmented record(1)") scratch
            false prospective)
    else if type == 4
    then (if in_fragmented
        then returned (record r { last_record_offset = prospective }) (some (scratch ++ fragment))
        else continued
            (report_corruption r (length fragment) "missing start of fragmented record(2)") scratch
            false prospective)
    else if type == eof_code
    then returned
        (if in_fragmented
          then report_corruption r (length scratch) "partial record without end(3)"
          else r)
        none
    else if type == bad_record
    then (if in_fragmented
        then continued (report_corruption r (length scratch) "error in middle of record") [] false
            prospective
        else continued r scratch false prospective)
    else continued
        (report_corruption r (length fragment + (if in_fragmented then length scratch else 0))
          "unknown record type")
        [] false prospective

-- The result of ReadRecord. `out_of_fuel` is no behaviour of the source.
pub data Outcome : Type 0 where
  got : List ℕ → Outcome
  finished : Outcome
  out_of_fuel : Outcome

abbrev pub outcome : Option (List ℕ) → Outcome
outcome none = finished
outcome (some bytes) = got bytes

module _ (extend : ℕ → List ℕ → ℕ) where
  unfoldable pub read_loop : ℕ → LogReader → List ℕ → Bool → ℕ → LogReader × Outcome
  read_loop zero r scratch in_fragmented prospective = (r, out_of_fuel)
  read_loop (suc fuel) r scratch in_fragmented prospective =
      let offset = sub_u64 r.end_of_buffer_offset (length r.buffer) in
      elim (read_physical_record extend r) [
        | none ↦ (r, out_of_fuel)
        | some (r', type, fragment) ↦
            elim (dispatch r' scratch in_fragmented prospective offset type fragment) [
              | returned r'' bytes ↦ (r'', outcome bytes)
              | continued r'' scratch' in_fragmented' prospective' ↦
                  read_loop fuel r'' scratch' in_fragmented' prospective'
            ]
      ]

  -- Each round takes a byte of the buffer or the file, but for the last.
  unfoldable pub read_record : LogReader → LogReader × Outcome
  read_record r =
      let r = if ltb r.last_record_offset r.initial_offset then skip_to_initial_block r else r in
      read_loop (suc (length r.buffer + length r.file)) r [] false 0

  -- What n calls of ReadRecord return.
  unfoldable pub read_all : ℕ → LogReader → LogReader × List Outcome
  read_all zero r = (r, [])
  read_all (suc n) r =
      let (r1, result) = read_record r in
      let (r2, results) = read_all n r1 in (r2, result ∷ results)
