-- ===== src/Db/Log/Tests.antt =====
-- Runs of the log writer, with a checksum that counts bytes.
use level_db.Common.{
  ℕ, ◌+◌, ◌%◌, ◌^◌, true, false, List, [], ◌∷◌, length, some, ◌≡◌, ◌≢◌, refl, arith,
}
use level_db.Db.Log.{LogWriter, new_writer, add_record, add_records}
use level_db.Db.Log.Reader.{
  LogReader, got, finished, out_of_fuel, new_reader, read_record, read_all,
}
use level_db.Db.Log.Reader.Total.{read_record-Total}
use level_db.Db.Log.RoundTrip.{read_all-add_records}
use level_db.Db.Log.Writer.{IsWriter, add_record-IsWriter}

abbrev count_bytes : ℕ → List ℕ → ℕ
count_bytes crc bytes = crc + length bytes

add_record-IsWriter_example :
    (w' : LogWriter) × ((add_record count_bytes new_writer (97 ∷ 98 ∷ []) ≡ some w') × IsWriter w')
add_record-IsWriter_example =
    add_record-IsWriter count_bytes new_writer (97 ∷ 98 ∷ []) (omega arith, refl)

-- The sum of the bytes, modulo 2^32.
abbrev sum_bytes : List ℕ → ℕ
sum_bytes [] = 0
sum_bytes (b ∷ bytes) = b + sum_bytes bytes

abbrev sum32 : ℕ → List ℕ → ℕ
sum32 crc bytes = (crc + sum_bytes bytes) % 2 ^ 32

abbrev two_slices : List (List ℕ)
two_slices = (97 ∷ 98 ∷ []) ∷ (99 ∷ []) ∷ []

read_all-add_records_example :
    (w : LogWriter) × (r : LogReader) × (add_records sum32 new_writer two_slices ≡ some w)
    × (read_all sum32 3 (new_reader w.dest false 0 17 4)
        ≡ (r, got (97 ∷ 98 ∷ []) ∷ got (99 ∷ []) ∷ finished ∷ []))
    × (r.drops ≡ [])
read_all-add_records_example = read_all-add_records sum32 two_slices 17 4

-- A file that ends in the middle of a header.
read_record-Total_example : (read_record sum32 (new_reader (1 ∷ 2 ∷ []) true 0 0 0)).1 ≢ out_of_fuel
read_record-Total_example = read_record-Total sum32 (new_reader (1 ∷ 2 ∷ []) true 0 0 0)
