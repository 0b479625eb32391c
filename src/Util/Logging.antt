-- ===== src/Util/Logging.antt =====
-- util/logging.cpp: ConsumeDecimalNumber, which the names of files are parsed with.
pub mod Decimal
pub mod Print
use level_db.Common.{
  ℕ, ◌+◌, ◌-◌, ◌*◌, ◌/◌, ◌%◌, ◌^◌, Bool, List, [], ◌∷◌, ltb, leb, ◌==◌, ◌&&◌, ◌||◌, if◌then◌else◌,
  Option, none, some, ◌>>=◌,
}

abbrev pub max_uint64 : ℕ
max_uint64 = 2 ^ 64 - 1

-- '0' to '9'
abbrev pub is_digit : ℕ → Bool
is_digit c = leb 48 c && leb c 57

-- `v * 10 + delta` would not fit.
abbrev pub overflows : ℕ → ℕ → Bool
overflows v delta =
    ltb (max_uint64 / 10) v || ((v == max_uint64 / 10) && ltb (max_uint64 % 10) delta)

-- The loop: the value, the number of digits and what is left; `none` is the early return.
unfoldable pub consume_loop : ℕ → ℕ → List ℕ → Option (ℕ × ℕ × List ℕ)
consume_loop v digits [] = some (v, digits, [])
consume_loop v digits (c ∷ input) =
    let rest = consume_loop (v * 10 + (c - 48)) (digits + 1) input in
    if is_digit c
    then (if overflows v (c - 48) then none else rest)
    else some (v, digits, c ∷ input)

-- `none` where the source returns false.
unfoldable pub consume_decimal_number : List ℕ → Option (ℕ × List ℕ)
consume_decimal_number input = do
  (v, digits, rest) ← consume_loop 0 0 input
  if ltb 0 digits then some (v, rest) else none
