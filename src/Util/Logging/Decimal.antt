-- ===== src/Util/Logging/Decimal.antt =====
-- ConsumeDecimalNumber reads decimal numbers of 64 bits and refuses larger ones.
use level_db.Common.{
  ℕ, ◌+◌, ◌-◌, ◌*◌, ◌^◌, ◌<◌, ◌≤◌, true, false, List, [], ◌∷◌, ◌++◌, length, All, ltb,
  if◌then◌else◌, none, some, ◌≡◌, ◌⊎◌, inl, inr, refl, ap, ◌∙◌, arith,
}
use level_db.Util.Logging.{is_digit, overflows, consume_loop, consume_decimal_number}

abbrev pub IsDigit : ℕ → Type 0
IsDigit c = (48 ≤ c) × (c ≤ 57)

-- The value of a sequence of digits behind the value `v`.
abbrev pub decimal : ℕ → List ℕ → ℕ
decimal v [] = v
decimal v (d ∷ ds) = decimal (v * 10 + (d - 48)) ds

-- No digit comes first.
abbrev pub NoDigit : List ℕ → Type 0
NoDigit [] = Unit
NoDigit (c ∷ rest) = is_digit c ≡ false

decimal-ge : (v : ℕ) (ds : List ℕ) → v ≤ decimal v ds
decimal-ge v [] = omega arith
decimal-ge v (d ∷ ds) = omega (arith, decimal-ge (v * 10 + (d - 48)) ds)

digit_is : (c : ℕ) → IsDigit c → is_digit c ≡ true
digit_is c (lo, hi) = ground arith

fits : (v d : ℕ) → IsDigit d → v * 10 + (d - 48) < 2 ^ 64 → overflows v (d - 48) ≡ false
fits v d (lo, hi) h = ground arith

too_large : (v d : ℕ) → IsDigit d → 2 ^ 64 ≤ v * 10 + (d - 48) → overflows v (d - 48) ≡ true
too_large v d (lo, hi) h = ground arith

consume_loop_stop :
    (v n : ℕ) (rest : List ℕ) → NoDigit rest → consume_loop v n rest ≡ some (v, n, rest)
unfolding consume_loop
consume_loop_stop v n [] h = refl
consume_loop_stop v n (c ∷ rest) h = rw h

consume_loop_step :
    (v n c : ℕ) (input : List ℕ)
    → IsDigit c
    → consume_loop v n (c ∷ input)
      ≡ (if overflows v (c - 48) then none else consume_loop (v * 10 + (c - 48)) (n + 1) input)
unfolding consume_loop
consume_loop_step v n c input h = rw (digit_is c h)

pub consume_loop-fits :
    (ds rest : List ℕ) (v n : ℕ)
    → All IsDigit ds
    → NoDigit rest
    → decimal v ds < 2 ^ 64
    → consume_loop v n (ds ++ rest) ≡ some (decimal v ds, n + length ds, rest)
consume_loop-fits [] rest v n h hr lt =
    consume_loop_stop v n rest hr ∙ ap (λ (m : ℕ). some (v, m, rest)) (omega arith)
consume_loop-fits (d ∷ ds) rest v n (hd, h) hr lt =
    consume_loop_step v n d (ds ++ rest) hd
    ∙ rw (fits v d hd (omega (arith, decimal-ge (v * 10 + (d - 48)) ds))) (
        consume_loop-fits ds rest (v * 10 + (d - 48)) (n + 1) h hr lt
        ∙ ap (λ (m : ℕ). some (decimal (v * 10 + (d - 48)) ds, m, rest)) (omega arith))

lt_or_ge : (m n : ℕ) → (m < n) ⊎ (n ≤ m)
lt_or_ge m n = omega arith

consume_loop-overflows :
    (ds rest : List ℕ) (v n : ℕ)
    → All IsDigit ds
    → v < 2 ^ 64
    → 2 ^ 64 ≤ decimal v ds
    → consume_loop v n (ds ++ rest) ≡ none
consume_loop-overflows [] rest v n h hv ge = absurd (omega arith)
consume_loop-overflows (d ∷ ds) rest v n (hd, h) hv ge =
    consume_loop_step v n d (ds ++ rest) hd ∙ elim (lt_or_ge (v * 10 + (d - 48)) (2 ^ 64)) [
      | inl l ↦
          rw (fits v d hd l) (consume_loop-overflows ds rest (v * 10 + (d - 48)) (n + 1) h l ge)
      | inr g ↦ rw (too_large v d hd g)
    ]

-- On one or more digits with no digit behind them, ConsumeDecimalNumber returns their decimal
-- value and what follows them if the value is below 2^64, and fails otherwise.
pub consume_decimal_number-digits :
    (d : ℕ) (ds rest : List ℕ)
    → All IsDigit (d ∷ ds)
    → NoDigit rest
    → consume_decimal_number ((d ∷ ds) ++ rest)
      ≡ (if ltb (decimal 0 (d ∷ ds)) (2 ^ 64) then some (decimal 0 (d ∷ ds), rest) else none)
unfolding consume_decimal_number
consume_decimal_number-digits d ds rest h hr = elim (lt_or_ge (decimal 0 (d ∷ ds)) (2 ^ 64)) [
  | inl l ↦ rw (consume_loop-fits (d ∷ ds) rest 0 0 h hr l) (ground (arith, l))
  | inr g ↦ rw (consume_loop-overflows (d ∷ ds) rest 0 0 h (omega arith) g) (ground (arith, g))
]
