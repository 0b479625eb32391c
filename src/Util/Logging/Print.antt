-- ===== src/Util/Logging/Print.antt =====
-- The conversions %llu and %06llu of snprintf, behind which ConsumeDecimalNumber reads a number.
use level_db.Common.{
  ℕ, zero, suc, ◌+◌, ◌-◌, ◌/◌, ◌%◌, ◌^◌, ◌<◌, ◌≤◌, List, [], ◌∷◌, ◌++◌, length, replicate, All,
  All-concat, length-append, length-replicate, if◌then◌else◌, ◌==◌, some, ◌≡◌, inl, inr, refl, ap,
  ◌∙◌, arith, Bool-cases, ==_iff,
}
use level_db.Util.Logging.{consume_decimal_number}
use level_db.Util.Logging.Decimal.{IsDigit, NoDigit, decimal, consume_loop-fits}

-- The digits of a number in front of those printed before; the fuel bounds their number.
unfoldable pub print_loop : ℕ → ℕ → List ℕ → List ℕ
print_loop zero n acc = acc
print_loop (suc fuel) n acc =
    let rest = print_loop fuel (n / 10) ((48 + n % 10) ∷ acc) in
    if n / 10 == 0 then (48 + n % 10) ∷ acc else rest

-- %06llu: a uint64 has 20 digits at most.
unfoldable pub print_06 : ℕ → List ℕ
print_06 n = let digits = print_loop 20 n [] in replicate (6 - length digits) 48 ++ digits

print_loop-IsDigit :
    (fuel n : ℕ) (acc : List ℕ) → All IsDigit acc → All IsDigit (print_loop fuel n acc)
unfolding print_loop
print_loop-IsDigit zero n acc h = h
print_loop-IsDigit (suc fuel) n acc h =
    let here : All IsDigit ((48 + n % 10) ∷ acc) = ((omega arith, omega arith), h) in
    let there = print_loop-IsDigit fuel (n / 10) ((48 + n % 10) ∷ acc) here in
    ground (arith, here, there)

decimal-print_loop :
    (fuel n : ℕ) (acc : List ℕ) → n < 10 ^ fuel → decimal 0 (print_loop fuel n acc) ≡ decimal n acc
unfolding print_loop
decimal-print_loop zero n acc h = ap (λ (m : ℕ). decimal m acc) (omega arith)
decimal-print_loop (suc fuel) n acc h = elim (Bool-cases (n / 10 == 0)) [
  | inl e ↦ rw e (ap (λ (m : ℕ). decimal m acc) (omega (arith, (==_iff (n / 10) 0).0 e)))
  | inr e ↦ rw e (
      decimal-print_loop fuel (n / 10) ((48 + n % 10) ∷ acc) (omega arith)
      ∙ ap (λ (m : ℕ). decimal m acc) (omega arith))
]

decimal-zeros : (k : ℕ) (digits : List ℕ) → decimal 0 (replicate k 48 ++ digits) ≡ decimal 0 digits
decimal-zeros zero digits = refl
decimal-zeros (suc k) digits = decimal-zeros k digits

zeros-IsDigit : (k : ℕ) → All IsDigit (replicate k 48)
zeros-IsDigit zero = tt
zeros-IsDigit (suc k) = ((omega arith, omega arith), zeros-IsDigit k)

pub print_06-IsDigit : (n : ℕ) → All IsDigit (print_06 n)
unfolding print_06
print_06-IsDigit n =
    All-concat IsDigit (replicate (6 - length (print_loop 20 n [])) 48) (print_loop 20 n [])
      (zeros-IsDigit (6 - length (print_loop 20 n []))) (print_loop-IsDigit 20 n [] tt)

decimal-print_06 : (n : ℕ) → n < 2 ^ 64 → decimal 0 (print_06 n) ≡ n
unfolding print_06
decimal-print_06 n h =
    decimal-zeros (6 - length (print_loop 20 n [])) (print_loop 20 n [])
    ∙ decimal-print_loop 20 n [] (omega arith)

pub length-print_06 : (n : ℕ) → 6 ≤ length (print_06 n)
unfolding print_06
length-print_06 n =
    let digits = print_loop 20 n [] in
    omega (
      arith,
      length-append (replicate (6 - length digits) 48) digits,
      length-replicate {A = ℕ} (6 - length digits) 48,
    )

-- ConsumeDecimalNumber reads what %06llu prints, up to the first byte that is no digit.
pub consume_decimal_number-print_06 :
    (n : ℕ) (rest : List ℕ)
    → n < 2 ^ 64
    → NoDigit rest
    → consume_decimal_number (print_06 n ++ rest) ≡ some (n, rest)
unfolding consume_decimal_number
consume_decimal_number-print_06 n rest h hr =
    rw
      (consume_loop-fits (print_06 n) rest 0 0 (print_06-IsDigit n) hr
        (omega (arith, h, decimal-print_06 n h)))
      (rw (decimal-print_06 n h) (ground (arith, length-print_06 n)))
