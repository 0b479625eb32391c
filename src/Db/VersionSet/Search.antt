-- ===== src/Db/VersionSet/Search.antt =====
-- FindFile: the binary search finds the first file that is not below the key.
use level_db.Common.{
  ℕ, zero, suc, ◌+◌, ◌/◌, ◌%◌, ◌^◌, ◌<◌, ◌≤◌, Bool, true, false, ◌≡◌, arith, ltb, ltb→lt,
  Bool-cases, inl, inr,
}
use native.Mathlib.Nat.{mod-eq_of_lt}
use level_db.Util.Coding.{u32_mod}
use level_db.Db.VersionSet.{find_loop}

-- All indices below `r` satisfy the test, and none from `r` to `n`.
abbrev pub Splits : (ℕ → Bool) → ℕ → ℕ → Type 0
Splits below n r =
    (r ≤ n) × ((j : ℕ) → j < r → below j ≡ true) × ((j : ℕ) → r ≤ j → j < n → below j ≡ false)

abbrev mid : ℕ → ℕ → ℕ
mid left right = (left + right) % u32_mod / 2

module _ (below : ℕ → Bool) (fuel left right : ℕ) where
  find_loop_end : ltb left right ≡ false → find_loop below (suc fuel) left right ≡ right
  unfolding find_loop
  find_loop_end p = rw (p, find_loop)

  find_loop_right :
      ltb left right ≡ true
      → below (mid left right) ≡ true
      → find_loop below (suc fuel) left right ≡ find_loop below fuel (mid left right + 1) right
  unfolding find_loop
  find_loop_right p q = rw (p, find_loop, q, find_loop)

  find_loop_left :
      ltb left right ≡ true
      → below (mid left right) ≡ false
      → find_loop below (suc fuel) left right ≡ find_loop below fuel left (mid left right)
  unfolding find_loop
  find_loop_left p q = rw (p, find_loop, q, find_loop)

mid_between :
    (left right : ℕ)
    → left < right
    → right < 2 ^ 31
    → (left ≤ mid left right) × (mid left right < right)
mid_between left right h hr =
    omega (arith, mod-eq_of_lt {n = left + right} {m = u32_mod} (omega arith))

module _ (below : ℕ → Bool) (n : ℕ) (small : n < 2 ^ 31)
    (downward : (i j : ℕ) → i ≤ j → j < n → below j ≡ true → below i ≡ true) where
  upward : (i j : ℕ) → i ≤ j → j < n → below i ≡ false → below j ≡ false
  upward i j h hj e = elim (Bool-cases (below j)) [
    | inl q ↦ absurd (ground (arith, e, downward i j h hj q))
    | inr q ↦ q
  ]

  pub find_loop-Splits :
      (fuel left right : ℕ)
      → left ≤ right
      → right ≤ left + fuel
      → right ≤ n
      → ((j : ℕ) → j < left → below j ≡ true)
      → ((j : ℕ) → right ≤ j → j < n → below j ≡ false)
      → Splits below n (find_loop below fuel left right)
  find_loop-Splits zero left right h hf hn lo hi =
      unfold find_loop in (hn, (λ j hj. lo j (omega arith)), hi)
  find_loop-Splits (suc fuel) left right h hf hn lo hi = elim (Bool-cases (ltb left right)) [
    | inr p ↦
        rw (find_loop_end below fuel left right p) (hn, (λ j hj. lo j (ground (arith, p))), hi)
    | inl p ↦
        let (above, under) = mid_between left right (ltb→lt left right p) (omega arith) in
        elim (Bool-cases (below (mid left right))) [
          | inl q ↦ rw (find_loop_right below fuel left right p q) (
              find_loop-Splits fuel (mid left right + 1) right (omega (arith, under))
                (omega (arith, above)) hn
                (λ j hj. downward j (mid left right) (omega arith) (omega (arith, under)) q) hi)
          | inr q ↦ rw (find_loop_left below fuel left right p q) (
              find_loop-Splits fuel left (mid left right) above (omega (arith, under))
                (omega (arith, under)) lo (λ j hj hn'. upward (mid left right) j hj hn' q))
        ]
  ]
