-- ===== src/Db/SkipList/Insert.antt =====
-- What the pointers are after the loop of Insert.
use mathlib.Core.Path.{ap₂}
use level_db.Common.{
  ℕ, zero, suc, ◌+◌, ◌≤◌, ◌<◌, List, [], ◌∷◌, ◌++◌, All, ◌==◌, if◌then◌else◌, Option, some, ◌≡◌,
  ◌≢◌, ◌⊎◌, inl, inr, refl, sym, ap, ◌∙◌, arith, Bool-cases, ==_iff,
}
use level_db.Db.SkipList.{store_next, link}
use level_db.Db.SkipList.Levels.{last_or, Linked}

-- One round, at its own level and at the others.
module _ (next : ℕ → ℕ → Option ℕ) (i x : ℕ) (prev : ℕ → ℕ) where
  abbrev round : ℕ → ℕ → Option ℕ
  round = store_next (store_next next x i (next (prev i) i)) (prev i) i (some x)

  round_elsewhere : (p j : ℕ) → j ≢ i → round p j ≡ next p j
  round_elsewhere p j h = ground (arith, h)

  round_here :
      (p : ℕ)
      → prev i ≢ x
      → round p i ≡ (if p == prev i then some x else if p == x then next (prev i) i else next p i)
  round_here p h = ground (arith, h)

pub link_elsewhere :
    (n i x : ℕ) (prev : ℕ → ℕ) (next : ℕ → ℕ → Option ℕ) (p j : ℕ)
    → (j < i) ⊎ (i + n ≤ j)
    → link n i x prev next p j ≡ next p j
unfolding link
link_elsewhere zero i x prev next p j h = refl
link_elsewhere (suc n) i x prev next p j h =
    link_elsewhere n (suc i) x prev (round next i x prev) p j (ground (arith, h))
    ∙ round_elsewhere next i x prev p j (ground (arith, h))

-- The pointers of a level of the new node.
pub link_at :
    (n i x : ℕ) (prev : ℕ → ℕ) (next : ℕ → ℕ → Option ℕ) (p j : ℕ)
    → i ≤ j
    → j < i + n
    → prev j ≢ x
    → link n i x prev next p j
      ≡ (if p == prev j then some x else if p == x then next (prev j) j else next p j)
unfolding link
link_at zero i x prev next p j h h' fresh = absurd (omega arith)
link_at (suc n) i x prev next p j h h' fresh = elim (Bool-cases (j == i)) [
  | inl same ↦
      link_elsewhere n (suc i) x prev (round next i x prev) p j (inl (ground arith))
      ∙ ap (λ (m : ℕ). round next m x prev p j) (sym ((==_iff j i).0 same))
      ∙ round_here next j x prev p fresh
  | inr other ↦
      let apart : j ≢ i = ground arith in
      link_at n (suc i) x prev (round next i x prev) p j (ground arith) (omega arith) fresh
      ∙ ap₂ (λ (a b : Option ℕ). if p == prev j then some x else if p == x then a else b)
          (round_elsewhere next i x prev (prev j) j apart) (round_elsewhere next i x prev p j apart)
]

abbrev pub Distinct : List ℕ → Type 0
Distinct [] = Unit
Distinct (n ∷ ns) = All (λ m. n ≢ m) ns × Distinct ns

pub last_or-All : (P : ℕ → Type 0) (n : ℕ) (ns : List ℕ) → P n → All P ns → P (last_or n ns)
last_or-All P n [] p ps = p
last_or-All P n (m ∷ ns) p (q, ps) = last_or-All P m ns q ps

All-prefix : (P : ℕ → Type 0) (xs ys : List ℕ) → All P (xs ++ ys) → All P xs
All-prefix P [] ys ps = tt
All-prefix P (x ∷ xs) ys (p, ps) = (p, All-prefix P xs ys ps)

module _ (next next' : ℕ → ℕ → Option ℕ) (j : ℕ) where
  -- The same list from another node with the same pointer.
  pub Linked-same :
      (p q : ℕ) (ns : List ℕ)
      → next' q j ≡ next p j
      → All (λ n. next' n j ≡ next n j) ns
      → Linked next j p ns
      → Linked next' j q ns
  Linked-same p q [] e same l = e ∙ l
  Linked-same p q (n ∷ ns) e (e', same) (first, l) = (e ∙ first, Linked-same n n ns e' same l)

  -- A new node x behind the last of `xs`.
  pub Linked-insert :
      (x p : ℕ) (xs ys : List ℕ)
      → ((q : ℕ)
          → next' q j ≡ (
              if q == last_or p xs
              then some x
              else if q == x
              then next (last_or p xs) j
              else next q j))
      → p ≢ x
      → All (λ n. n ≢ x) (xs ++ ys)
      → Distinct (p ∷ (xs ++ ys))
      → Linked next j p (xs ++ ys)
      → Linked next' j p (xs ++ (x ∷ ys))
  Linked-insert x p [] ys at fresh others (apart, distinct) l = (
    ground (arith, at p),
    Linked-same p x ys (ground (arith, at x, fresh)) (same ys others apart) l,
  )
    where
      same :
          (ns : List ℕ)
          → All (λ n. n ≢ x) ns
          → All (λ m. p ≢ m) ns
          → All (λ n. next' n j ≡ next n j) ns
      same [] hx hp = tt
      same (n ∷ ns) (x_n, hx) (p_n, hp) = (ground (arith, at n, x_n, p_n), same ns hx hp)
  Linked-insert x p (n ∷ xs) ys at fresh (x_n, others) ((p_n, apart), distinct) (first, l) = (
    ground (
      arith,
      at p,
      fresh,
      last_or-All (λ m. p ≢ m) n xs p_n (All-prefix (λ m. p ≢ m) xs ys apart),
      first,
    ),
    Linked-insert x n xs ys at x_n others distinct l,
  )
