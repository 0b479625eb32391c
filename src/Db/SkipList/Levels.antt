-- ===== src/Db/SkipList/Levels.antt =====
-- A level of the skip list is the part of the nodes that is high enough, linked in order.
use level_db.Common.{
  ℕ, ◌<◌, List, [], ◌∷◌, ◌++◌, All, ltb, if◌then◌else◌, Option, none, some, ◌≡◌, refl, sym, ap, ◌∙◌,
  Bool-cases, inl, inr, ltb→lt, lt→ltb,
}

abbrev pub level : (ℕ → ℕ) → ℕ → List ℕ → List ℕ
level height i [] = []
level height i (n ∷ ns) =
    let rest = level height i ns in if ltb i (height n) then n ∷ rest else rest

abbrev pub last_or : ℕ → List ℕ → ℕ
last_or x [] = x
last_or x (n ∷ ns) = last_or n ns

-- The pointers of the level i lead from p through the list to NULL.
abbrev pub Linked : (ℕ → ℕ → Option ℕ) → ℕ → ℕ → List ℕ → Type 0
Linked next i p [] = next p i ≡ none
Linked next i p (n ∷ ns) = (next p i ≡ some n) × Linked next i n ns

module _ (height : ℕ → ℕ) (i : ℕ) where
  pub level-append :
      (xs ys : List ℕ) → level height i (xs ++ ys) ≡ level height i xs ++ level height i ys
  level-append [] ys = refl
  level-append (x ∷ xs) ys = elim (Bool-cases (ltb i (height x))) [
    | inl e ↦ rw e (ap (◌∷◌ x) (level-append xs ys))
    | inr e ↦ rw e (level-append xs ys)
  ]

  pub level_high : (n : ℕ) → i < height n → level height i (n ∷ []) ≡ n ∷ []
  level_high n h = rw (lt→ltb i (height n) h) refl

  pub level-All : (P : ℕ → Type 0) (ns : List ℕ) → All P ns → All P (level height i ns)
  level-All P [] h = tt
  level-All P (n ∷ ns) (p, h) = elim (Bool-cases (ltb i (height n))) [
    | inl e ↦ rw e (p, level-All P ns h)
    | inr e ↦ rw e (level-All P ns h)
  ]

  -- Where the first node of a level stands among all nodes.
  pub level_first :
      (ns : List ℕ) (q : ℕ) (rest : List ℕ)
      → level height i ns ≡ q ∷ rest
      → (before : List ℕ) × (behind : List ℕ) × (ns ≡ before ++ (q ∷ behind))
        × (level height i before ≡ [])
        × (i < height q)
  level_first [] q rest e = absurd cc
  level_first (n ∷ ns) q rest e = elim (Bool-cases (ltb i (height n))) [
    | inl high ↦
        let e' : n ∷ level height i ns ≡ q ∷ rest = rw high at e in
        let same : n ≡ q = cc in
        (
          [],
          ns,
          ap (λ (m : ℕ). m ∷ ns) same,
          refl,
          ltb→lt i (height q) (ap (λ (m : ℕ). ltb i (height m)) (sym same) ∙ high),
        )
    | inr low ↦
        let e' : level height i ns ≡ q ∷ rest = rw low at e in
        let (before, behind, split, none_high, high) = level_first ns q rest e' in
        (n ∷ before, behind, ap (◌∷◌ n) split, rw low none_high, high)
  ]

pub last_or-append : (x : ℕ) (xs ys : List ℕ) → last_or x (xs ++ ys) ≡ last_or (last_or x xs) ys
last_or-append x [] ys = refl
last_or-append x (y ∷ xs) ys = last_or-append y xs ys

module _ (next : ℕ → ℕ → Option ℕ) (i : ℕ) where
  pub Linked-suffix :
      (p : ℕ) (xs ys : List ℕ) → Linked next i p (xs ++ ys) → Linked next i (last_or p xs) ys
  Linked-suffix p [] ys h = h
  Linked-suffix p (x ∷ xs) ys (e, h) = Linked-suffix x xs ys h
