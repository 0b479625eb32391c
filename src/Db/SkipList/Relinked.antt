-- ===== src/Db/SkipList/Relinked.antt =====
-- The levels of a skip list behind an insertion.
use Prim.Native.Nat.{Ordering}
use mathlib.Core.Path.{subst}
use level_db.Common.{
  ℕ, zero, suc, ◌+◌, ◌-◌, ◌≤◌, ◌<◌, List, [], ◌∷◌, ◌++◌, All, ltb, ◌==◌, if◌then◌else◌, Option,
  none, some, ◌≡◌, ◌≢◌, inl, inr, refl, sym, ap, ◌∙◌, arith, Bool-cases, ltb→lt,
}
use level_db.Db.SkipList.{SkipList, store, link, raise}
use level_db.Db.SkipList.Levels.{level, last_or, Linked, level-append, level_high, level-All}
use level_db.Db.SkipList.Insert.{
  Distinct, Linked-insert, Linked-same, link_at, link_elsewhere, last_or-All,
}
use level_db.Db.SkipList.Ordered.{level-same, All-parts, All-map}
use level_db.Db.SkipList.Set.{IsSkipList, level_top}

raise_below : (n i : ℕ) (prev : ℕ → ℕ) (j : ℕ) → j < i → raise n i prev j ≡ prev j
unfolding raise
raise_below zero i prev j h = refl
raise_below (suc n) i prev j h =
    raise_below n (suc i) (store prev i 0) j (omega arith) ∙ ground (arith, h)

raise_new : (n i : ℕ) (prev : ℕ → ℕ) (j : ℕ) → i ≤ j → j < i + n → raise n i prev j ≡ 0
unfolding raise
raise_new zero i prev j h h' = absurd (omega arith)
raise_new (suc n) i prev j h h' = elim (Bool-cases (j == i)) [
  | inl same ↦ raise_below n (suc i) (store prev i 0) j (ground arith) ∙ ground (arith, same)
  | inr other ↦ raise_new n (suc i) (store prev i 0) j (ground arith) (omega arith)
]

pub store_other {ℓ} : {A : Type ℓ} (f : ℕ → A) (i : ℕ) (a : A) (j : ℕ) → j ≢ i → store f i a j ≡ f j
store_other f i a j h = ground (arith, h)

pub store_same {ℓ} : {A : Type ℓ} (f : ℕ → A) (i : ℕ) (a : A) → store f i a i ≡ a
store_same f i a = ground arith

fresh_row : (next : ℕ → ℕ → Option ℕ) (x p j : ℕ) → p ≢ x → store next x (λ i. none) p j ≡ next p j
fresh_row next x p j h = ap (λ (row : ℕ → Option ℕ). row j) (store_other next x (λ i. none) p h)

fresh_pointers :
    (next : ℕ → ℕ → Option ℕ) (x u p j : ℕ)
    → u ≢ x
    → (if p == u
        then some x
        else if p == x
        then store next x (λ i. none) u j
        else store next x (λ i. none) p j)
      ≡ (if p == u then some x else if p == x then next u j else next p j)
fresh_pointers next x u p j h = elim (Bool-cases (p == x)) [
  | inl same ↦ rw (same, fresh_row next x u j h) refl
  | inr other ↦ rw other refl
]

module _ {K : Type 0} (compare : K → K → Ordering) where
  -- The pointers that Insert starts from: the last nodes before the key, at every new level.
  module _ (s : SkipList K) (ns ahead behind : List ℕ) (inv : IsSkipList compare s ns)
      (e : ns ≡ ahead ++ behind) (h : ℕ) (hh : h ≤ 12) (prev : ℕ → ℕ)
      (at : (j : ℕ) → j < s.max_height → prev j ≡ last_or 0 (level s.height j ahead)) where
    abbrev pub raised : ℕ → ℕ
    raised = raise (h - s.max_height) s.max_height prev

    pub addresses_parts :
        All (λ n. (0 < n) × (n < s.allocated)) ahead × All (λ n. (0 < n) × (n < s.allocated)) behind
    addresses_parts =
        All-parts _ ahead behind (subst (All (λ n. (0 < n) × (n < s.allocated))) e inv.addresses)

    pub heights_parts :
        All (λ n. (0 < s.height n) × (s.height n ≤ s.max_height)) ahead
        × All (λ n. (0 < s.height n) × (s.height n ≤ s.max_height)) behind
    heights_parts =
        All-parts _ ahead behind
          (subst (All (λ n. (0 < s.height n) × (s.height n ≤ s.max_height))) e inv.heights)

    raised_at : (j : ℕ) → j < h → raised j ≡ last_or 0 (level s.height j ahead)
    raised_at j hj = elim (Bool-cases (ltb j s.max_height)) [
      | inl old ↦ raise_below _ s.max_height prev j (ground arith) ∙ at j (ground arith)
      | inr new ↦
          raise_new _ s.max_height prev j (ground arith) (ground arith)
          ∙ sym (
              ap (last_or 0)
                (level_top compare s.height s.max_height j ahead (ground arith) heights_parts.0))
    ]

    raised_fresh : (j : ℕ) → j < h → raised j ≢ s.allocated
    raised_fresh j hj clash =
        let old =
          last_or-All (λ n. n < s.allocated) 0 (level s.height j ahead) (omega (arith, inv.counted))
            (level-All s.height j (λ n. n < s.allocated) ahead
              (All-map _ (λ n. n < s.allocated) ahead (λ n p. p.1) addresses_parts.0)) in
        let same = raised_at j hj in omega arith

    pub x_fresh : (n : ℕ) → n < s.allocated → n ≢ s.allocated
    x_fresh n hn clash = omega arith

    abbrev pub new_next : ℕ → ℕ → Option ℕ
    new_next = link h 0 s.allocated raised (store s.next s.allocated (λ i. none))

    new_next_low :
        (j : ℕ)
        → j < h
        → (p : ℕ)
        → new_next p j ≡ (
            if p == last_or 0 (level s.height j ahead)
            then some s.allocated
            else if p == s.allocated
            then s.next (last_or 0 (level s.height j ahead)) j
            else s.next p j)
    new_next_low j hj p =
        let u_fresh = raised_fresh j hj in
        link_at h 0 s.allocated raised (store s.next s.allocated (λ i. none)) p j (omega arith)
          (omega arith) u_fresh
        ∙ fresh_pointers s.next s.allocated (raised j) p j u_fresh
        ∙ ap
            (λ (u : ℕ).
              if p == u
              then some s.allocated
              else if p == s.allocated
              then s.next u j
              else s.next p j)
            (raised_at j hj)

    new_next_high : (j : ℕ) → h ≤ j → (p : ℕ) → p ≢ s.allocated → new_next p j ≡ s.next p j
    new_next_high j hj p fresh =
        link_elsewhere h 0 s.allocated raised (store s.next s.allocated (λ i. none)) p j
          (inr (omega arith))
        ∙ fresh_row s.next s.allocated p j fresh

    abbrev pub new_height : ℕ → ℕ
    new_height = store s.height s.allocated h

    pub same_heights :
        (l : List ℕ)
        → All (λ n. (0 < n) × (n < s.allocated)) l
        → All (λ n. new_height n ≡ s.height n) l
    same_heights l a =
        All-map _ (λ n. new_height n ≡ s.height n) l
          (λ n p. store_other s.height s.allocated h n (x_fresh n p.1)) a

    level-parts :
        (j : ℕ)
        → level new_height j (ahead ++ (s.allocated ∷ behind))
          ≡ level s.height j ahead
            ++ (level new_height j (s.allocated ∷ []) ++ level s.height j behind)
    level-parts j =
        level-append new_height j ahead (s.allocated ∷ behind)
        ∙ ap (λ (l : List ℕ). l ++ level new_height j (s.allocated ∷ behind))
            (level-same s.height new_height j ahead (same_heights ahead addresses_parts.0))
        ∙ ap (◌++◌ (level s.height j ahead)) (
            level-append new_height j (s.allocated ∷ []) behind
            ∙ ap (◌++◌ (level new_height j (s.allocated ∷ [])))
                (level-same s.height new_height j behind (same_heights behind addresses_parts.1)))

    level-Distinct : (j : ℕ) (l : List ℕ) → Distinct l → Distinct (level s.height j l)
    level-Distinct j [] d = tt
    level-Distinct j (n ∷ l) (apart, d) = elim (Bool-cases (ltb j (s.height n))) [
      | inl high ↦ rw high (level-All s.height j (λ m. n ≢ m) l apart, level-Distinct j l d)
      | inr low ↦ rw low (level-Distinct j l d)
    ]

    at_level : (j : ℕ) → level s.height j ns ≡ level s.height j ahead ++ level s.height j behind
    at_level j = ap (level s.height j) e ∙ level-append s.height j ahead behind

    parts_All :
        (P : ℕ → Type 0) (j : ℕ)
        → All P ns
        → All P (level s.height j ahead ++ level s.height j behind)
    parts_All P j h = subst (All P) (at_level j) (level-All s.height j P ns h)

    pub new-Linked :
        (j : ℕ)
        → j < 12
        → Linked new_next j 0 (level new_height j (ahead ++ (s.allocated ∷ behind)))
    new-Linked j hj =
        let x = s.allocated in
        let before : Linked s.next j 0 (level s.height j ahead ++ level s.height j behind) =
          subst (Linked s.next j 0) (at_level j) (inv.linked j hj) in
        let others : All (λ n. n ≢ x) (level s.height j ahead ++ level s.height j behind) =
          parts_All (λ n. n ≢ x) j
            (All-map _ (λ n. n ≢ x) ns (λ n p. x_fresh n p.1) inv.addresses) in
        let not_head : All (λ n. 0 ≢ n) (level s.height j ahead ++ level s.height j behind) =
          parts_All (λ n. 0 ≢ n) j
            (All-map _ (λ n. 0 ≢ n) ns (λ n p clash. omega (arith, p.0, clash)) inv.addresses) in
        let head_fresh = x_fresh 0 (omega (arith, inv.counted)) in
        elim (Bool-cases (ltb j h)) [
          | inl low ↦
              let alone : level new_height j (x ∷ []) ≡ x ∷ [] =
                level_high new_height j x (rw (store_same s.height x h) (ltb→lt j h low)) in
              subst (Linked new_next j 0)
                (sym (
                  level-parts j
                  ∙ ap (λ (l : List ℕ). level s.height j ahead ++ (l ++ level s.height j behind))
                      alone))
                (Linked-insert s.next new_next j x 0 (level s.height j ahead)
                  (level s.height j behind) (new_next_low j (ltb→lt j h low)) head_fresh others
                  (not_head, subst Distinct (at_level j) (level-Distinct j ns inv.distinct)) before)
          | inr high ↦
              let alone : level new_height j (x ∷ []) ≡ [] =
                rw (store_same s.height x h, high) refl in
              let keeps = λ (p : ℕ) (f : p ≢ x). new_next_high j (ground arith) p f in
              subst (Linked new_next j 0)
                (sym (
                  level-parts j
                  ∙ ap (λ (l : List ℕ). level s.height j ahead ++ (l ++ level s.height j behind))
                      alone))
                (Linked-same s.next new_next j 0 0 _ (keeps 0 head_fresh)
                  (All-map (λ n. n ≢ x) (λ n. new_next n j ≡ s.next n j) _ keeps others) before)
        ]
