-- ===== src/Db/SkipList/Search.antt =====
-- The search finds the last node of every level that the key is after.
use mathlib.Core.Path.{subst}
use level_db.Common.{
  ℕ, zero, suc, ◌+◌, ◌-◌, ◌≤◌, ◌<◌, List, [], ◌∷◌, ◌++◌, length, All, ◌==◌, Option, none, some, ◌≡◌,
  refl, sym, ap, ◌∙◌, arith, append-nil, append_assoc, append_regroup, length-append, Bool-cases,
  inl, inr, ==_iff,
}
use level_db.Db.SkipList.{search_loop, store}
use level_db.Db.SkipList.Levels.{
  level, last_or, Linked, level-append, level_high, level-All, level_first, last_or-append,
  Linked-suffix,
}

-- What a search sees: the nodes `ahead` that it passes, and those `behind` that stop it.
pub record Searched (next : ℕ → ℕ → Option ℕ) (height : ℕ → ℕ) (forward : ℕ → ℕ → Option ℕ)
    (top : ℕ) (ahead behind : List ℕ) : Type 0 where
  pub linked : (i : ℕ) → i < top → Linked next i 0 (level height i (ahead ++ behind))
  pub stops : (x i : ℕ) → next x i ≡ none → forward x i ≡ none
  pub passes : All (λ n. (x i : ℕ) → next x i ≡ some n → forward x i ≡ some n) ahead
  pub blocks : All (λ n. (x i : ℕ) → next x i ≡ some n → forward x i ≡ none) behind

module _ (next : ℕ → ℕ → Option ℕ) (height : ℕ → ℕ) (forward : ℕ → ℕ → Option ℕ) (top : ℕ)
    (ahead behind : List ℕ) where
  module _ (fuel : ℕ) where
    loop_goes_on :
        (i x q : ℕ) (prev : ℕ → ℕ)
        → forward x i ≡ some q
        → search_loop forward (suc fuel) x i prev ≡ search_loop forward fuel q i prev
    unfolding search_loop
    loop_goes_on i x q prev e = rw (e, search_loop) refl

    loop_ends :
        (x : ℕ) (prev : ℕ → ℕ)
        → forward x 0 ≡ none
        → search_loop forward (suc fuel) x 0 prev ≡ some (x, store prev 0 x)
    unfolding search_loop
    loop_ends x prev e = rw (e, search_loop) refl

    loop_goes_down :
        (i x : ℕ) (prev : ℕ → ℕ)
        → forward x (suc i) ≡ none
        → search_loop forward (suc fuel) x (suc i) prev
          ≡ search_loop forward fuel x i (store prev (suc i) x)
    unfolding search_loop
    loop_goes_down i x prev e = rw (e, search_loop) refl

  module _ (h : Searched next height forward top ahead behind) where
    -- The last node at the level i among the nodes passed.
    abbrev pub last_at : List ℕ → ℕ → ℕ
    last_at passed i = last_or 0 (level height i passed)

    here_on :
        (passed left : List ℕ) (i : ℕ)
        → ahead ≡ passed ++ left
        → i < top
        → Linked next i (last_at passed i) (level height i left ++ level height i behind)
    here_on passed left i e hi = Linked-suffix next i 0 (level height i passed) _ (
        subst (λ (ns : List ℕ). Linked next i 0 ns)
          (level-append height i ahead behind
            ∙ ap (λ (ns : List ℕ). level height i ns ++ level height i behind) e
            ∙ ap (λ (ns : List ℕ). ns ++ level height i behind) (level-append height i passed left)
            ∙ append_assoc (level height i passed) (level height i left) (level height i behind))
          (h.linked i hi))

    stopped :
        (x i : ℕ) (ns : List ℕ)
        → All (λ n. (x i : ℕ) → next x i ≡ some n → forward x i ≡ none) ns
        → Linked next i x ns
        → forward x i ≡ none
    stopped x i [] b l = h.stops x i l
    stopped x i (n ∷ ns) (b, bs) (e, l) = b x i e

    -- At a level whose part of the rest is empty, the search stops.
    stops_at :
        (passed left : List ℕ) (i x : ℕ)
        → ahead ≡ passed ++ left
        → i < top
        → last_at passed i ≡ x
        → level height i left ≡ []
        → (forward x i ≡ none) × (last_at ahead i ≡ x)
    stops_at passed left i x e hi at empty = (
      stopped x i (level height i behind) (level-All height i _ behind h.blocks) linked,
      ap (last_or 0) (
            ap (level height i) e
            ∙ level-append height i passed left
            ∙ ap (◌++◌ (level height i passed)) empty
            ∙ append-nil (level height i passed))
          ∙ at,
    )
      where
        linked : Linked next i x (level height i behind)
        linked =
            subst (λ (y : ℕ). Linked next i y (level height i behind)) at
              (subst
                (λ (ns : List ℕ). Linked next i (last_at passed i) (ns ++ level height i behind))
                empty (here_on passed left i e hi))

    All-suffix : (P : ℕ → Type 0) (xs ys : List ℕ) → All P (xs ++ ys) → All P ys
    All-suffix P [] ys ps = ps
    All-suffix P (x ∷ xs) ys (p, ps) = All-suffix P xs ys ps

    All-middle : (P : ℕ → Type 0) (xs : List ℕ) (y : ℕ) (ys : List ℕ) → All P (xs ++ (y ∷ ys)) → P y
    All-middle P [] y ys (p, ps) = p
    All-middle P (x ∷ xs) y ys (p, ps) = All-middle P xs y ys ps

    goes_on :
        (passed before left : List ℕ) (i x q : ℕ)
        → ahead ≡ passed ++ (before ++ (q ∷ left))
        → i < top
        → last_at passed i ≡ x
        → level height i before ≡ []
        → i < height q
        → (forward x i ≡ some q)
          × ((j : ℕ) → j ≤ i → last_at (passed ++ (before ++ (q ∷ []))) j ≡ q)
    goes_on passed before left i x q e hi at low high = (
      All-middle _ before q left
          (All-suffix _ passed _
            (subst (All (λ n. (x i : ℕ) → next x i ≡ some n → forward x i ≡ some n)) e h.passes))
          x i linked.0,
      λ j hj.
          ap (last_or 0) (level-append height j passed _)
          ∙ last_or-append 0 (level height j passed) _
          ∙ ap (last_or (last_at passed j)) (
              level-append height j before (q ∷ [])
              ∙ ap (◌++◌ (level height j before)) (level_high height j q (omega arith)))
          ∙ last_or-append (last_at passed j) (level height j before) (q ∷ []),
    )
      where
        of_level : level height i (before ++ (q ∷ left)) ≡ q ∷ level height i left
        of_level =
            level-append height i before (q ∷ left)
            ∙ ap (λ (ns : List ℕ). ns ++ level height i (q ∷ left)) low
            ∙ level-append height i (q ∷ []) left
            ∙ ap (λ (ns : List ℕ). ns ++ level height i left) (level_high height i q high)

        linked : Linked next i x ((q ∷ level height i left) ++ level height i behind)
        linked =
            subst (λ (y : ℕ). Linked next i y ((q ∷ level height i left) ++ level height i behind))
              at
              (subst
                (λ (ns : List ℕ). Linked next i (last_at passed i) (ns ++ level height i behind))
                of_level (here_on passed (before ++ (q ∷ left)) i e hi))

    -- The result of the loop: the last nodes passed, at every level.
    abbrev pub Found : Option (ℕ × (ℕ → ℕ)) → Type 0
    Found result =
        (prev : ℕ → ℕ) × (result ≡ some (last_at ahead 0, prev))
        × ((j : ℕ) → j < top → prev j ≡ last_at ahead j)

    -- The levels above i are done.
    abbrev Done : ℕ → (ℕ → ℕ) → Type 0
    Done i prev = (j : ℕ) → i < j → j < top → prev j ≡ last_at ahead j

    Done-store :
        (i x : ℕ) (prev : ℕ → ℕ)
        → last_at ahead i ≡ x
        → Done i prev
        → (j : ℕ) → i ≤ j
        → j < top
        → store prev i x j ≡ last_at ahead j
    Done-store i x prev last done j hij hj = elim (Bool-cases (j == i)) [
      | inl same ↦ rw same (sym last ∙ ap (last_at ahead) (sym ((==_iff j i).0 same)))
      | inr other ↦ rw other (done j (ground arith) hj)
    ]

    -- What the search does from here on with this fuel.
    abbrev Searches : ℕ → Type 0
    Searches fuel =
        (i x : ℕ) (prev : ℕ → ℕ) (passed left : List ℕ)
        → ahead ≡ passed ++ left
        → i < top
        → ((j : ℕ) → j ≤ i → last_at passed j ≡ x)
        → Done i prev
        → length left + i < fuel
        → Found (search_loop forward fuel x i prev)

    go_down :
        (fuel i x : ℕ) (prev : ℕ → ℕ) (passed left : List ℕ)
        → ahead ≡ passed ++ left
        → i < top
        → ((j : ℕ) → j ≤ i → last_at passed j ≡ x)
        → Done i prev
        → length left + i < suc fuel
        → level height i left ≡ []
        → Searches fuel
        → Found (search_loop forward (suc fuel) x i prev)
    go_down fuel zero x prev passed left e hi at done h empty again =
        let (none_left, last) = stops_at passed left 0 x e hi (at 0 (omega arith)) empty in
        (
          store prev 0 x,
          loop_ends fuel x prev none_left ∙ ap (λ (y : ℕ). some (y, store prev 0 x)) (sym last),
          λ j hj. Done-store 0 x prev last done j (omega arith) hj,
        )
    go_down fuel (suc i) x prev passed left e hi at done h empty again =
        let (none_left, last) =
          stops_at passed left (suc i) x e hi (at (suc i) (omega arith)) empty in
        let (prev', result, all) =
          again i x (store prev (suc i) x) passed left e (omega arith) (λ j hj. at j (omega arith))
            (λ j hij hj. Done-store (suc i) x prev last done j (omega arith) hj) (omega arith) in
        (prev', loop_goes_down fuel i x prev none_left ∙ result, all)

    search_loop-Found : (fuel : ℕ) → Searches fuel
    search_loop-Found zero i x prev passed left e hi at done h = absurd (omega arith)
    search_loop-Found (suc fuel) i x prev passed left e hi at done h =
        go (level height i left) refl (search_loop-Found fuel)
      where
        go :
            (ns : List ℕ)
            → level height i left ≡ ns
            → Searches fuel
            → Found (search_loop forward (suc fuel) x i prev)
        go [] empty again = go_down fuel i x prev passed left e hi at done h empty again
        go (q ∷ ns) some_left again =
            let (before, left', split, low, high) = level_first height i left q ns some_left in
            let e' = e ∙ ap (◌++◌ passed) split in
            let (step, at') =
              goes_on passed before left' i x q e' hi (at i (omega arith)) low high in
            let measure = ap length split ∙ length-append before (q ∷ left') in
            let (prev', result, all) =
              again i q prev (passed ++ (before ++ (q ∷ []))) left'
                (e' ∙ sym (append_regroup passed before (q ∷ []) left')) hi at' done
                (omega arith) in
            (prev', loop_goes_on fuel i x q prev step ∙ result, all)

    -- The search of the source, from the head and the highest level.
    pub search-Found :
        (fuel : ℕ)
        → 0 < top
        → length ahead + top ≤ fuel
        → Found (search_loop forward fuel 0 (top - 1) (λ i. 0))
    search-Found fuel positive enough =
        search_loop-Found fuel (top - 1) 0 (λ i. 0) [] ahead refl (omega arith) (λ j hj. refl)
          (λ j h1 h2. absurd (omega arith)) (omega arith)
