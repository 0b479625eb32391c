-- ===== src/Db/Compaction/Reads.antt =====
-- What a compaction drops changes no read at a snapshot that is still in use.
use Prim.Native.Nat.{Ordering, eq, gt}
use mathlib.Core.Path.{subst}
use level_db.Common.{
  ℕ, ◌≤◌, ◌<◌, Bool, true, false, List, [], ◌∷◌, All, leb, if◌then◌else◌, Option, none, some, ◌≡◌,
  ◌≢◌, ◌⊎◌, inl, inr, refl, ap, ◌∙◌, arith, Bool-cases, Option-cases,
}
use level_db.Util.Comparator.{Comparator, IsOrder}
use level_db.Db.Format.{ParsedInternalKey, value, deletion, max_sequence_number}
use level_db.Db.Batch.{Add}
use level_db.Db.MemTable.Entries.{parsed}
use level_db.Db.Compaction.{
  DropState, is_base_level_for_key, is_first_occurrence, at_key, decide_parsed,
}

module _ (c : Comparator) where
  -- A read at the user key u and the snapshot s, in the entries and then in what lies below them.
  module _ (u : List ℕ) (s : ℕ) (below : Option (List ℕ)) where
    abbrev pub sees : Add → Bool
    sees e = elim (c.compare e.key u) [ Ordering.eq ↦ leb e.sequence s | _ ↦ false ]

    abbrev pub contents : Add → Option (List ℕ)
    contents e = elim e.type [ value ↦ some e.value | deletion ↦ none ]

    abbrev pub read : List Add → Option (List ℕ)
    read [] = below
    read (e ∷ es) = let rest = read es in if sees e then contents e else rest

    -- The entries behind the user key k with the sequence number q.
    abbrev pub Behind : List ℕ → ℕ → List Add → Type 0
    Behind k q es =
        All (λ x. (c.compare k x.key ≢ gt) × (c.compare k x.key ≡ eq → x.sequence ≤ q)) es

    abbrev pub Runs : List Add → Type 0
    Runs [] = Unit
    Runs (e ∷ es) = Behind e.key e.sequence es × Runs es

    abbrev pub None : List Add → Type 0
    None es = All (λ x. c.compare x.key u ≢ eq) es

    pub blind : (e : Add) → c.compare e.key u ≢ eq → sees e ≡ false
    blind e h = ground (arith, h)

    pub read-skip :
        (e : Add) (b : Bool) (es : List Add)
        → c.compare e.key u ≢ eq
        → read (if b then es else e ∷ es) ≡ read es
    read-skip e true es h = refl
    read-skip e false es h = rw (blind e h) refl

    pub read-None : (es : List Add) → None es → read es ≡ below
    read-None [] h = refl
    read-None (e ∷ es) (h, hs) = rw (blind e h) (read-None es hs)

module _ (c : Comparator) (smallest : ℕ) where
  -- The loop on parsed entries.
  abbrev pub keep : DropState → List Add → List Add
  keep st [] = []
  keep st (e ∷ es) =
      let rest = keep (decide_parsed c smallest st (parsed e)).1 es in
      if (decide_parsed c smallest st (parsed e)).0 then rest else e ∷ rest

  module _ (u : List ℕ) (s : ℕ) (below : Option (List ℕ)) where
    pub keep-None :
        (es : List Add) (st : DropState)
        → None c u s below es
        → read c u s below (keep st es) ≡ below
    keep-None [] st h = refl
    keep-None (e ∷ es) st (h, hs) =
        read-skip c u s below e (decide_parsed c smallest st (parsed e)).0 _ h ∙ keep-None es _ hs

  -- The state at a key, and behind it.
  module _ (ord : IsOrder c) (st : DropState) (key : List ℕ) where
    abbrev pub AtKey : Type 0
    AtKey =
        (k : List ℕ) × ((at_key c st key).current_user_key ≡ some k)
        × (c.compare key k ≡ eq)
        × (((at_key c st key).last_sequence_for_key ≡ max_sequence_number)
            ⊎ (((at_key c st key).last_sequence_for_key ≡ st.last_sequence_for_key)
                × (st.current_user_key ≡ some k)))

    same_key : (k : List ℕ) → is_first_occurrence c (some k) key ≡ false → c.compare key k ≡ eq
    unfolding is_first_occurrence
    same_key k h = ground (arith, h)

    at_new_key :
        is_first_occurrence c st.current_user_key key ≡ true
        → at_key c st key
          ≡ record st { current_user_key = some key; last_sequence_for_key = max_sequence_number }
    unfolding at_key
    at_new_key h = rw h refl

    pub at_same_key : is_first_occurrence c st.current_user_key key ≡ false → at_key c st key ≡ st
    unfolding at_key
    at_same_key h = rw h refl

    not_new : (o : Option (List ℕ)) → o ≡ none → is_first_occurrence c o key ≢ false
    unfolding is_first_occurrence
    not_new none p h = cc
    not_new (some k) p h = absurd cc

    pub at_key-AtKey : AtKey
    at_key-AtKey = elim (Bool-cases (is_first_occurrence c st.current_user_key key)) [
      | inl h ↦
          let e = at_new_key h in
          (
            key,
            ap DropState.current_user_key e,
            ord.compare_self key,
            inl (ap DropState.last_sequence_for_key e),
          )
      | inr h ↦
          let e = at_same_key h in
          elim (Option-cases st.current_user_key) [
            | inl q ↦ absurd (not_new st.current_user_key q h)
            | inr (k, q) ↦ (
              k,
              ap DropState.current_user_key e ∙ q,
              same_key k (subst (λ (o : Option (List ℕ)). is_first_occurrence c o key ≡ false) q h),
              inr (ap DropState.last_sequence_for_key e, q),
            )
          ]
    ]

    pub at_key-level_files : (at_key c st key).level_files ≡ st.level_files
    at_key-level_files = elim (Bool-cases (is_first_occurrence c st.current_user_key key)) [
      | inl h ↦ ap DropState.level_files (at_new_key h)
      | inr h ↦ ap DropState.level_files (at_same_key h)
    ]

  -- The fields behind a decision.
  module _ (st : DropState) (p : ParsedInternalKey) where
    pub decide-current :
        (decide_parsed c smallest st p).1.current_user_key
        ≡ (at_key c st p.user_key).current_user_key
    unfolding decide_parsed
    decide-current = ground arith

    pub decide-last : (decide_parsed c smallest st p).1.last_sequence_for_key ≡ p.sequence
    unfolding decide_parsed
    decide-last = ground arith

    pub decide-files :
        ((decide_parsed c smallest st p).1.level_files ≡ (at_key c st p.user_key).level_files)
        ⊎ ((decide_parsed c smallest st p).1.level_files
            ≡ (is_base_level_for_key c (at_key c st p.user_key).level_files p.user_key).1)
    unfolding decide_parsed
    decide-files = ground arith

    pub decide-hidden :
        (at_key c st p.user_key).last_sequence_for_key ≤ smallest
        → (decide_parsed c smallest st p).0 ≡ true
    unfolding decide_parsed
    decide-hidden h = ground (arith, h)

    -- A key that is not hidden is dropped only as a marker with nothing below it.
    pub decide-marker :
        smallest < (at_key c st p.user_key).last_sequence_for_key
        → (decide_parsed c smallest st p).0 ≡ true
        → (p.type ≡ deletion)
          × (p.sequence ≤ smallest)
          × ((is_base_level_for_key c (at_key c st p.user_key).level_files p.user_key).0 ≡ true)
    unfolding decide_parsed
    decide-marker h d = ground (arith, h, d)
