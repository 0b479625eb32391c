-- ===== src/Db/Compaction/Unchanged.antt =====
-- The reads of a user key over the entries that a compaction keeps.
use Prim.Native.Nat.{Ordering, lt, eq, gt}
use mathlib.Core.Path.{subst}
use level_db.Common.{
  ℕ, ◌≤◌, ◌<◌, true, false, List, [], ◌∷◌, All, leb, Option, none, some, ◌≡◌, ◌≢◌, ◌⊎◌, inl, inr,
  refl, sym, ap, ◌∙◌, arith, Bool-cases, le→leb,
}
use level_db.Util.Comparator.{Comparator, IsOrder}
use level_db.Util.Comparator.Facts.{compare_congr_left, compare_congr_right}
use level_db.Db.Format.{deletion, max_sequence_number}
use level_db.Db.VersionEdit.{FileMetaData}
use level_db.Db.Batch.{Add}
use level_db.Db.MemTable.Entries.{parsed}
use level_db.Db.Compaction.{DropState, at_key, decide_parsed, is_first_occurrence}
use level_db.Db.Compaction.Base.{IsDisjoint, NoFile, base-IsDisjoint, base-passed, base-NoFile}
use level_db.Db.Compaction.Reads.{
  keep, sees, contents, read, Behind, Runs, None, read-skip, read-None, keep-None, at_key-AtKey,
  at_same_key, at_key-level_files, decide-current, decide-last, decide-files, decide-hidden,
  decide-marker,
}

Ordering-cases : (o : Ordering) → (o ≡ lt) ⊎ ((o ≡ eq) ⊎ (o ≡ gt))
Ordering-cases lt = inl refl
Ordering-cases eq = inr (inl refl)
Ordering-cases gt = inr (inr refl)

same_some : {a b : List ℕ} → some a ≡ some b → a ≡ b
same_some h = cc

other_lt : (o : Ordering) → o ≡ lt → o ≢ eq
other_lt o h g = cc

other_gt : (o : Ordering) → o ≡ gt → o ≢ eq
other_gt o h g = cc

not_gt : (o : Ordering) → o ≡ lt → o ≢ gt
not_gt o h g = cc

module _ (c : Comparator) (smallest : ℕ) (u : List ℕ) (s : ℕ) (below : Option (List ℕ))
    (ord : IsOrder c) (recent : smallest ≤ s) (bounded : smallest < max_sequence_number) where
  abbrev step : DropState → Add → DropState
  step st e = (decide_parsed c smallest st (parsed e)).1

  -- The state has met an entry of u that a reader at any snapshot in use sees.
  abbrev Covers : DropState → Type 0
  Covers st =
      (k : List ℕ) × (st.current_user_key ≡ some k)
      × (c.compare k u ≡ eq)
      × (st.last_sequence_for_key ≤ smallest)

  abbrev pub Open : DropState → Type 0
  Open st =
      (k : List ℕ)
      → st.current_user_key ≡ some k
      → c.compare k u ≡ eq
      → smallest < st.last_sequence_for_key

  -- Behind an entry whose key is not below u and not u, there is no u.
  None-above :
      (e : Add) (es : List Add)
      → c.compare e.key u ≡ gt
      → Behind c u s below e.key e.sequence es
      → None c u s below es
  None-above e [] h b = tt
  None-above e (x ∷ es) h ((p, q), b) =
      (λ same. p (compare_congr_right c ord x.key u e.key same ∙ h), None-above e es h b)

  Covers-step :
      (st : DropState) (e : Add)
      → c.compare e.key u ≡ eq
      → e.sequence ≤ smallest
      → Covers (step st e)
  Covers-step st e same old =
      let (k, current, alike, last) = at_key-AtKey c smallest ord st e.key in
      (
        k,
        decide-current c smallest st (parsed e) ∙ current,
        sym (compare_congr_left c ord e.key k u alike) ∙ same,
        subst (λ n. n ≤ smallest) (sym (decide-last c smallest st (parsed e))) old,
      )

  Open-step :
      (st : DropState) (e : Add)
      → (c.compare e.key u ≡ eq → smallest < e.sequence)
      → Open (step st e)
  Open-step st e new k current same =
      let (k', current', alike, last) = at_key-AtKey c smallest ord st e.key in
      let same_k : k' ≡ k =
        same_some (sym (decide-current c smallest st (parsed e) ∙ current') ∙ current) in
      subst (λ n. smallest < n) (sym (decide-last c smallest st (parsed e)))
        (new (
          compare_congr_left c ord e.key k' u alike
          ∙ ap (λ (y : List ℕ). c.compare y u) same_k
          ∙ same))

  hidden :
      (st : DropState) (e : Add)
      → Covers st
      → c.compare e.key u ≡ eq
      → (decide_parsed c smallest st (parsed e)).0 ≡ true
  unfolding is_first_occurrence
  hidden st e (k, current, same, old) at_u =
      let alike : c.compare e.key k ≡ eq = compare_congr_right c ord k u e.key same ∙ at_u in
      let unchanged : at_key c st e.key ≡ st = at_same_key c smallest ord st e.key (
        ap (λ (o : Option (List ℕ)). is_first_occurrence c o e.key) current
        ∙ ground (arith, alike)) in
      decide-hidden c smallest st (parsed e)
        (subst (λ (n : ℕ). n ≤ smallest) (sym (ap DropState.last_sequence_for_key unchanged)) old)

  -- Behind such an entry the kept ones hold nothing of u.
  Behind-same :
      (k k' : List ℕ) (q : ℕ) (es : List Add)
      → c.compare k k' ≡ eq
      → Behind c u s below k q es
      → Behind c u s below k' q es
  Behind-same k k' q [] h b = tt
  Behind-same k k' q (x ∷ es) h ((p, r), b) =
      let alike = compare_congr_left c ord k k' x.key h in
      ((λ g. p (alike ∙ g), λ g. r (alike ∙ g)), Behind-same k k' q es h b)

  abbrev Hides : List Add → Type 0
  Hides es =
      (st : DropState)
      → Covers st
      → Behind c u s below u st.last_sequence_for_key es
      → Runs c u s below es
      → read c u s below (keep c smallest st es) ≡ below

  keep-Covers : (es : List Add) → Hides es
  keep-Covers [] st covers b runs = refl
  keep-Covers (e ∷ es) st covers b (run, runs) =
      let (k, current, same, old) = covers in
      let ((not_below, older), rest) = b in
      elim (Ordering-cases (c.compare e.key u)) [
        | inl h ↦ absurd (not_below ground (arith, h, ord.compare_swap e.key u))
        | inr (inl h) ↦
            let seq_old : e.sequence ≤ smallest =
              omega (arith, older (ground (arith, h, ord.compare_swap e.key u))) in
            rw (hidden st e covers h) (
              keep-Covers es (step st e) (Covers-step st e h seq_old)
                (subst (λ n. Behind c u s below u n es) (sym (decide-last c smallest st (parsed e)))
                  (Behind-same e.key u e.sequence es h run))
                runs)
        | inr (inr h) ↦
            read-skip c u s below e (decide_parsed c smallest st (parsed e)).0 _ (λ g. absurd cc)
            ∙ keep-None c smallest u s below es _ (None-above e es h run)
      ]

  -- While keys up to u may come, the files left out hold nothing of u.
  module _ (levels : List (List FileMetaData)) where
    pub record Watches (st : DropState) : Type 0 where
      pub disjoint : All (IsDisjoint c) st.level_files
      pub covered : NoFile c u st.level_files → NoFile c u levels

    at_key-Watches : (st : DropState) (key : List ℕ) → Watches st → Watches (at_key c st key)
    at_key-Watches st key w =
        let e = at_key-level_files c smallest ord st key in
        record {
          disjoint = subst (All (IsDisjoint c)) (sym e) w.disjoint;
          covered = λ h. w.covered (subst (NoFile c u) e h);
        }

    Watches-step :
        (st : DropState) (e : Add) → c.compare e.key u ≢ gt → Watches st → Watches (step st e)
    Watches-step st e h w =
        let w' = at_key-Watches st e.key w in
        let files = (at_key c st e.key).level_files in
        elim (decide-files c smallest st (parsed e)) [
          | inl q ↦ record {
            disjoint = subst (All (IsDisjoint c)) (sym q) w'.disjoint;
            covered = λ g. w'.covered (subst (NoFile c u) q g);
          }
          | inr q ↦ record {
            disjoint =
                subst (All (IsDisjoint c)) (sym q)
                  (base-IsDisjoint c ord e.key u files w'.disjoint);
            covered = λ g. w'.covered (base-passed c ord e.key u files h (subst (NoFile c u) q g));
          }
        ]

    visible : (e : Add) → c.compare e.key u ≡ eq → sees c u s below e ≡ leb e.sequence s
    visible e h = ground (arith, h)

    marker_contents : (e : Add) → e.type ≡ deletion → contents c u s below e ≡ none
    marker_contents e h = ground (arith, h)

    not_after : (e : Add) → c.compare e.key u ≡ eq → c.compare e.key u ≢ gt
    not_after e h g = cc

    -- The last sequence number at a key of u in an open state.
    Open-last :
        (st : DropState) (e : Add)
        → Open st
        → c.compare e.key u ≡ eq
        → smallest < (at_key c st e.key).last_sequence_for_key
    Open-last st e open_st h =
        let (k, current, alike, last) = at_key-AtKey c smallest ord st e.key in
        elim last [
          | inl q ↦ subst (λ n. smallest < n) (sym q) bounded
          | inr (q, was) ↦
              subst (λ n. smallest < n) (sym q)
                (open_st k was (sym (compare_congr_left c ord e.key k u alike) ∙ h))
        ]

    module _ (nothing_below : NoFile c u levels → below ≡ none) where
      abbrev pub Same : List Add → Type 0
      Same es =
          (st : DropState)
          → Open st
          → Watches st
          → Runs c u s below es
          → read c u s below (keep c smallest st es) ≡ read c u s below es

      -- An entry of u.
      keep-own :
          (e : Add) (es : List Add)
          → Same es
          → (st : DropState) → Open st
          → Watches st
          → Runs c u s below (e ∷ es)
          → c.compare e.key u ≡ eq
          → read c u s below (keep c smallest st (e ∷ es)) ≡ read c u s below (e ∷ es)
      keep-own e es again st open_st w (run, runs) h =
          elim (Bool-cases (decide_parsed c smallest st (parsed e)).0) [
            | inl dropped ↦
                let (marker, old, base) =
                  decide-marker c smallest st (parsed e) (Open-last st e open_st h) dropped in
                let w' = at_key-Watches st e.key w in
                let nothing_left = nothing_below (
                  w'.covered (
                    base-NoFile c ord e.key u (at_key c st e.key).level_files w'.disjoint h
                      base)) in
                let seen : sees c u s below e ≡ true =
                  visible e h ∙ le→leb e.sequence s (omega arith) in
                rw (dropped, seen)
                  (keep-Covers es (step st e) (Covers-step st e h old)
                      (subst (λ n. Behind c u s below u n es)
                        (sym (decide-last c smallest st (parsed e)))
                        (Behind-same e.key u e.sequence es h run))
                      runs
                    ∙ nothing_left
                    ∙ sym (marker_contents e marker))
            | inr kept ↦ elim (Bool-cases (sees c u s below e)) [
              | inl seen ↦ rw (kept, seen) refl
              | inr unseen ↦
                  let newer : s < e.sequence = ground (arith, sym (visible e h) ∙ unseen) in
                  rw (kept, unseen)
                    (again (step st e) (Open-step st e (λ _. omega arith))
                      (Watches-step st e (not_after e h) w) runs)
            ]
          ]

      pub keep-Same : (es : List Add) → Same es
      keep-Same [] st open_st w runs = refl
      keep-Same (e ∷ es) st open_st w (run, runs) = elim (Ordering-cases (c.compare e.key u)) [
        | inr (inl h) ↦ keep-own e es (keep-Same es) st open_st w (run, runs) h
        | inl h ↦
            let other = other_lt (c.compare e.key u) h in
            read-skip c u s below e (decide_parsed c smallest st (parsed e)).0 _ other
            ∙ keep-Same es (step st e) (Open-step st e (λ g. absurd (other g)))
                (Watches-step st e (not_gt (c.compare e.key u) h) w) runs
            ∙ sym (read-skip c u s below e false es other)
        | inr (inr h) ↦
            let other = other_gt (c.compare e.key u) h in
            let rest = None-above e es h run in
            keep-None c smallest u s below (e ∷ es) st (other, rest)
            ∙ sym (read-None c u s below (e ∷ es) (other, rest))
      ]
