-- ===== src/Db/MemTable/Lookups.antt =====
-- In the order of the memtable, the first entry from a lookup key on is the newest visible one.
use Prim.Native.Nat.{Ordering, lt, eq, gt}
use mathlib.Core.Path.{subst}
use level_db.Common.{
  ℕ, ◌≤◌, Bool, true, false, List, [], ◌∷◌, All, if◌then◌else◌, ◌≡◌, ◌≢◌, ◌⊎◌, inl, inr, refl, sym,
  arith, Bool-cases,
}
use level_db.Util.Slice.{is_lt}
use level_db.Util.Comparator.{Comparator, IsOrder}
use level_db.Util.Comparator.Facts.{compare_congr_left, compare_congr_right}
use level_db.Db.Format.{
  type_code, value, max_sequence_number, append_internal_key, internal_compare, break_tie,
  newest_first, lookup_key, lookup_internal_key, pack_sequence_and_type,
}
use level_db.Db.Format.Keys.{type_code-le}
use level_db.Db.Format.Order.{internal_compare-append}
use level_db.Db.Batch.{Add}
use level_db.Db.MemTable.{Answer, not_here}
use level_db.Db.MemTable.Entries.{Fits, parsed, internal_key, entry_compare, answer_of}

-- An entry is in a list of entries.
abbrev pub Among : Add → List Add → Type 0
Among e [] = ⊥
Among e (x ∷ es) = (e ≡ x) ⊎ Among e es

Ordering-cases : (o : Ordering) → (o ≡ lt) ⊎ ((o ≡ eq) ⊎ (o ≡ gt))
Ordering-cases lt = inl refl
Ordering-cases eq = inr (inl refl)
Ordering-cases gt = inr (inr refl)

clash : {o : Ordering} → o ≡ gt → ¬ (o ≡ eq)
clash p q = cc

module _ (c : Comparator) (u : List ℕ) (s : ℕ) where
  -- The entries that a reader of the user key u sees at the snapshot s.
  abbrev pub IsVisible : Add → Type 0
  IsVisible e = (c.compare e.key u ≡ eq) × (e.sequence ≤ s)

  -- What a lookup should answer.
  pub data Newest (es : List Add) (answer : Answer) : Type 0 where
    nothing : ((e : Add) → Among e es → ¬ IsVisible e) → answer ≡ not_here → Newest es answer
    newest :
        (e : Add)
        → Among e es
        → IsVisible e
        → ((x : Add) → Among x es → IsVisible x → x.sequence ≤ e.sequence)
        → answer ≡ answer_of c e
        → Newest es answer

  abbrev pub target : List ℕ
  target = lookup_internal_key (lookup_key u s)

  abbrev pub passes : Add → Bool
  passes e = is_lt (internal_compare c (internal_key e) target)

  -- The answer in an ascending list of entries.
  abbrev pub scan : List Add → Answer
  scan [] = not_here
  scan (e ∷ es) =
      let rest = scan es in
      if passes e
      then rest
      else (elim (c.compare e.key u) [ Ordering.eq ↦ answer_of c e | _ ↦ not_here ])

  abbrev pub Ascends : List Add → Type 0
  Ascends [] = Unit
  Ascends (e ∷ es) = All (λ x. entry_compare c e x ≡ lt) es × Ascends es

  module _ (ord : IsOrder c) (hs : s ≤ max_sequence_number) where
    target_parts :
        (e : Add)
        → Fits e
        → internal_compare c (internal_key e) target
          ≡ break_tie
              (c.compare e.key u)
              (break_tie (newest_first e.sequence s) (newest_first (type_code e.type) 1))
    unfolding lookup_internal_key lookup_key append_internal_key pack_sequence_and_type
    target_parts e fits =
        internal_compare-append c (parsed e) (record { user_key = u; sequence = s; type = value })
          fits.sequence_fits hs

    entry_parts :
        (a b : Add)
        → Fits a
        → Fits b
        → entry_compare c a b
          ≡ break_tie (c.compare a.key b.key) (
              break_tie
                (newest_first a.sequence b.sequence)
                (newest_first (type_code a.type) (type_code b.type)))
    entry_parts a b fa fb =
        internal_compare-append c (parsed a) (parsed b) fa.sequence_fits fb.sequence_fits

    passed : (e : Add) → Fits e → passes e ≡ true → ¬ IsVisible e
    passed e fits h (same, old) =
        ground (arith, h, same, old, target_parts e fits, type_code-le e.type)

    -- Behind an entry of the key, another entry of the key is older.
    pub older :
        (e x : Add)
        → Fits e
        → Fits x
        → c.compare e.key u ≡ eq
        → entry_compare c e x ≡ lt
        → IsVisible x
        → x.sequence ≤ e.sequence
    older e x fe fx same before (same', old) =
        let alike = compare_congr_left c ord e.key u x.key same in
        let swapped = ord.compare_swap x.key u in
        ground (arith, before, entry_parts e x fe fx, alike, swapped, same')

    beyond :
        (e x : Add)
        → Fits e
        → Fits x
        → c.compare e.key u ≡ gt
        → entry_compare c e x ≡ lt
        → ¬ IsVisible x
    beyond e x fe fx after before (same', old) =
        let alike = compare_congr_right c ord x.key u e.key same' in
        ground (arith, before, entry_parts e x fe fx, alike, after)

    Among-All : (P : Add → Type 0) (es : List Add) → All P es → (x : Add) → Among x es → P x
    Among-All P [] ps x h = absurd h
    Among-All P (e ∷ es) (p, ps) x (inl h) = subst P (sym h) p
    Among-All P (e ∷ es) (p, ps) x (inr h) = Among-All P es ps x h

    -- An entry that is not visible changes no answer.
    Newest-skip :
        (e : Add) (es : List Add) (answer : Answer)
        → ¬ IsVisible e
        → Newest es answer
        → Newest (e ∷ es) answer
    Newest-skip e es answer hidden (nothing none_visible h) =
        nothing
          (λ x i. elim i [
            | inl q ↦ subst (λ y. ¬ IsVisible y) (sym q) hidden
            | inr q ↦ none_visible x q
          ])
          h
    Newest-skip e es answer hidden (newest y y_in visible above h) =
        newest y (inr y_in) visible
          (λ x i v. elim i [ inl q ↦ absurd (hidden (subst IsVisible q v)) | inr q ↦ above x q v ])
          h

    stopped_visible :
        (e : Add) → Fits e → passes e ≡ false → c.compare e.key u ≡ eq → e.sequence ≤ s
    stopped_visible e fits h same = ground (arith, h, same, target_parts e fits)

    not_before : (e : Add) → Fits e → passes e ≡ false → c.compare e.key u ≢ lt
    not_before e fits h before = ground (arith, h, before, target_parts e fits)

    pub scan-Newest : (es : List Add) → All Fits es → Ascends es → Newest es (scan es)
    scan-Newest [] fits asc = nothing (λ e h. absurd h) refl
    scan-Newest (e ∷ es) (fe, fits) (below, asc) = elim (Bool-cases (passes e)) [
      | inl h ↦
          subst (Newest (e ∷ es)) (sym (rw h refl))
            (Newest-skip e es (scan es) (passed e fe h) (scan-Newest es fits asc))
      | inr h ↦ elim (Ordering-cases (c.compare e.key u)) [
        | inl q ↦ absurd (not_before e fe h q)
        | inr (inl q) ↦ subst (Newest (e ∷ es)) (sym (rw (h, q) refl)) (
            newest e (inl refl) (q, stopped_visible e fe h q)
              (λ x i v. elim i [
                | inl same ↦ subst (λ y. y.sequence ≤ e.sequence) (sym same) (omega arith)
                | inr later ↦
                    older e x fe (Among-All Fits es fits x later) q
                      (Among-All (λ y. entry_compare c e y ≡ lt) es below x later) v
              ])
              refl)
        | inr (inr q) ↦ subst (Newest (e ∷ es)) (sym (rw (h, q) refl)) (
            nothing
              (λ x i. elim i [
                | inl same ↦
                    subst (λ y. ¬ IsVisible y) (sym same)
                      (λ (v : IsVisible e). absurd (clash q v.0))
                | inr later ↦
                    beyond e x fe (Among-All Fits es fits x later) q
                      (Among-All (λ y. entry_compare c e y ≡ lt) es below x later)
              ])
              refl)
      ]
    ]
