-- ===== src/Db/Compaction/Kept.antt =====
-- The loop of a compaction on the encoded entries of its inputs.
use Prim.Native.Nat.{lt}
use level_db.Common.{
  ℕ, ◌≤◌, ◌<◌, List, [], ◌∷◌, All, map, Option, none, ◌≡◌, refl, ap, arith, Bool-cases, inl, inr,
}
use level_db.Util.Comparator.{Comparator, IsOrder}
use level_db.Db.Format.{max_sequence_number}
use level_db.Db.Format.Keys.{parse_internal_key-append}
use level_db.Db.Format.Order.{internal_compare-append}
use level_db.Db.VersionEdit.{FileMetaData}
use level_db.Db.Batch.{Add}
use level_db.Db.MemTable.Entries.{parsed, internal_key, entry_compare}
use level_db.Db.Compaction.{DropState, decide_parsed, decide, compact, first_state}
use level_db.Db.Compaction.Base.{IsDisjoint, NoFile}
use level_db.Db.Compaction.Reads.{keep, read, Behind, Runs}
use level_db.Db.Compaction.Unchanged.{keep-Same}

-- The key and the value that the input iterator shows for an entry.
abbrev pub encoded : Add → List ℕ × List ℕ
encoded e = (internal_key e, e.value)

abbrev pub HasSequence : Add → Type 0
HasSequence e = e.sequence ≤ max_sequence_number

module _ (c : Comparator) where
  -- The order in which the merging iterator shows its inputs.
  abbrev pub IsAscending : List Add → Type 0
  IsAscending [] = Unit
  IsAscending (e ∷ es) = All (λ x. entry_compare c e x ≡ lt) es × IsAscending es

  module _ (u : List ℕ) (s : ℕ) (below : Option (List ℕ)) where
    Behind-ascending :
        (e : Add) (es : List Add)
        → HasSequence e
        → All HasSequence es
        → All (λ x. entry_compare c e x ≡ lt) es
        → Behind c u s below e.key e.sequence es
    Behind-ascending e [] he h asc = tt
    Behind-ascending e (x ∷ es) he (hx, h) (p, asc) =
        let parts = internal_compare-append c (parsed e) (parsed x) he hx in
        (
          (λ g. ground (arith, p, parts, g), λ g. ground (arith, p, parts, g)),
          Behind-ascending e es he h asc,
        )

    Runs-ascending : (es : List Add) → All HasSequence es → IsAscending es → Runs c u s below es
    Runs-ascending [] h asc = tt
    Runs-ascending (e ∷ es) (he, h) (p, asc) =
        (Behind-ascending e es he h p, Runs-ascending es h asc)

  module _ (smallest : ℕ) where
    decide-parsed :
        (st : DropState) (e : Add)
        → HasSequence e
        → decide c smallest st (internal_key e) ≡ decide_parsed c smallest st (parsed e)
    unfolding decide
    decide-parsed st e h = rw ((parse_internal_key-append (parsed e) h).0, decide) refl

    compact-keep :
        (es : List Add) (st : DropState)
        → All HasSequence es
        → compact c smallest st (map encoded es) ≡ map encoded (keep c smallest st es)
    unfolding compact
    compact-keep [] st h = refl
    compact-keep (e ∷ es) st (he, h) =
        rw (decide-parsed st e he) (elim (Bool-cases (decide_parsed c smallest st (parsed e)).0) [
          | inl d ↦ rw d (compact-keep es _ h)
          | inr d ↦ rw d (ap (◌∷◌ (encoded e)) (compact-keep es _ h))
        ])

  module _ (smallest_snapshot : ℕ) where
    -- The state behind some entries.
    abbrev pub after : DropState → List (List ℕ × List ℕ) → DropState
    after st [] = st
    after st ((key, v) ∷ input) = after (decide c smallest_snapshot st key).1 input

  -- Let the user comparator be a total order, the smallest snapshot be below the largest sequence
  -- number, the input entries have sequence numbers in range and strictly ascending internal
  -- keys, and the files of each level below the output be in order and disjoint. Let a read below
  -- the output give nothing for a user key that no file there has in its range. Then the loop
  -- keeps some of the entries, unchanged, and a read of any user key at any snapshot not below
  -- the smallest one gives over the kept entries, and what lies below them, what it gave over all
  -- of them.
  pub read-compact :
      (smallest_snapshot : ℕ) (es : List Add) (levels : List (List FileMetaData))
      (below : List ℕ → ℕ → Option (List ℕ))
      → IsOrder c
      → smallest_snapshot < max_sequence_number
      → All HasSequence es
      → IsAscending es
      → All (IsDisjoint c) levels
      → ((u : List ℕ) (s : ℕ) → NoFile c u levels → below u s ≡ none)
      → (kept : List Add) × (compact c smallest_snapshot (first_state levels) (map encoded es)
          ≡ map encoded kept)
        × ((u : List ℕ) (s : ℕ)
            → smallest_snapshot ≤ s
            → read c u s (below u s) kept ≡ read c u s (below u s) es)
  read-compact smallest_snapshot es levels below ord bounded fits asc disjoint nothing_below = (
    keep c smallest_snapshot (first_state levels) es,
    compact-keep smallest_snapshot es (first_state levels) fits,
    λ u s recent.
        keep-Same c smallest_snapshot u s (below u s) ord recent bounded levels (nothing_below u s)
          es (first_state levels) (λ k h same. absurd cc)
          (record { disjoint = disjoint; covered = λ h. h })
          (Runs-ascending u s (below u s) es fits asc),
  )
