-- ===== src/Db/Version/Sources.antt =====
-- Lookups in two sources, the newer one first: the two memtables.
use Prim.Native.Nat.{eq}
use mathlib.Core.Path.{subst}
use level_db.Common.{ℕ, ◌≤◌, List, [], ◌∷◌, ◌++◌, ◌≡◌, ◌⊎◌, inl, inr, sym, ap, ◌∙◌, arith}
use level_db.Util.Comparator.{Comparator, IsOrder}
use level_db.Util.Comparator.Facts.{compare_congr_right}
use level_db.Db.Batch.{Add}
use level_db.Db.MemTable.{Answer, not_here, found, deleted}
use level_db.Db.MemTable.Entries.{answer_of}
use level_db.Db.MemTable.Lookups.{Among, IsVisible, Newest, nothing, newest}

-- The second answer counts only if the first says that there is nothing.
abbrev pub or_else : Answer → Answer → Answer
or_else not_here b = b
or_else (found v) b = found v
or_else deleted b = deleted

Among-append_left : (x : Add) (es ds : List Add) → Among x es → Among x (es ++ ds)
Among-append_left x [] ds i = absurd i
Among-append_left x (e ∷ es) ds (inl q) = inl q
Among-append_left x (e ∷ es) ds (inr q) = inr (Among-append_left x es ds q)

Among-append_right : (x : Add) (es ds : List Add) → Among x ds → Among x (es ++ ds)
Among-append_right x [] ds i = i
Among-append_right x (e ∷ es) ds i = inr (Among-append_right x es ds i)

Among-append : (x : Add) (es ds : List Add) → Among x (es ++ ds) → Among x es ⊎ Among x ds
Among-append x [] ds i = inr i
Among-append x (e ∷ es) ds (inl q) = inl (inl q)
Among-append x (e ∷ es) ds (inr q) = elim (Among-append x es ds q) [
  | inl r ↦ inl (inr r)
  | inr r ↦ inr r
]

module _ (c : Comparator) where
  -- For every user key, the entries of the first source are not older than those of the second.
  abbrev pub IsNewer : List Add → List Add → Type 0
  IsNewer es ds =
      (x y : Add) → Among x es → Among y ds → c.compare x.key y.key ≡ eq → y.sequence ≤ x.sequence

  or_else-answer_of : (e : Add) (b : Answer) → or_else (answer_of c e) b ≡ answer_of c e
  or_else-answer_of e b = ground arith

  module _ (u : List ℕ) (s : ℕ) where
    -- A list with the same visible entries has the same answer.
    Newest-widen :
        (es ds : List Add) (a : Answer)
        → ((x : Add) → Among x es → Among x ds)
        → ((x : Add) → Among x ds → Among x es ⊎ ¬ IsVisible c u s x)
        → Newest c u s es a
        → Newest c u s ds a
    Newest-widen es ds a into back (nothing none_visible h) =
        nothing (λ x i. elim (back x i) [ inl j ↦ none_visible x j | inr hidden ↦ hidden ]) h
    Newest-widen es ds a into back (newest e e_in visible above h) =
        newest e (into e e_in) visible
          (λ x i v. elim (back x i) [ inl j ↦ above x j v | inr hidden ↦ absurd (hidden v) ]) h

    module _ (ord : IsOrder c) where
      same_key : (x y : Add) → IsVisible c u s x → IsVisible c u s y → c.compare x.key y.key ≡ eq
      same_key x y (p, p') (q, q') = compare_congr_right c ord y.key u x.key q ∙ p

      -- Two sources in turn.
      pub Newest-append :
          (es ds : List Add) (a b : Answer)
          → IsNewer es ds
          → Newest c u s es a
          → Newest c u s ds b
          → Newest c u s (es ++ ds) (or_else a b)
      Newest-append es ds a b newer (newest e e_in visible above h) others =
          newest e (Among-append_left e es ds e_in) visible
            (λ x i v. elim (Among-append x es ds i) [
              | inl j ↦ above x j v
              | inr j ↦ newer e x e_in j (same_key e x visible v)
            ])
            (ap (λ r. or_else r b) h ∙ or_else-answer_of e b)
      Newest-append es ds a b newer (nothing none_visible h) others =
          subst (λ r. Newest c u s (es ++ ds) (or_else r b)) (sym h)
            (Newest-widen ds (es ++ ds) b (λ x i. Among-append_right x es ds i)
              (λ x i. elim (Among-append x es ds i) [
                | inl j ↦ inr (none_visible x j)
                | inr j ↦ inl j
              ])
              others)
