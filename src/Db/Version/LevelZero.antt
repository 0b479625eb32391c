-- ===== src/Db/Version/LevelZero.antt =====
-- Version::Get in level 0: the files that hold the key in their range, the newest first.
use level_db.Common.{
  ℕ, ◌≤◌, Bool, true, false, not, ◌&&◌, List, [], ◌∷◌, All, ltb, ltb→lt, ◌≡◌, ◌⊎◌, ◌↔◌, inl, inr,
  arith, Bool-cases, sym, ap, ◌∙◌,
}
use level_db.Util.Slice.{is_lt, is_gt}
use level_db.Util.Comparator.{Comparator}
use level_db.Db.Format.{extract_user_key}
use level_db.Db.VersionEdit.{FileMetaData}
use level_db.Db.Version.{overlapping, insert_newest, sort_newest_first}

-- No file has a smaller number than one behind it.
abbrev pub IsNewestFirst : List FileMetaData → Type 0
IsNewestFirst [] = Unit
IsNewestFirst (f ∷ files) = All (λ g. g.number ≤ f.number) files × IsNewestFirst files

abbrev pub Member : FileMetaData → List FileMetaData → Type 0
Member x [] = ⊥
Member x (f ∷ files) = (x ≡ f) ⊎ Member x files

All-insert_newest :
    (P : FileMetaData → Type 0) (f : FileMetaData) (files : List FileMetaData)
    → P f
    → All P files
    → All P (insert_newest f files)
unfolding insert_newest
All-insert_newest P f [] p ps = (p, tt)
All-insert_newest P f (g ∷ files) p (q, ps) = elim (Bool-cases (ltb g.number f.number)) [
  | inl h ↦ rw h (p, (q, ps))
  | inr h ↦ rw h (q, All-insert_newest P f files p ps)
]

All-older :
    (f g : FileMetaData) (files : List FileMetaData)
    → g.number ≤ f.number
    → All (λ x. x.number ≤ g.number) files
    → All (λ x. x.number ≤ f.number) files
All-older f g [] h a = tt
All-older f g (x ∷ files) h (a, as') = (omega arith, All-older f g files h as')

insert_newest-IsNewestFirst :
    (f : FileMetaData) (files : List FileMetaData)
    → IsNewestFirst files
    → IsNewestFirst (insert_newest f files)
unfolding insert_newest
insert_newest-IsNewestFirst f [] a = (tt, tt)
insert_newest-IsNewestFirst f (g ∷ files) (a, as') = elim (Bool-cases (ltb g.number f.number)) [
  | inl h ↦
      let less = ltb→lt g.number f.number h in
      rw h ((omega arith, All-older f g files (omega arith) a), (a, as'))
  | inr h ↦
      let older : f.number ≤ g.number = ground (arith, h) in
      rw h (
        All-insert_newest (λ x. x.number ≤ g.number) f files older a,
        insert_newest-IsNewestFirst f files as',
      )
]

pub sort-IsNewestFirst : (files : List FileMetaData) → IsNewestFirst (sort_newest_first files)
unfolding sort_newest_first
sort-IsNewestFirst [] = tt
sort-IsNewestFirst (f ∷ files) =
    insert_newest-IsNewestFirst f (sort_newest_first files) (sort-IsNewestFirst files)

-- Sorting keeps the files.
insert_newest-Member :
    (x f : FileMetaData) (files : List FileMetaData)
    → Member x (insert_newest f files) ↔ Member x (f ∷ files)
unfolding insert_newest
insert_newest-Member x f [] = (λ i. i, λ i. i)
insert_newest-Member x f (g ∷ files) = elim (Bool-cases (ltb g.number f.number)) [
  | inl h ↦ rw h (λ i. i, λ i. i)
  | inr h ↦
      let (there, back) = insert_newest-Member x f files in
      rw h (
        λ i. elim i [
          | inl j ↦ inr (inl j)
          | inr j ↦ elim (there j) [ inl k ↦ inl k | inr k ↦ inr (inr k) ]
        ],
        λ i. elim i [
          | inl j ↦ inr (back (inl j))
          | inr (inl j) ↦ inl j
          | inr (inr j) ↦ inr (back (inr j))
        ],
      )
]

sort-Member :
    (x : FileMetaData) (files : List FileMetaData)
    → Member x (sort_newest_first files) ↔ Member x files
unfolding sort_newest_first
sort-Member x [] = (λ i. i, λ i. i)
sort-Member x (f ∷ files) =
    let (there, back) = insert_newest-Member x f (sort_newest_first files) in
    let (there', back') = sort-Member x files in
    (
      λ i. elim (there i) [ inl j ↦ inl j | inr j ↦ inr (there' j) ],
      λ i. elim i [ inl j ↦ back (inl j) | inr j ↦ back (inr (back' j)) ],
    )

module _ (c : Comparator) (u : List ℕ) where
  -- The user key is in the range of the file.
  abbrev pub holds_key : FileMetaData → Bool
  holds_key f =
      not (is_lt (c.compare u (extract_user_key f.smallest)))
      && not (is_gt (c.compare u (extract_user_key f.largest)))

  overlapping-Member :
      (x : FileMetaData) (files : List FileMetaData)
      → Member x (overlapping c u files) ↔ (Member x files × (holds_key x ≡ true))
  unfolding overlapping
  overlapping-Member x [] = (λ i. absurd i, λ p. p.0)
  overlapping-Member x (f ∷ files) =
      let (there, back) = overlapping-Member x files in
      elim (Bool-cases (holds_key f)) [
        | inl h ↦ rw h (
          λ i. elim i [
            | inl e ↦ (inl e, ap holds_key e ∙ h)
            | inr j ↦ (inr (there j).0, (there j).1)
          ],
          λ p. elim p.0 [ inl e ↦ inl e | inr j ↦ inr (back (j, p.1)) ],
        )
        | inr h ↦ rw h (
          λ i. (inr (there i).0, (there i).1),
          λ p. elim p.0 [
            | inl e ↦ absurd (differ (sym p.1 ∙ ap holds_key e ∙ h))
            | inr j ↦ back (j, p.1)
          ],
        )
      ]
    where
      differ : true ≡ false → ⊥
      differ e = cc

  -- The files of level 0 that are read.
  pub chosen-Member :
      (x : FileMetaData) (files : List FileMetaData)
      → Member x (sort_newest_first (overlapping c u files))
        ↔ (Member x files × (holds_key x ≡ true))
  chosen-Member x files =
      let (there, back) = sort-Member x (overlapping c u files) in
      let (there', back') = overlapping-Member x files in
      (λ i. there' (there i), λ p. back (back' p))
