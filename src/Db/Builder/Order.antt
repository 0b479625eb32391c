-- ===== src/Db/Builder/Order.antt =====
-- SaveTo merges the files of a level in the order of BySmallestKey.
use Prim.Native.Nat.{gt}
use level_db.Common.{
  ℕ, ◌+◌, true, false, List, [], ◌∷◌, ◌++◌, All, All-concat, ◌≡◌, ◌≢◌, arith, Bool-cases, inl, inr,
}
use level_db.Util.Comparator.{Comparator, IsOrder}
use level_db.Db.Format.{internal_compare, internal_key_comparator}
use level_db.Db.Format.Order.{internal_key_comparator-IsOrder}
use level_db.Db.VersionEdit.{FileMetaData}
use level_db.Db.Builder.{
  count, by_smallest_key, insert_file, maybe_add_files, upper_bound, save_level,
}
use level_db.Db.Builder.Contents.{internal_swap}

module _ (c : Comparator) where
  -- The second file does not come before the first.
  abbrev pub IsUpTo : FileMetaData → FileMetaData → Type 0
  IsUpTo f g = by_smallest_key c g f ≡ false

  abbrev pub IsInOrder : List FileMetaData → Type 0
  IsInOrder [] = Unit
  IsInOrder (f ∷ files) = All (IsUpTo f) files × IsInOrder files

  IsInOrder-append :
      (fs gs : List FileMetaData)
      → IsInOrder fs
      → IsInOrder gs
      → All (λ f. All (IsUpTo f) gs) fs
      → IsInOrder (fs ++ gs)
  IsInOrder-append [] gs a b h = b
  IsInOrder-append (f ∷ fs) gs (a, as') b (h, hs) =
      (All-concat (IsUpTo f) fs gs a h, IsInOrder-append fs gs as' b hs)

  module _ (ord : IsOrder c) where
    internal_le_trans :
        (a b d : List ℕ)
        → internal_compare c a b ≢ gt
        → internal_compare c b d ≢ gt
        → internal_compare c a d ≢ gt
    unfolding internal_key_comparator
    internal_le_trans = (internal_key_comparator-IsOrder c ord).compare-le_trans

    before-IsUpTo : (f g : FileMetaData) → by_smallest_key c f g ≡ true → IsUpTo f g
    unfolding by_smallest_key
    before-IsUpTo f g h = ground (arith, h, internal_swap c ord f.smallest g.smallest)

    IsUpTo-trans : (f g h : FileMetaData) → IsUpTo f g → IsUpTo g h → IsUpTo f h
    unfolding by_smallest_key
    IsUpTo-trans f g h p q =
        let a = f.smallest in
        let b = g.smallest in
        let d = h.smallest in
        ground (
          arith,
          p,
          q,
          internal_swap c ord a b,
          internal_swap c ord b d,
          internal_swap c ord a d,
          internal_le_trans a b d,
          internal_le_trans b d a,
          internal_le_trans d a b,
        )

    IsUpTo-all :
        (f g : FileMetaData) (files : List FileMetaData)
        → IsUpTo f g
        → All (IsUpTo g) files
        → All (IsUpTo f) files
    IsUpTo-all f g [] h a = tt
    IsUpTo-all f g (k ∷ files) h (p, a) = (IsUpTo-trans f g k h p, IsUpTo-all f g files h a)

    -- The parts of the base that upper_bound makes.
    upper_bound-All :
        (P : FileMetaData → Type 0) (f : FileMetaData) (files : List FileMetaData)
        → All P files
        → All P (upper_bound c f files).0 × All P (upper_bound c f files).1
    unfolding upper_bound
    upper_bound-All P f [] a = (tt, tt)
    upper_bound-All P f (g ∷ files) (p, a) =
        let (front, rest) = upper_bound-All P f files a in
        elim (Bool-cases (by_smallest_key c f g)) [
          | inl h ↦ rw h (tt, (p, a))
          | inr h ↦ rw h ((p, front), rest)
        ]

    upper_bound-IsInOrder :
        (f : FileMetaData) (files : List FileMetaData)
        → IsInOrder files
        → IsInOrder (upper_bound c f files).0
          × IsInOrder (upper_bound c f files).1
          × All (λ g. IsUpTo g f) (upper_bound c f files).0
          × All (IsUpTo f) (upper_bound c f files).1
          × All (λ g. All (IsUpTo g) (upper_bound c f files).1) (upper_bound c f files).0
    unfolding upper_bound
    upper_bound-IsInOrder f [] a = (tt, tt, tt, tt, tt)
    upper_bound-IsInOrder f (g ∷ files) (a, as') =
        let (front, rest, low, high, across) = upper_bound-IsInOrder f files as' in
        elim (Bool-cases (by_smallest_key c f g)) [
          | inl h ↦
              let first = before-IsUpTo f g h in
              rw h (tt, (a, as'), tt, (first, IsUpTo-all f g files first a), tt)
          | inr h ↦
              let (a_front, a_rest) = upper_bound-All (IsUpTo g) f files a in
              rw h ((a_front, front), rest, (h, low), high, (a_rest, across))
        ]

    -- A property that does not look at the count of references.
    abbrev Ignores : (FileMetaData → Type 0) → Type 0
    Ignores P = (f : FileMetaData) → P f → P (record f { refs = f.refs + 1 })

    IsUpTo-Ignores : (g : FileMetaData) → Ignores (IsUpTo g)
    unfolding by_smallest_key
    IsUpTo-Ignores g f h = h

    IsUpTo-each-Ignores : (files : List FileMetaData) → Ignores (λ f. All (IsUpTo f) files)
    unfolding by_smallest_key
    IsUpTo-each-Ignores [] f h = tt
    IsUpTo-each-Ignores (g ∷ files) f (h, hs) = (h, IsUpTo-each-Ignores files f hs)

    maybe_add_files-All :
        (P : FileMetaData → Type 0) (deleted : List ℕ) (files : List FileMetaData)
        → Ignores P
        → All P files
        → All P (maybe_add_files c deleted files)
    unfolding maybe_add_files
    maybe_add_files-All P deleted [] ign a = tt
    maybe_add_files-All P deleted (f ∷ files) ign (p, a) =
        elim (Bool-cases (count f.number deleted)) [
          | inl h ↦ rw h (maybe_add_files-All P deleted files ign a)
          | inr h ↦ rw h (ign f p, maybe_add_files-All P deleted files ign a)
        ]

    maybe_add_files-IsInOrder :
        (deleted : List ℕ) (files : List FileMetaData)
        → IsInOrder files
        → IsInOrder (maybe_add_files c deleted files)
    unfolding maybe_add_files
    maybe_add_files-IsInOrder deleted [] a = tt
    maybe_add_files-IsInOrder deleted (f ∷ files) (a, as') =
        elim (Bool-cases (count f.number deleted)) [
          | inl h ↦ rw h (maybe_add_files-IsInOrder deleted files as')
          | inr h ↦ rw h (
            IsUpTo-each-Ignores (maybe_add_files c deleted files) f
                (maybe_add_files-All (IsUpTo f) deleted files (IsUpTo-Ignores f) a),
            maybe_add_files-IsInOrder deleted files as',
          )
        ]

    save_level-All :
        (P : FileMetaData → Type 0) (deleted : List ℕ) (base added : List FileMetaData)
        → Ignores P
        → All P base
        → All P added
        → All P (save_level c deleted base added)
    unfolding save_level
    save_level-All P deleted base [] ign a b = maybe_add_files-All P deleted base ign a
    save_level-All P deleted base (f ∷ added) ign a (p, b) =
        let (front, rest) = upper_bound-All P f base a in
        let one = maybe_add_files c deleted (f ∷ []) in
        let files = save_level c deleted (upper_bound c f base).1 added in
        All-concat P (maybe_add_files c deleted (upper_bound c f base).0) (one ++ files)
          (maybe_add_files-All P deleted (upper_bound c f base).0 ign front)
          (All-concat P one files (maybe_add_files-All P deleted (f ∷ []) ign (p, tt))
            (save_level-All P deleted (upper_bound c f base).1 added ign rest b))

    -- What SaveTo merges into a level in order stays in order.
    pub save_level-IsInOrder :
        (deleted : List ℕ) (base added : List FileMetaData)
        → IsInOrder base
        → IsInOrder added
        → IsInOrder (save_level c deleted base added)
    unfolding save_level
    save_level-IsInOrder deleted base [] a b = maybe_add_files-IsInOrder deleted base a
    save_level-IsInOrder deleted base (f ∷ added) a (b, bs) =
        let (front, rest, low, high, across) = upper_bound-IsInOrder f base a in
        let one = maybe_add_files c deleted (f ∷ []) in
        let files = save_level c deleted (upper_bound c f base).1 added in
        IsInOrder-append (maybe_add_files c deleted (upper_bound c f base).0) (one ++ files)
          (maybe_add_files-IsInOrder deleted (upper_bound c f base).0 front)
          (IsInOrder-append one files (maybe_add_files-IsInOrder deleted (f ∷ []) (tt, tt))
            (save_level-IsInOrder deleted (upper_bound c f base).1 added rest bs)
            (maybe_add_files-All (λ g. All (IsUpTo g) files) deleted (f ∷ [])
              (IsUpTo-each-Ignores files)
              (
                save_level-All (IsUpTo f) deleted (upper_bound c f base).1 added (IsUpTo-Ignores f)
                    high b,
                tt,
              )))
          (maybe_add_files-All (λ g. All (IsUpTo g) (one ++ files)) deleted (upper_bound c f base).0
            (IsUpTo-each-Ignores (one ++ files)) (below_all (upper_bound c f base).0 low across))
      where
        below_all :
            (front : List FileMetaData)
            → All (λ g. IsUpTo g f) front
            → All (λ g. All (IsUpTo g) (upper_bound c f base).1) front
            → All
                (λ g. All (IsUpTo g) (
                  maybe_add_files c deleted (f ∷ [])
                  ++ save_level c deleted (upper_bound c f base).1 added))
                front
        below_all [] low across = tt
        below_all (g ∷ front) (l, low) (x, across) = (
          All-concat (IsUpTo g) (maybe_add_files c deleted (f ∷ []))
              (save_level c deleted (upper_bound c f base).1 added)
              (maybe_add_files-All (IsUpTo g) deleted (f ∷ []) (IsUpTo-Ignores g) (l, tt))
              (save_level-All (IsUpTo g) deleted (upper_bound c f base).1 added (IsUpTo-Ignores g) x
                (IsUpTo-all g f added l b)),
          below_all front low across,
        )

    -- The added files are kept in order.
    insert_file-All :
        (P : FileMetaData → Type 0) (f : FileMetaData) (files : List FileMetaData)
        → P f
        → All P files
        → All P (insert_file c f files)
    unfolding insert_file
    insert_file-All P f [] p a = (p, tt)
    insert_file-All P f (g ∷ files) p (q, a) = elim (Bool-cases (by_smallest_key c f g)) [
      | inl h ↦ rw h (p, (q, a))
      | inr h ↦ elim (Bool-cases (by_smallest_key c g f)) [
        | inl k ↦ rw (h, k) (q, insert_file-All P f files p a)
        | inr k ↦ rw (h, k) (q, a)
      ]
    ]

    pub insert_file-IsInOrder :
        (f : FileMetaData) (files : List FileMetaData)
        → IsInOrder files
        → IsInOrder (insert_file c f files)
    unfolding insert_file
    insert_file-IsInOrder f [] a = (tt, tt)
    insert_file-IsInOrder f (g ∷ files) (a, as') = elim (Bool-cases (by_smallest_key c f g)) [
      | inl h ↦
          let first = before-IsUpTo f g h in rw h ((first, IsUpTo-all f g files first a), (a, as'))
      | inr h ↦ elim (Bool-cases (by_smallest_key c g f)) [
        | inl k ↦
            rw (h, k) (insert_file-All (IsUpTo g) f files h a, insert_file-IsInOrder f files as')
        | inr k ↦ rw (h, k) (a, as')
      ]
    ]
