-- ===== src/Db/SkipList/Refines.antt =====
-- The skip list refines an ascending list of keys.
use Prim.Native.Nat.{Ordering, eq}
use mathlib.Core.Path.{subst, ap₂}
use mathlib.Core.Option
use level_db.Common.{
  ℕ, ◌+◌, ◌≤◌, ◌<◌, List, [], ◌∷◌, ◌++◌, length, All, map, Option, none, some, ◌≡◌, ◌≢◌, refl, sym,
  ap, ◌∙◌, arith, length-append,
}
use level_db.Db.SkipList.{
  SkipList, new_list, store, search, forward, find_greater_or_equal, find_less_than, insert_at,
  insert, contains,
}
use level_db.Db.SkipList.Levels.{level, last_or, Linked, Linked-suffix}
use level_db.Db.SkipList.Search.{search-Found}
use level_db.Db.SkipList.Insert.{last_or-All}
use level_db.Db.SkipList.Ordered.{
  IsKeyOrder, Sorted, Splits, split, map-same, All-parts, All-map, insert_sorted, first_from,
  last_before, member,
}
use level_db.Db.SkipList.Abstract.{
  head?, last, map-append, head-map, insert_sorted-split, first_from-split, last_before-split,
  member-split, hit, last-key,
}
use level_db.Db.SkipList.Set.{IsSkipList, level_zero, Splits-Searched}
use level_db.Db.SkipList.Relinked.{store_same}
use level_db.Db.SkipList.Inserted.{insert_at-IsSkipList, ns_fresh, same_keys}

module _ {K : Type 0} (compare : K → K → Ordering) where
  -- The keys of the list, in its order.
  abbrev pub Represents : SkipList K → List K → Type 0
  Represents s ks = (ns : List ℕ) × IsSkipList compare s ns × (map s.key ns ≡ ks)

  pub new_list-Represents : (any_key : K) → Represents (new_list any_key) []
  new_list-Represents any_key = (
    [],
    record {
      linked = λ i hi. refl;
      heights = tt;
      addresses = tt;
      distinct = tt;
      sorted = tt;
      counted = omega arith;
      max_range = omega arith;
    },
    refl,
  )

  module _ (s : SkipList K) (k : K) (ns ahead behind : List ℕ) (inv : IsSkipList compare s ns)
      (splits : Splits compare s.key k ns ahead behind) where
    heights_ok :
        All (λ n. (0 < s.height n) × (s.height n ≤ s.max_height)) ahead
        × All (λ n. (0 < s.height n) × (s.height n ≤ s.max_height)) behind
    heights_ok =
        All-parts _ ahead behind
          (subst (All (λ n. (0 < s.height n) × (s.height n ≤ s.max_height))) splits.0 inv.heights)

    bottom : level s.height 0 ahead ≡ ahead
    bottom = level_zero compare s.height s.max_height ahead heights_ok.0

    head_next : (p : ℕ) (l : List ℕ) → Linked s.next 0 p l → s.next p 0 ≡ head? l
    head_next p [] e = e
    head_next p (n ∷ l) (e, h) = e

    next_behind : s.next (last_or 0 ahead) 0 ≡ head? behind
    next_behind = head_next (last_or 0 ahead) behind (
        Linked-suffix s.next 0 0 ahead behind (
          subst (Linked s.next 0 0)
            (level_zero compare s.height s.max_height ns inv.heights ∙ splits.0)
            (inv.linked 0 (omega arith))))

    -- Where the search of the source ends, and what it records of the levels above.
    abbrev SearchEnds : Type 0
    SearchEnds =
        (prev : ℕ → ℕ) × (search s (forward compare s k) ≡ some (last_or 0 ahead, prev))
        × ((j : ℕ) → j < s.max_height → prev j ≡ last_or 0 (level s.height j ahead))

    search_ends : SearchEnds
    search_ends =
        let found = Splits-Searched compare s k ns ahead behind inv splits in
        let (prev, result, at) =
          search-Found s.next s.height (forward compare s k) s.max_height ahead behind found
            (s.allocated + s.max_height) inv.max_range.0
            (omega (arith, inv.counted, length-append ahead behind, ap length splits.0)) in
        (prev, result ∙ ap (λ (l : List ℕ). some (last_or 0 l, prev)) bottom, at)

  abbrev pub Absent : K → List K → Type 0
  Absent k [] = Unit
  Absent k (y ∷ ys) = (compare y k ≢ eq) × Absent k ys

  Absent-All :
      (key : ℕ → K) (k : K) (ns : List ℕ)
      → Absent k (map key ns)
      → All (λ n. compare (key n) k ≢ eq) ns
  Absent-All key k [] h = tt
  Absent-All key k (n ∷ ns) (p, h) = (p, Absent-All key k ns h)

  inserted_keys :
      (ord : IsKeyOrder compare) (s : SkipList K) (k : K) (ns ahead behind : List ℕ)
      (inv : IsSkipList compare s ns) (splits : Splits compare s.key k ns ahead behind)
      (prev : ℕ → ℕ)
      → map (insert_at s k prev).key (ahead ++ (s.allocated ∷ behind))
        ≡ map s.key ahead ++ (k ∷ map s.key behind)
  unfolding insert_at
  inserted_keys ord s k ns ahead behind inv splits prev =
      let key' = store s.key s.allocated k in
      let (fresh_ahead, fresh_behind) =
        All-parts (λ n. n ≢ s.allocated) ahead behind
          (ns_fresh compare ord s k ns ahead behind inv splits) in
      let same = same_keys compare ord s k ns ahead behind inv splits in
      map-append key' ahead (s.allocated ∷ behind)
      ∙ ap₂ (λ (a b : List K). a ++ b) (map-same s.key key' ahead (same ahead fresh_ahead))
          (ap₂ (λ (y : K) (b : List K). y ∷ b) (store_same s.key s.allocated k)
            (map-same s.key key' behind (same behind fresh_behind)))

  -- The node before a key, or the head if there is none.
  abbrev pub IsBefore : SkipList K → ℕ → Option K → Type 0
  IsBefore s n none = n ≡ 0
  IsBefore s n (some k) = (n ≢ 0) × (s.key n ≡ k)

  pub last-IsBefore :
      (s : SkipList K) (l : List ℕ)
      → All (λ n. n ≢ 0) l
      → IsBefore s (last_or 0 l) (last (map s.key l))
  unfolding last
  last-IsBefore s [] h = refl
  last-IsBefore s (n ∷ l) (p, h) =
      subst (IsBefore s (last_or n l)) (sym (last-key compare s.key n l))
        (last_or-All (λ m. m ≢ 0) n l p h, refl)

  contains-found :
      (s : SkipList K) (k : K) (found : Option ℕ) (prev : ℕ → ℕ)
      → find_greater_or_equal compare s k ≡ some (found, prev)
      → contains compare s k ≡ some (hit compare s.key k found)
  unfolding contains
  contains-found s k none prev e = rw e refl
  contains-found s k (some n) prev e = rw e refl

  module _ (ord : IsKeyOrder compare) where
    -- If the comparator is antisymmetric and transitive and the store holds an ascending list of
    -- keys, none of which compares equal to the new one, then Insert ends and the store holds the
    -- list with the key inserted in its place, every level linked, whatever height was drawn.
    pub insert-Represents :
        (s : SkipList K) (k : K) (ks : List K)
        → Represents s ks
        → Absent k ks
        → (s' : SkipList K) × (insert compare s k ≡ some s')
          × Represents s' (insert_sorted compare k ks)
    unfolding insert find_greater_or_equal
    insert-Represents s k ks (ns, inv, e) absent =
        let (ahead, behind, splits) = split compare ord s.key k ns inv.sorted in
        let (prev, found, at) = search_ends s k ns ahead behind inv splits in
        let absent' = Absent-All s.key k ns (subst (Absent k) (sym e) absent) in
        (
          insert_at s k prev,
          rw found refl,
          (
            ahead ++ (s.allocated ∷ behind),
            insert_at-IsSkipList compare ord s k ns ahead behind inv splits prev at absent',
            inserted_keys ord s k ns ahead behind inv splits prev
                ∙ sym (insert_sorted-split compare s.key k behind ahead splits.1 splits.2)
                ∙ ap (λ (l : List ℕ). insert_sorted compare k (map s.key l)) (sym splits.0)
                ∙ ap (insert_sorted compare k) e,
          ),
        )

    -- If the comparator is antisymmetric and transitive and the store holds an ascending list of
    -- keys, then FindGreaterOrEqual ends, with the node of the first key that is not below the
    -- target, or with NULL if every key is.
    pub find_greater_or_equal-first_from :
        (s : SkipList K) (k : K) (ks : List K)
        → Represents s ks
        → (found : Option ℕ) × (prev : ℕ → ℕ) × (find_greater_or_equal compare s k
            ≡ some (found, prev))
          × (Option.map s.key found ≡ first_from compare k ks)
    unfolding find_greater_or_equal
    find_greater_or_equal-first_from s k ks (ns, inv, e) =
        let (ahead, behind, splits) = split compare ord s.key k ns inv.sorted in
        let (prev, found, at) = search_ends s k ns ahead behind inv splits in
        (
          head? behind,
          prev,
          rw found
              (ap (λ (n : Option ℕ). some (n, prev)) (next_behind s k ns ahead behind inv splits)),
          head-map s.key behind
              ∙ sym (first_from-split compare s.key k behind ahead splits.1 splits.2)
              ∙ ap (λ (l : List ℕ). first_from compare k (map s.key l)) (sym splits.0)
              ∙ ap (first_from compare k) e,
        )

    -- If the comparator is antisymmetric and transitive and the store holds an ascending list of
    -- keys, then FindLessThan ends, with the node of the last key before the target, or with the
    -- head if there is none.
    pub find_less_than-last_before :
        (s : SkipList K) (k : K) (ks : List K)
        → Represents s ks
        → (n : ℕ) × (find_less_than compare s k ≡ some n) × IsBefore s n (last_before compare k ks)
    unfolding find_less_than
    find_less_than-last_before s k ks (ns, inv, e) =
        let (ahead, behind, splits) = split compare ord s.key k ns inv.sorted in
        let (prev, found, at) = search_ends s k ns ahead behind inv splits in
        (
          last_or 0 ahead,
          rw found refl,
          subst (IsBefore s (last_or 0 ahead))
              (sym (last_before-split compare s.key k behind ahead splits.1 splits.2)
                ∙ ap (λ (l : List ℕ). last_before compare k (map s.key l)) (sym splits.0)
                ∙ ap (last_before compare k) e)
              (last-IsBefore s ahead (
                All-map (λ n. (0 < n) × (n < s.allocated)) (λ n. n ≢ 0) ahead
                  (λ n p c. omega (arith, p.0, c))
                  (All-parts (λ n. (0 < n) × (n < s.allocated)) ahead behind
                    (subst (All (λ n. (0 < n) × (n < s.allocated))) splits.0 inv.addresses)).0)),
        )

    -- If the comparator is antisymmetric and transitive and the store holds an ascending list of
    -- keys, then Contains ends, and answers whether a key of the list compares equal to its
    -- argument.
    pub contains-member :
        (s : SkipList K) (k : K) (ks : List K)
        → Represents s ks
        → contains compare s k ≡ some (member compare k ks)
    unfolding find_greater_or_equal
    contains-member s k ks (ns, inv, e) =
        let (ahead, behind, splits) = split compare ord s.key k ns inv.sorted in
        let (prev, found, at) = search_ends s k ns ahead behind inv splits in
        contains-found s k (head? behind) prev (
          rw found
            (ap (λ (n : Option ℕ). some (n, prev)) (next_behind s k ns ahead behind inv splits)))
        ∙ ap some (
            sym (
              member-split compare ord s.key k ahead behind splits.1 splits.2
                (subst (Sorted compare s.key) splits.0 inv.sorted))
            ∙ ap (λ (l : List ℕ). member compare k (map s.key l)) (sym splits.0)
            ∙ ap (member compare k) e)
