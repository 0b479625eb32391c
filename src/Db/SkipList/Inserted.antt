-- ===== src/Db/SkipList/Inserted.antt =====
-- Insert keeps the store of a skip list well formed, with the new node before the keys it is below.
use Prim.Native.Nat.{Ordering, lt, eq}
use mathlib.Core.Path.{subst, ap₂}
use level_db.Common.{
  ℕ, suc, ◌≤◌, ◌<◌, true, false, List, [], ◌∷◌, ◌++◌, length, All, ltb, if◌then◌else◌, ◌≡◌, ◌≢◌,
  sym, ap, ◌∙◌, arith, length-append,
}
use level_db.Util.Slice.{is_lt}
use level_db.Db.SkipList.{SkipList, store, random_height, insert_at}
use level_db.Db.SkipList.Levels.{level, last_or}
use level_db.Db.SkipList.Insert.{Distinct}
use level_db.Db.SkipList.Ordered.{
  IsKeyOrder, Sorted, Sorted-same, Sorted-insert, Splits, All-append, All-parts, All-map,
}
use level_db.Db.SkipList.Set.{IsSkipList, random_height_range}
use level_db.Db.SkipList.Relinked.{new-Linked, store_other, store_same}

Distinct-insert :
    (x : ℕ) (xs ys : List ℕ)
    → Distinct (xs ++ ys)
    → All (λ n. n ≢ x) (xs ++ ys)
    → Distinct (xs ++ (x ∷ ys))
Distinct-insert x [] ys d fresh =
    (All-map (λ n. n ≢ x) (λ n. x ≢ n) ys (λ n p q. p (sym q)) fresh, d)
Distinct-insert x (n ∷ xs) ys (apart, d) (p, fresh) = (
  All-append (λ m. n ≢ m) xs (x ∷ ys) (All-parts (λ m. n ≢ m) xs ys apart).0
      (p, (All-parts (λ m. n ≢ m) xs ys apart).1),
  Distinct-insert x xs ys d fresh,
)

module _ {K : Type 0} (compare : K → K → Ordering) (ord : IsKeyOrder compare) where
  module _ (s : SkipList K) (k : K) (ns ahead behind : List ℕ) (inv : IsSkipList compare s ns)
      (splits : Splits compare s.key k ns ahead behind) where
    apart :
        (n : ℕ)
        → is_lt (compare (s.key n) k) ≡ false
        → compare (s.key n) k ≢ eq
        → compare k (s.key n) ≡ lt
    apart n h h' = ground (arith, ord.compare_swap (s.key n) k)

    before : (n : ℕ) → is_lt (compare (s.key n) k) ≡ true → compare (s.key n) k ≡ lt
    before n h = ground (arith, h)

    abbrev x : ℕ
    x = s.allocated

    pub ns_fresh : All (λ n. n ≢ s.allocated) (ahead ++ behind)
    ns_fresh = subst (All (λ n. n ≢ s.allocated)) splits.0 (
        All-map (λ n. (0 < n) × (n < s.allocated)) (λ n. n ≢ s.allocated) ns
          (λ n p c. omega (arith, p.1, c)) inv.addresses)

    pub same_keys :
        (l : List ℕ)
        → All (λ n. n ≢ s.allocated) l
        → All (λ n. store s.key s.allocated k n ≡ s.key n) l
    same_keys l h =
        All-map (λ n. n ≢ s.allocated) (λ n. store s.key s.allocated k n ≡ s.key n) l
          (λ n p. store_other s.key s.allocated k n p) h

    new-Sorted :
        All (λ n. compare (s.key n) k ≢ eq) ns
        → Sorted compare (store s.key s.allocated k) (ahead ++ (s.allocated ∷ behind))
    new-Sorted absent =
        let key' = store s.key s.allocated k in
        let (fresh_ahead, fresh_behind) = All-parts (λ n. n ≢ s.allocated) ahead behind ns_fresh in
        let (absent_ahead, absent_behind) =
          All-parts (λ n. compare (s.key n) k ≢ eq) ahead behind
            (subst (All (λ n. compare (s.key n) k ≢ eq)) splits.0 absent) in
        Sorted-insert compare key' s.allocated ahead behind
          (Sorted-same compare s.key key' (ahead ++ behind) (same_keys _ ns_fresh)
            (subst (Sorted compare s.key) splits.0 inv.sorted))
          (each_ahead ahead fresh_ahead splits.1)
          (each_behind behind fresh_behind splits.2 absent_behind)
      where
        each_ahead :
            (l : List ℕ)
            → All (λ n. n ≢ s.allocated) l
            → All (λ n. is_lt (compare (s.key n) k) ≡ true) l
            → All
                (λ n.
                  compare (store s.key s.allocated k n) (store s.key s.allocated k s.allocated)
                  ≡ lt)
                l
        each_ahead [] f h = tt
        each_ahead (n ∷ l) (f, fs) (h, hs) = (
          ap₂ compare (store_other s.key s.allocated k n f) (store_same s.key s.allocated k)
              ∙ before n h,
          each_ahead l fs hs,
        )

        each_behind :
            (l : List ℕ)
            → All (λ n. n ≢ s.allocated) l
            → All (λ n. is_lt (compare (s.key n) k) ≡ false) l
            → All (λ n. compare (s.key n) k ≢ eq) l
            → All
                (λ n.
                  compare (store s.key s.allocated k s.allocated) (store s.key s.allocated k n)
                  ≡ lt)
                l
        each_behind [] f h a = tt
        each_behind (n ∷ l) (f, fs) (h, hs) (a, as') = (
          ap₂ compare (store_same s.key s.allocated k) (store_other s.key s.allocated k n f)
              ∙ apart n h a,
          each_behind l fs hs as',
        )

    taller :
        (h top : ℕ) (l : List ℕ)
        → s.max_height ≤ top
        → All (λ n. (0 < s.height n) × (s.height n ≤ s.max_height)) l
        → All (λ n. n ≢ s.allocated) l
        → All (λ n. (0 < store s.height s.allocated h n) × (store s.height s.allocated h n ≤ top)) l
    taller h top [] ht a f = tt
    taller h top (n ∷ l) ht ((a, b), as') (f, fs) =
        let same = store_other s.height s.allocated h n f in (omega arith, taller h top l ht as' fs)

    later :
        (l : List ℕ)
        → All (λ n. (0 < n) × (n < s.allocated)) l
        → All (λ n. (0 < n) × (n < suc s.allocated)) l
    later l h =
        All-map (λ n. (0 < n) × (n < s.allocated)) (λ n. (0 < n) × (n < suc s.allocated)) l
          (λ n p. omega (arith, p.0, p.1)) h

    new_top : ℕ → ℕ
    new_top h = if ltb s.max_height h then h else s.max_height

    new_top_range :
        (h : ℕ) → (s.max_height ≤ new_top h) × (h ≤ new_top h) × (h ≤ 12 → new_top h ≤ 12)
    unfolding new_top
    new_top_range h = ground (arith, inv.max_range)

    pub insert_at-IsSkipList :
        (prev : ℕ → ℕ)
        → ((j : ℕ) → j < s.max_height → prev j ≡ last_or 0 (level s.height j ahead))
        → All (λ n. compare (s.key n) k ≢ eq) ns
        → IsSkipList compare (insert_at s k prev) (ahead ++ (s.allocated ∷ behind))
    unfolding insert_at new_top
    insert_at-IsSkipList prev at absent =
        let h = (random_height s.seed).0 in
        let (low, high) = random_height_range s.seed in
        let fresh = All-parts (λ n. n ≢ s.allocated) ahead behind ns_fresh in
        let parts =
          All-parts (λ n. (0 < s.height n) × (s.height n ≤ s.max_height)) ahead behind
            (subst (All (λ n. (0 < s.height n) × (s.height n ≤ s.max_height))) splits.0
              inv.heights) in
        let held =
          All-parts (λ n. (0 < n) × (n < s.allocated)) ahead behind
            (subst (All (λ n. (0 < n) × (n < s.allocated))) splits.0 inv.addresses) in
        let (top_old, top_new, top_max) = new_top_range h in
        let new = store s.height s.allocated h in
        let own = store_same s.height s.allocated h in
        record {
          linked = new-Linked compare s ns ahead behind inv splits.0 h high prev at;
          heights =
              All-append (λ n. (0 < new n) × (new n ≤ new_top h)) ahead (s.allocated ∷ behind)
                (taller h (new_top h) ahead top_old parts.0 fresh.0)
                ((omega arith, omega arith), taller h (new_top h) behind top_old parts.1 fresh.1);
          addresses =
              All-append (λ n. (0 < n) × (n < suc s.allocated)) ahead (s.allocated ∷ behind)
                (later ahead held.0)
                ((omega (arith, inv.counted), omega arith), later behind held.1);
          distinct =
              Distinct-insert s.allocated ahead behind (subst Distinct splits.0 inv.distinct)
                ns_fresh;
          sorted = new-Sorted absent;
          counted = omega (
            arith,
            inv.counted,
            length-append ahead (s.allocated ∷ behind),
            length-append ahead behind,
            ap length splits.0,
          );
          max_range = (omega (arith, inv.max_range), top_max high);
        }
