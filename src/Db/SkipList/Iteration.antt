-- ===== src/Db/SkipList/Iteration.antt =====
-- A pass over the skip list shows its keys in order, and FindLast finds the last of them.
use Prim.Native.Nat.{Ordering}
use mathlib.Core.Path.{subst}
use level_db.Common.{
  ℕ, zero, suc, ◌+◌, ◌<◌, List, [], ◌∷◌, length, All, map, some, ◌≡◌, ◌≢◌, refl, sym, ap, ◌∙◌,
  arith, append-nil,
}
use level_db.Db.SkipList.{SkipList, find_last, visit, seek_to_first}
use level_db.Db.SkipList.Levels.{level, last_or, Linked}
use level_db.Db.SkipList.Search.{Searched, search-Found}
use level_db.Db.SkipList.Ordered.{All-map}
use level_db.Db.SkipList.Abstract.{last}
use level_db.Db.SkipList.Set.{IsSkipList, level_zero}
use level_db.Db.SkipList.Refines.{Represents, IsBefore, last-IsBefore}

module _ {K : Type 0} (compare : K → K → Ordering) where
  no_head : (s : SkipList K) (ns : List ℕ) → IsSkipList compare s ns → All (λ n. n ≢ 0) ns
  no_head s ns inv =
      All-map (λ n. (0 < n) × (n < s.allocated)) (λ n. n ≢ 0) ns (λ n p c. omega (arith, p.0, c))
        inv.addresses

  visit-Linked :
      (s : SkipList K) (ns : List ℕ) (p fuel : ℕ)
      → length ns < fuel
      → Linked s.next 0 p ns
      → visit s fuel (s.next p 0) ≡ map s.key ns
  unfolding visit
  visit-Linked s [] p zero h e = absurd (omega arith)
  visit-Linked s [] p (suc fuel) h e = rw (e, visit) refl
  visit-Linked s (n ∷ ns) p zero h l = absurd (omega arith)
  visit-Linked s (n ∷ ns) p (suc fuel) h (e, l) =
      rw (e, visit) (ap (◌∷◌ (s.key n)) (visit-Linked s ns n fuel (omega arith) l))

  -- Results
  pub find_last-last :
      (s : SkipList K) (ks : List K)
      → Represents compare s ks
      → (n : ℕ) × (find_last s ≡ some n) × IsBefore compare s n (last ks)
  unfolding find_last
  find_last-last s ks (ns, inv, e) =
      let found : Searched s.next s.height s.next s.max_height ns [] = record {
        linked = λ i hi.
            subst (λ (l : List ℕ). Linked s.next i 0 (level s.height i l)) (sym (append-nil ns))
              (inv.linked i (omega (arith, inv.max_range)));
        stops = λ x i h. h;
        passes =
            All-map (λ n. n ≢ 0) (λ n. (x i : ℕ) → s.next x i ≡ some n → s.next x i ≡ some n) ns
              (λ n p x i h. h) (no_head s ns inv);
        blocks = tt;
      } in
      let (prev, result, at) =
        search-Found s.next s.height s.next s.max_height ns [] found (s.allocated + s.max_height)
          inv.max_range.0 (omega (arith, inv.counted)) in
      let bottom = level_zero compare s.height s.max_height ns inv.heights in
      (
        last_or 0 ns,
        rw (result ∙ ap (λ (l : List ℕ). some (last_or 0 l, prev)) bottom) refl,
        subst (λ (l : List K). IsBefore compare s (last_or 0 ns) (last l)) e
            (last-IsBefore compare s ns (no_head s ns inv)),
      )

  -- If the store holds an ascending list of keys, then a pass with SeekToFirst, Valid and Next
  -- shows the keys of the list, each once and in order.
  pub visit-keys :
      (s : SkipList K) (ks : List K)
      → Represents compare s ks
      → visit s s.allocated (seek_to_first s) ≡ ks
  unfolding seek_to_first
  visit-keys s ks (ns, inv, e) =
      let bottom = level_zero compare s.height s.max_height ns inv.heights in
      visit-Linked s ns 0 s.allocated (omega (arith, inv.counted))
        (subst (Linked s.next 0 0) bottom (inv.linked 0 (omega arith)))
      ∙ e
