-- ===== src/Db/SkipList/Set.antt =====
-- When the store of a skip list holds a list of nodes.
use Prim.Native.Nat.{Ordering}
use mathlib.Core.Path.{subst}
use level_db.Common.{
  ℕ, zero, suc, ◌+◌, ◌≤◌, ◌<◌, true, false, List, [], ◌∷◌, length, All, none, some, ◌≡◌, refl,
  arith,
}
use level_db.Util.Slice.{is_lt}
use level_db.Util.Random as Random
use level_db.Db.SkipList.{SkipList, grow, random_height, forward, key_is_after_node}
use level_db.Db.SkipList.Levels.{level, Linked}
use level_db.Db.SkipList.Search.{Searched}
use level_db.Db.SkipList.Insert.{Distinct}
use level_db.Db.SkipList.Ordered.{Sorted, Splits, All-map}

grow_range :
    (n height seed : ℕ) → (height ≤ (grow n height seed).0) × ((grow n height seed).0 ≤ height + n)
unfolding grow
grow_range zero height seed = omega arith
grow_range (suc n) height seed = ground (arith, grow_range n (suc height) (Random.next seed))

pub random_height_range : (seed : ℕ) → (0 < (random_height seed).0) × ((random_height seed).0 ≤ 12)
unfolding random_height
random_height_range seed = omega (arith, grow_range 11 1 seed)

module _ {K : Type 0} (compare : K → K → Ordering) where
  pub record IsSkipList (s : SkipList K) (ns : List ℕ) : Type 0 where
    pub linked : (i : ℕ) → i < 12 → Linked s.next i 0 (level s.height i ns)
    pub heights : All (λ n. (0 < s.height n) × (s.height n ≤ s.max_height)) ns
    pub addresses : All (λ n. (0 < n) × (n < s.allocated)) ns
    pub distinct : Distinct ns
    pub sorted : Sorted compare s.key ns
    pub counted : length ns < s.allocated
    pub max_range : (0 < s.max_height) × (s.max_height ≤ 12)

  -- The whole list at the lowest level.
  pub level_zero :
      (height : ℕ → ℕ) (top : ℕ) (ns : List ℕ)
      → All (λ n. (0 < height n) × (height n ≤ top)) ns
      → level height 0 ns ≡ ns
  level_zero height top [] h = refl
  level_zero height top (n ∷ ns) ((p, q), h) = ground (arith, p, level_zero height top ns h)

  pub level_top :
      (height : ℕ → ℕ) (top i : ℕ) (ns : List ℕ)
      → top ≤ i
      → All (λ n. (0 < height n) × (height n ≤ top)) ns
      → level height i ns ≡ []
  level_top height top i [] hi h = refl
  level_top height top i (n ∷ ns) hi ((p, q), h) =
      ground (arith, q, hi, level_top height top i ns hi h)

  module _ (s : SkipList K) (k : K) where
    forward-none : (x i : ℕ) → s.next x i ≡ none → forward compare s k x i ≡ none
    unfolding forward key_is_after_node
    forward-none x i e = rw e refl

    forward-some :
        (n : ℕ)
        → is_lt (compare (s.key n) k) ≡ true
        → (x i : ℕ) → s.next x i ≡ some n
        → forward compare s k x i ≡ some n
    unfolding forward key_is_after_node
    forward-some n h x i e = rw (e, h) refl

    forward_stop :
        (n : ℕ)
        → is_lt (compare (s.key n) k) ≡ false
        → (x i : ℕ) → s.next x i ≡ some n
        → forward compare s k x i ≡ none
    unfolding forward key_is_after_node
    forward_stop n h x i e = rw (e, h) refl

    pub Splits-Searched :
        (ns ahead behind : List ℕ)
        → IsSkipList s ns
        → Splits compare s.key k ns ahead behind
        → Searched s.next s.height (forward compare s k) s.max_height ahead behind
    Splits-Searched ns ahead behind inv (e, passed, left) = record {
      linked = λ i hi.
          subst (λ l. Linked s.next i 0 (level s.height i l)) e
            (inv.linked i (omega (arith, inv.max_range)));
      stops = forward-none;
      passes = All-map _ _ ahead forward-some passed;
      blocks = All-map _ _ behind forward_stop left;
    }
