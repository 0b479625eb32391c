-- ===== src/Db/SkipList/Abstract.antt =====
-- The operations on an ascending list of keys, where a key stands among the nodes.
use Prim.Native.Nat.{Ordering, lt, gt}
use mathlib.Core.Option
use level_db.Common.{
  ℕ, Bool, true, false, List, [], ◌∷◌, ◌++◌, All, map, Option, none, some, ◌≡◌, refl, ap, arith,
}
use level_db.Util.Slice.{is_lt}
use level_db.Db.SkipList.Levels.{last_or}
use level_db.Db.SkipList.Ordered.{
  IsKeyOrder, Sorted, insert_sorted, first_from, last_before, member,
}

abbrev pub head? {ℓ} : {A : Type ℓ} → List A → Option A
head? [] = none
head? (x ∷ xs) = some x

unfoldable pub last {ℓ} : {A : Type ℓ} → List A → Option A
last [] = none
last (x ∷ xs) = elim (last xs) [ none ↦ some x | some y ↦ some y ]

pub map-append {ℓ κ} :
    {A : Type ℓ} {B : Type κ} (f : A → B) (xs ys : List A) → map f (xs ++ ys) ≡ map f xs ++ map f ys
map-append f [] ys = refl
map-append f (x ∷ xs) ys = ap (◌∷◌ (f x)) (map-append f xs ys)

pub head-map {ℓ κ} :
    {A : Type ℓ} {B : Type κ} (f : A → B) (xs : List A) → Option.map f (head? xs) ≡ head? (map f xs)
head-map f [] = refl
head-map f (x ∷ xs) = refl

module _ {K : Type 0} (compare : K → K → Ordering) where
  -- The abstract operations where the key stands.
  module _ (key : ℕ → K) (k : K) (behind : List ℕ) where
    pub insert_sorted-split :
        (ahead : List ℕ)
        → All (λ n. is_lt (compare (key n) k) ≡ true) ahead
        → All (λ n. is_lt (compare (key n) k) ≡ false) behind
        → insert_sorted compare k (map key (ahead ++ behind))
          ≡ map key ahead ++ (k ∷ map key behind)
    unfolding insert_sorted
    insert_sorted-split (n ∷ ahead) (p, ps) q =
        rw p (ap (◌∷◌ (key n)) (insert_sorted-split ahead ps q))
    insert_sorted-split [] ps q = go behind q
      where
        go :
            (l : List ℕ)
            → All (λ n. is_lt (compare (key n) k) ≡ false) l
            → insert_sorted compare k (map key l) ≡ k ∷ map key l
        go [] q = refl
        go (n ∷ l) (q, qs) = rw q refl

    pub first_from-split :
        (ahead : List ℕ)
        → All (λ n. is_lt (compare (key n) k) ≡ true) ahead
        → All (λ n. is_lt (compare (key n) k) ≡ false) behind
        → first_from compare k (map key (ahead ++ behind)) ≡ head? (map key behind)
    unfolding first_from
    first_from-split (n ∷ ahead) (p, ps) q = rw p (first_from-split ahead ps q)
    first_from-split [] ps q = go behind q
      where
        go :
            (l : List ℕ)
            → All (λ n. is_lt (compare (key n) k) ≡ false) l
            → first_from compare k (map key l) ≡ head? (map key l)
        go [] q = refl
        go (n ∷ l) (q, qs) = rw q refl

    pub last_before-split :
        (ahead : List ℕ)
        → All (λ n. is_lt (compare (key n) k) ≡ true) ahead
        → All (λ n. is_lt (compare (key n) k) ≡ false) behind
        → last_before compare k (map key (ahead ++ behind)) ≡ last (map key ahead)
    unfolding last_before last
    last_before-split (n ∷ ahead) (p, ps) q = rw (p, last_before-split ahead ps q) refl
    last_before-split [] ps q = go behind q
      where
        go :
            (l : List ℕ)
            → All (λ n. is_lt (compare (key n) k) ≡ false) l
            → last_before compare k (map key l) ≡ none
        go [] q = refl
        go (n ∷ l) (q, qs) = rw q refl

  -- Whether the node that the search found has the key.
  abbrev pub hit : (ℕ → K) → K → Option ℕ → Bool
  hit key k none = false
  hit key k (some n) = elim (compare k (key n)) [ Ordering.eq ↦ true | _ ↦ false ]

  module _ (ord : IsKeyOrder compare) (key : ℕ → K) (k : K) where
    member-above :
        (n : ℕ) (l : List ℕ)
        → compare k (key n) ≡ lt
        → All (λ m. compare (key n) (key m) ≡ lt) l
        → member compare k (map key l) ≡ false
    unfolding member
    member-above n [] h below = refl
    member-above n (m ∷ l) h (b, below) =
        rw (ord.lt_trans k (key n) (key m) h b) (member-above n l h below)

    member-behind :
        (behind : List ℕ)
        → All (λ n. is_lt (compare (key n) k) ≡ false) behind
        → Sorted compare key behind
        → member compare k (map key behind) ≡ hit key k (head? behind)
    unfolding member
    member-behind [] q s = refl
    member-behind (n ∷ l) (q, qs) (below, s) =
        ground (arith, q, ord.compare_swap (key n) k, member-above n l)

    pub member-split :
        (ahead behind : List ℕ)
        → All (λ n. is_lt (compare (key n) k) ≡ true) ahead
        → All (λ n. is_lt (compare (key n) k) ≡ false) behind
        → Sorted compare key (ahead ++ behind)
        → member compare k (map key (ahead ++ behind)) ≡ hit key k (head? behind)
    unfolding member
    member-split [] behind ps qs s = member-behind behind qs s
    member-split (n ∷ ahead) behind (p, ps) qs (below, s) =
        let after : compare k (key n) ≡ gt = ground (arith, p, ord.compare_swap (key n) k) in
        rw after (member-split ahead behind ps qs s)

  pub last-key :
      (key : ℕ → K) (n : ℕ) (l : List ℕ) → last (map key (n ∷ l)) ≡ some (key (last_or n l))
  unfolding last
  last-key key n [] = refl
  last-key key n (m ∷ l) = rw (last-key key m l) refl
