-- ===== src/Db/SkipList/Ordered.antt =====
-- The nodes of the skip list in the order of their keys, and where a key stands among them.
use Prim.Native.Nat.{Ordering, lt}
use level_db.Common.{
  ℕ, Bool, true, false, List, [], ◌∷◌, ◌++◌, All, map, if◌then◌else◌, Option, none, some, ◌≡◌, inl,
  inr, refl, ap, arith, Bool-cases,
}
use level_db.Util.Slice.{is_lt}
use level_db.Util.Slice.Order.{flip}
use level_db.Db.SkipList.Levels.{level}

-- What the comparator of a skip list promises.
pub record IsKeyOrder {K : Type 0} (compare : K → K → Ordering) : Type 0 where
  pub compare_swap : (a b : K) → compare b a ≡ flip (compare a b)
  pub lt_trans : (a b c : K) → compare a b ≡ lt → compare b c ≡ lt → compare a c ≡ lt

pub All-append : (P : ℕ → Type 0) (xs ys : List ℕ) → All P xs → All P ys → All P (xs ++ ys)
All-append P [] ys px py = py
All-append P (x ∷ xs) ys (p, px) py = (p, All-append P xs ys px py)

pub All-parts : (P : ℕ → Type 0) (xs ys : List ℕ) → All P (xs ++ ys) → All P xs × All P ys
All-parts P [] ys ps = (tt, ps)
All-parts P (x ∷ xs) ys (p, ps) = ((p, (All-parts P xs ys ps).0), (All-parts P xs ys ps).1)

pub All-map : (P Q : ℕ → Type 0) (ns : List ℕ) → ((n : ℕ) → P n → Q n) → All P ns → All Q ns
All-map P Q [] f ps = tt
All-map P Q (n ∷ ns) f (p, ps) = (f n p, All-map P Q ns f ps)

pub level-same :
    (height height' : ℕ → ℕ) (i : ℕ) (ns : List ℕ)
    → All (λ n. height' n ≡ height n) ns
    → level height' i ns ≡ level height i ns
level-same height height' i [] h = refl
level-same height height' i (n ∷ ns) (e, h) = rw (e, level-same height height' i ns h) refl

pub map-same :
    {K : Type 0} (key key' : ℕ → K) (ns : List ℕ)
    → All (λ n. key' n ≡ key n) ns
    → map key' ns ≡ map key ns
map-same key key' [] h = refl
map-same key key' (n ∷ ns) (e, h) = rw (e, map-same key key' ns h) refl

module _ {K : Type 0} (compare : K → K → Ordering) where
  abbrev pub Sorted : (ℕ → K) → List ℕ → Type 0
  Sorted key [] = Unit
  Sorted key (n ∷ ns) = All (λ m. compare (key n) (key m) ≡ lt) ns × Sorted key ns

  pub Sorted-same :
      (key key' : ℕ → K) (ns : List ℕ)
      → All (λ n. key' n ≡ key n) ns
      → Sorted key ns
      → Sorted key' ns
  Sorted-same key key' [] h s = tt
  Sorted-same key key' (n ∷ ns) (e, h) (below, s) = (each ns h below, Sorted-same key key' ns h s)
    where
      each :
          (ms : List ℕ)
          → All (λ m. key' m ≡ key m) ms
          → All (λ m. compare (key n) (key m) ≡ lt) ms
          → All (λ m. compare (key' n) (key' m) ≡ lt) ms
      each [] hm b = tt
      each (m ∷ ms) (em, hm) (b, bs) = (rw (e, em) b, each ms hm bs)

  pub Sorted-insert :
      (key : ℕ → K) (x : ℕ) (xs ys : List ℕ)
      → Sorted key (xs ++ ys)
      → All (λ n. compare (key n) (key x) ≡ lt) xs
      → All (λ n. compare (key x) (key n) ≡ lt) ys
      → Sorted key (xs ++ (x ∷ ys))
  Sorted-insert key x [] ys s below above = (above, s)
  Sorted-insert key x (n ∷ xs) ys (s, ss) (b, below) above = (
    All-append (λ m. compare (key n) (key m) ≡ lt) xs (x ∷ ys)
        (All-parts (λ m. compare (key n) (key m) ≡ lt) xs ys s).0
        (b, (All-parts (λ m. compare (key n) (key m) ≡ lt) xs ys s).1),
    Sorted-insert key x xs ys ss below above,
  )

  -- The nodes that a key is after, and the others.
  abbrev pub Splits : (ℕ → K) → K → List ℕ → List ℕ → List ℕ → Type 0
  Splits key k ns ahead behind =
      (ns ≡ ahead ++ behind)
      × All (λ n. is_lt (compare (key n) k) ≡ true) ahead
      × All (λ n. is_lt (compare (key n) k) ≡ false) behind

  module _ (ord : IsKeyOrder compare) where
    not_before :
        (key : ℕ → K) (k : K) (n : ℕ) (ns : List ℕ)
        → is_lt (compare (key n) k) ≡ false
        → All (λ m. compare (key n) (key m) ≡ lt) ns
        → All (λ m. is_lt (compare (key m) k) ≡ false) ns
    not_before key k n [] h below = tt
    not_before key k n (m ∷ ns) h (b, below) =
        (ground (arith, ord.lt_trans (key n) (key m) k), not_before key k n ns h below)

    pub split :
        (key : ℕ → K) (k : K) (ns : List ℕ)
        → Sorted key ns
        → (ahead : List ℕ) × (behind : List ℕ) × Splits key k ns ahead behind
    split key k [] s = ([], [], (refl, tt, tt))
    split key k (n ∷ ns) (below, s) = elim (Bool-cases (is_lt (compare (key n) k))) [
      | inl before ↦
          let (ahead, behind, (e, passed, left)) = split key k ns s in
          (n ∷ ahead, behind, (ap (◌∷◌ n) e, (before, passed), left))
      | inr after ↦ ([], n ∷ ns, (refl, tt, (after, not_before key k n ns after below)))
    ]

-- The abstract view: the ascending list of keys.
module _ {K : Type 0} (compare : K → K → Ordering) where
  unfoldable pub insert_sorted : K → List K → List K
  insert_sorted k [] = k ∷ []
  insert_sorted k (y ∷ ys) =
      let rest = insert_sorted k ys in if is_lt (compare y k) then y ∷ rest else k ∷ y ∷ ys

  unfoldable pub first_from : K → List K → Option K
  first_from k [] = none
  first_from k (y ∷ ys) = let rest = first_from k ys in if is_lt (compare y k) then rest else some y

  unfoldable pub last_before : K → List K → Option K
  last_before k [] = none
  last_before k (y ∷ ys) =
      let rest = last_before k ys in
      if is_lt (compare y k) then (elim rest [ none ↦ some y | some z ↦ some z ]) else none

  unfoldable pub member : K → List K → Bool
  member k [] = false
  member k (y ∷ ys) = let rest = member k ys in elim (compare k y) [ Ordering.eq ↦ true | _ ↦ rest ]
