-- ===== src/Db/SkipList.antt =====
-- db/skiplist.h: the ordered set under the memtable, on a store of nodes.
--
-- A node is a number, its address; the head is 0, and `allocated` is the next free address. `key`
-- and `height` are what a node was made with; `next x i` is its pointer at the level i, none for
-- NULL. The heights come from util/random.h.
pub mod Levels
pub mod Search
pub mod Insert
pub mod Ordered
pub mod Set
pub mod Relinked
pub mod Inserted
pub mod Abstract
pub mod Refines
pub mod Iteration
mod Tests
use Prim.Native.Nat.{Ordering, eq}
use level_db.Common.{
  ℕ, zero, suc, ◌+◌, ◌-◌, ◌%◌, Bool, true, false, List, [], ◌∷◌, ltb, ◌==◌, if◌then◌else◌, Option,
  none, some, ◌>>=◌,
}
use level_db.Util.Slice.{is_lt}
use level_db.Util.Random as Random

abbrev pub max_level : ℕ
max_level = 12

pub record SkipList (K : Type 0) : Type 0 where
  pub key : ℕ → K
  pub height : ℕ → ℕ
  pub next : ℕ → ℕ → Option ℕ
  pub allocated : ℕ
  pub max_height : ℕ
  pub seed : ℕ

-- Another value at one place of an array.
abbrev pub store {ℓ} : {A : Type ℓ} → (ℕ → A) → ℕ → A → ℕ → A
store f i a j = if j == i then a else f j

abbrev pub store_next : (ℕ → ℕ → Option ℕ) → ℕ → ℕ → Option ℕ → ℕ → ℕ → Option ℕ
store_next next x i n = store next x (store (next x) i n)

-- The loop of RandomHeight: the fuel is what is left up to kMaxHeight.
unfoldable pub grow : ℕ → ℕ → ℕ → ℕ × ℕ
grow zero height seed = (height, seed)
grow (suc n) height seed =
    let seed = Random.next seed in
    elim (seed % 4 == 0) [ true ↦ grow n (suc height) seed | false ↦ (height, seed) ]

unfoldable pub random_height : ℕ → ℕ × ℕ
random_height seed = grow (max_level - 1) 1 seed

-- The loop of the three searches: `forward x level` is the node that the search goes on to at this
-- level. It ends with the last node at level 0, and `prev` has the last node of every level.
-- `none` is no behaviour of the source: the rounds did not suffice.
unfoldable pub search_loop : (ℕ → ℕ → Option ℕ) → ℕ → ℕ → ℕ → (ℕ → ℕ) → Option (ℕ × (ℕ → ℕ))
search_loop forward zero x level prev = none
search_loop forward (suc fuel) x level prev = elim (forward x level) [
  | some n ↦ search_loop forward fuel n level prev
  | none ↦ elim level [
    | zero ↦ some (x, store prev 0 x)
    | suc below ↦ search_loop forward fuel x below (store prev (suc below) x)
  ]
]

-- NewNode, and `prev[i] = head_` for the levels that are new.
unfoldable pub raise : ℕ → ℕ → (ℕ → ℕ) → ℕ → ℕ
raise zero i prev = prev
raise (suc n) i prev = raise n (suc i) (store prev i 0)

-- The loop of Insert over the levels of the new node x.
unfoldable pub link : ℕ → ℕ → ℕ → (ℕ → ℕ) → (ℕ → ℕ → Option ℕ) → ℕ → ℕ → Option ℕ
link zero i x prev next = next
link (suc n) i x prev next =
    link n (suc i) x prev (store_next (store_next next x i (next (prev i) i)) (prev i) i (some x))

-- `max_height_` is 1 in the constructor, and the seed is 0xdeadbeef.
abbrev pub new_list : {K : Type 0} → K → SkipList K
new_list any_key = record {
  key = λ n. any_key;
  height = λ n. max_level;
  next = λ n i. none;
  allocated = 1;
  max_height = 1;
  seed = Random.seeded 0xdeadbeef;
}

module _ {K : Type 0} where
  abbrev pub search : SkipList K → (ℕ → ℕ → Option ℕ) → Option (ℕ × (ℕ → ℕ))
  search s step = search_loop step (s.allocated + s.max_height) 0 (s.max_height - 1) (λ i. 0)

  unfoldable pub find_last : SkipList K → Option ℕ
  find_last s = search s s.next >>= λ (found : ℕ × (ℕ → ℕ)). some found.0

  unfoldable pub insert_at : SkipList K → K → (ℕ → ℕ) → SkipList K
  insert_at s k prev =
      let (height, seed) = random_height s.seed in
      let x = s.allocated in
      let prev = raise (height - s.max_height) s.max_height prev in
      record {
        key = store s.key x k;
        height = store s.height x height;
        next = link height 0 x prev (store s.next x (λ i. none));
        allocated = suc x;
        max_height = if ltb s.max_height height then height else s.max_height;
        seed = seed;
      }

  -- The iterator is its node, none for NULL; key() and Next() ask for a node.
  unfoldable pub seek_to_first : SkipList K → Option ℕ
  seek_to_first s = s.next 0 0

  unfoldable pub seek_to_last : SkipList K → Option (Option ℕ)
  seek_to_last s = find_last s >>= λ (n : ℕ). some (if n == 0 then none else some n)

  unfoldable pub iter_next : SkipList K → ℕ → Option ℕ
  iter_next s node = s.next node 0

  -- The keys of a loop over the iterator with Valid and Next.
  unfoldable pub visit : SkipList K → ℕ → Option ℕ → List K
  unfolding iter_next
  visit s zero position = []
  visit s (suc fuel) none = []
  visit s (suc fuel) (some at_node) = s.key at_node ∷ visit s fuel (iter_next s at_node)

module _ {K : Type 0} (compare : K → K → Ordering) where
  unfoldable pub key_is_after_node : SkipList K → K → Option ℕ → Bool
  key_is_after_node s k none = false
  key_is_after_node s k (some n) = is_lt (compare (s.key n) k)

  -- The next node at this level, if the key is after it.
  unfoldable pub forward : SkipList K → K → ℕ → ℕ → Option ℕ
  forward s k x level = if key_is_after_node s k (s.next x level) then s.next x level else none

  unfoldable pub find_greater_or_equal : SkipList K → K → Option (Option ℕ × (ℕ → ℕ))
  find_greater_or_equal s k =
      search s (forward s k) >>= λ (found : ℕ × (ℕ → ℕ)). some (s.next found.0 0, found.1)

  unfoldable pub find_less_than : SkipList K → K → Option ℕ
  find_less_than s k = search s (forward s k) >>= λ (found : ℕ × (ℕ → ℕ)). some found.0

  unfoldable pub insert : SkipList K → K → Option (SkipList K)
  insert s k =
      find_greater_or_equal s k >>= λ (found : Option ℕ × (ℕ → ℕ)). some (insert_at s k found.1)

  unfoldable pub contains : SkipList K → K → Option Bool
  contains s k = find_greater_or_equal s k >>= λ (found : Option ℕ × (ℕ → ℕ)). elim found.0 [
    | none ↦ some false
    | some n ↦ some (elim (compare k (s.key n)) [ Ordering.eq ↦ true | _ ↦ false ])
  ]

  unfoldable pub iter_prev : SkipList K → ℕ → Option (Option ℕ)
  iter_prev s node =
      find_less_than s (s.key node) >>= λ (n : ℕ). some (if n == 0 then none else some n)

  unfoldable pub seek : SkipList K → K → Option (Option ℕ)
  seek s target = find_greater_or_equal s target >>= λ (found : Option ℕ × (ℕ → ℕ)). some found.0
