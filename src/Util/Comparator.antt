-- ===== src/Util/Comparator.antt =====
-- leveldb/comparator.h and util/comparator.cpp: the interface of key orders, and the byte-wise
-- comparator that implements it.
pub mod Bytewise
pub mod Facts
use Prim.Native.Nat.{Ordering, lt, eq, gt}
use level_db.Common.{
  ℕ, zero, suc, ◌+◌, List, [], ◌∷◌, ◌++◌, length, take, get_or, ltb, leb, ◌==◌, ◌&&◌, if◌then◌else◌,
  ◌≡◌, ◌≢◌, ◌≤◌,
}
use level_db.Util.Slice.{slice_compare}
use level_db.Util.Slice.Order.{flip}

-- class Comparator, its virtual methods; Name() is not modelled.
pub record Comparator : Type 0 where
  pub compare : List ℕ → List ℕ → Ordering
  pub find_shortest_separator : List ℕ → List ℕ → List ℕ
  pub find_short_successor : List ℕ → List ℕ

-- What the header promises of Compare: a total order.
pub record IsOrder (c : Comparator) : Type 0 where
  pub compare_self : (a : List ℕ) → c.compare a a ≡ eq
  pub compare_swap : (a b : List ℕ) → c.compare b a ≡ flip (c.compare a b)
  pub compare-le_trans :
      (a b d : List ℕ) → c.compare a b ≢ gt → c.compare b d ≢ gt → c.compare a d ≢ gt

-- What the header promises of the two shortening methods.
pub record Shortens (c : Comparator) : Type 0 where
  pub separator_ge :
      (start limit : List ℕ)
      → c.compare start limit ≡ lt
      → c.compare start (c.find_shortest_separator start limit) ≢ gt
  pub separator_lt :
      (start limit : List ℕ)
      → c.compare start limit ≡ lt
      → c.compare (c.find_shortest_separator start limit) limit ≡ lt
  pub separator_unchanged :
      (start limit : List ℕ)
      → c.compare start limit ≢ lt
      → c.find_shortest_separator start limit ≡ start
  pub successor_ge : (key : List ℕ) → c.compare key (c.find_short_successor key) ≢ gt

-- The loop on `diff_index`: how long the common prefix is.
unfoldable pub common_prefix : List ℕ → List ℕ → ℕ
common_prefix [] limit = 0
common_prefix (x ∷ start) [] = 0
common_prefix (x ∷ start) (y ∷ limit) =
    let more = suc (common_prefix start limit) in if x == y then more else 0

unfoldable pub bytewise_separator : List ℕ → List ℕ → List ℕ
unfolding common_prefix
bytewise_separator start limit =
    let min_length = if ltb (length start) (length limit) then length start else length limit in
    let diff_index = common_prefix start limit in
    let diff_byte = get_or start diff_index 0 in
    if leb min_length diff_index
    then start
    else if ltb diff_byte 0xff && ltb (diff_byte + 1) (get_or limit diff_index 0)
    then take diff_index start ++ ((diff_byte + 1) ∷ [])
    else start

-- The loop of FindShortSuccessor: the first byte that is not 0xff is incremented and ends the
-- key. A run of 0xffs is left alone.
unfoldable pub bytewise_successor : List ℕ → List ℕ
bytewise_successor [] = []
bytewise_successor (b ∷ key) =
    let rest = bytewise_successor key in if b == 0xff then b ∷ rest else (b + 1) ∷ []

unfoldable pub bytewise_comparator : Comparator
unfolding slice_compare bytewise_separator bytewise_successor
bytewise_comparator = record {
  compare = slice_compare;
  find_shortest_separator = bytewise_separator;
  find_short_successor = bytewise_successor;
}
