-- ===== src/Util/Slice.antt =====
-- leveldb/slice.h: comparison of byte strings. The sign of a C++ `int` result is an Ordering:
-- `lt` for a negative, `eq` for zero, `gt` for a positive result.
pub mod Order
use Prim.Native.Nat.{compare, Ordering, lt, eq, gt}
use level_db.Common.{
  ℕ, zero, suc, List, [], ◌∷◌, length, take, drop, ltb, leb, ◌==◌, Bool, true, false, ◌&&◌,
  if◌then◌else◌,
}

-- `memcmp` on the first `n` bytes; it is called with `n` at most both lengths.
unfoldable pub memcmp : ℕ → List ℕ → List ℕ → Ordering
memcmp zero a b = eq
memcmp (suc n) [] b = eq
memcmp (suc n) (x ∷ a) [] = eq
memcmp (suc n) (x ∷ a) (y ∷ b) =
    let rest = memcmp n a b in elim (compare x y) [ lt ↦ lt | eq ↦ rest | gt ↦ gt ]

abbrev pub is_eq : Ordering → Bool
is_eq eq = true
is_eq lt = false
is_eq gt = false

abbrev pub is_lt : Ordering → Bool
is_lt lt = true
is_lt eq = false
is_lt gt = false

abbrev pub is_gt : Ordering → Bool
is_gt gt = true
is_gt eq = false
is_gt lt = false

-- The order of the lengths, for equal common parts.
abbrev pub by_size : Ordering → ℕ → ℕ → Ordering
by_size lt m n = lt
by_size gt m n = gt
by_size eq m n = if ltb m n then lt else if ltb n m then gt else eq

unfoldable pub slice_compare : List ℕ → List ℕ → Ordering
unfolding memcmp
slice_compare a b =
    let min_size = if ltb (length a) (length b) then length a else length b in
    by_size (memcmp min_size a b) (length a) (length b)

unfoldable pub slice_eq : List ℕ → List ℕ → Bool
unfolding memcmp
slice_eq a b = (length a == length b) && is_eq (memcmp (length a) a b)

unfoldable pub starts_with : List ℕ → List ℕ → Bool
unfolding memcmp
starts_with s x = leb (length x) (length s) && is_eq (memcmp (length x) s x)

unfoldable pub remove_prefix : ℕ → List ℕ → List ℕ
remove_prefix n s = drop n s
