-- ===== src/Util/Comparator/Bytewise.antt =====
-- The byte-wise comparator keeps the contract of leveldb/comparator.h.
use Prim.Native.Nat.{lt, gt}
use level_db.Common.{
  ap, ℕ, ◌+◌, ◌<◌, ◌≤◌, List, [], ◌∷◌, length, take, get_or, ◌≡◌, ◌≢◌, arith, length-take_le,
  length-append, ◌⊎◌, inl, inr,
}
use level_db.Util.Slice.Order.{lex, slice_compare-lex, lex_refl, lex-swap, lex-le_trans}
use level_db.Util.Comparator.{
  IsOrder, Shortens, common_prefix, bytewise_separator, bytewise_successor, bytewise_comparator,
}

separator_cons :
    (x : ℕ) (start limit : List ℕ)
    → bytewise_separator (x ∷ start) (x ∷ limit) ≡ x ∷ bytewise_separator start limit
unfolding bytewise_separator
separator_cons x start limit = ground arith

abbrev Between : List ℕ → List ℕ → List ℕ → Type 0
Between start mid limit = (lex start mid ≢ gt) × (lex mid limit ≡ lt)

separator_head :
    (x y : ℕ) (start limit : List ℕ)
    → x < y
    → Between (x ∷ start) (bytewise_separator (x ∷ start) (y ∷ limit)) (y ∷ limit)
unfolding bytewise_separator lex
separator_head x y start limit h = (ground (arith, lex_refl start), ground arith)

separator_nil :
    (y : ℕ) (limit : List ℕ) → Between [] (bytewise_separator [] (y ∷ limit)) (y ∷ limit)
unfolding bytewise_separator lex
separator_nil y limit = (ground arith, ground arith)

Between-cons :
    (x : ℕ) (start mid limit : List ℕ)
    → Between start mid limit
    → Between (x ∷ start) (x ∷ mid) (x ∷ limit)
unfolding lex
Between-cons x start mid limit b = (ground (arith, b.0), ground (arith, b.1))

lt_heads :
    (x y : ℕ) (a b : List ℕ) → lex (x ∷ a) (y ∷ b) ≡ lt → (x < y) ⊎ ((x ≡ y) × (lex a b ≡ lt))
unfolding lex
lt_heads x y a b h = ground arith

not_lt_heads :
    (x y : ℕ) (a b : List ℕ) → lex (x ∷ a) (y ∷ b) ≢ lt → (y < x) ⊎ ((x ≡ y) × (lex a b ≢ lt))
unfolding lex
not_lt_heads x y a b h = ground arith

separator-Between :
    (start limit : List ℕ)
    → lex start limit ≡ lt
    → Between start (bytewise_separator start limit) limit
separator-Between [] [] h = absurd (unfold lex in cc)
separator-Between [] (y ∷ limit) h = separator_nil y limit
separator-Between (x ∷ start) [] h = absurd (unfold lex in cc)
separator-Between (x ∷ start) (y ∷ limit) h = elim (lt_heads x y start limit h) [
  | inl less ↦ separator_head x y start limit less
  | inr (same, tails) ↦
      rw (← same, separator_cons x start limit)
        (Between-cons x start (bytewise_separator start limit) limit
          (separator-Between start limit tails))
]

separator_kept :
    (start limit : List ℕ) → lex start limit ≢ lt → bytewise_separator start limit ≡ start
separator_kept [] limit h = unfold bytewise_separator in ground arith
separator_kept (x ∷ start) [] h = unfold bytewise_separator in ground arith
separator_kept (x ∷ start) (y ∷ limit) h = elim (not_lt_heads x y start limit h) [
  | inl more ↦ unfold bytewise_separator in ground arith
  | inr (same, tails) ↦
      rw (← same, separator_cons x start limit) (ap (◌∷◌ x) (separator_kept start limit tails))
]

successor_ge_lex : (key : List ℕ) → lex key (bytewise_successor key) ≢ gt
unfolding bytewise_successor lex
successor_ge_lex [] = λ e. cc
successor_ge_lex (b ∷ key) = ground (arith, successor_ge_lex key)

-- The byte-wise comparator is a total order.
pub bytewise_comparator-IsOrder : IsOrder bytewise_comparator
unfolding bytewise_comparator
bytewise_comparator-IsOrder = record {
  compare_self = λ a. rw (slice_compare-lex a a) (lex_refl a);
  compare_swap = λ a b. rw (slice_compare-lex a b, slice_compare-lex b a) (lex-swap a b);
  compare-le_trans = λ a b d p q.
      rw (slice_compare-lex a d)
        (lex-le_trans a b d (rw (slice_compare-lex a b) at p) (rw (slice_compare-lex b d) at q));
}

-- If start is below limit, the byte-wise separator lies in [start, limit), else it is start; and
-- the successor is not below the key.
pub bytewise_comparator-Shortens : Shortens bytewise_comparator
unfolding bytewise_comparator
bytewise_comparator-Shortens = record {
  separator_ge = λ start limit h.
      rw slice_compare-lex (separator-Between start limit (rw slice_compare-lex at h)).0;
  separator_lt = λ start limit h.
      rw slice_compare-lex (separator-Between start limit (rw slice_compare-lex at h)).1;
  separator_unchanged = λ start limit h. separator_kept start limit (rw slice_compare-lex at h);
  successor_ge = λ key. rw slice_compare-lex (successor_ge_lex key);
}

-- Both shorten: the separator and the successor are never longer than the key.
length-separator : (start limit : List ℕ) → length (bytewise_separator start limit) ≤ length start
unfolding bytewise_separator
length-separator start limit = ground (
  arith,
  length-take_le (common_prefix start limit) start,
  length-append (take (common_prefix start limit) start)
      ((get_or start (common_prefix start limit) 0 + 1) ∷ []),
)

pub length-successor : (key : List ℕ) → length (bytewise_successor key) ≤ length key
unfolding bytewise_successor
length-successor [] = omega arith
length-successor (b ∷ key) = ground (arith, length-successor key)
