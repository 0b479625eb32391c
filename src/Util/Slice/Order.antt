-- ===== src/Util/Slice/Order.antt =====
-- Slice::compare is the lexicographic order of the bytes, and operator== is equality.
use Prim.Native.Nat.{compare, Ordering, lt, eq, gt}
use level_db.Common.{
  ℕ, zero, suc, ◌≤◌, List, [], ◌∷◌, ◌++◌, length, drop, true, ◌≡◌, ◌≢◌, refl, arith, ◌↔◌, ◌⊎◌,
  length-append,
}
use level_db.Util.Slice.{memcmp, by_size, slice_compare, slice_eq, starts_with}

-- The lexicographic order, a proper prefix first.
unfoldable pub lex : List ℕ → List ℕ → Ordering
lex [] [] = eq
lex [] (y ∷ b) = lt
lex (x ∷ a) [] = gt
lex (x ∷ a) (y ∷ b) = let rest = lex a b in elim (compare x y) [ lt ↦ lt | eq ↦ rest | gt ↦ gt ]

memcmp-lex :
    (n : ℕ) (a b : List ℕ)
    → n ≤ length a
    → n ≤ length b
    → (length a ≤ n) ⊎ (length b ≤ n)
    → by_size (memcmp n a b) (length a) (length b) ≡ lex a b
unfolding memcmp lex
memcmp-lex zero [] [] ha hb h = ground arith
memcmp-lex zero [] (y ∷ b) ha hb h = ground arith
memcmp-lex zero (x ∷ a) [] ha hb h = ground arith
memcmp-lex zero (x ∷ a) (y ∷ b) ha hb h = absurd (omega arith)
memcmp-lex (suc n) [] b ha hb h = elim ha [ ]
memcmp-lex (suc n) (x ∷ a) [] ha hb h = elim hb [ ]
memcmp-lex (suc n) (x ∷ a) (y ∷ b) ha hb h =
    ground (arith, memcmp-lex n a b (omega arith) (omega arith) (omega arith))

-- Slice::compare is the lexicographic order of the bytes.
pub slice_compare-lex : (a b : List ℕ) → slice_compare a b ≡ lex a b
unfolding slice_compare
slice_compare-lex a b = ground (arith, memcmp-lex (length a) a b, memcmp-lex (length b) a b)

abbrev pub flip : Ordering → Ordering
flip lt = gt
flip eq = eq
flip gt = lt

pub lex_refl : (a : List ℕ) → lex a a ≡ eq
unfolding lex
lex_refl [] = refl
lex_refl (x ∷ a) = ground (arith, lex_refl a)

pub lex-swap : (a b : List ℕ) → lex b a ≡ flip (lex a b)
unfolding lex
lex-swap [] [] = refl
lex-swap [] (y ∷ b) = refl
lex-swap (x ∷ a) [] = refl
lex-swap (x ∷ a) (y ∷ b) = ground (arith, lex-swap a b)

pub lex-eq : (a b : List ℕ) → lex a b ≡ eq → a ≡ b
unfolding lex
lex-eq [] [] h = refl
lex-eq [] (y ∷ b) h = cc
lex-eq (x ∷ a) [] h = cc
lex-eq (x ∷ a) (y ∷ b) h = ground (arith, lex-eq a b)

pub lex-le_trans : (a b c : List ℕ) → lex a b ≢ gt → lex b c ≢ gt → lex a c ≢ gt
unfolding lex
lex-le_trans [] b [] p q = λ e. cc
lex-le_trans [] b (z ∷ c) p q = λ e. cc
lex-le_trans (x ∷ a) [] c p q = absurd (p refl)
lex-le_trans (x ∷ a) (y ∷ b) [] p q = absurd (q refl)
lex-le_trans (x ∷ a) (y ∷ b) (z ∷ c) p q = ground (arith, lex-le_trans a b c)

memcmp-eq : (a b : List ℕ) → length a ≡ length b → memcmp (length a) a b ≡ eq → a ≡ b
unfolding memcmp
memcmp-eq [] [] h e = refl
memcmp-eq [] (y ∷ b) h e = absurd (omega arith)
memcmp-eq (x ∷ a) [] h e = absurd (omega arith)
memcmp-eq (x ∷ a) (y ∷ b) h e = ground (arith, memcmp-eq a b)

memcmp_prefix : (x rest : List ℕ) → memcmp (length x) (x ++ rest) x ≡ eq
unfolding memcmp
memcmp_prefix [] rest = refl
memcmp_prefix (y ∷ x) rest = ground (arith, memcmp_prefix x rest)

memcmp_self : (a : List ℕ) → memcmp (length a) a a ≡ eq
unfolding memcmp
memcmp_self [] = refl
memcmp_self (x ∷ a) = ground (arith, memcmp_self a)

prefix_of_memcmp :
    (s x : List ℕ) → length x ≤ length s → memcmp (length x) s x ≡ eq → s ≡ x ++ drop (length x) s
unfolding memcmp
prefix_of_memcmp s [] h e = refl
prefix_of_memcmp [] (y ∷ x) h e = elim h [ ]
prefix_of_memcmp (z ∷ s) (y ∷ x) h e = ground (arith, prefix_of_memcmp s x)

-- operator== on slices holds exactly for equal strings.
pub slice_eq_iff : (a b : List ℕ) → (slice_eq a b ≡ true) ↔ (a ≡ b)
unfolding slice_eq
slice_eq_iff a b =
    (λ h. ground (arith, memcmp-eq a b), λ e. rw (← e) (ground (arith, memcmp_self a)))

-- starts_with holds exactly where its argument is a prefix.
pub starts_with_iff :
    (s x : List ℕ) → (starts_with s x ≡ true) ↔ ((rest : List ℕ) × (s ≡ x ++ rest))
unfolding starts_with
starts_with_iff s x = (
  λ h. (drop (length x) s, ground (arith, prefix_of_memcmp s x)),
  λ p. rw p.1 (ground (arith, memcmp_prefix x p.0, length-append x p.0)),
)
