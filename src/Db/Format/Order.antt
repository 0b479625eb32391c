-- ===== src/Db/Format/Order.antt =====
-- The order of internal keys: by user key, then newest first.
use Prim.Native.Nat.{Ordering, lt, eq, gt}
use level_db.Common.{ℕ, ◌+◌, ◌*◌, ◌≤◌, [], ◌≡◌, ◌≢◌, ◌↔◌, refl, arith}
use level_db.Util.Slice.Order.{flip}
use level_db.Util.Comparator.{Comparator, IsOrder}
use level_db.Util.Comparator.Facts.{lt_of_lt-le, lt_of_le-lt}
use level_db.Db.Format.{
  value, type_code, max_sequence_number, ParsedInternalKey, append_internal_key, extract_user_key,
  extract_tag, newest_first, break_tie, internal_compare, internal_key_comparator, lookup_key,
  lookup_internal_key,
}
use level_db.Db.Format.Keys.{
  pack_lem, extract_user_key-tagged, extract_tag-tagged, tag_of, tag_of-lt,
  append_internal_key-tagged, type_code-le,
}

newest_first_swap : (a b : ℕ) → newest_first b a ≡ flip (newest_first a b)
newest_first_swap a b = ground arith

newest_first-le_trans :
    (a b d : ℕ) → newest_first a b ≢ gt → newest_first b d ≢ gt → newest_first a d ≢ gt
newest_first-le_trans a b d p q = ground arith

-- Lexicographic composition of two orders, on the results of the comparisons.
break_tie-flip : (r t : Ordering) → break_tie (flip r) (flip t) ≡ flip (break_tie r t)
break_tie-flip lt t = refl
break_tie-flip eq t = refl
break_tie-flip gt t = refl

break_tie-le_trans :
    (r₁ r₂ r₃ t₁ t₂ t₃ : Ordering)
    → (r₁ ≢ gt → r₂ ≢ gt → r₃ ≢ gt)
    → (r₁ ≡ lt → r₂ ≢ gt → r₃ ≡ lt)
    → (r₁ ≢ gt → r₂ ≡ lt → r₃ ≡ lt)
    → (t₁ ≢ gt → t₂ ≢ gt → t₃ ≢ gt)
    → break_tie r₁ t₁ ≢ gt
    → break_tie r₂ t₂ ≢ gt
    → break_tie r₃ t₃ ≢ gt
break_tie-le_trans r₁ r₂ r₃ t₁ t₂ t₃ le less more tags p q = ground arith

module _ (c : Comparator) (ord : IsOrder c) where
  -- If the user comparator is a total order, then InternalKeyComparator::Compare is a total
  -- order.
  pub internal_key_comparator-IsOrder : IsOrder (internal_key_comparator c)
  unfolding internal_key_comparator internal_compare
  internal_key_comparator-IsOrder = record {
    compare_self = λ a. ground (arith, ord.compare_self (extract_user_key a));
    compare_swap = λ a b.
        rw
          (
            ord.compare_swap (extract_user_key a) (extract_user_key b),
            newest_first_swap (extract_tag a) (extract_tag b),
          )
          (break_tie-flip (c.compare (extract_user_key a) (extract_user_key b))
            (newest_first (extract_tag a) (extract_tag b)));
    compare-le_trans = λ a b d.
        break_tie-le_trans (c.compare (extract_user_key a) (extract_user_key b))
          (c.compare (extract_user_key b) (extract_user_key d))
          (c.compare (extract_user_key a) (extract_user_key d))
          (newest_first (extract_tag a) (extract_tag b))
          (newest_first (extract_tag b) (extract_tag d))
          (newest_first (extract_tag a) (extract_tag d))
          (ord.compare-le_trans (extract_user_key a) (extract_user_key b) (extract_user_key d))
          (lt_of_lt-le c ord (extract_user_key a) (extract_user_key b) (extract_user_key d))
          (lt_of_le-lt c ord (extract_user_key a) (extract_user_key b) (extract_user_key d))
          (newest_first-le_trans (extract_tag a) (extract_tag b) (extract_tag d));
  }

-- On encoded keys whose sequence numbers fit 56 bits, the internal comparator goes by the user
-- keys; then the larger sequence number comes first; then the larger type.
pub internal_compare-append :
    (c : Comparator) (a b : ParsedInternalKey)
    → a.sequence ≤ max_sequence_number
    → b.sequence ≤ max_sequence_number
    → internal_compare c (append_internal_key [] a) (append_internal_key [] b)
      ≡ break_tie (c.compare a.user_key b.user_key) (
          break_tie
            (newest_first a.sequence b.sequence)
            (newest_first (type_code a.type) (type_code b.type)))
unfolding internal_compare
internal_compare-append c a b ha hb =
    rw (append_internal_key-tagged [] a ha, append_internal_key-tagged [] b hb)
      (rw (
        extract_user_key-tagged a.user_key (tag_of a),
        extract_user_key-tagged b.user_key (tag_of b),
        extract_tag-tagged a.user_key (tag_of a) (tag_of-lt a ha),
        extract_tag-tagged b.user_key (tag_of b) (tag_of-lt b hb),
        by_parts,
      ))
  where
    by_parts :
        newest_first (tag_of a) (tag_of b)
        ≡ break_tie
            (newest_first a.sequence b.sequence)
            (newest_first (type_code a.type) (type_code b.type))
    by_parts = ground (arith, type_code-le a.type, type_code-le b.type)

-- If the user comparator is a total order and both sequence numbers fit 56 bits, then the
-- internal key of the lookup key for (user key, snapshot) is not ordered behind an entry of that
-- user key exactly if the entry is not newer than the snapshot.
pub lookup_key_visibility :
    (c : Comparator) (entry : ParsedInternalKey) (snapshot : ℕ)
    → IsOrder c
    → entry.sequence ≤ max_sequence_number
    → snapshot ≤ max_sequence_number
    → (internal_compare c
          (lookup_internal_key (lookup_key entry.user_key snapshot))
          (append_internal_key [] entry)
        ≢ gt)
      ↔ (entry.sequence ≤ snapshot)
unfolding lookup_internal_key lookup_key internal_compare
lookup_key_visibility c entry snapshot ord he hs =
    rw (append_internal_key-tagged [] entry he, pack_lem snapshot value hs)
      (rw
        (
          extract_user_key-tagged entry.user_key (tag_of entry),
          extract_user_key-tagged entry.user_key (snapshot * 256 + 1),
          extract_tag-tagged entry.user_key (tag_of entry) (tag_of-lt entry he),
          extract_tag-tagged entry.user_key (snapshot * 256 + 1) (omega arith),
          ord.compare_self entry.user_key,
        )
        (
          λ h. ground (arith, type_code-le entry.type),
          λ h. ground (arith, type_code-le entry.type),
        ))
