-- ===== src/Db/Format/Shorten.antt =====
-- The separator and the successor of internal keys keep the comparator's contract.
use Prim.Native.Nat.{lt, eq, gt}
use level_db.Common.{
  ℕ, ◌<◌, List, length, ◌≡◌, ◌≢◌, ap, ◌∙◌, arith, ltb, ◌&&◌, if◌then◌else◌, inl, inr, ◌⊎◌,
}
use level_db.Util.Slice.{is_lt}
use level_db.Util.Coding.{put_fixed64}
use level_db.Util.Comparator.{Comparator, IsOrder, Shortens}
use level_db.Db.Format.{
  extract_user_key, internal_compare, internal_separator, internal_successor,
  internal_key_comparator, earliest, pack_sequence_and_type, max_sequence_number,
  value_type_for_seek,
}
use level_db.Db.Format.Keys.{extract_user_key-tagged}
use level_db.Db.Format.Order.{internal_key_comparator-IsOrder}

module _ (c : Comparator) where
  -- What decides an internal comparison: the user keys, where they differ.
  internal_lt :
      (a b : List ℕ)
      → c.compare (extract_user_key a) (extract_user_key b) ≡ lt
      → internal_compare c a b ≡ lt
  unfolding internal_compare
  internal_lt a b h = rw h

  extract_user_key-earliest : (user : List ℕ) → extract_user_key (earliest c user) ≡ user
  unfolding earliest put_fixed64
  extract_user_key-earliest user =
      extract_user_key-tagged user (pack_sequence_and_type max_sequence_number value_type_for_seek)

  -- A shortened key is the key itself, or a user key above its own, with the earliest tag.
  abbrev shortened : List ℕ → List ℕ → List ℕ
  shortened key tmp =
      if ltb (length tmp) (length (extract_user_key key))
        && is_lt (c.compare (extract_user_key key) tmp)
      then earliest c tmp
      else key

  shortened_cases :
      (key tmp : List ℕ)
      → (shortened key tmp ≡ key)
        ⊎ ((shortened key tmp ≡ earliest c tmp)
            × (length tmp < length (extract_user_key key))
            × (c.compare (extract_user_key key) tmp ≡ lt))
  shortened_cases key tmp = ground arith

  module _ (ord : IsOrder c) where
    internal_compare_self : (key : List ℕ) → internal_compare c key key ≡ eq
    internal_compare_self key =
        unfold internal_key_comparator in (internal_key_comparator-IsOrder c ord).compare_self key

    earliest_above :
        (key tmp : List ℕ)
        → c.compare (extract_user_key key) tmp ≡ lt
        → internal_compare c key (earliest c tmp) ≡ lt
    earliest_above key tmp less =
        internal_lt key (earliest c tmp) (rw extract_user_key-earliest less)

    shortened_ge : (key tmp : List ℕ) → internal_compare c key (shortened key tmp) ≢ gt
    shortened_ge key tmp = elim (shortened_cases key tmp) [
      | inl same ↦ λ e. cc (internal_compare_self key, ap (internal_compare c key) same)
      | inr (above, _, less) ↦
          λ e. cc (earliest_above key tmp less, ap (internal_compare c key) above)
    ]

    module _ (short : Shortens c) where
      separator_below :
          (start limit : List ℕ)
          → internal_compare c start limit ≡ lt
          → internal_compare c (internal_separator c start limit) limit ≡ lt
      unfolding internal_separator
      separator_below start limit h = elim (shortened_cases start tmp) [
        | inl same ↦ ap (λ k. internal_compare c k limit) same ∙ h
        | inr (above, shorter, less) ↦
            ap (λ k. internal_compare c k limit) above
            ∙ internal_lt (earliest c tmp) limit (
                rw extract_user_key-earliest (
                  short.separator_lt (extract_user_key start) (extract_user_key limit)
                    (changed shorter)))
      ]
        where
          tmp : List ℕ
          tmp = c.find_shortest_separator (extract_user_key start) (extract_user_key limit)

          changed :
              length tmp < length (extract_user_key start)
              → c.compare (extract_user_key start) (extract_user_key limit) ≡ lt
          changed shorter =
              ground
                (arith, short.separator_unchanged (extract_user_key start) (extract_user_key limit))

      -- If the user comparator is a total order and keeps the contract of the two shortening
      -- methods, then the separator and the successor of internal keys keep it too.
      pub internal_key_comparator-Shortens : Shortens (internal_key_comparator c)
      unfolding internal_key_comparator internal_separator internal_successor
      internal_key_comparator-Shortens = record {
        separator_ge = λ start limit _.
            shortened_ge start
              (c.find_shortest_separator (extract_user_key start) (extract_user_key limit));
        separator_lt = separator_below;
        separator_unchanged = λ start limit h. ground (
          arith,
          internal_lt start limit,
          short.separator_unchanged (extract_user_key start) (extract_user_key limit),
        );
        successor_ge = λ key. shortened_ge key (c.find_short_successor (extract_user_key key));
      }
