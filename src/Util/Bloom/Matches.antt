-- ===== src/Util/Bloom/Matches.antt =====
-- The Bloom filter has no false negatives.
use level_db.Common.{
  ℕ, zero, suc, ◌+◌, ◌-◌, ◌*◌, ◌%◌, ◌<◌, ◌≤◌, Bool, true, false, List, [], ◌∷◌, ◌++◌, length, drop,
  replicate, ◌&&◌, ◌≡◌, refl, ◌∙◌, arith, length-append, length-replicate, drop-append_length,
  length-replicate, get_elem?, some,
}
use native.Mathlib.Nat.{mod-lt}
use level_db.Util.Coding.{u32_mod}
use level_db.Util.Bloom.{
  BloomFilterPolicy, bloom_hash, rotate, set_bit, bit_is_set, set_bits, match_bits, add_keys,
  filter_bytes, create_filter, key_may_match,
}
use level_db.Util.Bloom.Bits.{
  length-set_bit, bit_is_set-set_bit, bit_is_set-kept, get_or-length, bit_is_set-append,
}
use mathlib.Core.Path.{subst}

module _ (bits : ℕ) where
  and_true : (a b : Bool) → a && b ≡ true → (a ≡ true) × (b ≡ true)
  and_true true b e = (refl, e)
  and_true false b e = absurd cc

  -- Setting one more bit loses no match.
  match_bits-set_bit :
      (delta j h other : ℕ) (array : List ℕ)
      → match_bits bits delta j h array ≡ true
      → match_bits bits delta j h (set_bit array other) ≡ true
  unfolding match_bits
  match_bits-set_bit delta zero h other array e = refl
  match_bits-set_bit delta (suc j) h other array e =
      let (here, there) =
        and_true (bit_is_set array (h % bits))
          (match_bits bits delta j ((h + delta) % u32_mod) array) e in
      rw (
        bit_is_set-kept array (h % bits) other here,
        match_bits-set_bit delta j ((h + delta) % u32_mod) other array there,
      )

  match_bits-set_bits :
      (delta j h delta' j' h' : ℕ) (array : List ℕ)
      → match_bits bits delta j h array ≡ true
      → match_bits bits delta j h (set_bits bits delta' j' h' array) ≡ true
  unfolding set_bits
  match_bits-set_bits delta j h delta' zero h' array e = e
  match_bits-set_bits delta j h delta' (suc j') h' array e =
      match_bits-set_bits delta j h delta' j' ((h' + delta') % u32_mod) (set_bit array (h' % bits))
        (match_bits-set_bit delta j h (h' % bits) array e)

  length-set_bits :
      (delta j h : ℕ) (array : List ℕ) → length (set_bits bits delta j h array) ≡ length array
  unfolding set_bits
  length-set_bits delta zero h array = refl
  length-set_bits delta (suc j) h array =
      length-set_bits delta j ((h + delta) % u32_mod) (set_bit array (h % bits))
      ∙ length-set_bit array (h % bits)

  bit_is_set-set_bits :
      (delta j h pos : ℕ) (array : List ℕ)
      → bit_is_set array pos ≡ true
      → bit_is_set (set_bits bits delta j h array) pos ≡ true
  unfolding set_bits
  bit_is_set-set_bits delta zero h pos array e = e
  bit_is_set-set_bits delta (suc j) h pos array e =
      bit_is_set-set_bits delta j ((h + delta) % u32_mod) pos (set_bit array (h % bits))
        (bit_is_set-kept array pos (h % bits) e)

  -- The bits of a key that was added match it.
  set_bits-match_bits :
      (delta j h : ℕ) (array : List ℕ)
      → 0 < bits
      → bits ≤ length array * 8
      → match_bits bits delta j h (set_bits bits delta j h array) ≡ true
  unfolding match_bits set_bits
  set_bits-match_bits delta zero h array hb hl = refl
  set_bits-match_bits delta (suc j) h array hb hl = rw (
    bit_is_set-set_bits delta j ((h + delta) % u32_mod) (h % bits) (set_bit array (h % bits))
        (bit_is_set-set_bit array (h % bits) (omega (arith, mod-lt h hb))),
    set_bits-match_bits delta j ((h + delta) % u32_mod) (set_bit array (h % bits)) hb
        (omega (arith, length-set_bit array (h % bits))),
  )

  match_bits-append :
      (delta j h : ℕ) (xs ys : List ℕ)
      → 0 < bits
      → bits ≤ length xs * 8
      → match_bits bits delta j h (xs ++ ys) ≡ match_bits bits delta j h xs
  unfolding match_bits
  match_bits-append delta zero h xs ys hb hl = refl
  match_bits-append delta (suc j) h xs ys hb hl = rw (
    bit_is_set-append xs ys (h % bits) (omega (arith, mod-lt h hb)),
    match_bits-append delta j ((h + delta) % u32_mod) xs ys hb hl,
  )

  length-add_keys :
      (k : ℕ) (keys : List (List ℕ)) (array : List ℕ)
      → length (add_keys bits k keys array) ≡ length array
  unfolding add_keys
  length-add_keys k [] array = refl
  length-add_keys k (key ∷ keys) array =
      length-add_keys k keys (set_bits bits (rotate (bloom_hash key)) k (bloom_hash key) array)
      ∙ length-set_bits (rotate (bloom_hash key)) k (bloom_hash key) array

  match_bits-add_keys :
      (delta j h k : ℕ) (keys : List (List ℕ)) (array : List ℕ)
      → match_bits bits delta j h array ≡ true
      → match_bits bits delta j h (add_keys bits k keys array) ≡ true
  unfolding add_keys
  match_bits-add_keys delta j h k [] array e = e
  match_bits-add_keys delta j h k (key ∷ keys) array e =
      match_bits-add_keys delta j h k keys
        (set_bits bits (rotate (bloom_hash key)) k (bloom_hash key) array)
        (match_bits-set_bits delta j h (rotate (bloom_hash key)) k (bloom_hash key) array e)

  add_keys_matches :
      (k : ℕ) (keys : List (List ℕ)) (array key : List ℕ) (i : ℕ)
      → 0 < bits
      → bits ≤ length array * 8
      → get_elem? keys i ≡ some key
      → match_bits bits (rotate (bloom_hash key)) k (bloom_hash key) (add_keys bits k keys array)
        ≡ true
  unfolding add_keys
  add_keys_matches k [] array key i hb hl e = absurd cc
  add_keys_matches k (first ∷ keys) array key zero hb hl e =
      match_bits-add_keys (rotate (bloom_hash key)) k (bloom_hash key) k keys
        (set_bits bits (rotate (bloom_hash first)) k (bloom_hash first) array)
        (subst
          (λ x.
            match_bits bits (rotate (bloom_hash x)) k (bloom_hash x)
              (set_bits bits (rotate (bloom_hash first)) k (bloom_hash first) array)
            ≡ true)
          first≡key
          (set_bits-match_bits (rotate (bloom_hash first)) k (bloom_hash first) array hb hl))
    where
      first≡key : first ≡ key
      first≡key = cc
  add_keys_matches k (first ∷ keys) array key (suc i) hb hl e =
      add_keys_matches k keys (set_bits bits (rotate (bloom_hash first)) k (bloom_hash first) array)
        key i hb
        (omega (arith, length-set_bits (rotate (bloom_hash first)) k (bloom_hash first) array)) e

filter_bytes-positive : (policy : BloomFilterPolicy) (n : ℕ) → 8 ≤ filter_bytes policy n
unfolding filter_bytes
filter_bytes-positive policy n = ground arith

-- KeyMayMatch on a filter array with its k behind it.
key_may_match-laid_out :
    (array key : List ℕ) (k : ℕ)
    → 1 ≤ length array
    → match_bits (length array * 8) (rotate (bloom_hash key)) k (bloom_hash key) array ≡ true
    → key_may_match key (array ++ (k ∷ [])) ≡ true
unfolding key_may_match
key_may_match-laid_out array key k h e =
    rw
      (
        shorter,
        get_or-length array k,
        match_bits-append (length array * 8) (rotate (bloom_hash key)) k (bloom_hash key) array
            (k ∷ []) (omega arith) (omega arith),
        e,
      )
      (ground (arith, length-append array (k ∷ [])))
  where
    shorter : length (array ++ (k ∷ [])) - 1 ≡ length array
    shorter = omega (arith, length-append array (k ∷ []))

-- KeyMayMatch accepts every key that the filter was created from, for any policy and whatever
-- stood in the string before the filter.
pub key_may_match-create_filter :
    (policy : BloomFilterPolicy) (keys : List (List ℕ)) (dst key : List ℕ) (i : ℕ)
    → get_elem? keys i ≡ some key
    → key_may_match key (drop (length dst) (create_filter policy keys dst)) ≡ true
unfolding create_filter
key_may_match-create_filter policy keys dst key i e = rw (drop-append_length) (
    key_may_match-laid_out (add_keys (bytes * 8) policy.k keys (replicate bytes 0)) key policy.k
      (omega (arith, long, filter_bytes-positive policy (length keys)))
      (rw long (
        add_keys_matches (bytes * 8) policy.k keys (replicate bytes 0) key i
          (omega (arith, filter_bytes-positive policy (length keys)))
          (omega (arith, length-replicate {A = ℕ} bytes 0)) e)))
  where
    bytes : ℕ
    bytes = filter_bytes policy (length keys)

    long : length (add_keys (bytes * 8) policy.k keys (replicate bytes 0)) ≡ bytes
    long =
        length-add_keys (bytes * 8) policy.k keys (replicate bytes 0)
        ∙ length-replicate {A = ℕ} bytes 0
