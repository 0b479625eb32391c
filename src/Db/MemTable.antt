-- ===== src/Db/MemTable.antt =====
-- db/memtable.cpp: the entries of the memtable in a skip list, and the lookup in it.
--
-- A table is its skip list. The key of the list is a pointer to an entry, which is the list of the
-- bytes from there on. The arena and the count of references are left out.
pub mod Entries
pub mod Lookups
pub mod History
pub mod Tests
use Prim.Native.Nat.{Ordering, eq, bit_or, bit_and}
use level_db.Common.{
  ℕ, ◌+◌, ◌-◌, ◌*◌, ◌%◌, ◌^◌, List, [], ◌∷◌, ◌++◌, length, take, drop, ◌==◌, if◌then◌else◌, Option,
  none, some, ◌>>=◌,
}
use level_db.Util.Coding.{
  u32_mod, u64_mod, encode_varint32, encode_fixed64, decode_fixed64, get_varint32_ptr,
  varint_length,
}
use level_db.Util.Comparator.{Comparator}
use level_db.Db.Format.{
  type_code, value, deletion, internal_compare, LookupKey, memtable_key, lookup_user_key,
}
use level_db.Db.Batch.{Add}
use level_db.Db.SkipList.{SkipList, new_list, insert, seek}

-- The static GetLengthPrefixedSlice. What it does where no number stands is undefined.
unfoldable pub slice_at : List ℕ → List ℕ
slice_at bytes = elim (get_varint32_ptr bytes) [ none ↦ [] | some (len, p) ↦ take len p ]

-- What Add writes into the buffer that it inserts.
unfoldable pub encode_entry : Add → List ℕ
encode_entry e =
    encode_varint32 (length e.key + 8)
    ++ (e.key
        ++ (encode_fixed64 (bit_or (e.sequence * 2 ^ 8 % u64_mod) (type_code e.type))
            ++ (encode_varint32 (length e.value) ++ e.value)))

-- The length of the buffer that Add allocates.
unfoldable pub encoded_len : Add → ℕ
encoded_len e =
    let internal_key_size = length e.key + 8 in
    varint_length internal_key_size
    + internal_key_size
    + varint_length (length e.value)
    + length e.value

-- What Get returns: false, or true with a value or with NotFound.
pub data Answer : Type 0 where
  not_here : Answer
  found : List ℕ → Answer
  deleted : Answer

abbrev pub new_table : SkipList (List ℕ)
new_table = new_list []

module _ (user_comparator : Comparator) where
  open user_comparator use {compare}

  unfoldable pub key_comparator : List ℕ → List ℕ → Ordering
  key_comparator a b = internal_compare user_comparator (slice_at a) (slice_at b)

  unfoldable pub add : SkipList (List ℕ) → Add → Option (SkipList (List ℕ))
  add table e = insert key_comparator table (encode_entry e)

  -- The switch on the type, behind the comparison of the user keys.
  unfoldable pub read_entry : List ℕ → LookupKey → Answer
  read_entry entry key = elim (get_varint32_ptr entry) [
    | none ↦ not_here
    | some (key_length, key_ptr) ↦
        let user_length = (key_length + (u32_mod - 8)) % u32_mod in
        let tag = decode_fixed64 (drop user_length key_ptr) in
        elim (compare (take user_length key_ptr) (lookup_user_key key)) [
          | Ordering.eq ↦
              if bit_and tag 0xff == 1
              then found (slice_at (drop key_length key_ptr))
              else if bit_and tag 0xff == 0
              then deleted
              else not_here
          | _ ↦ not_here
        ]
  ]

  unfoldable pub get : SkipList (List ℕ) → LookupKey → Option Answer
  get table key = seek key_comparator table (memtable_key key) >>= λ (node : Option ℕ). elim node [
    | none ↦ some not_here
    | some n ↦ some (read_entry (table.key n) key)
  ]
