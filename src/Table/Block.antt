-- ===== src/Table/Block.antt =====
-- table/block_builder.cpp and table/block.cpp: the entries of a block, each key cut by the prefix
-- that it shares with the key before it.
pub mod Entries
use Prim.Native.Nat.{bit_or}
use level_db.Common.{
  ℕ, zero, suc, ◌+◌, ◌%◌, List, [], ◌∷◌, ◌++◌, length, take, drop, ltb, ◌==◌, if◌then◌else◌, Option,
  none, some, ◌>>=◌,
}
use level_db.Util.Coding.{u32_mod, put_varint32, get_varint32_ptr}

-- The fields that Add reads and writes; `finished_` is only asserted.
pub record BlockBuilder : Type 0 where
  pub buffer : List ℕ
  pub restarts : List ℕ
  pub counter : ℕ
  pub last_key : List ℕ

-- The block at construction and after Reset.
abbrev pub reset : BlockBuilder
reset = record { buffer = []; restarts = 0 ∷ []; counter = 0; last_key = [] }

-- The loop that counts the common bytes, up to the shorter length.
unfoldable pub count_shared : List ℕ → List ℕ → ℕ
count_shared [] key = 0
count_shared (x ∷ last) [] = 0
count_shared (x ∷ last) (y ∷ key) =
    let more = count_shared last key in if x == y then suc more else 0

-- The entry, appended to the buffer.
unfoldable pub add_entry : List ℕ → ℕ → List ℕ → List ℕ → List ℕ
add_entry buffer shared key value =
    let non_shared = drop shared key in
    put_varint32 (put_varint32 (put_varint32 buffer shared) (length non_shared)) (length value)
    ++ non_shared
    ++ value

-- The asserts on the order of the keys and on the counter are left out. At a restart point no
-- prefix is shared.
unfoldable pub add : ℕ → BlockBuilder → List ℕ → List ℕ → BlockBuilder
add block_restart_interval b key value =
    if ltb b.counter block_restart_interval
    then (let shared = count_shared b.last_key key in
        record {
          buffer = add_entry b.buffer shared key value;
          restarts = b.restarts;
          counter = b.counter + 1;
          last_key = take shared b.last_key ++ drop shared key;
        })
    else record {
      buffer = add_entry b.buffer 0 key value;
      restarts = b.restarts ++ (length b.buffer ∷ []);
      counter = 1;
      last_key = drop 0 key;
    }

-- What DecodeEntry returns: the three numbers, and the bytes from the returned pointer on.
pub record Entry : Type 0 where
  pub shared : ℕ
  pub non_shared : ℕ
  pub value_length : ℕ
  pub rest : List ℕ

-- The general case: three varints.
unfoldable pub decode_numbers : List ℕ → Option Entry
decode_numbers p = do
  (shared, after_shared) ← get_varint32_ptr p
  (non_shared, after_non_shared) ← get_varint32_ptr after_shared
  (value_length, rest) ← get_varint32_ptr after_non_shared
  some (record {
    shared = shared;
    non_shared = non_shared;
    value_length = value_length;
    rest = rest;
  })

-- The bytes of key and value must be there; both sides of the test are 32-bit numbers.
unfoldable pub check_room : Entry → Option Entry
check_room e =
    if ltb (length e.rest % u32_mod) ((e.non_shared + e.value_length) % u32_mod)
    then none
    else some e

-- The numbers of one byte each are read without GetVarint32Ptr.
unfoldable pub decode_entry : List ℕ → Option Entry
decode_entry (b0 ∷ b1 ∷ b2 ∷ p) =
    if ltb (bit_or (bit_or b0 b1) b2) 128
    then check_room (record { shared = b0; non_shared = b1; value_length = b2; rest = p })
    else (decode_numbers (b0 ∷ b1 ∷ b2 ∷ p) >>= check_room)
decode_entry (b0 ∷ b1 ∷ []) = none
decode_entry (b0 ∷ []) = none
decode_entry [] = none

-- ParseNextKey from `p` with the key of the entry before it: the key, the value, and the bytes at
-- NextEntryOffset. `none` is CorruptionError(); the restart index is not kept here.
unfoldable pub parse_next_key : List ℕ → List ℕ → Option (List ℕ × List ℕ × List ℕ)
parse_next_key key p = do
  e ← decode_entry p
  (if ltb (length key) e.shared
      then none
      else some (
        take e.shared key ++ take e.non_shared e.rest,
        take e.value_length (drop e.non_shared e.rest),
        drop e.value_length (drop e.non_shared e.rest),
      ))

-- The pairs of a run of calls of Add.
unfoldable pub add_all : ℕ → BlockBuilder → List (List ℕ × List ℕ) → BlockBuilder
add_all block_restart_interval b [] = b
add_all block_restart_interval b ((key, value) ∷ entries) =
    add_all block_restart_interval (add block_restart_interval b key value) entries

-- ParseNextKey until `p >= limit`, with the pairs that it stands on; the number bounds the calls.
unfoldable pub read_entries : ℕ → List ℕ → List ℕ → Option (List (List ℕ × List ℕ))
read_entries zero key p = none
read_entries (suc n) key [] = some []
read_entries (suc n) key (b ∷ p) = do
  (next_key, value, rest) ← parse_next_key key (b ∷ p)
  more ← read_entries n next_key rest
  some ((next_key, value) ∷ more)
