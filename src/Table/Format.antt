-- ===== src/Table/Format.antt =====
-- table/format.h and table/format.cpp: block handles and the footer of a table.
pub mod RoundTrip
use level_db.Common.{
  ℕ, ◌+◌, ◌-◌, ◌*◌, ◌/◌, ◌%◌, ◌^◌, Bool, true, false, List, [], ◌∷◌, ◌++◌, length, take, drop,
  replicate, ltb, ◌==◌, not, if◌then◌else◌, Option, none, some, ◌>>=◌,
}
use Prim.Native.Nat.{bit_or}
use level_db.Util.Coding.{u32_mod, u64_mod, put_varint64, put_fixed32, get_varint64, decode_fixed32}
use level_db.Util.Status.{Status, ok, error, corruption, invalid_argument}

pub record BlockHandle : Type 0 where
  pub offset : ℕ
  pub size : ℕ

-- The source asserts that both fields have been set, that is, are not 2^64 - 1.
unfoldable pub put_handle : List ℕ → BlockHandle → List ℕ
put_handle dst handle = put_varint64 (put_varint64 dst handle.offset) handle.size

-- `none` is Corruption("bad block handle").
unfoldable pub get_handle : List ℕ → Option (BlockHandle × List ℕ)
get_handle input = do
  (offset, after_offset) ← get_varint64 input
  (size, rest) ← get_varint64 after_offset
  some (record { offset = offset; size = size }, rest)

abbrev pub max_handle_length : ℕ
max_handle_length = 20

abbrev pub encoded_length : ℕ
encoded_length = 48

abbrev pub magic_number : ℕ
magic_number = 0xdb4775248b80fb57

-- kBlockTrailerSize
abbrev pub block_trailer_size : ℕ
block_trailer_size = 5

pub record Footer : Type 0 where
  pub metaindex_handle : BlockHandle
  pub index_handle : BlockHandle

-- std::string::resize, which cuts or pads with zeros.
unfoldable pub resize : List ℕ → ℕ → List ℕ
resize dst n = take n dst ++ replicate (n - length dst) 0

unfoldable pub put_footer : List ℕ → Footer → List ℕ
put_footer dst footer =
    let padded =
      resize (put_handle (put_handle dst footer.metaindex_handle) footer.index_handle)
        (2 * max_handle_length) in
    put_fixed32 (put_fixed32 padded (magic_number % u32_mod)) (magic_number / 2 ^ 32)

unfoldable pub read_magic : List ℕ → ℕ
read_magic input =
    let magic_ptr = drop (encoded_length - 8) input in
    bit_or (decode_fixed32 (drop 4 magic_ptr) * 2 ^ 32 % u64_mod) (decode_fixed32 magic_ptr)

-- What DecodeFrom returns; on success the footer and the input behind it.
pub data FooterResult : Type 0 where
  footer : Footer → List ℕ → FooterResult
  failure : Status → FooterResult

unfoldable pub get_footer : List ℕ → FooterResult
get_footer input =
    if not (read_magic input == magic_number)
    then failure (error invalid_argument "not an sstable (bad magic number)")
    else (elim (get_handle input) [
      | none ↦ failure (error corruption "bad block handle")
      | some (metaindex, after_metaindex) ↦ elim (get_handle after_metaindex) [
        | none ↦ failure (error corruption "bad block handle")
        | some (index, rest) ↦
            footer (record { metaindex_handle = metaindex; index_handle = index })
              (drop encoded_length input)
      ]
    ])
