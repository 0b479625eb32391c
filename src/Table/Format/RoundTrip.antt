-- ===== src/Table/Format/RoundTrip.antt =====
-- Footer::DecodeFrom behind Footer::EncodeTo.
use level_db.Common.{
  ℕ, ◌-◌, ◌^◌, ◌<◌, ◌≤◌, List, [], ◌++◌, length, drop, replicate, some, ◌≡◌, refl, sym, ap, ◌∙◌,
  arith, append_assoc, length-append, length-replicate, take_all, drop-append_length,
}
use level_db.Util.Coding.{
  put_varint64, encode_varint64, put_fixed32, decode_fixed32, encode_fixed32,
}
use level_db.Util.Coding.Varint.{get_varint64-put_varint64}
use level_db.Util.Coding.Decoded.{get_varint64_takes}
use level_db.Table.Format.{
  BlockHandle, put_handle, get_handle, magic_number, Footer, resize, put_footer, read_magic, footer,
  get_footer,
}

abbrev pub HandleFits : BlockHandle → Type 0
HandleFits handle = (handle.offset < 2 ^ 64) × (handle.size < 2 ^ 64)

handle_bytes :
    (dst : List ℕ) (handle : BlockHandle)
    → put_handle dst handle ≡ dst ++ (put_varint64 [] handle.offset ++ put_varint64 [] handle.size)
unfolding put_handle put_varint64
handle_bytes dst handle =
    append_assoc dst (encode_varint64 handle.offset) (encode_varint64 handle.size)

put_handle-append :
    (dst : List ℕ) (handle : BlockHandle) → put_handle dst handle ≡ dst ++ put_handle [] handle
put_handle-append dst handle =
    handle_bytes dst handle ∙ ap (λ (t : List ℕ). dst ++ t) (sym (handle_bytes [] handle))

handle_rest :
    (handle : BlockHandle) (rest : List ℕ)
    → put_handle [] handle ++ rest
      ≡ put_varint64 [] handle.offset ++ (put_varint64 [] handle.size ++ rest)
handle_rest handle rest =
    ap (λ (t : List ℕ). t ++ rest) (handle_bytes [] handle)
    ∙ append_assoc (put_varint64 [] handle.offset) (put_varint64 [] handle.size) rest

-- BlockHandle::DecodeFrom reads back what EncodeTo wrote and leaves what follows it.
pub get_handle-put_handle :
    (handle : BlockHandle) (rest : List ℕ)
    → HandleFits handle
    → get_handle (put_handle [] handle ++ rest) ≡ some (handle, rest)
unfolding get_handle
get_handle-put_handle handle rest (ho, hs) = rw (
  handle_rest handle rest,
  get_varint64-put_varint64 handle.offset (put_varint64 [] handle.size ++ rest) ho,
  get_varint64-put_varint64 handle.size rest hs,
)

length-put_varint64 : (v : ℕ) → v < 2 ^ 64 → length (put_varint64 [] v) ≤ 10
length-put_varint64 v h = omega (
  arith,
  length-append (put_varint64 [] v) [],
  get_varint64_takes (put_varint64 [] v ++ []) v [] (get_varint64-put_varint64 v [] h),
)

length-put_handle : (handle : BlockHandle) → HandleFits handle → length (put_handle [] handle) ≤ 20
length-put_handle handle (ho, hs) = rw handle_bytes (
    omega (
      arith,
      length-append (put_varint64 [] handle.offset) (put_varint64 [] handle.size),
      length-put_varint64 handle.offset ho,
      length-put_varint64 handle.size hs,
    ))

module _ (f : Footer) (hm : HandleFits f.metaindex_handle) (hi : HandleFits f.index_handle) where
  abbrev handles : List ℕ
  handles = put_handle [] f.metaindex_handle ++ put_handle [] f.index_handle

  abbrev zeros : List ℕ
  zeros = replicate (40 - length handles) 0

  abbrev magic_bytes : List ℕ
  magic_bytes = encode_fixed32 0x8b80fb57 ++ encode_fixed32 0xdb477524

  short : length handles ≤ 40
  short = omega (
    arith,
    length-append (put_handle [] f.metaindex_handle) (put_handle [] f.index_handle),
    length-put_handle f.metaindex_handle hm,
    length-put_handle f.index_handle hi,
  )

  length-front : length (handles ++ zeros) ≡ 40
  length-front =
      omega (
        arith,
        length-append handles zeros,
        length-replicate {A = ℕ} (40 - length handles) 0,
        short,
      )

  footer_bytes : put_footer [] f ≡ (handles ++ zeros) ++ magic_bytes
  unfolding put_footer resize put_fixed32
  footer_bytes =
      rw
        (
          put_handle-append (put_handle [] f.metaindex_handle) f.index_handle,
          take_all 40 handles short,
        )
        (append_assoc (handles ++ zeros) (encode_fixed32 0x8b80fb57) (encode_fixed32 0xdb477524))

  footer_rest :
      (rest : List ℕ) → put_footer [] f ++ rest ≡ (handles ++ zeros) ++ (magic_bytes ++ rest)
  footer_rest rest =
      ap (λ (t : List ℕ). t ++ rest) footer_bytes ∙ append_assoc (handles ++ zeros) magic_bytes rest

  behind_front : (xs : List ℕ) → drop 40 ((handles ++ zeros) ++ xs) ≡ xs
  behind_front xs =
      ap (λ (n : ℕ). drop n ((handles ++ zeros) ++ xs)) (sym length-front)
      ∙ drop-append_length (handles ++ zeros) xs

  -- The footer takes 48 bytes, whatever the handles are.
  pub length-put_footer : length (put_footer [] f) ≡ 48
  unfolding encode_fixed32
  length-put_footer =
      rw footer_bytes (omega (arith, length-append (handles ++ zeros) magic_bytes, length-front))

  read_magic-put_footer : (rest : List ℕ) → read_magic (put_footer [] f ++ rest) ≡ magic_number
  unfolding read_magic encode_fixed32 decode_fixed32
  read_magic-put_footer rest = rw (footer_rest rest, behind_front (magic_bytes ++ rest)) refl

  behind_footer : (rest : List ℕ) → drop 48 (put_footer [] f ++ rest) ≡ rest
  behind_footer rest =
      ap (λ (n : ℕ). drop n (put_footer [] f ++ rest)) (sym length-put_footer)
      ∙ drop-append_length (put_footer [] f) rest

  first_handle :
      (rest : List ℕ)
      → get_handle (put_footer [] f ++ rest)
        ≡ some
            (f.metaindex_handle, put_handle [] f.index_handle ++ (zeros ++ (magic_bytes ++ rest)))
  first_handle rest =
      rw
        (
          footer_rest rest,
          append_assoc handles zeros (magic_bytes ++ rest),
          append_assoc (put_handle [] f.metaindex_handle) (put_handle [] f.index_handle)
              (zeros ++ (magic_bytes ++ rest)),
        )
        (get_handle-put_handle f.metaindex_handle
          (put_handle [] f.index_handle ++ (zeros ++ (magic_bytes ++ rest))) hm)

  -- For handles whose fields are below 2^64, Footer::DecodeFrom reads back what EncodeTo wrote at
  -- the start of a string and leaves what follows its 48 bytes.
  pub get_footer-put_footer : (rest : List ℕ) → get_footer (put_footer [] f ++ rest) ≡ footer f rest
  unfolding get_footer
  get_footer-put_footer rest = rw (
    read_magic-put_footer rest,
    first_handle rest,
    get_handle-put_handle f.index_handle (zeros ++ (magic_bytes ++ rest)) hi,
    behind_footer rest,
  )
