-- ===== src/Table/Tests.antt =====
-- Runs of table/format.cpp on a concrete footer, and of the block builder on three pairs.
use level_db.Common.{ℕ, List, some, length, ap, [], ◌∷◌, ◌++◌, ◌≡◌, refl, arith}
use level_db.Table.Block.{reset, add, add_all, add_entry, count_shared, read_entries}
use level_db.Table.Block.Entries.{read_entries-add_all}
use level_db.Util.Coding.{decode_fixed32, put_varint32, encode_varint32}
use level_db.Util.Status.{error, invalid_argument}
use level_db.Table.Format.{Footer, put_footer, footer, failure, get_footer, read_magic}
use level_db.Table.Format.RoundTrip.{get_footer-put_footer}

abbrev small_footer : Footer
small_footer = record {
  metaindex_handle = record { offset = 300; size = 40 };
  index_handle = record { offset = 345; size = 2000 };
}

get_footer-put_footer_example :
    get_footer (put_footer [] small_footer ++ (1 ∷ 2 ∷ [])) ≡ footer small_footer (1 ∷ 2 ∷ [])
get_footer-put_footer_example =
    get_footer-put_footer small_footer (omega arith, omega arith) (omega arith, omega arith)
      (1 ∷ 2 ∷ [])

no_magic : get_footer [] ≡ failure (error invalid_argument "not an sstable (bad magic number)")
unfolding get_footer read_magic decode_fixed32
no_magic = refl

-- Three keys with common prefixes, and a restart point at the third.
abbrev three_pairs : List (List ℕ × List ℕ)
three_pairs =
    (1 ∷ 2 ∷ 3 ∷ [], 7 ∷ []) ∷ (1 ∷ 2 ∷ 4 ∷ [], 8 ∷ 9 ∷ []) ∷ (1 ∷ 2 ∷ 4 ∷ 5 ∷ [], []) ∷ []

three_pairs_buffer :
    (add_all 2 reset three_pairs).buffer
    ≡ 0 ∷ 3 ∷ 1 ∷ 1 ∷ 2 ∷ 3 ∷ 7 ∷ 2 ∷ 1 ∷ 2 ∷ 4 ∷ 8 ∷ 9 ∷ 0 ∷ 4 ∷ 0 ∷ 1 ∷ 2 ∷ 4 ∷ 5 ∷ []
unfolding add_all add add_entry count_shared put_varint32 encode_varint32
three_pairs_buffer = refl

three_pairs_restarts : (add_all 2 reset three_pairs).restarts ≡ 0 ∷ 13 ∷ []
unfolding add_all add add_entry count_shared put_varint32 encode_varint32
three_pairs_restarts = refl

read_entries-add_all_example :
    read_entries 4 [] (add_all 2 reset three_pairs).buffer ≡ some three_pairs
read_entries-add_all_example =
    read_entries-add_all 2 reset three_pairs (omega arith, (omega arith, (omega arith, tt)))
      (omega (arith, ap length three_pairs_buffer))
