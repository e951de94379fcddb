-- ===== src/Hash/Tests.antt =====
-- The text and the bytes of a hash, and the theorem at it.
use effective_next.Prelude.{◌≡◌, refl, [], ◌∷◌, length, arith}
use effective_next.Hash.{
  hex_digit, fill_hex, format_uint64, new_hash_combiner, bytes_from, write, write_uint64,
}
use effective_next.Hash.Roundtrip.{read_hex, read_bytes, format_uint64_lem}

program : Unit {0}
unfolding hex_digit fill_hex format_uint64 new_hash_combiner bytes_from write write_uint64
program = tt

text-beef :
    format_uint64 0xbeef
    ≡ b'0' ∷ b'0' ∷ b'0' ∷ b'0' ∷ b'0' ∷ b'0' ∷ b'0' ∷ b'0' ∷ b'0' ∷ b'0' ∷ b'0' ∷ b'0' ∷ b'b'
      ∷ b'e' ∷ b'e' ∷ b'f' ∷ []
unfolding program
text-beef = refl

-- The lowest byte comes first.
written-beef :
    (write_uint64 0xbeef new_hash_combiner).written ≡ 0xef ∷ 0xbe ∷ 0 ∷ 0 ∷ 0 ∷ 0 ∷ 0 ∷ 0 ∷ []
unfolding program
written-beef = refl

format_uint64_lem_example :
    (length (format_uint64 0xbeef) ≡ 16)
    × (read_hex 0 (format_uint64 0xbeef) ≡ 0xbeef)
    × (read_bytes (bytes_from 8 0 0xbeef) ≡ 0xbeef)
format_uint64_lem_example = format_uint64_lem 0xbeef (omega arith)
