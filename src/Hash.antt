-- ===== src/Hash.antt =====
-- pkg/hash/hash.go: the text of a 64-bit hash, and the combiner. The hash function itself is xxHash,
-- an argument; a combiner is given by the bytes that were written to it since it was reset.
pub mod Roundtrip
mod Tests
use effective_next.Prelude.{
  ℕ, zero, suc, ◌+◌, ◌*◌, ◌/◌, ◌%◌, ◌^◌, Option, none, some, List, [], ◌∷◌, ◌++◌, get_elem?,
}

-- `const hex = "0123456789abcdef"`, as bytes.
abbrev pub hex : List ℕ
hex =
    b'0' ∷ b'1' ∷ b'2' ∷ b'3' ∷ b'4' ∷ b'5' ∷ b'6' ∷ b'7' ∷ b'8' ∷ b'9' ∷ b'a' ∷ b'b' ∷ b'c' ∷ b'd'
    ∷ b'e' ∷ b'f' ∷ []

-- `hex[d]`
unfoldable pub hex_digit : ℕ → ℕ
hex_digit d = elim (get_elem? hex d) [ none ↦ 0 | some c ↦ c ]

-- The loop from the last byte to the first; `u & 0xf` is the remainder and `u >>= 4` the quotient.
unfoldable pub fill_hex : ℕ → ℕ → List ℕ → List ℕ
unfolding hex_digit
fill_hex zero u buf = buf
fill_hex (suc n) u buf = fill_hex n (u / 16) (hex_digit (u % 16) ∷ buf)

unfoldable pub format_uint64 : ℕ → List ℕ
unfolding fill_hex
format_uint64 u = fill_hex 16 u []

pub record HashCombiner : Type 0 where
  pub written : List ℕ

unfoldable pub new_hash_combiner : HashCombiner
new_hash_combiner = record { written = [] }

unfoldable pub write : List ℕ → HashCombiner → HashCombiner
write p hc = record { written = hc.written ++ p }

-- `buf[i] = byte(u >> (8 * i))`, from `i` on.
unfoldable pub bytes_from : ℕ → ℕ → ℕ → List ℕ
bytes_from zero i u = []
bytes_from (suc n) i u = u / 2 ^ (8 * i) % 256 ∷ bytes_from n (i + 1) u

unfoldable pub write_uint64 : ℕ → HashCombiner → HashCombiner
unfolding bytes_from write
write_uint64 u hc = write (bytes_from 8 0 u) hc

unfoldable pub reset : HashCombiner → HashCombiner
reset hc = record { written = [] }

module _ (xxhash : List ℕ → ℕ) where
  unfoldable pub sum_hash : HashCombiner → ℕ
  sum_hash hc = xxhash hc.written

  unfoldable pub hash64_bytes : List ℕ → List ℕ
  hash64_bytes bytes = format_uint64 (xxhash bytes)
