-- ===== src/Hash/Roundtrip.antt =====
-- Nothing of a hash is lost in its text and in the bytes of a combiner.
use effective_next.Prelude.{
  ℕ, zero, suc, ◌+◌, ◌*◌, ◌/◌, ◌%◌, ◌^◌, ◌<◌, ◌≡◌, refl, ap, ◌∙◌, Bool, true, ◌&&◌, List, [], ◌∷◌,
  length, ◌==◌, if◌then◌else◌, arith,
}
use native.Mathlib.Numerals.{unary_clauses}
use effective_next.Hash.{hex, hex_digit, fill_hex, format_uint64, bytes_from}

-- The value of a hexadecimal digit: where it stands among the digits.
abbrev pub value_in : List ℕ → ℕ → ℕ
value_in [] c = 0
value_in (d ∷ ds) c = if d == c then 0 else suc (value_in ds c)

-- Reading hexadecimal digits from the left.
abbrev pub read_hex : ℕ → List ℕ → ℕ
read_hex a [] = a
read_hex a (c ∷ cs) = read_hex (a * 16 + value_in hex c) cs

abbrev all_digits : ℕ → Bool
all_digits zero = true
all_digits (suc d) = (value_in hex (hex_digit d) == d) && all_digits d

all_digits_of : (n d : ℕ) → all_digits n ≡ true → d < n → value_in hex (hex_digit d) ≡ d
all_digits_of zero d h l = absurd (omega arith)
all_digits_of (suc n) d h l = ground (arith, all_digits_of n d)

table : all_digits 16 ≡ true
unfolding hex_digit
table = refl

pow_suc : (n : ℕ) → 16 ^ suc n ≡ 16 ^ n * 16
pow_suc n = simp unary_clauses

read_hex-fill_hex :
    (n u : ℕ) (buf : List ℕ) → u < 16 ^ n → read_hex 0 (fill_hex n u buf) ≡ read_hex u buf
unfolding fill_hex
read_hex-fill_hex zero u buf l = ap (λ a. read_hex a buf) (omega arith)
read_hex-fill_hex (suc n) u buf l =
    read_hex-fill_hex n (u / 16) (hex_digit (u % 16) ∷ buf) (omega (arith, pow_suc n))
    ∙ ap (λ a. read_hex a buf) (omega (arith, all_digits_of 16 (u % 16) table (omega arith)))

length-fill_hex : (n u : ℕ) (buf : List ℕ) → length (fill_hex n u buf) ≡ n + length buf
unfolding fill_hex
length-fill_hex zero u buf = omega arith
length-fill_hex (suc n) u buf = omega (arith, length-fill_hex n (u / 16) (hex_digit (u % 16) ∷ buf))

-- Reading the lowest byte first.
abbrev pub read_bytes : List ℕ → ℕ
read_bytes [] = 0
read_bytes (b ∷ bs) = b + 256 * read_bytes bs

-- For each 64-bit hash the text has 16 digits and reads as the hash, and the eight bytes that
-- `WriteUint64` writes read as the hash too, so no two hashes share them.
pub format_uint64_lem :
    (u : ℕ)
    → u < 2 ^ 64
    → (length (format_uint64 u) ≡ 16)
      × (read_hex 0 (format_uint64 u) ≡ u)
      × (read_bytes (bytes_from 8 0 u) ≡ u)
unfolding format_uint64 bytes_from
format_uint64_lem u l = (length-fill_hex 16 u [], read_hex-fill_hex 16 u [] l, omega arith)
