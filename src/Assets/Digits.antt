-- ===== src/Assets/Digits.antt =====
-- The digits of `intToStr` are the number.
use effective_next.Prelude.{
  ℕ, zero, suc, ◌+◌, ◌-◌, ◌*◌, ◌/◌, ◌%◌, ◌≤◌, ◌≡◌, refl, ap, ◌∙◌, true, List, [], ◌∷◌,
  if◌then◌else◌, ◌==◌, arith, Bool-cases, inl, inr,
}
use effective_next.Prelude.Int.{ℤ, pos, negsuc}
use effective_next.Assets.{digits, int_to_str}

-- Reading digits from the left.
abbrev pub read_from : ℕ → List ℕ → ℕ
read_from a [] = a
read_from a (d ∷ ds) = read_from (a * 10 + (d - 48)) ds

-- Reading a signed number.
abbrev pub read : List ℕ → ℤ
read [] = pos 0
read (c ∷ ds) = if c == 45 then negsuc (read_from 0 ds - 1) else pos (read_from 0 (c ∷ ds))

read_from-digits :
    (fuel n : ℕ) (acc : List ℕ) → n ≤ fuel → read_from 0 (digits fuel n acc) ≡ read_from n acc
unfolding digits
read_from-digits zero n acc l = ap (λ k. read_from k acc) (omega arith)
read_from-digits (suc fuel) n acc l = elim (Bool-cases (n == 0)) [
  | inl z ↦ ground (arith, z, ap (λ k. read_from k acc) (zero_of n z))
  | inr p ↦
      let q : n / 10 ≤ fuel = ground arith in
      let back : n / 10 * 10 + (48 + n % 10 - 48) ≡ n = omega arith in
      rw (p, digits)
        (read_from-digits fuel (n / 10) ((48 + n % 10) ∷ acc) q ∙ ap (λ k. read_from k acc) back)
]
  where
    zero_of : (n : ℕ) → n == 0 ≡ true → 0 ≡ n
    zero_of n z = ground arith

abbrev pub AllDigits : List ℕ → Type 0
AllDigits [] = Unit
AllDigits (c ∷ cs) = (48 ≤ c) × (c ≤ 57) × AllDigits cs

AllDigits-digits : (fuel n : ℕ) (acc : List ℕ) → AllDigits acc → AllDigits (digits fuel n acc)
unfolding digits
AllDigits-digits zero n acc d = d
AllDigits-digits (suc fuel) n acc d = elim (Bool-cases (n == 0)) [
  | inl z ↦ rw (z, digits) d
  | inr p ↦
      rw (p, digits)
        (AllDigits-digits fuel (n / 10) ((48 + n % 10) ∷ acc) (omega arith, omega arith, d))
]

read_unsigned : (cs : List ℕ) → AllDigits cs → read cs ≡ pos (read_from 0 cs)
read_unsigned [] d = refl
read_unsigned (c ∷ cs) d = ground arith

-- Reading the text of `intToStr` as a decimal number gives back the number.
pub read-int_to_str : (n : ℤ) → read (int_to_str n) ≡ n
unfolding int_to_str
read-int_to_str (pos zero) = refl
read-int_to_str (pos (suc n)) =
    read_unsigned (digits (suc n) (suc n) []) (AllDigits-digits (suc n) (suc n) [] tt)
    ∙ ap pos (read_from-digits (suc n) (suc n) [] (omega arith))
read-int_to_str (negsuc n) =
    ap (λ k. negsuc (k - 1)) (read_from-digits (suc n) (suc n) [] (omega arith))
    ∙ ap negsuc (omega arith)
