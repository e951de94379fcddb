-- ===== src/Prelude/Sets.antt =====
-- Lists of distinct keys as finite sets: sizes of subsets, and positions.
use Prim.Native.Nat.{ℕ, suc, ◌+◌, ◌≤◌}
use mathlib.Core.Path.{◌≡◌, refl, ap, sym, ◌∙◌}
use mathlib.Core.Logic.{inl, inr, ite}
use mathlib.Core.Bool.{true}
use mathlib.Core.List.{List, [], ◌∷◌}
use native.Mathlib.Omega.{arith}
use effective_next.Prelude.Tests.{Bool-cases}
use effective_next.Prelude.Lists.{
  length, contains, Distinct, missing, missing-cons-lt, missing-le, count, count-pos, count_zero,
  contains_of_count,
}

module _ {ℓ} {K : Type ℓ} (dec : Discrete K) where
  abbrev pub Subset : List K → List K → Type ℓ
  Subset xs ys = (k : K) → contains dec xs k ≡ true → contains dec ys k ≡ true

  length-add-missing-le :
      (xs all : List K)
      → Distinct dec xs
      → Subset xs all
      → length xs + missing dec all xs ≤ length all
  unfolding contains
  length-add-missing-le [] all d h = omega (arith, missing-le dec all [])
  length-add-missing-le (x ∷ xs) all d h =
      let rest = length-add-missing-le xs all d.1 (λ k m. h k (ground arith)) in
      omega (arith, rest, missing-cons-lt dec all x xs (h x (ground arith)) d.0)

  pub length-le_of_subset :
      (xs ys : List K) → Distinct dec xs → Subset xs ys → length xs ≤ length ys
  length-le_of_subset xs ys d h = omega (arith, length-add-missing-le xs ys d h)

  mem_of_missing-zero : (all seen : List K) → missing dec all seen ≡ 0 → Subset all seen
  unfolding contains
  mem_of_missing-zero [] seen e k m = cc
  mem_of_missing-zero (u ∷ all) seen e k m = elim (dec u k) [
    | yes p ↦ ground (arith, ap (contains dec seen) p)
    | no p ↦ mem_of_missing-zero all seen (ground arith) k (ground arith)
  ]

  -- A set of distinct keys inside a list that is no longer than it fills the list.
  pub subset_of_length :
      (xs ys : List K) → Distinct dec xs → Subset xs ys → length ys ≤ length xs → Subset ys xs
  subset_of_length xs ys d h l =
      mem_of_missing-zero ys xs (omega (arith, length-add-missing-le xs ys d h))

  -- The position of the first occurrence.
  abbrev pub index : List K → K → ℕ
  index [] k = 0
  index (x ∷ xs) k = ite (dec x k) 0 (suc (index xs k))

  pub count_le_one : (k : K) (xs : List K) → Distinct dec xs → count dec k xs ≤ 1
  count_le_one k [] d = omega arith
  count_le_one k (x ∷ xs) d = elim (dec x k) [
    | no p ↦ ground (arith, count_le_one k xs d.1)
    | yes p ↦ ground (arith, count_zero dec k xs (ap (contains dec xs) (sym p) ∙ d.0))
  ]

  pub Distinct-of_count : (xs : List K) → ((k : K) → count dec k xs ≤ 1) → Distinct dec xs
  Distinct-of_count [] h = tt
  Distinct-of_count (x ∷ xs) h = (
    elim (Bool-cases (contains dec xs x)) [
      | inr n ↦ n
      | inl m ↦ absurd (ground (arith, h x, count-pos dec x xs m))
    ],
    Distinct-of_count xs (λ k. ground (arith, h k)),
  )

  pub contains_of_eq_count :
      (xs ys : List K) (k : K)
      → count dec k xs ≡ count dec k ys
      → contains dec xs k ≡ contains dec ys k
  contains_of_eq_count xs ys k e = elim (Bool-cases (contains dec xs k)) [
    | inl h ↦ h ∙ sym (contains_of_count dec k ys (omega (arith, e, count-pos dec k xs h)))
    | inr h ↦ elim (Bool-cases (contains dec ys k)) [
      | inr h' ↦ h ∙ sym h'
      | inl h' ↦ absurd (omega (arith, e, count_zero dec k xs h, count-pos dec k ys h'))
    ]
  ]

  pub nil_of_count : (xs : List K) → ((k : K) → count dec k xs ≡ 0) → xs ≡ []
  nil_of_count [] h = refl
  nil_of_count (x ∷ xs) h = absurd (ground (arith, h x))
