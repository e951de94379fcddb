-- ===== src/Prelude/Sums.antt =====
-- Sums of a weight over a list and over a family of workers. Two lists whose sums agree for every
-- weight hold the same elements, each as often.
use Prim.Native.Nat.{ℕ, zero, suc, ◌+◌, ◌≤◌, ◌<◌}
use mathlib.Core.Path.{◌≡◌, refl, ap}
use mathlib.Core.Logic.{ite, ◌↔◌, ◌⊎◌, inl, inr}
use mathlib.Core.Bool.{true}
use mathlib.Core.List.{List, [], ◌∷◌, ◌++◌}
use native.Mathlib.Decide.{dec_lt, ℕ_discrete}
use native.Mathlib.Omega.{arith}
use effective_next.Prelude.Lists.{contains}

module _ {ℓ} {A : Type ℓ} where
  abbrev pub sum : (A → ℕ) → List A → ℕ
  sum w [] = 0
  sum w (x ∷ xs) = w x + sum w xs

  pub sum-append : (w : A → ℕ) (xs ys : List A) → sum w (xs ++ ys) ≡ sum w xs + sum w ys
  sum-append w [] ys = omega arith
  sum-append w (x ∷ xs) ys = omega (arith, sum-append w xs ys)

  pub sum-snoc : (w : A → ℕ) (xs : List A) (x : A) → sum w (xs ++ x ∷ []) ≡ sum w xs + w x
  sum-snoc w xs x = omega (arith, sum-append w xs (x ∷ []))

-- Worker `i` moves to `p`.
unfoldable pub moved {ℓ} : {P : Type ℓ} → (ℕ → P) → ℕ → P → ℕ → P
unfolding ℕ_discrete
moved pc i p j = ite (ℕ_discrete i j) p (pc j)

pub moved-cases {ℓ} :
    {P : Type ℓ} (pc : ℕ → P) (i : ℕ) (p : P) (j : ℕ)
    → (moved pc i p j ≡ p) ⊎ (moved pc i p j ≡ pc j)
unfolding moved
moved-cases pc i p j =
    elim (ℕ_discrete i j) as (λ d. (ite d p (pc j) ≡ p) ⊎ (ite d p (pc j) ≡ pc j)) [
      | yes e ↦ inl refl
      | no d ↦ inr refl
    ]

module _ {ℓ} {P : Type ℓ} (w : P → ℕ) where
  -- Over the first `n` workers.
  abbrev pub sum_below : ℕ → (ℕ → P) → ℕ
  sum_below zero pc = 0
  sum_below (suc n) pc = w (pc n) + sum_below n pc

  sum_below-outside :
      (n : ℕ) (pc : ℕ → P) (i : ℕ) (p : P) → n ≤ i → sum_below n (moved pc i p) ≡ sum_below n pc
  unfolding moved
  sum_below-outside zero pc i p h = refl
  sum_below-outside (suc n) pc i p h = ground (arith, sum_below-outside n pc i p)

  pub sum_below-moved :
      (n : ℕ) (pc : ℕ → P) (i : ℕ) (p : P)
      → i < n
      → sum_below n (moved pc i p) + w (pc i) ≡ sum_below n pc + w p
  unfolding moved
  sum_below-moved zero pc i p h = absurd (omega arith)
  sum_below-moved (suc n) pc i p h = elim (dec_lt i n) [
    | yes l ↦ ground (arith, sum_below-moved n pc i p l)
    | no l ↦ ground (arith, sum_below-outside n pc i p)
  ]

  pub sum_below-zero : (n : ℕ) (pc : ℕ → P) → ((i : ℕ) → i < n → w (pc i) ≡ 0) → sum_below n pc ≡ 0
  sum_below-zero zero pc h = refl
  sum_below-zero (suc n) pc h =
      omega (arith, h n (omega arith), sum_below-zero n pc (λ i l. h i (omega arith)))

  pub sum_below-ge : (n : ℕ) (pc : ℕ → P) (i : ℕ) → i < n → w (pc i) ≤ sum_below n pc
  sum_below-ge zero pc i h = absurd (omega arith)
  sum_below-ge (suc n) pc i h = elim (ℕ_discrete i n) [
    | yes e ↦ omega (arith, ap (λ j. w (pc j)) e)
    | no d ↦ omega (arith, sum_below-ge n pc i (omega arith))
  ]

module _ {ℓ} {K : Type ℓ} (dec : Discrete K) where
  pub sum-ge : (w : K → ℕ) (xs : List K) (k : K) → contains dec xs k ≡ true → w k ≤ sum w xs
  unfolding contains
  sum-ge w [] k h = cc
  sum-ge w (x ∷ xs) k h = elim (dec x k) [
    | yes e ↦ omega (arith, ap w e)
    | no d ↦ omega (arith, sum-ge w xs k (ground arith))
  ]

  abbrev pub is_key : K → K → ℕ
  is_key k x = ite (dec x k) 1 0

  pub sum-is_key : (k : K) (xs : List K) → (0 < sum (is_key k) xs) ↔ (contains dec xs k ≡ true)
  unfolding contains
  sum-is_key k [] = (λ h. absurd (omega arith), λ h. cc)
  sum-is_key k (x ∷ xs) = ground (arith, sum-is_key k xs)
