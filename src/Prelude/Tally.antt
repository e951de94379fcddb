-- ===== src/Prelude/Tally.antt =====
-- `counts[k]++` over a sequence of keys.
use Prim.Native.Nat.{ℕ, ◌+◌}
use mathlib.Core.Path.{◌≡◌}
use mathlib.Core.List.{List, [], ◌∷◌}
use native.Mathlib.Omega.{arith}
use effective_next.Prelude.Lists.{length, count}
use effective_next.Prelude.Maps.{get_or, put, get_or-put}

abbrev pub sum_values {ℓ} : {K : Type ℓ} → List (K × ℕ) → ℕ
sum_values [] = 0
sum_values ((k, n) ∷ m) = n + sum_values m

module _ {K : Type 0} (dec : Discrete K) where
  -- `counts[k] += n`
  unfoldable pub add_at : K → ℕ → List (K × ℕ) → List (K × ℕ)
  add_at k n m = put dec k (get_or dec m k 0 + n) m

  unfoldable pub tally : List K → List (K × ℕ) → List (K × ℕ)
  unfolding add_at
  tally [] m = m
  tally (k ∷ ks) m = tally ks (add_at k 1 m)

  pub sum-add_at : (k : K) (n : ℕ) (m : List (K × ℕ)) → sum_values (add_at k n m) ≡ sum_values m + n
  unfolding add_at put get_or
  sum-add_at k n [] = omega arith
  sum-add_at k n ((j, i) ∷ m) = ground (arith, sum-add_at k n m)

  -- A key's count is how often it came.
  pub get_or-tally :
      (ks : List K) (m : List (K × ℕ)) (k : K)
      → get_or dec (tally ks m) k 0 ≡ get_or dec m k 0 + count dec k ks
  unfolding tally
  get_or-tally [] m k = omega arith
  get_or-tally (j ∷ ks) m k =
      ground
        (arith, get_or-tally ks (add_at j 1 m) k, get_or-put dec j k (get_or dec m j 0 + 1) 0 m)

  -- The counts add up to the number of keys.
  pub sum-tally :
      (ks : List K) (m : List (K × ℕ)) → sum_values (tally ks m) ≡ sum_values m + length ks
  unfolding tally
  sum-tally [] m = omega arith
  sum-tally (k ∷ ks) m = omega (arith, sum-tally ks (add_at k 1 m), sum-add_at k 1 m)
