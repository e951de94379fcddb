-- ===== src/Prelude/Lists.antt =====
-- Lists under native lengths and indices, membership of keys, and facts about every element.
use Prim.Native.Nat.{ℕ, zero, suc, ◌+◌, ◌≤◌, ◌<◌}
use mathlib.Core.Path.{◌≡◌, refl, ap}
use mathlib.Core.Logic.{◌⊎◌, inl, inr, ◌↔◌, ite, ⊎_elim}
use mathlib.Core.Bool.{Bool, true, false, ◌||◌}
use mathlib.Core.Option.{Option, none, some}
use mathlib.Core.List.{List, [], ◌∷◌, ◌++◌, map, Memᴰ}
use mathlib.Core.List.Memᴰ
use native.Mathlib.Omega.{arith}
use effective_next.Prelude.Tests.{if◌then◌else◌}

module _ {ℓ} {A : Type ℓ} where
  abbrev pub length : List A → ℕ
  length [] = 0
  length (x ∷ xs) = suc (length xs)

  abbrev pub get_elem? : List A → ℕ → Option A
  get_elem? [] i = none
  get_elem? (x ∷ xs) zero = some x
  get_elem? (x ∷ xs) (suc i) = get_elem? xs i

  -- A write out of bounds changes nothing.
  abbrev pub set : List A → ℕ → A → List A
  set [] i v = []
  set (x ∷ xs) zero v = v ∷ xs
  set (x ∷ xs) (suc i) v = x ∷ set xs i v

  pub length-append : (xs ys : List A) → length (xs ++ ys) ≡ length xs + length ys
  length-append [] ys = omega arith
  length-append (x ∷ xs) ys = omega (arith, length-append xs ys)

  pub List-cases : (xs : List A) → (xs ≡ []) ⊎ ((x : A) × (rest : List A) × (xs ≡ x ∷ rest))
  List-cases [] = inl refl
  List-cases (x ∷ xs) = inr (x, xs, refl)

  pub Memᴰ-cons : (a x : A) (xs : List A) → Memᴰ a (x ∷ xs) ↔ ((a ≡ x) ⊎ Memᴰ a xs)
  Memᴰ-cons a x xs = (Memᴰ.cases_cons, ⊎_elim Memᴰ.head Memᴰ.tail)

-- Membership of a key, as a test.
module _ {ℓ} {K : Type ℓ} (dec : Discrete K) where
  unfoldable pub contains : List K → K → Bool
  contains [] k = false
  contains (x ∷ xs) k = ite (dec x k) true (contains xs k)

  pub contains-append :
      (xs ys : List K) (k : K) → contains (xs ++ ys) k ≡ (contains xs k || contains ys k)
  unfolding contains
  contains-append [] ys k = refl
  contains-append (x ∷ xs) ys k = ground (arith, contains-append xs ys k)

  -- No key stands twice.
  abbrev pub Distinct : List K → Type 0
  Distinct [] = Unit
  Distinct (x ∷ xs) = (contains xs x ≡ false) × Distinct xs

  -- The keys of `all` that are not yet seen.
  abbrev pub missing : List K → List K → ℕ
  missing [] seen = 0
  missing (u ∷ all) seen = if contains seen u then missing all seen else suc (missing all seen)

  missing-cons-le :
      (all : List K) (k : K) (seen : List K) → missing all (k ∷ seen) ≤ missing all seen
  unfolding contains
  missing-cons-le [] k seen = omega arith
  missing-cons-le (u ∷ all) k seen = ground (arith, missing-cons-le all k seen)

  pub missing-cons-lt :
      (all : List K) (k : K) (seen : List K)
      → contains all k ≡ true
      → contains seen k ≡ false
      → missing all (k ∷ seen) < missing all seen
  unfolding contains
  missing-cons-lt [] k seen h n = cc
  missing-cons-lt (u ∷ all) k seen h n =
      ground (arith, missing-cons-lt all k seen, missing-cons-le all k seen)

  pub missing-le : (all seen : List K) → missing all seen ≤ length all
  missing-le [] seen = omega arith
  missing-le (u ∷ all) seen = ground (arith, missing-le all seen)

  -- How often a key stands in a list.
  abbrev pub count : K → List K → ℕ
  count k [] = 0
  count k (x ∷ xs) = ite (dec x k) (suc (count k xs)) (count k xs)

  pub count-pos : (k : K) (xs : List K) → contains xs k ≡ true → 0 < count k xs
  unfolding contains
  count-pos k [] h = cc
  count-pos k (x ∷ xs) h = ground (arith, count-pos k xs)

  pub count_zero : (k : K) (xs : List K) → contains xs k ≡ false → count k xs ≡ 0
  unfolding contains
  count_zero k [] h = refl
  count_zero k (x ∷ xs) h = ground (arith, count_zero k xs)

  pub Distinct-snoc :
      (xs : List K) (k : K) → Distinct xs → contains xs k ≡ false → Distinct (xs ++ k ∷ [])
  unfolding contains
  Distinct-snoc [] k d h = (refl, tt)
  Distinct-snoc (x ∷ xs) k d h =
      ground (arith, Distinct-snoc xs k d.1, contains-append xs (k ∷ []) x)

  missing-snoc_le :
      (all : List K) (k : K) (seen : List K) → missing all (seen ++ k ∷ []) ≤ missing all seen
  missing-snoc_le [] k seen = omega arith
  missing-snoc_le (u ∷ all) k seen =
      ground (arith, missing-snoc_le all k seen, contains-append seen (k ∷ []) u)

  pub missing-snoc_lt :
      (all : List K) (k : K) (seen : List K)
      → contains all k ≡ true
      → contains seen k ≡ false
      → missing all (seen ++ k ∷ []) < missing all seen
  unfolding contains
  missing-snoc_lt [] k seen h n = cc
  missing-snoc_lt (u ∷ all) k seen h n = ground (
    arith,
    missing-snoc_lt all k seen,
    missing-snoc_le all k seen,
    contains-append seen (k ∷ []) u,
  )

  pub contains-snoc : (xs : List K) (k j : K) → contains (xs ++ k ∷ []) j ≡ contains (k ∷ xs) j
  unfolding contains
  contains-snoc xs k j = ground (arith, contains-append xs (k ∷ []) j)

  pub count-append : (k : K) (xs ys : List K) → count k (xs ++ ys) ≡ count k xs + count k ys
  count-append k [] ys = omega arith
  count-append k (x ∷ xs) ys = ground (arith, count-append k xs ys)

  pub contains_of_count : (k : K) (xs : List K) → 0 < count k xs → contains xs k ≡ true
  unfolding contains
  contains_of_count k [] h = absurd (omega arith)
  contains_of_count k (x ∷ xs) h = ground (arith, contains_of_count k xs)

  pub length-pos : (xs : List K) (k : K) → contains xs k ≡ true → 0 < length xs
  unfolding contains
  length-pos [] k h = cc
  length-pos (x ∷ xs) k h = omega arith

pub length-map {ℓ κ} :
    {A : Type ℓ} {B : Type κ} (f : A → B) (xs : List A) → length (map f xs) ≡ length xs
length-map f [] = refl
length-map f (x ∷ xs) = ap suc (length-map f xs)
