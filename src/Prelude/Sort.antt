-- ===== src/Prelude/Sort.antt =====
-- `sort.Strings` and `sort.Slice` by insertion. `sort.Slice` may order ties otherwise, so the
-- laws say only that the result is a sorted rearrangement.
use Prim.Native.Nat.{◌+◌}
use mathlib.Core.Path.{◌≡◌, refl, ◌∙◌}
use mathlib.Core.Logic.{◌⊎◌, inl, inr}
use mathlib.Core.Bool.{Bool, true}
use mathlib.Core.List.{List, [], ◌∷◌, Perm}
use mathlib.Core.List.Perm
use native.Mathlib.Omega.{arith}
use effective_next.Prelude.Tests.{if◌then◌else◌, Bool-cases}
use effective_next.Prelude.Lists.{length, contains, Distinct}

module _ {ℓ} {A : Type ℓ} (le : A → A → Bool) where
  unfoldable pub insert : A → List A → List A
  insert x [] = x ∷ []
  insert x (y ∷ ys) = if le x y then x ∷ y ∷ ys else y ∷ insert x ys

  unfoldable pub sort : List A → List A
  unfolding insert
  sort [] = []
  sort (x ∷ xs) = insert x (sort xs)

  abbrev pub Below : A → List A → Type 0
  Below x [] = Unit
  Below x (y ∷ ys) = (le x y ≡ true) × Below x ys

  abbrev pub IsSorted : List A → Type 0
  IsSorted [] = Unit
  IsSorted (x ∷ xs) = Below x xs × IsSorted xs

  insert-perm : (x : A) (xs : List A) → Perm (insert x xs) (x ∷ xs)
  unfolding insert
  insert-perm x [] = Perm.refl _
  insert-perm x (y ∷ ys) = elim (Bool-cases (le x y)) [
    | inl h ↦ rw h (Perm.refl _)
    | inr h ↦ rw h (Perm.trans (Perm.cons y (insert-perm x ys)) (Perm.swap x y ys))
  ]

  -- Sorting rearranges.
  pub sort-perm : (xs : List A) → Perm (sort xs) xs
  unfolding sort
  sort-perm [] = Perm.nil
  sort-perm (x ∷ xs) = Perm.trans (insert-perm x (sort xs)) (Perm.cons x (sort-perm xs))

  length-insert : (x : A) (xs : List A) → length (insert x xs) ≡ length xs + 1
  unfolding insert
  length-insert x [] = omega arith
  length-insert x (y ∷ ys) = ground (arith, length-insert x ys)

  pub length-sort : (xs : List A) → length (sort xs) ≡ length xs
  unfolding sort
  length-sort [] = refl
  length-sort (x ∷ xs) = omega (arith, length-sort xs, length-insert x (sort xs))

  module _ (le_trans : (a b c : A) → le a b ≡ true → le b c ≡ true → le a c ≡ true)
      (le_total : (a b : A) → (le a b ≡ true) ⊎ (le b a ≡ true)) where
    Below-trans : (x y : A) (ys : List A) → le x y ≡ true → Below y ys → Below x ys
    Below-trans x y [] h b = tt
    Below-trans x y (z ∷ ys) h b = (le_trans x y z h b.0, Below-trans x y ys h b.1)

    Below-insert : (x y : A) (ys : List A) → le x y ≡ true → Below x ys → Below x (insert y ys)
    unfolding insert
    Below-insert x y [] h b = (h, tt)
    Below-insert x y (z ∷ ys) h b = ground (arith, Below-insert x y ys h b.1)

    IsSorted-insert : (x : A) (xs : List A) → IsSorted xs → IsSorted (insert x xs)
    unfolding insert
    IsSorted-insert x [] s = (tt, tt)
    IsSorted-insert x (y ∷ ys) s = elim (Bool-cases (le x y)) [
      | inl h ↦ rw h ((h, Below-trans x y ys h s.0), s)
      | inr h ↦
          let yx : le y x ≡ true = ground (arith, le_total x y) in
          rw h (Below-insert y x ys yx s.0, IsSorted-insert x ys s.1)
    ]

    -- Sorting sorts.
    pub sort-IsSorted : (xs : List A) → IsSorted (sort xs)
    unfolding sort
    sort-IsSorted [] = tt
    sort-IsSorted (x ∷ xs) = IsSorted-insert x (sort xs) (sort-IsSorted xs)

module _ {ℓ} {K : Type ℓ} (dec : Discrete K) (le : K → K → Bool) where
  contains-insert :
      (x : K) (xs : List K) (k : K) → contains dec (insert le x xs) k ≡ contains dec (x ∷ xs) k
  unfolding insert contains
  contains-insert x [] k = refl
  contains-insert x (y ∷ ys) k = ground (arith, contains-insert x ys k)

  pub contains-sort : (xs : List K) (k : K) → contains dec (sort le xs) k ≡ contains dec xs k
  unfolding sort contains
  contains-sort [] k = refl
  contains-sort (x ∷ xs) k = ground (arith, contains-sort xs k, contains-insert x (sort le xs) k)

  Distinct-insert : (x : K) (xs : List K) → Distinct dec (x ∷ xs) → Distinct dec (insert le x xs)
  unfolding insert contains
  Distinct-insert x [] d = d
  Distinct-insert x (y ∷ ys) d = ground (arith, Distinct-insert x ys, contains-insert x ys y)

  pub Distinct-sort : (xs : List K) → Distinct dec xs → Distinct dec (sort le xs)
  unfolding sort
  Distinct-sort [] d = tt
  Distinct-sort (x ∷ xs) d =
      Distinct-insert x (sort le xs) (contains-sort xs x ∙ d.0, Distinct-sort xs d.1)
