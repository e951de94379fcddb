-- ===== src/Prelude/Dfs/Walks.antt =====
-- Walks along the edges of `next`, as lists of keys.
use Prim.Native.Nat.{ℕ, zero, suc}
use mathlib.Core.Path.{◌≡◌, refl, sym, ap}
use mathlib.Core.Bool.{true}
use mathlib.Core.Option.{Option, none, some}
use mathlib.Core.List.{List, [], ◌∷◌, ◌++◌}
use effective_next.Prelude.Lists.{length, contains}
use effective_next.Prelude.Dfs.{drop, all_but_last}

module _ {K : Type 0} where
  abbrev pub last? : List K → Option K
  last? [] = none
  last? (x ∷ []) = some x
  last? (x ∷ y ∷ xs) = last? (y ∷ xs)

  pub last?-snoc : (xs : List K) (y : K) → last? (xs ++ y ∷ []) ≡ some y
  last?-snoc [] y = refl
  last?-snoc (x ∷ []) y = refl
  last?-snoc (x ∷ z ∷ xs) y = last?-snoc (z ∷ xs) y

  pub all_but_last-snoc : (xs : List K) (y : K) → all_but_last (xs ++ y ∷ []) ≡ xs
  unfolding all_but_last
  all_but_last-snoc [] y = refl
  all_but_last-snoc (x ∷ []) y = refl
  all_but_last-snoc (x ∷ z ∷ xs) y = ap (◌∷◌ x) (all_but_last-snoc (z ∷ xs) y)

  pub drop-length : (xs ys : List K) → drop (length xs) (xs ++ ys) ≡ ys
  unfolding drop
  drop-length [] ys = refl
  drop-length (x ∷ xs) ys = drop-length xs ys

  pub drop-append :
      (n : ℕ) (xs ys : List K) (y : K) (rest : List K)
      → drop n xs ≡ y ∷ rest
      → drop n (xs ++ ys) ≡ y ∷ (rest ++ ys)
  unfolding drop
  drop-append zero xs ys y rest e = ap (λ l. l ++ ys) e
  drop-append (suc n) [] ys y rest e = cc
  drop-append (suc n) (x ∷ xs) ys y rest e = drop-append n xs ys y rest e

  pub last?-drop :
      (n : ℕ) (xs : List K) (y : K) (rest : List K)
      → drop n xs ≡ y ∷ rest
      → last? (y ∷ rest) ≡ last? xs
  unfolding drop
  last?-drop zero xs y rest e = ap last? (sym e)
  last?-drop (suc n) [] y rest e = cc
  last?-drop (suc zero) (x ∷ []) y rest e = cc
  last?-drop (suc (suc n)) (x ∷ []) y rest e = cc
  last?-drop (suc n) (x ∷ z ∷ xs) y rest e = last?-drop n (z ∷ xs) y rest e

module _ {K : Type 0} (dec : Discrete K) (next : K → List K) where
  abbrev pub IsWalk : List K → Type 0
  IsWalk [] = Unit
  IsWalk (x ∷ []) = Unit
  IsWalk (x ∷ y ∷ xs) = (contains dec (next x) y ≡ true) × IsWalk (y ∷ xs)

  -- A walk of at least one edge that ends where it starts.
  pub record IsCycle (c : List K) : Type 0 where
    pub first : K
    pub rest : List K
    pub whole : c ≡ first ∷ rest
    pub closed : last? rest ≡ some first
    pub walk : IsWalk c

  pub IsWalk-snoc :
      (xs : List K) (y : K)
      → IsWalk xs
      → ((x : K) → last? xs ≡ some x → contains dec (next x) y ≡ true)
      → IsWalk (xs ++ y ∷ [])
  IsWalk-snoc [] y w h = tt
  IsWalk-snoc (x ∷ []) y w h = (h x refl, tt)
  IsWalk-snoc (x ∷ z ∷ xs) y w h = (w.0, IsWalk-snoc (z ∷ xs) y w.1 h)

  pub IsWalk-drop : (n : ℕ) (xs : List K) → IsWalk xs → IsWalk (drop n xs)
  unfolding drop
  IsWalk-drop zero xs w = w
  IsWalk-drop (suc n) [] w = tt
  IsWalk-drop (suc zero) (x ∷ []) w = tt
  IsWalk-drop (suc (suc n)) (x ∷ []) w = tt
  IsWalk-drop (suc n) (x ∷ z ∷ xs) w = IsWalk-drop n (z ∷ xs) w.1
