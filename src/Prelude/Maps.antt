-- ===== src/Prelude/Maps.antt =====
-- Go maps: association lists whose keys are distinct. Go iterates over a map in no fixed order, so
-- a traversal follows the list and the theorems hold for the entries in every order.
use Prim.Native.Nat.{suc, ◌+◌}
use mathlib.Core.Path.{◌≡◌, refl, ap}
use mathlib.Core.Logic.{ite, ◌↔◌}
use mathlib.Core.Bool.{Bool, true, false}
use mathlib.Core.Option.{Option, none, some}
use mathlib.Core.List.{List, [], ◌∷◌}
use native.Mathlib.Omega.{arith}
use effective_next.Prelude.Tests.{if◌then◌else◌}
use effective_next.Prelude.Lists.{length, contains, Distinct}

module _ {ℓ} {K V : Type ℓ} where
  abbrev pub keys : List (K × V) → List K
  keys [] = []
  keys ((k, v) ∷ m) = k ∷ keys m

  abbrev pub values : List (K × V) → List V
  values [] = []
  values ((k, v) ∷ m) = v ∷ values m

module _ {ℓ} {K V : Type ℓ} (dec : Discrete K) where
  -- `v, ok := m[k]`
  unfoldable pub get : List (K × V) → K → Option V
  get [] k = none
  get ((j, v) ∷ m) k = ite (dec j k) (some v) (get m k)

  -- `m[k]`, where a missing key reads as the zero value.
  unfoldable pub get_or : List (K × V) → K → V → V
  get_or [] k d = d
  get_or ((j, v) ∷ m) k d = ite (dec j k) v (get_or m k d)

  -- `m[k] = v`
  unfoldable pub put : K → V → List (K × V) → List (K × V)
  put k v [] = (k, v) ∷ []
  put k v ((j, w) ∷ m) = ite (dec j k) ((k, v) ∷ m) ((j, w) ∷ put k v m)

  -- `delete(m, k)`
  unfoldable pub delete : K → List (K × V) → List (K × V)
  delete k [] = []
  delete k ((j, w) ∷ m) = ite (dec j k) (delete k m) ((j, w) ∷ delete k m)

  -- `_, ok := m[k]`
  abbrev pub has : List (K × V) → K → Bool
  has m k = contains dec (keys m) k

-- The laws are stated at level 0, where every key and value of the program lives.
module _ {K V : Type 0} (dec : Discrete K) where
  pub get-put :
      (k j : K) (v : V) (m : List (K × V))
      → get dec (put dec k v m) j ≡ ite (dec k j) (some v) (get dec m j)
  unfolding get put
  get-put k j v [] = refl
  get-put k j v ((i, w) ∷ m) = ground (arith, get-put k j v m)

  pub get-delete :
      (k j : K) (m : List (K × V)) → get dec (delete dec k m) j ≡ ite (dec k j) none (get dec m j)
  unfolding get delete
  get-delete k j [] = ground arith
  get-delete k j ((i, w) ∷ m) = ground (arith, get-delete k j m)

  pub get_or-get :
      (m : List (K × V)) (k : K) (d : V)
      → get_or dec m k d ≡ elim (get dec m k) [ some v ↦ v | none ↦ d ]
  unfolding get get_or
  get_or-get [] k d = refl
  get_or-get ((j, v) ∷ m) k d = ground (arith, get_or-get m k d)

  pub get_or-put :
      (k j : K) (v d : V) (m : List (K × V))
      → get_or dec (put dec k v m) j d ≡ ite (dec k j) v (get_or dec m j d)
  unfolding get_or put
  get_or-put k j v d [] = refl
  get_or-put k j v d ((i, w) ∷ m) = ground (arith, get_or-put k j v d m)

  pub get_or-delete :
      (k j : K) (d : V) (m : List (K × V))
      → get_or dec (delete dec k m) j d ≡ ite (dec k j) d (get_or dec m j d)
  unfolding get_or delete
  get_or-delete k j d [] = ground arith
  get_or-delete k j d ((i, w) ∷ m) = ground (arith, get_or-delete k j d m)

  pub has-put :
      (k j : K) (v : V) (m : List (K × V))
      → has dec (put dec k v m) j ≡ ite (dec k j) true (has dec m j)
  unfolding put contains
  has-put k j v [] = refl
  has-put k j v ((i, w) ∷ m) = ground (arith, has-put k j v m)

  pub has-delete :
      (k j : K) (m : List (K × V)) → has dec (delete dec k m) j ≡ ite (dec k j) false (has dec m j)
  unfolding delete contains
  has-delete k j [] = ground arith
  has-delete k j ((i, w) ∷ m) = ground (arith, has-delete k j m)

  pub Distinct-put :
      (k : K) (v : V) (m : List (K × V))
      → Distinct dec (keys m)
      → Distinct dec (keys (put dec k v m))
  unfolding put contains
  Distinct-put k v [] d = (refl, tt)
  Distinct-put k v ((i, w) ∷ m) d = ground (arith, Distinct-put k v m d.1, has-put k i v m)

  pub Distinct-delete :
      (k : K) (m : List (K × V)) → Distinct dec (keys m) → Distinct dec (keys (delete dec k m))
  unfolding delete contains
  Distinct-delete k [] d = tt
  Distinct-delete k ((i, w) ∷ m) d = ground (arith, Distinct-delete k m d.1, has-delete k i m)

  pub get-eq-none_iff : (m : List (K × V)) (k : K) → (get dec m k ≡ none) ↔ (has dec m k ≡ false)
  unfolding get contains
  get-eq-none_iff [] k = (λ _. refl, λ _. refl)
  get-eq-none_iff ((j, v) ∷ m) k = ground (arith, get-eq-none_iff m k)

  pub length-put :
      (k : K) (v : V) (m : List (K × V))
      → length (put dec k v m) ≡ (if has dec m k then length m else length m + 1)
  unfolding put contains
  length-put k v [] = omega arith
  length-put k v ((i, w) ∷ m) = ground (arith, length-put k v m)

pub length-keys {ℓ} : {K V : Type ℓ} (m : List (K × V)) → length (keys m) ≡ length m
length-keys [] = refl
length-keys ((k, v) ∷ m) = ap suc (length-keys m)

pub get_or_absent :
    {K V : Type 0} (dec : Discrete K) (m : List (K × V)) (k : K) (d : V)
    → has dec m k ≡ false
    → get_or dec m k d ≡ d
unfolding get_or contains
get_or_absent dec [] k d h = refl
get_or_absent dec ((j, v) ∷ m) k d h = ground (arith, get_or_absent dec m k d)
