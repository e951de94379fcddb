-- ===== src/Prelude/Heap.antt =====
-- The standard library's container/heap over a slice, as the priority scheduler and the parse cache
-- use it. `less` is the slice's `Less` on the elements.
pub mod Same
pub mod Place
pub mod Order
pub mod Rise
pub mod Top
pub mod Queue
use Prim.Native.Nat.{ℕ, zero, suc, ◌+◌, ◌-◌, ◌*◌, ◌/◌}
use mathlib.Core.Bool.{Bool, true, false, not, ◌&&◌, ◌||◌}
use mathlib.Core.Option.{Option, none, some}
use mathlib.Core.List.{List, [], ◌∷◌, ◌++◌}
use effective_next.Prelude.Tests.{if◌then◌else◌, ◌==◌, ltb, leb}
use effective_next.Prelude.Lists.{length, get_elem?, set}

module _ {ℓ} {A : Type ℓ} where
  -- `h[i], h[j] = h[j], h[i]`
  unfoldable pub swap : ℕ → ℕ → List A → List A
  swap i j h = elim (get_elem? h i) [
    | none ↦ h
    | some a ↦ elim (get_elem? h j) [ none ↦ h | some b ↦ set (set h i b) j a ]
  ]

  -- `h[n-1]`, and `h[:n-1]`
  unfoldable pub pop_last : List A → Option (A × List A)
  pop_last [] = none
  pop_last (x ∷ xs) = elim (pop_last xs) [ none ↦ some (x, []) | some (y, r) ↦ some (y, x ∷ r) ]

module _ {ℓ} {A : Type ℓ} (less : A → A → Bool) where
  -- `h.Less(i, j)`, false out of range.
  unfoldable pub less_at : List A → ℕ → ℕ → Bool
  less_at h i j = elim (get_elem? h i) [
    | none ↦ false
    | some a ↦ elim (get_elem? h j) [ none ↦ false | some b ↦ less a b ]
  ]

  -- The index halves in each round, so `j` rounds are enough.
  unfoldable pub up : ℕ → ℕ → List A → List A
  unfolding less_at swap
  up zero j h = h
  up (suc fuel) j h =
      let i = (j - 1) / 2 in
      let rest = up fuel i (swap i j h) in if i == j || not (less_at h j i) then h else rest

  unfoldable pub child : ℕ → ℕ → List A → ℕ
  unfolding less_at
  child j1 n h = if ltb (j1 + 1) n && less_at h (j1 + 1) j1 then j1 + 1 else j1

  -- The slice and the index at which the element came to rest; the index grows in each round.
  unfoldable pub down : ℕ → ℕ → ℕ → List A → List A × ℕ
  unfolding less_at swap child
  down zero i n h = (h, i)
  down (suc fuel) i n h =
      let j = child (2 * i + 1) n h in
      let rest = down fuel j n (swap i j h) in
      if leb n (2 * i + 1) || not (less_at h j i) then (h, i) else rest

  -- `heap.Push`
  unfoldable pub push : A → List A → List A
  unfolding up
  push x h = up (length h) (length h) (h ++ x ∷ [])

  -- `heap.Pop`
  unfoldable pub pop : List A → Option (A × List A)
  unfolding down pop_last
  pop h = let n = length h - 1 in pop_last (down n 0 n (swap 0 n h)).0

  -- `if !down(h, i, n) { up(h, i) }`
  unfoldable pub settle : ℕ → ℕ → List A → List A
  unfolding up down
  settle i n h = let (h', at) = down n i n h in if ltb i at then h' else up i i h'

  -- `heap.Fix`
  unfoldable pub fix : ℕ → List A → List A
  unfolding settle
  fix i h = settle i (length h) h

  -- `heap.Remove`
  unfoldable pub remove : ℕ → List A → Option (A × List A)
  unfolding settle pop_last
  remove i h = let n = length h - 1 in pop_last (if n == i then h else settle i n (swap i n h))

  -- `for i := n/2 - 1; i >= 0; i-- { down(h, i, n) }`
  unfoldable pub init_from : ℕ → ℕ → List A → List A
  unfolding down
  init_from zero n h = h
  init_from (suc i) n h = init_from i n (down n i n h).0

  -- `heap.Init`
  unfoldable pub init : List A → List A
  unfolding init_from
  init h = init_from (length h / 2) (length h) h
