-- ===== src/Prelude/Heap/Same.antt =====
-- The heap operations keep the elements: what goes in comes out, as often.
use Prim.Native.Nat.{ℕ, zero, suc, ◌+◌, ◌-◌, ◌*◌, ◌/◌}
use mathlib.Core.Path.{◌≡◌, refl, ◌∙◌}
use mathlib.Core.Logic.{inl, inr}
use mathlib.Core.Bool.{Bool, not, ◌||◌}
use mathlib.Core.Option.{none, some}
use mathlib.Core.List.{List, [], ◌∷◌, ◌++◌}
use native.Mathlib.Omega.{arith}
use effective_next.Prelude.Tests.{Bool-cases, Option-cases, ◌==◌, leb}
use effective_next.Prelude.Lists.{length, get_elem?, set, count, count-append}
use effective_next.Prelude.Heap.{
  swap, pop_last, less_at, up, child, down, push, pop, settle, fix, remove, init_from, init,
}

module _ {K : Type 0} (dec : Discrete K) where
  count-set :
      (k a b : K) (h : List K) (i : ℕ)
      → get_elem? h i ≡ some a
      → count dec k (set h i b) + count dec k (a ∷ []) ≡ count dec k h + count dec k (b ∷ [])
  count-set k a b [] i e = cc
  count-set k a b (x ∷ h) zero e = ground arith
  count-set k a b (x ∷ h) (suc i) e = ground (arith, count-set k a b h i e)

  get_elem?-set :
      (h : List K) (i j : ℕ) (a b : K) → get_elem? h j ≡ some b → get_elem? (set h i b) j ≡ some b
  get_elem?-set [] i j a b e = e
  get_elem?-set (x ∷ h) zero zero a b e = refl
  get_elem?-set (x ∷ h) zero (suc j) a b e = e
  get_elem?-set (x ∷ h) (suc i) zero a b e = e
  get_elem?-set (x ∷ h) (suc i) (suc j) a b e = get_elem?-set h i j a b e

  pub count-swap : (k : K) (i j : ℕ) (h : List K) → count dec k (swap i j h) ≡ count dec k h
  unfolding swap
  count-swap k i j h = elim (Option-cases (get_elem? h i)) [
    | inl e ↦ rw (e, swap)
    | inr (a, e) ↦ elim (Option-cases (get_elem? h j)) [
      | inl e' ↦ rw (e, e', swap)
      | inr (b, e') ↦
          ground (
            arith,
            count-set k a b h i e,
            count-set k b a (set h i b) j (get_elem?-set h i j a b e'),
          )
    ]
  ]

  module _ (less : K → K → Bool) where
    count-up : (k : K) (fuel j : ℕ) (h : List K) → count dec k (up less fuel j h) ≡ count dec k h
    unfolding up
    count-up k zero j h = refl
    count-up k (suc fuel) j h =
        let i : ℕ = (j - 1) / 2 in
        elim (Bool-cases (i == j || not (less_at less h j i))) [
          | inl stop ↦ rw (stop)
          | inr go ↦ rw go (count-up k fuel i (swap i j h) ∙ count-swap k i j h)
        ]

    pub count-down :
        (k : K) (fuel i n : ℕ) (h : List K) → count dec k (down less fuel i n h).0 ≡ count dec k h
    unfolding down
    count-down k zero i n h = refl
    count-down k (suc fuel) i n h =
        let j : ℕ = child less (2 * i + 1) n h in
        elim (Bool-cases (leb n (2 * i + 1) || not (less_at less h j i))) [
          | inl stop ↦ rw stop
          | inr go ↦ rw go (count-down k fuel j n (swap i j h) ∙ count-swap k i j h)
        ]

    count-settle : (k : K) (i n : ℕ) (h : List K) → count dec k (settle less i n h) ≡ count dec k h
    unfolding settle
    count-settle k i n h =
        ground (arith, count-down k n i n h, count-up k i i (down less n i n h).0)

    count-init_from :
        (k : K) (i n : ℕ) (h : List K) → count dec k (init_from less i n h) ≡ count dec k h
    unfolding init_from
    count-init_from k zero n h = refl
    count-init_from k (suc i) n h =
        count-init_from k i n (down less n i n h).0 ∙ count-down k n i n h

    -- `heap.Init` and `heap.Fix` only reorder.
    pub count-init : (k : K) (h : List K) → count dec k (init less h) ≡ count dec k h
    unfolding init
    count-init k h = count-init_from k (length h / 2) (length h) h

    pub count-fix : (k : K) (i : ℕ) (h : List K) → count dec k (fix less i h) ≡ count dec k h
    unfolding fix
    count-fix k i h = count-settle k i (length h) h

    -- `heap.Push` adds one element.
    pub count-push : (k x : K) (h : List K) → count dec k (push less x h) ≡ count dec k (x ∷ h)
    unfolding push
    count-push k x h =
        ground
          (arith, count-up k (length h) (length h) (h ++ x ∷ []), count-append dec k h (x ∷ []))

    count-pop_last :
        (k : K) (h : List K) {y : K} {r : List K}
        → pop_last h ≡ some (y, r)
        → count dec k (y ∷ r) ≡ count dec k h
    unfolding pop_last
    count-pop_last k [] e = cc
    count-pop_last k (x ∷ h) e = elim (Option-cases (pop_last h)) [
      | inl last ↦ ground (arith, e, last, pop_last-none h)
      | inr ((z, s), more) ↦ ground (arith, e, more, count-pop_last k h more)
    ]
      where
        pop_last-none : (l : List K) → pop_last l ≡ none → l ≡ []
        pop_last-none [] p = refl
        pop_last-none (w ∷ l) p = ground arith

    -- `heap.Pop` and `heap.Remove` take one element out.
    pub count-pop :
        (k : K) (h : List K) {y : K} {r : List K}
        → pop less h ≡ some (y, r)
        → count dec k (y ∷ r) ≡ count dec k h
    unfolding pop
    count-pop k h e =
        let n : ℕ = length h - 1 in
        count-pop_last k (down less n 0 n (swap 0 n h)).0 e
        ∙ count-down k n 0 n (swap 0 n h)
        ∙ count-swap k 0 n h

    pub count-remove :
        (k : K) (i : ℕ) (h : List K) {y : K} {r : List K}
        → remove less i h ≡ some (y, r)
        → count dec k (y ∷ r) ≡ count dec k h
    unfolding remove
    count-remove k i h e =
        let n : ℕ = length h - 1 in
        elim (Bool-cases (n == i)) [
          | inl last ↦ count-pop_last k h (rw (last, remove) at e)
          | inr inner ↦
              count-pop_last k (settle less i n (swap i n h)) (rw (inner, remove) at e)
              ∙ count-settle k i n (swap i n h)
              ∙ count-swap k i n h
        ]
