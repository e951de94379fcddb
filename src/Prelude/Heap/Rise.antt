-- ===== src/Prelude/Heap/Rise.antt =====
-- `up` brings a heap in order whose last element may be less than its parent.
use Prim.Native.Nat.{ℕ, zero, suc, ◌-◌, ◌/◌, ◌≤◌, ◌<◌}
use mathlib.Core.Path.{◌≡◌, ap, sym, ◌∙◌}
use mathlib.Core.Logic.{◌≢◌, inl, inr}
use mathlib.Core.Bool.{Bool, true, false, not, ◌||◌}
use mathlib.Core.List.{List}
use native.Mathlib.Omega.{arith}
use native.Mathlib.Decide.{ℕ_discrete}
use effective_next.Prelude.Tests.{Bool-cases, ◌==◌}
use effective_next.Prelude.Lists.{length}
use effective_next.Prelude.Heap.{swap, less_at, up}
use effective_next.Prelude.Heap.Order.{IsWeakOrder, parent, IsHeap, asym_at, trans_at, less_at-swap}
use effective_next.Prelude.Heap.Place.{length-swap}

module _ {A : Type 0} (less : A → A → Bool) (ord : IsWeakOrder less) where
  -- All but the edge into `j` are in order, and the children of `j` are not above its parent.
  pub record UpInv (j n : ℕ) (h : List A) : Type 0 where
    pub others : (m : ℕ) → 0 < m → m < n → m ≢ j → less_at less h m (parent m) ≡ false
    pub beyond :
        (m : ℕ) → 0 < m → m < n → parent m ≡ j → 0 < j → less_at less h m (parent j) ≡ false

  up-step :
      (j n : ℕ) (h : List A)
      → n ≤ length h
      → 0 < j
      → j < n
      → UpInv j n h
      → less_at less h j (parent j) ≡ true
      → UpInv (parent j) n (swap (parent j) j h)
  up-step j n h l pos_j near inv above =
      let i = parent j in
      let lower : i < j = omega arith in
      let l' : j < length h = omega arith in
      let sw = less_at-swap less ord i j in
      record {
        others = λ m pos below away. elim (ℕ_discrete m j) [
          | yes e ↦
              ground (
                arith,
                sw m (parent m) h (omega arith) l',
                asym_at less ord h j i above,
                ap parent e,
              )
          | no e ↦ elim (ℕ_discrete (parent m) j) [
            | yes q ↦
                ground (arith, sw m (parent m) h (omega arith) l', inv.beyond m pos below q pos_j)
            | no q ↦ elim (ℕ_discrete (parent m) i) [
              | yes r ↦
                  let high = ap (less_at less h m) (sym r) ∙ inv.others m pos below e in
                  ground (
                    arith,
                    sw m (parent m) h (omega arith) l',
                    trans_at less ord h j i m (omega arith) (asym_at less ord h j i above) high,
                  )
              | no r ↦ ground (arith, sw m (parent m) h (omega arith) l', inv.others m pos below e)
            ]
          ]
        ];
        beyond = λ m pos below r q. elim (ℕ_discrete m j) [
          | yes e ↦ ground (
            arith,
            sw m (parent i) h (omega arith) l',
            inv.others i q (omega arith) (λ x. omega (arith, x)),
          )
          | no e ↦
              let high = ap (less_at less h m) (sym r) ∙ inv.others m pos below e in
              let high' = inv.others i q (omega arith) (λ x. omega (arith, x)) in
              ground (
                arith,
                sw m (parent i) h (omega arith) l',
                trans_at less ord h (parent i) i m (omega arith) high' high,
              )
        ];
      }

  -- `up` brings the first `n` elements in order.
  pub up-IsHeap :
      (fuel j n : ℕ) (h : List A)
      → n ≤ length h
      → j ≤ fuel
      → j < n
      → UpInv j n h
      → IsHeap less ord n (up less fuel j h)
  unfolding up
  up-IsHeap zero j n h l f near inv = λ m pos below. inv.others m pos below (λ e. omega (arith, e))
  up-IsHeap (suc fuel) j n h l f near inv =
      let i : ℕ = (j - 1) / 2 in
      elim (Bool-cases (i == j || not (less_at less h j i))) [
        | inl stop ↦
            rw (stop, up)
              (λ m pos below. elim (ℕ_discrete m j) [
                | no e ↦ inv.others m pos below e
                | yes e ↦ ground (arith, stop, ap (λ x. less_at less h x (parent x)) e)
              ])
        | inr go ↦
            rw (go, up)
              (up-IsHeap fuel i n (swap i j h) (omega (arith, length-swap i j h))
                (ground (arith, go)) (omega arith)
                (up-step j n h l (ground (arith, go)) near inv (ground (arith, go))))
      ]
