-- ===== src/Prelude/Heap/Top.antt =====
-- Pushing onto a heap and popping from it leave a heap, and what is popped is at the top.
use Prim.Native.Nat.{ℕ, zero, suc, ◌+◌, ◌-◌, ◌/◌, ◌≤◌, ◌<◌}
use mathlib.Core.Path.{◌≡◌, refl, ap, sym, ◌∙◌}
use mathlib.Core.Logic.{inl, inr}
use mathlib.Core.Bool.{Bool, false}
use mathlib.Core.Option.{some}
use mathlib.Core.List.{List, [], ◌∷◌, ◌++◌}
use native.Mathlib.Omega.{arith}
use native.Mathlib.Decide.{ℕ_discrete}
use effective_next.Prelude.Tests.{Bool-cases, Option-cases}
use effective_next.Prelude.Lists.{length, length-append, get_elem?}
use effective_next.Prelude.Heap.{swap, less_at, down, push, pop, pop_last, init_from, init}
use effective_next.Prelude.Heap.Place.{length-swap, length-down, length-push}
use effective_next.Prelude.Heap.Rise.{up-IsHeap}
use effective_next.Prelude.Heap.Order.{
  IsWeakOrder, parent, IsHeap, down-IsHeap, asym_at, trans_at, less_at-swap,
}

at_zero : (m : ℕ) → m ≤ 0 → m ≡ 0
at_zero m l = omega arith

module _ {A : Type 0} (less : A → A → Bool) (ord : IsWeakOrder less) where
  get-append :
      (h : List A) (x : A) (m : ℕ) → m < length h → get_elem? (h ++ x ∷ []) m ≡ get_elem? h m
  get-append [] x m l = absurd (omega arith)
  get-append (y ∷ h) x zero l = refl
  get-append (y ∷ h) x (suc m) l = get-append h x m (omega arith)

  less_at-congr :
      (h h' : List A) (i j : ℕ)
      → get_elem? h i ≡ get_elem? h' i
      → get_elem? h j ≡ get_elem? h' j
      → less_at less h i j ≡ less_at less h' i j
  unfolding less_at
  less_at-congr h h' i j e e' = ground (arith, e, e')

  -- `heap.Push` keeps a heap.
  pub push-IsHeap :
      (x : A) (h : List A)
      → IsHeap less ord (length h) h
      → IsHeap less ord (length (push less x h)) (push less x h)
  unfolding push
  push-IsHeap x h v =
      let grown = length-append h (x ∷ []) in
      let long : length (push less x h) ≡ length h + 1 = length-push less x h in
      λ m pos below.
        up-IsHeap less ord (length h) (length h) (length h + 1) (h ++ x ∷ []) (omega (arith, grown))
          (omega arith) (omega arith)
          (record {
            others = λ m pos below away.
                less_at-congr (h ++ x ∷ []) h m (parent m) (get-append h x m (omega (arith, away)))
                  (get-append h x (parent m) (omega (arith, away)))
                ∙ v m pos (omega (arith, away));
            beyond = λ m pos below e q. absurd (omega (arith, e));
          })
          m pos (omega (arith, below, long))

  at_cons :
      (x : A) (s h : List A) (m : ℕ)
      → ((k : ℕ) → k < length s → get_elem? s k ≡ get_elem? h k)
      → m < suc (length s)
      → get_elem? (x ∷ s) m ≡ get_elem? (x ∷ h) m
  at_cons x s h zero same l = refl
  at_cons x s h (suc m) same l = same m (omega arith)

  pop_last-length :
      (h : List A) {y : A} {r : List A}
      → pop_last h ≡ some (y, r)
      → (length r + 1 ≡ length h) × ((m : ℕ) → m < length r → get_elem? r m ≡ get_elem? h m)
  unfolding pop_last
  pop_last-length [] e = absurd cc
  pop_last-length (x ∷ []) {y} {r} e =
      let q : r ≡ [] = ground (arith, e) in
      (ground (arith, q), λ m l. absurd (ground (arith, l, q)))
  pop_last-length (x ∷ z ∷ h) {y} {r} e = elim (Option-cases (pop_last (z ∷ h))) [
    | inl bad ↦ absurd (ground (arith, bad))
    | inr ((w, s), more) ↦
        let (len, same) = pop_last-length (z ∷ h) more in
        let q : r ≡ x ∷ s = ground (arith, e, more) in
        (ground (arith, q, len), λ m l. rw q (at_cons x s (z ∷ h) m same (rw q at l)))
  ]

  -- `heap.Pop` leaves a heap.
  pub pop-IsHeap :
      (h : List A) {y : A} {r : List A}
      → IsHeap less ord (length h) h
      → pop less h ≡ some (y, r)
      → IsHeap less ord (length r) r
  unfolding pop
  pop-IsHeap h {r} v e =
      let n = length h - 1 in
      let h' = (down less n 0 n (swap 0 n h)).0 in
      let kept : length h' ≡ length h = length-down less n 0 n (swap 0 n h) ∙ length-swap 0 n h in
      let (len, same) = pop_last-length h' e in
      let heap =
        down-IsHeap less ord n 0 n (swap 0 n h) (omega (arith, length-swap 0 n h)) (omega arith)
          (record {
            others = λ m pos below away. ground (
              arith,
              less_at-swap less ord 0 n m (parent m) h (omega arith) (omega arith),
              v m pos (omega arith),
            );
            beyond = λ m pos below q up. absurd (omega (arith, up));
          }) in
      λ m pos below.
        less_at-congr r h' m (parent m) (same m below) (same (parent m) (omega arith))
        ∙ heap m pos (omega (arith, len, kept, below))

  -- No element of a heap is less than the first.
  pub first_least :
      (fuel m : ℕ) (h : List A)
      → IsHeap less ord (length h) h
      → m ≤ fuel
      → m < length h
      → less_at less h m 0 ≡ false
  first_least zero m h v f l = ground (
    arith,
    asym_at less ord h 0 0,
    Bool-cases (less_at less h 0 0),
    ap (λ k. less_at less h k 0) (at_zero m f),
  )
  first_least (suc fuel) m h v f l = elim (ℕ_discrete m 0) [
    | yes e ↦ ground (
      arith,
      asym_at less ord h 0 0,
      Bool-cases (less_at less h 0 0),
      ap (λ k. less_at less h k 0) e,
    )
    | no e ↦
        trans_at less ord h 0 (parent m) m (omega arith)
          (first_least fuel (parent m) h v (omega (arith, e)) (omega arith))
          (v m (omega (arith, e)) l)
  ]

  -- `down` and `heap.Init` keep a heap.
  down-kept :
      (fuel i n : ℕ) (h : List A)
      → n ≤ length h
      → n ≤ i + fuel
      → IsHeap less ord n h
      → IsHeap less ord n (down less fuel i n h).0
  down-kept fuel i n h l f v = down-IsHeap less ord fuel i n h l f (record {
    others = λ m pos below away. v m pos below;
    beyond = λ m pos below e q.
        trans_at less ord h (parent i) i m (omega (arith, e)) (v i q (omega (arith, e)))
          (ap (less_at less h m) (sym e) ∙ v m pos below);
  })

  init_from-IsHeap :
      (i n : ℕ) (h : List A)
      → n ≤ length h
      → IsHeap less ord n h
      → IsHeap less ord n (init_from less i n h)
  unfolding init_from
  init_from-IsHeap zero n h l v = v
  init_from-IsHeap (suc i) n h l v =
      init_from-IsHeap i n (down less n i n h).0 (omega (arith, length-down less n i n h))
        (down-kept n i n h l (omega arith) v)

  length-init_from : (i n : ℕ) (h : List A) → length (init_from less i n h) ≡ length h
  unfolding init_from
  length-init_from zero n h = refl
  length-init_from (suc i) n h =
      length-init_from i n (down less n i n h).0 ∙ length-down less n i n h

  pub init-IsHeap :
      (h : List A)
      → IsHeap less ord (length h) h
      → IsHeap less ord (length (init less h)) (init less h)
  unfolding init
  init-IsHeap h v m pos below =
      init_from-IsHeap (length h / 2) (length h) h (omega arith) v m pos
        (omega (arith, below, length-init_from (length h / 2) (length h) h))
