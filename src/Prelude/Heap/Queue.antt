-- ===== src/Prelude/Heap/Queue.antt =====
-- A heap is a ready queue.
use mathlib.Core.Path.{◌≡◌, refl, ap, sym, ◌∙◌}
use Prim.Native.Nat.{◌-◌}
use mathlib.Core.Bool.{Bool}
use mathlib.Core.Option.{none}
use mathlib.Core.List.{List, [], ◌∷◌}
use native.Mathlib.Omega.{arith}
use effective_next.Prelude.Lists.{length, count}
use effective_next.Prelude.Sets.{
  count_le_one, Distinct-of_count, contains_of_eq_count, nil_of_count,
}
use effective_next.Prelude.Kahn.{Discipline}
use effective_next.Prelude.Heap.{push, pop, pop_last, swap, down}
use effective_next.Prelude.Heap.Same.{count-push, count-pop, count-swap, count-down}

module _ {K : Type 0} (dec : Discrete K) (less : K → K → Bool) where
  pop_last-none : (h : List K) → pop_last h ≡ none → h ≡ []
  unfolding pop_last
  pop_last-none [] e = refl
  pop_last-none (x ∷ h) e = ground arith

  pub heap_none : (h : List K) → pop less h ≡ none → h ≡ []
  unfolding pop
  heap_none h e =
      let n = length h - 1 in
      let empty = pop_last-none (down less n 0 n (swap 0 n h)).0 e in
      nil_of_count dec h (λ k.
        sym (count-down dec less k n 0 n (swap 0 n h) ∙ count-swap dec k 0 n h)
        ∙ ap (count dec k) empty)

  unfoldable pub heap_queue : Discipline dec
  heap_queue = record {
    push = push less;
    pop = pop less;
    contains-push =
        λ k j q. contains_of_eq_count dec (push less k q) (k ∷ q) j (count-push dec less j k q);
    Distinct-push = λ k q d.
        Distinct-of_count dec (push less k q)
          (λ j. omega (arith, count-push dec less j k q, count_le_one dec j (k ∷ q) d));
    pop_none = heap_none;
    contains-pop =
        λ q {k} {r} e j. contains_of_eq_count dec q (k ∷ r) j (sym (count-pop dec less j q e));
    Distinct-pop = λ q {k} {r} e d.
        Distinct-of_count dec (k ∷ r)
          (λ j. omega (arith, count-pop dec less j q e, count_le_one dec j q d));
  }
