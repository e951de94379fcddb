-- ===== src/Prelude/Kahn.antt =====
-- The ready-queue loop that `Graph.TopologicalSort`, `Scheduler.Run` and `PriorityScheduler.Run`
-- share: take a key off the queue, lower the in-degree of its successors, queue those at zero.
pub mod Correct
pub mod First
use Prim.Native.Nat.{ℕ, zero, suc, ◌+◌, ◌-◌, ◌≤◌, ◌<◌}
use mathlib.Core.Path.{◌≡◌, refl, ap}
use mathlib.Core.Logic.{◌⊎◌, inl, inr, ◌↔◌, ite}
use mathlib.Core.Bool.{Bool, true, false, not, ◌&&◌, ◌||◌}
use mathlib.Core.Option.{Option, none, some}
use mathlib.Core.List.{List, [], ◌∷◌, ◌++◌, append-nil, append_assoc}
use native.Mathlib.Omega.{arith}
use effective_next.Prelude.Tests.{if◌then◌else◌, Bool-cases, ◌==◌, leb, ltb}
use effective_next.Prelude.Lists.{
  length, length-append, contains, contains-append, Distinct, missing, missing-cons-lt, missing-le,
  count, count-pos, count_zero,
}
use effective_next.Prelude.Maps.{keys, get_or, put, has, get_or-put, has-put}

-- A ready queue: what `append`, `heap.Push` and the like do, and what the loop relies on.
pub record Discipline {ℓ} {K : Type ℓ} (dec : Discrete K) : Type ℓ where
  pub push : K → List K → List K
  pub pop : List K → Option (K × List K)
  pub contains-push : (k j : K) (q : List K) → contains dec (push k q) j ≡ contains dec (k ∷ q) j
  pub Distinct-push : (k : K) (q : List K) → Distinct dec (k ∷ q) → Distinct dec (push k q)
  pub pop_none : (q : List K) → pop q ≡ none → q ≡ []
  pub contains-pop :
      (q : List K) {k : K} {r : List K}
      → pop q ≡ some (k, r)
      → (j : K) → contains dec q j ≡ contains dec (k ∷ r) j
  pub Distinct-pop :
      (q : List K) {k : K} {r : List K}
      → pop q ≡ some (k, r)
      → Distinct dec q
      → Distinct dec (k ∷ r)

pub record State (K : Type 0) : Type 0 where
  pub degree : List (K × ℕ)
  pub queue : List K

module _ {K : Type 0} {dec : Discrete K} (d : Discipline dec) (eligible : K → Bool) where
  -- `inDegree[t]--; if inDegree[t] == 0 { push }`. A degree that Go would take below zero stays at
  -- zero here: neither ever reaches zero by a later decrement.
  relax_one : State K → K → State K
  relax_one s t =
      let n = get_or dec s.degree t 0 in
      record {
        degree = put dec t (n - 1) s.degree;
        queue = if n == 1 && eligible t then d.push t s.queue else s.queue;
      }

  unfoldable pub relax : State K → List K → State K
  unfolding relax_one
  relax s [] = s
  relax s (t ∷ ts) = relax (relax_one s t) ts

  degree-relax :
      (s : State K) (ts : List K) (v : K)
      → get_or dec (relax s ts).degree v 0 ≡ get_or dec s.degree v 0 - count dec v ts
  unfolding relax
  degree-relax s [] v = omega arith
  degree-relax s (t ∷ ts) v =
      let n : ℕ = get_or dec s.degree t 0 in
      ground (arith, degree-relax (relax_one s t) ts v, get_or-put dec t v (n - 1) 0 s.degree)

  -- A key joins the queue when its degree comes down to zero.
  queue-relax :
      (s : State K) (ts : List K) (v : K)
      → contains dec (relax s ts).queue v ≡ (
          contains dec s.queue v
          || (eligible v
              && (leb 1 (get_or dec s.degree v 0)
                  && leb (get_or dec s.degree v 0) (count dec v ts))))
  unfolding relax contains
  queue-relax s [] v = ground arith
  queue-relax s (t ∷ ts) v =
      let n : ℕ = get_or dec s.degree t 0 in
      ground (
        arith,
        queue-relax (relax_one s t) ts v,
        get_or-put dec t v (n - 1) 0 s.degree,
        d.contains-push t v s.queue,
      )

  -- No key joins the queue twice: one that is queued has degree zero.
  Distinct-relax :
      (s : State K) (ts : List K)
      → ((v : K) → contains dec s.queue v ≡ true → get_or dec s.degree v 0 ≡ 0)
      → Distinct dec s.queue
      → Distinct dec (relax s ts).queue
  unfolding relax contains
  Distinct-relax s [] h ds = ds
  Distinct-relax s (t ∷ ts) h ds =
      let n : ℕ = get_or dec s.degree t 0 in
      Distinct-relax (relax_one s t) ts
        (λ v m.
          ground
            (arith, h v, h t, get_or-put dec t v (n - 1) 0 s.degree, d.contains-push t v s.queue))
        (ground (arith, h t, d.Distinct-push t s.queue))

  module _ (succ : K → List K) where
    -- `for len(queue) > 0 { … }`; `none` is out of fuel.
    unfoldable pub loop : ℕ → State K → List K → Option (List K)
    loop zero s result = elim (d.pop s.queue) [ none ↦ some result | some _ ↦ none ]
    loop (suc fuel) s result = elim (d.pop s.queue) [
      | none ↦ some result
      | some (node, rest) ↦
          loop fuel (relax (record s { queue = rest }) (succ node)) (result ++ node ∷ [])
    ]

    unfoldable pub run : ℕ → State K → Option (List K)
    unfolding loop relax
    run fuel s = loop fuel s []

    -- The edges into `v` from the keys of `all` that are not done.
    abbrev pub incoming : List K → List K → K → ℕ
    incoming [] done v = 0
    incoming (u ∷ all) done v =
        (if contains dec done u then 0 else count dec v (succ u)) + incoming all done v

    -- Every predecessor of a key stands before it.
    abbrev pub IsOrdered : List K → List K → Type 0
    IsOrdered seen [] = Unit
    IsOrdered seen (x ∷ xs) =
        ((u : K) → contains dec (succ u) x ≡ true → contains dec seen u ≡ true)
        × IsOrdered (seen ++ x ∷ []) xs

    IsOrdered-snoc :
        (seen xs : List K) (x : K)
        → IsOrdered seen xs
        → ((u : K) → contains dec (succ u) x ≡ true → contains dec (seen ++ xs) u ≡ true)
        → IsOrdered seen (xs ++ x ∷ [])
    IsOrdered-snoc seen [] x o h = (rw append-nil at h, tt)
    IsOrdered-snoc seen (y ∷ ys) x o h =
        (o.0, IsOrdered-snoc (seen ++ y ∷ []) ys x o.1 (λ u m. rw append_assoc (h u m)))

    incoming_absent :
        (all done : List K) (n v : K)
        → contains dec all n ≡ false
        → incoming all (done ++ n ∷ []) v ≡ incoming all done v
    unfolding contains
    incoming_absent [] done n v h = refl
    incoming_absent (u ∷ all) done n v h =
        ground (arith, incoming_absent all done n v, contains-append dec done (n ∷ []) u)

    incoming-snoc :
        (all done : List K) (n v : K)
        → Distinct dec all
        → contains dec all n ≡ true
        → contains dec done n ≡ false
        → incoming all (done ++ n ∷ []) v + count dec v (succ n) ≡ incoming all done v
    unfolding contains
    incoming-snoc [] done n v ds h e = cc
    incoming-snoc (u ∷ all) done n v ds h e = elim (dec u n) [
      | yes p ↦ ground (
        arith,
        incoming_absent all done n v (rw p at ds.0),
        contains-append dec done (n ∷ []) u,
        ap (λ (w : K). count dec v (succ w)) p,
        ap (contains dec done) p,
      )
      | no p ↦ ground (arith, incoming-snoc all done n v ds.1, contains-append dec done (n ∷ []) u)
    ]

    pub done_of_incoming_zero :
        (all done : List K) (u v : K)
        → incoming all done v ≡ 0
        → contains dec all u ≡ true
        → contains dec (succ u) v ≡ true
        → contains dec done u ≡ true
    unfolding contains
    done_of_incoming_zero [] done u v z m e = cc
    done_of_incoming_zero (w ∷ all) done u v z m e = elim (dec w u) [
      | yes p ↦ ground (
        arith,
        count-pos dec v (succ u) e,
        ap (λ (x : K). count dec v (succ x)) p,
        ap (contains dec done) p,
      )
      | no p ↦ done_of_incoming_zero all done u v (omega arith) (ground arith) e
    ]

    pub incoming_zero :
        (all done : List K) (v : K)
        → ((u : K) → contains dec (succ u) v ≡ true → contains dec done u ≡ true)
        → incoming all done v ≡ 0
    incoming_zero [] done v h = refl
    incoming_zero (u ∷ all) done v h = elim (Bool-cases (contains dec (succ u) v)) [
      | inl m ↦ ground (arith, h u m, incoming_zero all done v h)
      | inr m ↦ ground (arith, count_zero dec v (succ u) m, incoming_zero all done v h)
    ]

-- Only the successors of the listed keys count.
pub incoming_congr :
    {K : Type 0} {dec : Discrete K} (d : Discipline dec) (eligible : K → Bool)
    (succ succ' : K → List K) (all done : List K) (v : K)
    → ((u : K) → contains dec all u ≡ true → succ u ≡ succ' u)
    → incoming d eligible succ all done v ≡ incoming d eligible succ' all done v
unfolding contains
incoming_congr d eligible succ succ' [] done v h = refl
incoming_congr {dec} d eligible succ succ' (u ∷ all) done v h = ground (
  arith,
  ap (count dec v) (h u (ground arith)),
  incoming_congr d eligible succ succ' all done v (λ w m. h w (ground arith)),
)
