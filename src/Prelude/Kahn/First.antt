-- ===== src/Prelude/Kahn/First.antt =====
-- The first key of the result is the first that the ready queue hands out.
use Prim.Native.Nat.{ℕ, zero, suc}
use mathlib.Core.Path.{◌≡◌, ap, sym, ◌∙◌}
use mathlib.Core.Logic.{inl, inr}
use mathlib.Core.Bool.{Bool}
use mathlib.Core.Option.{some}
use mathlib.Core.List.{List, [], ◌∷◌, ◌++◌, append-nil, append_assoc}
use native.Mathlib.Omega.{arith}
use effective_next.Prelude.Tests.{Option-cases}
use effective_next.Prelude.Kahn.{Discipline, State, relax, loop, run}

module _ {K : Type 0} {dec : Discrete K} (d : Discipline dec) (eligible : K → Bool)
    (succ : K → List K) where
  loop-prefix :
      (fuel : ℕ) (s : State K) (result r : List K)
      → loop d eligible succ fuel s result ≡ some r
      → (ys : List K) × (r ≡ result ++ ys)
  unfolding loop
  loop-prefix zero s result r e = elim (Option-cases (d.pop s.queue)) [
    | inl p ↦ ([], ground (arith, p, append-nil result))
    | inr (_, p) ↦ absurd (ground (arith, p))
  ]
  loop-prefix (suc fuel) s result r e = elim (Option-cases (d.pop s.queue)) [
    | inl p ↦ ([], ground (arith, p, append-nil result))
    | inr ((node, rest), p) ↦
        let (ys, q) =
          loop-prefix fuel (relax d eligible (record s { queue = rest }) (succ node))
            (result ++ node ∷ []) r (rw (p, loop) at e) in
        (node ∷ ys, q ∙ append_assoc result (node ∷ []) ys)
  ]

  pub run_first :
      (fuel : ℕ) (s : State K) (id : K) (rest : List K)
      → run d eligible succ fuel s ≡ some (id ∷ rest)
      → (q : List K) × (d.pop s.queue ≡ some (id, q))
  unfolding run loop
  run_first zero s id rest e = elim (Option-cases (d.pop s.queue)) [
    | inl p ↦ absurd (ground (arith, p))
    | inr (_, p) ↦ absurd (ground (arith, p))
  ]
  run_first (suc fuel) s id rest e = elim (Option-cases (d.pop s.queue)) [
    | inl p ↦ absurd (ground (arith, p))
    | inr ((node, q), p) ↦
        let (ys, split) =
          loop-prefix fuel (relax d eligible (record s { queue = q }) (succ node)) (node ∷ [])
            (id ∷ rest) (rw (p, loop) at e) in
        (q, p ∙ ap (λ x. some (x, q)) (sym (head_eq split)))
  ]
    where
      head_eq : {a b : K} {xs ys : List K} → a ∷ xs ≡ b ∷ ys → a ≡ b
      head_eq e = cc
