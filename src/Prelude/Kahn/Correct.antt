-- ===== src/Prelude/Kahn/Correct.antt =====
-- What the ready-queue loop returns: the keys whose predecessors all came out before them.
use Prim.Native.Nat.{ℕ, zero, suc, ◌+◌, ◌≤◌, ◌<◌}
use mathlib.Core.Path.{◌≡◌, ap, ◌∙◌}
use mathlib.Core.Logic.{◌≢◌, ◌⊎◌, inl, inr}
use mathlib.Core.Bool.{Bool, true, false, not, ◌&&◌}
use mathlib.Core.Option.{none, some}
use mathlib.Core.List.{List, [], ◌∷◌, ◌++◌}
use native.Mathlib.Omega.{arith}
use effective_next.Prelude.Tests.{Bool-cases, Option-cases, ◌==◌}
use effective_next.Prelude.Lists.{
  length, contains, contains-append, contains-snoc, Distinct, Distinct-snoc, missing,
  missing-snoc_lt, missing-le, count, count_zero,
}
use effective_next.Prelude.Maps.{get_or}
use effective_next.Prelude.Sets.{index}
use effective_next.Prelude.Kahn.{
  Discipline, State, relax, degree-relax, queue-relax, Distinct-relax, loop, run, incoming,
  IsOrdered, IsOrdered-snoc, incoming_absent, incoming-snoc, done_of_incoming_zero, incoming_zero,
}

module _ {K : Type 0} {dec : Discrete K} (d : Discipline dec) (eligible : K → Bool)
    (succ : K → List K) (all known : List K) where
  abbrev pending : List K → K → ℕ
  pending = incoming d eligible succ all

  -- `all` holds every key with a successor, once, and `known` every successor.
  pub record IsNetwork : Type 0 where
    pub distinct : Distinct dec all
    pub sources : (u v : K) → contains dec (succ u) v ≡ true → contains dec all u ≡ true
    pub targets : (u v : K) → contains dec (succ u) v ≡ true → contains dec known v ≡ true

  -- What holds between two rounds.
  record Inv (s : State K) (result : List K) : Type 0 where
    degrees : (v : K) → get_or dec s.degree v 0 ≡ pending result v
    queued :
        (v : K)
        → contains dec s.queue v ≡ (
            contains dec known v
            && (eligible v && (pending result v == 0 && not (contains dec result v))))
    distinct_queue : Distinct dec s.queue
    distinct : Distinct dec result
    finished :
        (v : K)
        → contains dec result v ≡ true
        → (contains dec known v ≡ true) × (eligible v ≡ true) × (pending result v ≡ 0)
    ordered : IsOrdered d eligible succ [] result

  -- What the caller learns of a run that returns.
  pub record IsDone (result : List K) : Type 0 where
    pub exact :
        (v : K)
        → contains dec result v ≡ (contains dec known v && (eligible v && pending result v == 0))
    pub distinct : Distinct dec result
    pub ordered : IsOrdered d eligible succ [] result

  -- The state that the loop starts from: true in-degrees, and every eligible key at zero queued.
  pub record IsStart (s : State K) : Type 0 where
    pub degrees : (v : K) → get_or dec s.degree v 0 ≡ pending [] v
    pub queued :
        (v : K)
        → contains dec s.queue v ≡ (contains dec known v && (eligible v && pending [] v == 0))
    pub distinct_queue : Distinct dec s.queue

  module _ (net : IsNetwork) where
    pending-snoc :
        (done : List K) (n v : K)
        → contains dec done n ≡ false
        → pending (done ++ n ∷ []) v + count dec v (succ n) ≡ pending done v
    pending-snoc done n v e = elim (Bool-cases (contains dec all n)) [
      | inl m ↦ incoming-snoc d eligible succ all done n v net.distinct m e
      | inr m ↦
          let idle : contains dec (succ n) v ≡ false = elim (Bool-cases (contains dec (succ n) v)) [
            | inl h ↦ cc (net.sources n v h)
            | inr h ↦ h
          ] in
          omega
            (arith, incoming_absent d eligible succ all done n v m, count_zero dec v (succ n) idle)
    ]

    module _ (s : State K) (result : List K) (inv : Inv s result) (node : K) (rest : List K)
        (popped : d.pop s.queue ≡ some (node, rest)) where
      abbrev s' : State K
      s' = relax d eligible (record s { queue = rest }) (succ node)

      at_node :
          (contains dec known node ≡ true)
          × (eligible node ≡ true)
          × (pending result node ≡ 0)
          × (contains dec result node ≡ false)
      at_node =
          let m : contains dec s.queue node ≡ true =
            d.contains-pop s.queue popped node ∙ (unfold contains in ground arith) in
          ground (arith, inv.queued node)

      degrees_round : (v : K) → get_or dec s'.degree v 0 ≡ pending (result ++ node ∷ []) v
      degrees_round v = omega (
        arith,
        degree-relax d eligible (record s { queue = rest }) (succ node) v,
        inv.degrees v,
        pending-snoc result node v at_node.3,
      )

      fewer : (v : K) → pending (result ++ node ∷ []) v ≤ pending result v
      fewer v = omega (arith, pending-snoc result node v at_node.3)

      known_target :
          (v : K) → pending result v ≢ pending (result ++ node ∷ []) v → contains dec known v ≡ true
      known_target v ne = elim (Bool-cases (contains dec (succ node) v)) [
        | inl h ↦ net.targets node v h
        | inr h ↦ absurd (
            ne
              (omega (arith, pending-snoc result node v at_node.3, count_zero dec v (succ node) h)))
      ]

      queued_round :
          (v : K)
          → contains dec s'.queue v ≡ (
              contains dec known v
              && (eligible v
                  && (pending (result ++ node ∷ []) v == 0
                      && not (contains dec (result ++ node ∷ []) v))))
      unfolding contains
      queued_round v =
          let n = pending-snoc result node v at_node.3 in
          let ds = d.Distinct-pop s.queue popped inv.distinct_queue in
          elim (dec node v) [
            | yes p ↦ ground (
              arith,
              queue-relax d eligible (record s { queue = rest }) (succ node) v,
              inv.degrees v,
              contains-append dec result (node ∷ []) v,
              ds,
              at_node,
              ap (contains dec rest) p,
              ap (pending result) p,
            )
            | no p ↦ elim (Bool-cases (pending result v == 0)) [
              | inl z ↦ ground (
                arith,
                queue-relax d eligible (record s { queue = rest }) (succ node) v,
                inv.degrees v,
                inv.queued v,
                contains-append dec result (node ∷ []) v,
                d.contains-pop s.queue popped v,
                n,
              )
              | inr nz ↦ ground (
                arith,
                queue-relax d eligible (record s { queue = rest }) (succ node) v,
                inv.degrees v,
                inv.queued v,
                inv.finished v,
                contains-append dec result (node ∷ []) v,
                d.contains-pop s.queue popped v,
                n,
                known_target v,
              )
            ]
          ]

      queue-rest : (v : K) → contains dec rest v ≡ true → contains dec s.queue v ≡ true
      unfolding contains
      queue-rest v m = ground (arith, d.contains-pop s.queue popped v)

      finished_round :
          (v : K)
          → contains dec (result ++ node ∷ []) v ≡ true
          → (contains dec known v ≡ true)
            × (eligible v ≡ true)
            × (pending (result ++ node ∷ []) v ≡ 0)
      unfolding contains
      finished_round v m = elim (dec node v) [
        | yes p ↦ ground (
          arith,
          fewer v,
          at_node,
          ap (contains dec known) p,
          ap eligible p,
          ap (pending result) p,
        )
        | no p ↦ ground (arith, fewer v, inv.finished v, contains-append dec result (node ∷ []) v)
      ]

      Inv-round : Inv s' (result ++ node ∷ [])
      Inv-round = record {
        degrees = degrees_round;
        queued = queued_round;
        distinct_queue =
            Distinct-relax d eligible (record s { queue = rest }) (succ node)
              (λ v m. ground (arith, inv.degrees v, inv.queued v, queue-rest v m))
              (d.Distinct-pop s.queue popped inv.distinct_queue).1;
        distinct = Distinct-snoc dec result node inv.distinct at_node.3;
        finished = finished_round;
        ordered = IsOrdered-snoc d eligible succ [] result node inv.ordered (λ u m.
            done_of_incoming_zero d eligible succ all result u node at_node.2 (net.sources u node m)
              m);
      }

    Inv-end : (s : State K) (result : List K) → Inv s result → d.pop s.queue ≡ none → IsDone result
    unfolding contains
    Inv-end s result inv empty = record {
      exact = λ v.
          ground
            (arith, inv.queued v, inv.finished v, ap (λ q. contains dec q v) (d.pop_none _ empty));
      distinct = inv.distinct;
      ordered = inv.ordered;
    }

    loop_lem :
        (fuel : ℕ) (s : State K) (result : List K)
        → missing dec known result ≤ fuel
        → Inv s result
        → (r : List K) × (loop d eligible succ fuel s result ≡ some r) × IsDone r
    unfolding loop
    loop_lem zero s result w inv = elim (Option-cases (d.pop s.queue)) [
      | inl e ↦ (result, rw (e, loop), Inv-end s result inv e)
      | inr ((node, rest), e) ↦
          let (m, _, _, fresh) = at_node s result inv node rest e in
          absurd (omega (arith, missing-snoc_lt dec known node result m fresh))
    ]
    loop_lem (suc fuel) s result w inv = elim (Option-cases (d.pop s.queue)) [
      | inl e ↦ (result, rw (e, loop), Inv-end s result inv e)
      | inr ((node, rest), e) ↦
          let (m, _, _, fresh) = at_node s result inv node rest e in
          let (r, runs, done) =
            loop_lem fuel _ (result ++ node ∷ [])
              (omega (arith, missing-snoc_lt dec known node result m fresh))
              (Inv-round s result inv node rest e) in
          (r, rw (e, loop) runs, done)
    ]

    -- With fuel for every known key the loop returns, each key behind its predecessors.
    pub run_lem :
        (fuel : ℕ) (s : State K)
        → length known ≤ fuel
        → IsStart s
        → (r : List K) × (run d eligible succ fuel s ≡ some r) × IsDone r
    unfolding run contains
    run_lem fuel s h start = loop_lem fuel s [] (omega (arith, missing-le dec known [])) (record {
      degrees = start.degrees;
      queued = λ v. ground (arith, start.queued v);
      distinct_queue = start.distinct_queue;
      distinct = tt;
      finished = λ v m. absurd (cc);
      ordered = tt;
    })

    -- Where ranks rise along the edges and every key is eligible, every known key comes out.
    pub complete :
        (rank : K → ℕ) (result : List K)
        → ((u v : K) → contains dec (succ u) v ≡ true → rank u < rank v)
        → ((u v : K) → contains dec (succ u) v ≡ true → contains dec known u ≡ true)
        → ((u : K) → eligible u ≡ true)
        → IsDone result
        → (bound : ℕ) (v : K) → rank v < bound
        → contains dec known v ≡ true
        → contains dec result v ≡ true
    complete rank result rises inside able done zero v h m = absurd (omega arith)
    complete rank result rises inside able done (suc bound) v h m =
        let ready = incoming_zero d eligible succ all result v (λ u e.
          complete rank result rises inside able done bound u (omega (arith, rises u v e))
            (inside u v e)) in
        ground (arith, done.exact v, able v, ready)

-- In an ordered list a predecessor stands before its successor, or among the keys already seen.
pub index-lt :
    {K : Type 0} {dec : Discrete K} (d : Discipline dec) (eligible : K → Bool) (succ : K → List K)
    (seen xs : List K) (u v : K)
    → IsOrdered d eligible succ seen xs
    → contains dec xs v ≡ true
    → contains dec (succ u) v ≡ true
    → (contains dec seen u ≡ true) ⊎ (index dec xs u < index dec xs v)
unfolding contains
index-lt d eligible succ seen [] u v o h e = cc
index-lt {dec} d eligible succ seen (x ∷ xs) u v o h e = elim (dec x v) [
  | yes p ↦ inl (o.0 u (rw p e))
  | no p ↦ elim (index-lt d eligible succ (seen ++ x ∷ []) xs u v o.1 (ground arith) e) [
    | inr later ↦ inr (ground arith)
    | inl early ↦ elim (dec x u) [
      | yes q ↦ inr (ground arith)
      | no q ↦ inl (ground (arith, contains-snoc dec seen x u))
    ]
  ]
]
