-- ===== src/Graph/Cycles.antt =====
-- `DetectCycles`: what it reports, and that it agrees with `TopologicalSort`.
use mathlib.Core.List.{Memᴰ}
use mathlib.Core.List.Memᴰ.{head}
use mathlib.Core.Option
use effective_next.Prelude.{
  ℕ, ◌+◌, ◌<◌, ◌≡◌, ◌↔◌, inl, inr, refl, sym, ap, subst, ◌∙◌, true, some, List, [], ◌∷◌, ◌++◌, map,
  flatten, String, length, length-append, length-map, contains, contains-append, List-cases,
  str_dec, arith,
}
use effective_next.Prelude.Sets.{index}
use effective_next.Prelude.Maps.{keys, values, length-keys}
use effective_next.Prelude.Dfs.Walks.{last?, IsWalk, IsCycle}
use effective_next.Prelude.Dfs.Moves.{Ranked}
use effective_next.Prelude.Dfs.Correct.{IsFound, search_lem}
use effective_next.Graph.{
  Edge, Graph, targets, dependencies, detect_cycles, topological_sort, sorted,
}
use effective_next.Graph.Index.{IsValid}
use effective_next.Graph.Affected.{covered}
use effective_next.Graph.Topological.Order.{
  IsClosed, IsRanked, topological_sort_ranked, topological_sort_exact,
}

all_keys : Graph → List String
all_keys g = keys g.nodes ++ map (λ (e : Edge). e.target) (flatten (values g.edges))

covers :
    (g : Graph) (u v : String)
    → contains str_dec (targets g u) v ≡ true
    → contains str_dec (all_keys g) v ≡ true
unfolding all_keys targets dependencies
covers g u v e = ground (
  arith,
  contains-append str_dec (keys g.nodes) (map (λ (e : Edge). e.target) (flatten (values g.edges)))
      v,
  covered (λ (e : Edge). e.target) g.edges u v e,
)

known_key :
    (g : Graph) (id : String)
    → contains str_dec (keys g.nodes) id ≡ true
    → contains str_dec (all_keys g) id ≡ true
unfolding all_keys
known_key g id m = ground (
  arith,
  contains-append str_dec (keys g.nodes) (map (λ (e : Edge). e.target) (flatten (values g.edges)))
      id,
)

length-all_keys :
    (g : Graph) → length (all_keys g) ≡ length g.nodes + length (flatten (values g.edges))
unfolding all_keys
length-all_keys g = omega (
  arith,
  length-append (keys g.nodes) (map (λ (e : Edge). e.target) (flatten (values g.edges))),
  length-keys g.nodes,
  length-map (λ (e : Edge). e.target) (flatten (values g.edges)),
)

-- `DetectCycles` returns, and each list that it reports is a walk along edges, of one edge at least,
-- that ends where it starts. It reports none only if each node can be listed in front of all that
-- it leads to.
pub detect_cycles_lem :
    (g : Graph)
    → (cycles : List (List String)) × (detect_cycles g ≡ some cycles)
      × IsFound str_dec (targets g) (keys g.nodes) cycles
unfolding detect_cycles
detect_cycles_lem g =
    let (s, e, found) =
      search_lem str_dec (targets g) (all_keys g) (covers g)
        (length g.nodes + length (flatten (values g.edges))) (keys g.nodes)
        (omega (arith, length-all_keys g)) (λ id m. known_key g id m) in
    (s.cycles, ap (Option.map (λ s. s.cycles)) e, found)

rank-walk :
    (g : Graph) (rank : String → ℕ)
    → IsRanked g rank
    → (x : String) (xs : List String) (y : String) → IsWalk str_dec (targets g) (x ∷ xs)
    → last? xs ≡ some y
    → rank x < rank y
rank-walk g rank rises x [] y w e = cc
rank-walk g rank rises x (z ∷ []) y w e = omega (arith, rises x z w.0, ap rank (of_some e))
  where
    of_some : {a b : String} → some a ≡ some b → a ≡ b
    of_some e = cc
rank-walk g rank rises x (z ∷ t ∷ xs) y w e =
    omega (arith, rises x z w.0, rank-walk g rank rises z (t ∷ xs) y w.1 e)

-- No walk along edges that rise ends where it starts.
acyclic :
    (g : Graph) (rank : String → ℕ) (c : List String)
    → IsRanked g rank
    → ¬ IsCycle str_dec (targets g) c
acyclic g rank c rises k =
    let w = subst (IsWalk str_dec (targets g)) k.whole k.walk in
    absurd (omega (arith, rank-walk g rank rises k.first k.rest k.first w k.closed))

contains-Ranked :
    (g : Graph) (fin : List String) (u v : String)
    → Ranked str_dec (targets g) fin
    → contains str_dec fin u ≡ true
    → contains str_dec (targets g u) v ≡ true
    → contains str_dec fin v ≡ true
unfolding contains
contains-Ranked g [] u v r m e = cc
contains-Ranked g (x ∷ fin) u v r m e = elim (str_dec x u) [
  | yes same ↦ ground (arith, r.1 v (ap (λ y. contains str_dec (targets g y) v) same ∙ e))
  | no other ↦ ground (arith, contains-Ranked g fin u v r.2 (ground arith) e)
]

index-Ranked :
    (g : Graph) (fin : List String) (u v : String)
    → Ranked str_dec (targets g) fin
    → contains str_dec fin u ≡ true
    → contains str_dec (targets g u) v ≡ true
    → index str_dec fin u < index str_dec fin v
unfolding contains
index-Ranked g [] u v r m e = cc
index-Ranked g (x ∷ fin) u v r m e = elim (str_dec x u) [
  | yes same ↦
      let later = r.1 v (ap (λ y. contains str_dec (targets g y) v) same ∙ e) in
      ground (arith, later, r.0, λ (p : x ≡ v). ap (contains str_dec fin) p)
  | no other ↦
      let here : contains str_dec fin u ≡ true = ground arith in
      ground (
        arith,
        index-Ranked g fin u v r.2 here e,
        contains-Ranked g fin u v r.2 here e,
        r.0,
        λ (p : x ≡ v). ap (contains str_dec fin) p,
      )
]

no_cycle :
    (g : Graph) (cycles : List (List String))
    → IsClosed g
    → IsFound str_dec (targets g) (keys g.nodes) cycles
    → (cycles ≡ []) ↔ ((rank : String → ℕ) × IsRanked g rank)
no_cycle g cycles closed found = (
  λ e.
      let (fin, all, ranked) = found.order e in
      (index str_dec fin, λ u v t. index-Ranked g fin u v ranked (all u (closed u v t).0) t),
  λ r. elim (List-cases cycles) [
    | inl none_found ↦ none_found
    | inr (c, rest, e) ↦
        absurd (acyclic g r.0 c r.1 (found.sound c (subst (Memᴰ c) (sym e) (head refl))))
  ],
)

-- On a well-formed graph whose edges stay among its nodes, `DetectCycles` reports no cycle exactly
-- if `TopologicalSort` returns an order.
pub detect_cycles-topological_sort :
    (g : Graph)
    → IsValid g
    → IsClosed g
    → (detect_cycles g ≡ some []) ↔ ((r : List String) × (topological_sort g ≡ sorted r))
detect_cycles-topological_sort g valid closed =
    let (cycles, e, found) = detect_cycles_lem g in
    let (to, of) = no_cycle g cycles closed found in
    (
      λ none_found.
          let (rank, rises) = to (of_some (sym e ∙ none_found)) in
          topological_sort_ranked g rank valid closed rises,
      λ o. e ∙ ap some (of (_, (topological_sort_exact g o.0 valid closed o.1).1)),
    )
  where
    of_some : {a b : List (List String)} → some a ≡ some b → a ≡ b
    of_some e = cc
