-- ===== src/Graph/Topological/Order.antt =====
-- `TopologicalSort` always ends; what it returns is an order of the graph, and on a graph whose
-- edges stay among its nodes it returns one exactly if the graph can be ranked.
use effective_next.Prelude.{
  if_neg, ℕ, suc, ◌<◌, ◌≡◌, ◌≢◌, ◌⊎◌, inl, inr, refl, ap, sym, subst, ◌∙◌, true, some, List, [],
  ◌∷◌, String, length, contains, Distinct, if◌then◌else◌, ◌==◌, Bool-cases, str_dec, str_le, arith,
}
use effective_next.Prelude.Maps.{keys, get_or, has, length-keys}
use effective_next.Prelude.Sets.{Subset, length-le_of_subset, subset_of_length, index}
use effective_next.Prelude.Sort.{sort, contains-sort, Distinct-sort}
use effective_next.Prelude.Queues.{sorted_fifo}
use effective_next.Prelude.Kahn.{State, run}
use effective_next.Prelude.Kahn.Correct.{IsNetwork, IsDone, IsStart, run_lem, complete, index-lt}
use effective_next.Graph.{
  Edge, Graph, node_count, dependencies, targets, in_degrees, at_zero, sorted, cycle_detected,
  topological_sort,
}
use effective_next.Graph.Index.{IsValid}
use effective_next.Graph.Topological.Degrees.{
  heads, is_target, get_or-in_degrees, has-in_degrees, Distinct-in_degrees, contains-at_zero,
  Distinct-at_zero,
}

-- Both ends of every edge are nodes of the graph.
abbrev pub IsClosed : Graph → Type 0
IsClosed g =
    (u v : String)
    → contains str_dec (targets g u) v ≡ true
    → (has str_dec g.nodes u ≡ true) × (has str_dec g.nodes v ≡ true)

-- A rank that rises along every edge: there is one exactly if the graph has no cycle.
abbrev pub IsRanked : Graph → (String → ℕ) → Type 0
IsRanked g rank = (u v : String) → contains str_dec (targets g u) v ≡ true → rank u < rank v

source_key :
    (m : List (String × List Edge)) (u v : String)
    → contains str_dec (heads (get_or str_dec m u [])) v ≡ true
    → contains str_dec (keys m) u ≡ true
unfolding get_or contains
source_key [] u v h = h
source_key ((k, es) ∷ m) u v h = ground (arith, source_key m u v)

is_target_of_lookup :
    (m : List (String × List Edge)) (u v : String)
    → contains str_dec (heads (get_or str_dec m u [])) v ≡ true
    → is_target m v ≡ true
unfolding get_or contains
is_target_of_lookup [] u v h = h
is_target_of_lookup ((k, es) ∷ m) u v h = ground (arith, is_target_of_lookup m u v)

source_of_target :
    (m : List (String × List Edge)) (v : String)
    → Distinct str_dec (keys m)
    → is_target m v ≡ true
    → (u : String) × (contains str_dec (heads (get_or str_dec m u [])) v ≡ true)
unfolding get_or contains
source_of_target [] v d h = cc
source_of_target ((k, es) ∷ m) v d h = elim (Bool-cases (contains str_dec (heads es) v)) [
  | inl here ↦ (k, ground arith)
  | inr later ↦
      let (u, e) = source_of_target m v d.1 (ground arith) in
      let listed = source_key m u v e in
      (u, rw (if_neg (str_dec k u) (other u listed) es (get_or str_dec m u [])) e)
]
  where
    other : (u : String) → contains str_dec (keys m) u ≡ true → k ≢ u
    other u listed p = cc (ap (contains str_dec (keys m)) p, d.0)

module _ (g : Graph) (valid : IsValid g) where
  abbrev known : List String
  known = keys (in_degrees g)

  abbrev start : State String
  start = record { degree = in_degrees g; queue = sort str_le (at_zero (in_degrees g)) }

  network : IsNetwork sorted_fifo (λ _. true) (targets g) (keys g.edges) known
  network = record {
    distinct = valid.distinct_edges;
    sources = λ u v h. unfold targets dependencies in source_key g.edges u v h;
    targets = λ u v h. ground (
      arith,
      has-in_degrees g v,
      is_target_of_lookup g.edges u v (unfold targets dependencies in h),
    );
  }

  started : IsStart sorted_fifo (λ _. true) (targets g) (keys g.edges) known start
  started = record {
    degrees = λ v. get_or-in_degrees g v valid.distinct_edges;
    queued = λ v. ground (
      arith,
      contains-sort str_dec str_le (at_zero (in_degrees g)) v,
      contains-at_zero (in_degrees g) v (Distinct-in_degrees g),
      get_or-in_degrees g v valid.distinct_edges,
    );
    distinct_queue =
        Distinct-sort str_dec str_le (at_zero (in_degrees g))
          (Distinct-at_zero (in_degrees g) (Distinct-in_degrees g));
  }

  ran :
      (r : List String) × (run sorted_fifo (λ _. true) (targets g) (length (in_degrees g)) start
        ≡ some r)
      × IsDone sorted_fifo (λ _. true) (targets g) (keys g.edges) known r
  ran =
      run_lem sorted_fifo (λ _. true) (targets g) (keys g.edges) known network
        (length (in_degrees g)) start (omega (arith, length-keys (in_degrees g))) started

  abbrev order : List String
  order = ran.0

  topological_sort-order :
      topological_sort g ≡ (if length order == node_count g then sorted order else cycle_detected)
  unfolding topological_sort node_count
  topological_sort-order = rw (ran.1, topological_sort)

  -- On a closed graph the in-degree map has the nodes as its keys.
  module _ (closed : IsClosed g) where
    known-nodes : (v : String) → contains str_dec known v ≡ has str_dec g.nodes v
    known-nodes v = elim (Bool-cases (is_target g.edges v)) [
      | inl t ↦
          let (u, e) = source_of_target g.edges v valid.distinct_edges t in
          ground (arith, has-in_degrees g v, closed u v (unfold targets dependencies in e))
      | inr t ↦ ground (arith, has-in_degrees g v)
    ]

    order-node : Subset str_dec order (keys g.nodes)
    order-node v h = ground (arith, ran.2.exact v, known-nodes v)

    -- An order of full length names every node.
    node-order : length order ≡ node_count g → Subset str_dec (keys g.nodes) order
    unfolding node_count
    node-order e =
        subset_of_length str_dec order (keys g.nodes) ran.2.distinct order-node
          (omega (arith, length-keys g.nodes))

    order-full : (rank : String → ℕ) → IsRanked g rank → length order ≡ node_count g
    unfolding node_count
    order-full rank rises =
        let all_out : Subset str_dec (keys g.nodes) order = λ v h.
          complete sorted_fifo (λ _. true) (targets g) (keys g.edges) known network rank order rises
            (λ u w m. known-nodes u ∙ (closed u w m).0) (λ _. refl) ran.2 (suc (rank v)) v
            (omega arith) (known-nodes v ∙ h) in
        omega (
          arith,
          length-le_of_subset str_dec (keys g.nodes) order valid.distinct_nodes all_out,
          length-le_of_subset str_dec order (keys g.nodes) ran.2.distinct order-node,
          length-keys g.nodes,
        )

-- What an order that `TopologicalSort` returns promises on any graph: as many keys as there are
-- nodes, no key twice, and the source of each edge in front of a target that is in the order.
pub record IsOrder (g : Graph) (r : List String) : Type 0 where
  pub full : length r ≡ node_count g
  pub distinct : Distinct str_dec r
  pub forward :
      (u v : String)
      → contains str_dec (targets g u) v ≡ true
      → contains str_dec r v ≡ true
      → index str_dec r u < index str_dec r v

-- On a well-formed graph `TopologicalSort` never runs for ever: it reports a cycle, or returns as
-- many keys as there are nodes, no key twice, with the source of every edge in front of its target
-- whenever the target is among the keys.
pub topological_sort_ends :
    (g : Graph)
    → IsValid g
    → (topological_sort g ≡ cycle_detected)
      ⊎ ((r : List String) × (topological_sort g ≡ sorted r) × IsOrder g r)
topological_sort_ends g valid = elim (Bool-cases (length (order g valid) == node_count g)) [
  | inr short ↦ inl (topological_sort-order g valid ∙ rw short)
  | inl full ↦ inr (
    order g valid,
    topological_sort-order g valid ∙ rw full,
    record {
      full = ground arith;
      distinct = (ran g valid).2.distinct;
      forward = λ u v e h.
          elim (index-lt sorted_fifo (λ _. true) (targets g) [] (order g valid) u v
            (ran g valid).2.ordered h e) [
              | inl early ↦ absurd (unfold contains in cc)
              | inr later ↦ later
            ];
    },
  )
]

module _ (g : Graph) (valid : IsValid g) (closed : IsClosed g)
    (full : length (order g valid) ≡ node_count g) where
  order_names : (v : String) → contains str_dec (order g valid) v ≡ has str_dec g.nodes v
  order_names v = elim (Bool-cases (has str_dec g.nodes v)) [
    | inl h ↦ node-order g valid closed full v h ∙ sym h
    | inr h ↦ ground (arith, order-node g valid closed v)
  ]

  order_ranks : IsRanked g (index str_dec (order g valid))
  order_ranks u v e =
      elim (index-lt sorted_fifo (λ _. true) (targets g) [] (order g valid) u v
        (ran g valid).2.ordered (node-order g valid closed full v (closed u v e).1) e) [
          | inl early ↦ absurd (unfold contains in cc)
          | inr later ↦ later
        ]

-- On a well-formed graph whose edges stay among its nodes, `TopologicalSort` returns an order if
-- some rank rises along every edge.
pub topological_sort_ranked :
    (g : Graph) (rank : String → ℕ)
    → IsValid g
    → IsClosed g
    → IsRanked g rank
    → (r : List String) × (topological_sort g ≡ sorted r)
topological_sort_ranked g rank valid closed rises =
    let full = order-full g valid closed rank rises in
    (order g valid, ground (arith, topological_sort-order g valid))

-- On a well-formed graph whose edges stay among its nodes, an order that `TopologicalSort` returns
-- holds exactly the nodes, and the position in it is a rank that rises along every edge, so the
-- graph has no cycle.
pub topological_sort_exact :
    (g : Graph) (r : List String)
    → IsValid g
    → IsClosed g
    → topological_sort g ≡ sorted r
    → ((v : String) → contains str_dec r v ≡ has str_dec g.nodes v) × IsRanked g (index str_dec r)
topological_sort_exact g r valid closed e =
    let (same, full) : (r ≡ order g valid) × (length (order g valid) ≡ node_count g) =
      ground (arith, topological_sort-order g valid) in
    subst
      (λ l.
        ((v : String) → contains str_dec l v ≡ has str_dec g.nodes v)
        × IsRanked g (index str_dec l))
      (sym same) (order_names g valid closed full, order_ranks g valid closed full)
