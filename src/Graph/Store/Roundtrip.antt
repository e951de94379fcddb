-- ===== src/Graph/Store/Roundtrip.antt =====
-- What `Load` brings back of a graph that was saved.
use effective_next.Prelude.{ℕ, ◌^◌, ◌/◌, ◌≡◌, refl, ap, ◌∙◌, true, none, some, [], String, str_dec}
use effective_next.Prelude.Maps.{values, get, get_or}
use effective_next.Graph as Graphs
use effective_next.Graph.{
  Node, Edge, Graph, get_node, append_edge, all_edges, dependencies, dependents,
}
use effective_next.Graph.Index.{IsValid}
use effective_next.Graph.Store.{Store, has_node, insert_nodes, insert_edges, save, load_nodes, load}
use effective_next.Graph.Store.Edges.{
  flag_of, or_else, row_flag, row_flag-insert_edges, flag-load_edges,
}
use effective_next.Graph.Store.Nodes.{
  bare, AllWords, node_rows, insert_nodes-Distinct, get-load_nodes, edges-load_nodes,
  nodes-load_edges,
}

-- What `Load` returns of a graph.
pub record IsLoaded (g h : Graph) : Type 0 where
  pub nodes_back :
      (id : String) → get_node h id ≡ elim (get_node g id) [ none ↦ none | some n ↦ some (bare n) ]
  pub edges_back :
      (s t type : String)
      → (flag_of (dependencies h s) s t type ≡ flag_of (all_edges g) s t type)
        × (flag_of (dependents h t) s t type ≡ flag_of (all_edges g) s t type)

IsLoaded-load :
    (saved_at : ℕ) (g : Graph)
    → IsValid g
    → AllWords g.nodes
    → IsLoaded g (
        load (record {
          graph_nodes = node_rows saved_at g.nodes;
          graph_edges = insert_edges (all_edges g) [];
        }))
unfolding load get_node dependencies dependents Graphs.new get get_or
IsLoaded-load saved_at g valid words =
    let start : Graph = load_nodes (node_rows saved_at g.nodes) Graphs.new in
    let rows = insert_edges (all_edges g) [] in
    let (no_edges, no_reverse) = edges-load_nodes (node_rows saved_at g.nodes) Graphs.new in
    record {
      nodes_back = λ id.
          ap (λ m. get str_dec m id) (nodes-load_edges rows start)
          ∙ get-load_nodes saved_at g.nodes Graphs.new id valid.node_ids valid.distinct_nodes words
          ∙ refl;
      edges_back = λ s t type.
          let (there, back) = flag-load_edges rows start s t type in
          let stored = row_flag-insert_edges (all_edges g) [] s t type in
          (
            there
                ∙ ap
                    (λ m.
                      or_else (flag_of (get_or str_dec m s []) s t type) (row_flag rows s t type))
                    no_edges
                ∙ stored,
            back
                ∙ ap
                    (λ m.
                      or_else (flag_of (get_or str_dec m t []) s t type) (row_flag rows s t type))
                    no_reverse
                ∙ stored,
          );
    }

-- A well-formed graph whose hashes are 64-bit words is saved without an error, and is loaded again
-- with each node but for its
-- metadata, and with each edge, in both directions; of several edges with the same ends and type the
-- first is kept.
pub load-save :
    (now : ℕ) (g : Graph) (st : Store)
    → IsValid g
    → AllWords g.nodes
    → ((save now g st).0 ≡ true) × IsLoaded g (load (save now g st).1)
unfolding save has_node
load-save now g st valid words =
    let inserted : insert_nodes (now / 10 ^ 9) (values g.nodes) []
        ≡ some (node_rows (now / 10 ^ 9) g.nodes) =
      insert_nodes-Distinct (now / 10 ^ 9) g.nodes [] valid.node_ids valid.distinct_nodes
        (λ id h. refl) in
    rw (inserted, save) (refl, IsLoaded-load (now / 10 ^ 9) g valid words)
