-- ===== src/Graph/Stats.antt =====
-- `Stats`: counts of nodes and edges by type.
use effective_next.Prelude.{
  ℕ, ◌≡◌, refl, List, [], ◌∷◌, map, flatten, String, length, length-map, length-append, count,
  str_dec, arith,
}
use effective_next.Prelude.Maps.{values, get_or}
use effective_next.Prelude.Tally.{tally, sum_values, sum-tally, get_or-tally}
use effective_next.Graph.{
  NodeType, EdgeType, Node, Edge, Graph, node_count, edge_count, count_edges, all_edges,
}

pub record Stats : Type 0 where
  pub node_count : ℕ
  pub edge_count : ℕ
  pub type_count : List (NodeType × ℕ)
  pub edge_type_count : List (EdgeType × ℕ)

node_types : Graph → List NodeType
node_types g = map (λ n. n.type) (values g.nodes)

edge_types : Graph → List EdgeType
edge_types g = map (λ e. e.type) (all_edges g)

pub stats : Graph → Stats
unfolding node_types edge_types
stats g = record {
  node_count = node_count g;
  edge_count = edge_count g;
  type_count = tally str_dec (node_types g) [];
  edge_type_count = tally str_dec (edge_types g) [];
}

length-values : (m : List (String × Node)) → length (values m) ≡ length m
length-values [] = refl
length-values ((k, v) ∷ m) = omega (arith, length-values m)

length-all_edges : (m : List (String × List Edge)) → length (flatten (values m)) ≡ count_edges m
unfolding flatten count_edges
length-all_edges [] = refl
length-all_edges ((k, es) ∷ m) =
    omega (arith, length-append es (flatten (values m)), length-all_edges m)

edges_counted : (g : Graph) → length (all_edges g) ≡ count_edges g.edges
unfolding all_edges
edges_counted g = length-all_edges g.edges

-- The counts by type add up to the totals, and each is the number of nodes or edges of that type.
pub stats_sums :
    (g : Graph)
    → (sum_values (stats g).type_count ≡ (stats g).node_count)
      × (sum_values (stats g).edge_type_count ≡ (stats g).edge_count)
      × ((t : NodeType)
          → get_or str_dec (stats g).type_count t 0
            ≡ count str_dec t (map (λ n. n.type) (values g.nodes)))
      × ((t : EdgeType)
          → get_or str_dec (stats g).edge_type_count t 0
            ≡ count str_dec t (map (λ e. e.type) (all_edges g)))
unfolding stats node_count edge_count get_or
stats_sums g = (
  omega (
    arith,
    sum-tally str_dec (map (λ n. n.type) (values g.nodes)) [],
    length-map (λ (n : Node). n.type) (values g.nodes),
    length-values g.nodes,
  ),
  omega (
    arith,
    sum-tally str_dec (map (λ e. e.type) (all_edges g)) [],
    length-map (λ (e : Edge). e.type) (all_edges g),
    edges_counted g,
  ),
  λ t. omega (arith, get_or-tally str_dec (map (λ n. n.type) (values g.nodes)) [] t),
  λ t. omega (arith, get_or-tally str_dec (map (λ e. e.type) (all_edges g)) [] t),
)
