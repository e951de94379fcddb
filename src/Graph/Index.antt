-- ===== src/Graph/Index.antt =====
-- The well-formed graphs, and that every operation of graph.go that changes one keeps them so.
use effective_next.Prelude.{
  ℕ, ◌+◌, ◌≡◌, refl, ap, Bool, List, [], ◌∷◌, ◌++◌, map, String, length-append, contains,
  contains-snoc, Distinct, count, count-append, str_dec, ite, arith, map-append,
}
use effective_next.Prelude.Maps.{keys, get_or, put, has, get_or-put, has-put, Distinct-put}
use effective_next.Graph.{
  Node, Edge, EdgeType, Graph, new, add_node, add_edge, append_edge, clear, dependencies,
  dependents, targets, sources, count_edges, edge_count,
}

abbrev pub NodeIds : List (String × Node) → Type 0
NodeIds [] = Unit
NodeIds ((k, n) ∷ m) = (k ≡ n.id) × NodeIds m

pub record IsValid (g : Graph) : Type 0 where
  pub node_ids : NodeIds g.nodes
  pub distinct_nodes : Distinct str_dec (keys g.nodes)
  pub distinct_edges : Distinct str_dec (keys g.edges)
  pub distinct_reverse : Distinct str_dec (keys g.reverse)
  pub listed : (id : String) → contains str_dec g.order id ≡ has str_dec g.nodes id
  pub mirrored : (s t : String) → count str_dec t (targets g s) ≡ count str_dec s (sources g t)
  pub balanced : edge_count g ≡ count_edges g.reverse

NodeIds-put : (n : Node) (m : List (String × Node)) → NodeIds m → NodeIds (put str_dec n.id n m)
unfolding put
NodeIds-put n [] v = (refl, tt)
NodeIds-put n ((k, w) ∷ m) v = ground (arith, NodeIds-put n m v.1)

map-append_edge :
    (f : Edge → String) (k j : String) (e : Edge) (m : List (String × List Edge)) (x : String)
    → count str_dec x (map f (get_or str_dec (append_edge k e m) j []))
      ≡ count str_dec x (map f (get_or str_dec m j []))
        + ite {C = ℕ} (str_dec k j) (count str_dec x (f e ∷ [])) 0
unfolding append_edge
map-append_edge f k j e m x =
    let old : List Edge = get_or str_dec m k [] in
    ground (
      arith,
      get_or-put str_dec k j (old ++ e ∷ []) [] m,
      map-append f old (e ∷ []),
      count-append str_dec x (map f old) (f e ∷ []),
      λ (p : k ≡ j). ap (λ (i : String). count str_dec x (map f (get_or str_dec m i []))) p,
    )

pub count_edges-append_edge :
    (k : String) (e : Edge) (m : List (String × List Edge))
    → count_edges (append_edge k e m) ≡ count_edges m + 1
unfolding count_edges append_edge put get_or
count_edges-append_edge k e [] = omega arith
count_edges-append_edge k e ((j, es) ∷ m) =
    ground (arith, count_edges-append_edge k e m, length-append es (e ∷ []))

pub new-IsValid : IsValid new
unfolding new edge_count targets sources dependencies dependents get_or contains
new-IsValid = record {
  node_ids = tt;
  distinct_nodes = tt;
  distinct_edges = tt;
  distinct_reverse = tt;
  listed = λ id. refl;
  mirrored = λ s t. refl;
  balanced = refl;
}

pub clear-IsValid : (g : Graph) → IsValid (clear g)
unfolding clear new
clear-IsValid g = new-IsValid

pub add_node-IsValid : (n : Node) (g : Graph) → IsValid g → IsValid (add_node n g)
unfolding add_node edge_count targets sources dependencies dependents contains
add_node-IsValid n g v = record {
  node_ids = NodeIds-put n g.nodes v.node_ids;
  distinct_nodes = Distinct-put str_dec n.id n g.nodes v.distinct_nodes;
  distinct_edges = v.distinct_edges;
  distinct_reverse = v.distinct_reverse;
  listed = λ id. ground (
    arith,
    v.listed id,
    has-put str_dec n.id id n g.nodes,
    contains-snoc str_dec g.order n.id id,
  );
  mirrored = v.mirrored;
  balanced = v.balanced;
}

pub add_edge-IsValid :
    (s t : String) (type : EdgeType) (dynamic : Bool) (g : Graph)
    → IsValid g
    → IsValid (add_edge s t type dynamic g)
unfolding add_edge edge_count targets sources dependencies dependents
add_edge-IsValid s t type dynamic g v =
    let e : Edge = record { source = s; target = t; type = type; dynamic = dynamic } in
    record {
      node_ids = v.node_ids;
      distinct_nodes = v.distinct_nodes;
      distinct_edges = unfold append_edge in Distinct-put str_dec s _ g.edges v.distinct_edges;
      distinct_reverse =
          unfold append_edge in Distinct-put str_dec t _ g.reverse v.distinct_reverse;
      listed = v.listed;
      mirrored = λ x y. ground (
        arith,
        v.mirrored x y,
        map-append_edge (λ d. d.target) s x e g.edges y,
        map-append_edge (λ d. d.source) t y e g.reverse x,
      );
      balanced = ground (
        arith,
        v.balanced,
        count_edges-append_edge s e g.edges,
        count_edges-append_edge t e g.reverse,
      );
    }
