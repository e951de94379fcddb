-- ===== src/Graph/Store.antt =====
-- pkg/graph/store.go: the two tables of the SQLite file as lists of rows, and what `Save` and `Load`
-- do with them. The statements are those that the driver carries out, but for a second row with the
-- primary key of `graph_nodes`, which it refuses.
pub mod Edges
pub mod Nodes
pub mod Roundtrip
use effective_next.Prelude.{
  ℕ, ◌+◌, ◌-◌, ◌^◌, ◌/◌, ◌%◌, Bool, true, false, not, Option, none, some, List, [], ◌∷◌, ◌++◌,
  String, length, if◌then◌else◌, ◌==◌, ltb, str_dec, ite,
}
use effective_next.Prelude.Int.{ℤ, pos, negsuc}
use effective_next.Prelude.Maps.{values, put}
use effective_next.Graph as Graphs
use effective_next.Graph.{Node, Edge, Graph, append_edge, all_edges}

-- `int64(h)` and `uint64(n)`, in two's complement.
unfoldable pub to_int64 : ℕ → ℤ
to_int64 h = if ltb h (2 ^ 63) then pos h else negsuc (2 ^ 64 - 1 - h)

unfoldable pub to_uint64 : ℤ → ℕ
to_uint64 (pos n) = n % 2 ^ 64
to_uint64 (negsuc n) = 2 ^ 64 - 1 - n

-- `saved_at` is the RFC 3339 text of a time, given by its seconds.
pub record NodeRow : Type 0 where
  pub id : String
  pub path : String
  pub type : String
  pub hash : ℤ
  pub size : ℕ
  pub saved_at : ℕ

pub record EdgeRow : Type 0 where
  pub source : String
  pub target : String
  pub edge_type : String
  pub dynamic : ℕ

pub record Store : Type 0 where
  pub graph_nodes : List NodeRow
  pub graph_edges : List EdgeRow

unfoldable pub bool_to_int : Bool → ℕ
bool_to_int b = if b then 1 else 0

unfoldable pub has_node : String → List NodeRow → Bool
has_node id [] = false
has_node id (row ∷ rows) = ite (str_dec row.id id) true (has_node id rows)

abbrev pub is_edge : String → String → String → EdgeRow → Bool
is_edge s t type row =
    ite (str_dec row.source s)
      (ite (str_dec row.target t) (ite (str_dec row.edge_type type) true false) false) false

unfoldable pub has_edge : String → String → String → List EdgeRow → Bool
has_edge s t type [] = false
has_edge s t type (row ∷ rows) = if is_edge s t type row then true else has_edge s t type rows

-- `INSERT INTO graph_nodes` for each node; `none` is an error.
unfoldable pub insert_nodes : (saved_at : ℕ) → List Node → List NodeRow → Option (List NodeRow)
unfolding has_node to_int64
insert_nodes saved_at [] rows = some rows
insert_nodes saved_at (n ∷ ns) rows =
    let row : NodeRow = record {
      id = n.id;
      path = n.path;
      type = n.type;
      hash = to_int64 n.hash;
      size = n.size;
      saved_at = saved_at;
    } in
    let more = insert_nodes saved_at ns (rows ++ row ∷ []) in
    if has_node n.id rows then none else more

-- `INSERT OR IGNORE INTO graph_edges` for each edge.
unfoldable pub insert_edges : List Edge → List EdgeRow → List EdgeRow
unfolding has_edge bool_to_int
insert_edges [] rows = rows
insert_edges (e ∷ es) rows =
    let row : EdgeRow = record {
      source = e.source;
      target = e.target;
      edge_type = e.type;
      dynamic = bool_to_int e.dynamic;
    } in
    insert_edges es (if has_edge e.source e.target e.type rows then rows else rows ++ row ∷ [])

-- `Save` at the time `now`: whether the transaction commits, and the store after it.
unfoldable pub save : ℕ → Graph → Store → Bool × Store
unfolding insert_nodes insert_edges
save now g st = elim (insert_nodes (now / 10 ^ 9) (values g.nodes) []) [
  | none ↦ (false, st)
  | some rows ↦ (true, record { graph_nodes = rows; graph_edges = insert_edges (all_edges g) [] })
]

unfoldable pub load_nodes : List NodeRow → Graph → Graph
unfolding to_uint64
load_nodes [] g = g
load_nodes (row ∷ rows) g =
    let n : Node = record {
      id = row.id;
      path = row.path;
      type = row.type;
      hash = to_uint64 row.hash;
      size = row.size;
      metadata = [];
    } in
    load_nodes rows (record g { nodes = put str_dec n.id n g.nodes; order = g.order ++ n.id ∷ [] })

unfoldable pub load_edges : List EdgeRow → Graph → Graph
load_edges [] g = g
load_edges (row ∷ rows) g =
    let e : Edge = record {
      source = row.source;
      target = row.target;
      type = row.edge_type;
      dynamic = not (row.dynamic == 0);
    } in
    load_edges rows (record g {
      edges = append_edge e.source e g.edges;
      reverse = append_edge e.target e g.reverse;
    })

unfoldable pub load : Store → Graph
unfolding load_nodes load_edges
load st = load_edges st.graph_edges (load_nodes st.graph_nodes Graphs.new)

unfoldable pub node_count : Store → ℕ
node_count st = length st.graph_nodes

unfoldable pub edge_count : Store → ℕ
edge_count st = length st.graph_edges

unfoldable pub clear : Store → Store
clear st = record { graph_nodes = []; graph_edges = [] }
