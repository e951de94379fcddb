-- ===== src/Graph/Store/Nodes.antt =====
-- The nodes in the rows of the store and in the map that is loaded from them.
use effective_next.Prelude.{
  ℕ, ◌^◌, ◌<◌, ◌≡◌, refl, sym, ap, ◌∙◌, true, false, none, some, List, [], ◌∷◌, ◌++◌, String, ltb,
  str_dec, ite, ◌||◌, append-nil, append_assoc, contains, Distinct, arith, Bool-cases, inl, inr,
}
use effective_next.Prelude.Maps.{keys, values, get, put, get-put, get-eq-none_iff}
use effective_next.Graph.{Node, Graph}
use effective_next.Graph.Index.{NodeIds}
use effective_next.Graph.Store.{
  to_int64, to_uint64, NodeRow, EdgeRow, has_node, insert_nodes, load_nodes, load_edges,
}

to_uint64-to_int64 : (h : ℕ) → h < 2 ^ 64 → to_uint64 (to_int64 h) ≡ h
unfolding to_uint64 to_int64
to_uint64-to_int64 h l = elim (Bool-cases (ltb h (2 ^ 63))) [
  | inl low ↦ rw low (omega arith)
  | inr high ↦ rw high (ground arith)
]

-- A node as it comes back: without its metadata, which has no column.
abbrev pub bare : Node → Node
bare n = record n { metadata = [] }

-- Each hash is a `uint64`.
abbrev pub AllWords : List (String × Node) → Type 0
AllWords [] = Unit
AllWords ((_, n) ∷ m) = (n.hash < 2 ^ 64) × AllWords m

abbrev pub node_row : ℕ → Node → NodeRow
node_row saved_at n = record {
  id = n.id;
  path = n.path;
  type = n.type;
  hash = to_int64 n.hash;
  size = n.size;
  saved_at = saved_at;
}

abbrev pub node_rows : ℕ → List (String × Node) → List NodeRow
node_rows saved_at [] = []
node_rows saved_at ((_, n) ∷ m) = node_row saved_at n ∷ node_rows saved_at m

has_node-snoc :
    (id : String) (rows : List NodeRow) (row : NodeRow)
    → has_node id (rows ++ row ∷ []) ≡ (has_node id rows || ite (str_dec row.id id) true false)
unfolding has_node
has_node-snoc id [] row = refl
has_node-snoc id (r ∷ rows) row = ground (arith, has_node-snoc id rows row)

pub insert_nodes-Distinct :
    (saved_at : ℕ) (m : List (String × Node)) (rows : List NodeRow)
    → NodeIds m
    → Distinct str_dec (keys m)
    → ((id : String) → contains str_dec (keys m) id ≡ true → has_node id rows ≡ false)
    → insert_nodes saved_at (values m) rows ≡ some (rows ++ node_rows saved_at m)
unfolding insert_nodes contains
insert_nodes-Distinct saved_at [] rows ids d free = ap some (sym (append-nil rows))
insert_nodes-Distinct saved_at ((k, n) ∷ m) rows ids d free =
    let absent : has_node n.id rows ≡ false = free n.id (ground (arith, ids.0)) in
    rw absent (
      insert_nodes-Distinct saved_at m (rows ++ node_row saved_at n ∷ []) ids.1 d.1 (λ id h.
        ground (
          arith,
          has_node-snoc id rows (node_row saved_at n),
          free id,
          d.0,
          ids.0,
          λ (e : k ≡ id). ap (contains str_dec (keys m)) e,
        ))
      ∙ ap some (append_assoc rows (node_row saved_at n ∷ []) (node_rows saved_at m)))

pub get-load_nodes :
    (saved_at : ℕ) (m : List (String × Node)) (g : Graph) (id : String)
    → NodeIds m
    → Distinct str_dec (keys m)
    → AllWords m
    → get str_dec (load_nodes (node_rows saved_at m) g).nodes id
      ≡ elim (get str_dec m id) [ some n ↦ some (bare n) | none ↦ get str_dec g.nodes id ]
unfolding load_nodes get contains
get-load_nodes saved_at [] g id ids d w = refl
get-load_nodes saved_at ((k, n) ∷ m) g id ids d w =
    let loaded : Node = record (bare n) { hash = to_uint64 (to_int64 n.hash) } in
    let same : loaded ≡ bare n =
      ap (λ h. record (bare n) { hash = h }) (to_uint64-to_int64 n.hash w.0) in
    let g' : Graph = record g {
      nodes = put str_dec n.id loaded g.nodes;
      order = g.order ++ n.id ∷ [];
    } in
    let rest = get-load_nodes saved_at m g' id ids.1 d.1 w.1 in
    let at = get-put str_dec n.id id loaded g.nodes in
    elim (str_dec k id) [
      | yes p ↦
          let gone : get str_dec m id ≡ none =
            (get-eq-none_iff str_dec m id).1 (ap (contains str_dec (keys m)) (sym p) ∙ d.0) in
          ground (arith, rest, at, gone, ids.0, same, p)
      | no q ↦ ground (arith, rest, at, ids.0)
    ]

pub edges-load_nodes :
    (rows : List NodeRow) (g : Graph)
    → ((load_nodes rows g).edges ≡ g.edges) × ((load_nodes rows g).reverse ≡ g.reverse)
unfolding load_nodes
edges-load_nodes [] g = (refl, refl)
edges-load_nodes (row ∷ rows) g = edges-load_nodes rows _

pub nodes-load_edges : (rows : List EdgeRow) (g : Graph) → (load_edges rows g).nodes ≡ g.nodes
unfolding load_edges
nodes-load_edges [] g = refl
nodes-load_edges (row ∷ rows) g = nodes-load_edges rows _
