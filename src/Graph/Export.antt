-- ===== src/Graph/Export.antt =====
-- pkg/graph/export.go: what is written of a graph. A writer is the list of the texts that it was given;
-- how JSON spells the nodes and edges, and `%q` a text, is left to Go's library.
mod Tests
use Prim.Native.Char.{Char, code}
use Prim.Native.String
use effective_next.Prelude.{
  ℕ, ◌+◌, ◌≡◌, refl, ap, ap₂, sym, ◌∙◌, Bool, true, false, ◌||◌, List, [], ◌∷◌, ◌++◌, map, String,
  length, length-append, length-map, append-nil, contains, Distinct, if◌then◌else◌, ◌==◌, str_dec,
  ite, arith,
}
use effective_next.Prelude.Maps.{keys, get_or}
use effective_next.Graph.{
  NodeType, EdgeType, Node, Edge, Graph, nodes, dependencies, edge_count, count_edges,
}

pub record JsonNode : Type 0 where
  pub id : String
  pub path : String
  pub type : NodeType

pub record JsonEdge : Type 0 where
  pub source : String
  pub target : String
  pub type : EdgeType
  pub dynamic : Bool

pub record JsonGraph : Type 0 where
  pub nodes : List JsonNode
  pub edges : List JsonEdge

abbrev pub json_edge : String → Edge → JsonEdge
json_edge source e = record {
  source = source;
  target = e.target;
  type = e.type;
  dynamic = e.dynamic;
}

-- `for source, edges := range g.edges { for _, e := range edges {`, with what is made of an edge.
unfoldable pub each_edge : {T : Type 0} → (String → Edge → T) → List (String × List Edge) → List T
each_edge f [] = []
each_edge f ((source, es) ∷ m) = map (f source) es ++ each_edge f m

unfoldable pub export_json : Graph → JsonGraph
unfolding each_edge
export_json g = record {
  nodes = map (λ n. record { id = n.id; path = n.path; type = n.type }) (nodes g);
  edges = each_edge json_edge g.edges;
}

unfoldable pub label_of : Node → String
unfolding str_dec
label_of n = ite (str_dec n.path "") n.id n.path

abbrev text : List String → String
text [] = ""
text (s ∷ rest) = String.◌++◌ s (text rest)

unfoldable pub export_dot : (quote : String → String) → Graph → List String
unfolding each_edge label_of
export_dot quote g =
    "digraph dependencies {\n"
      ∷ "  rankdir=LR;\n"
      ∷ "  node [shape=box];\n"
      ∷ map (λ n. text ("  " ∷ quote n.id ∷ " [label=" ∷ quote (label_of n) ∷ "];\n" ∷ []))
          (nodes g)
    ++ each_edge
        (λ source e. text (
          "  "
          ∷ quote source
          ∷ " -> "
          ∷ quote e.target
          ∷ " [style="
          ∷ (if e.dynamic then "dashed" else "solid")
          ∷ "];\n"
          ∷ []))
        g.edges
    ++ "}\n" ∷ []

-- One of `/ . - [ ] ( )` and the space.
unfoldable pub is_replaced : Char → Bool
is_replaced c =
    (code c == 47)
    || ((code c == 46)
        || ((code c == 45)
            || ((code c == 91)
                || ((code c == 93) || ((code c == 40) || ((code c == 41) || (code c == 32)))))))

unfoldable pub sanitize_mermaid_id : String → String
unfolding is_replaced
sanitize_mermaid_id String.[] = ""
sanitize_mermaid_id (String.◌∷◌ c id) =
    String.◌++◌ (if is_replaced c then "_" else String.◌∷◌ c "") (sanitize_mermaid_id id)

unfoldable pub export_mermaid : Graph → List String
unfolding each_edge label_of sanitize_mermaid_id
export_mermaid g =
    "graph LR\n"
      ∷ map (λ n. text ("    " ∷ sanitize_mermaid_id n.id ∷ "[\"" ∷ label_of n ∷ "\"]\n" ∷ []))
          (nodes g)
    ++ each_edge
        (λ source e. text (
          "    "
          ∷ sanitize_mermaid_id source
          ∷ " "
          ∷ (if e.dynamic then "-.->" else "-->")
          ∷ " "
          ∷ sanitize_mermaid_id e.target
          ∷ "\n"
          ∷ []))
        g.edges

-- The edges of one source.
abbrev pub leaving : String → List JsonEdge → List JsonEdge
leaving s [] = []
leaving s (e ∷ es) = ite (str_dec e.source s) (e ∷ leaving s es) (leaving s es)

leaving-append :
    (s : String) (es fs : List JsonEdge) → leaving s (es ++ fs) ≡ leaving s es ++ leaving s fs
leaving-append s [] fs = refl
leaving-append s (e ∷ es) fs = ground (arith, leaving-append s es fs)

leaving-map :
    (s k : String) (es : List Edge)
    → leaving s (map (json_edge k) es) ≡ ite (str_dec k s) (map (json_edge k) es) []
leaving-map s k [] = ground arith
leaving-map s k (e ∷ es) = ground (arith, leaving-map s k es)

leaving_absent :
    (s : String) (m : List (String × List Edge))
    → contains str_dec (keys m) s ≡ false
    → leaving s (each_edge json_edge m) ≡ []
unfolding each_edge contains
leaving_absent s [] h = refl
leaving_absent s ((k, es) ∷ m) h = ground (
  arith,
  leaving_absent s m,
  leaving-append s (map (json_edge k) es) (each_edge json_edge m),
  leaving-map s k es,
)

leaving-each_edge :
    (s : String) (m : List (String × List Edge))
    → Distinct str_dec (keys m)
    → leaving s (each_edge json_edge m) ≡ map (json_edge s) (get_or str_dec m s [])
unfolding each_edge get_or
leaving-each_edge s [] u = refl
leaving-each_edge s ((k, es) ∷ m) u = elim (str_dec k s) [
  | no n ↦ ground (
    arith,
    leaving-each_edge s m u.1,
    leaving-map s k es,
    leaving-append s (map (json_edge k) es) (each_edge json_edge m),
  )
  | yes e ↦
      let absent = leaving_absent s m (ap (contains str_dec (keys m)) (sym e) ∙ u.0) in
      ground (
        arith,
        absent,
        leaving-map s k es,
        append-nil (map (json_edge k) es),
        ap (λ j. map (json_edge j) es) e,
        leaving-append s (map (json_edge k) es) (each_edge json_edge m),
      )
]

length-each_edge :
    {T : Type 0} (f : String → Edge → T) (m : List (String × List Edge))
    → length (each_edge f m) ≡ count_edges m
unfolding each_edge count_edges
length-each_edge f [] = refl
length-each_edge f ((k, es) ∷ m) =
    omega (
      arith,
      length-append (map (f k) es) (each_edge f m),
      length-map (f k) es,
      length-each_edge f m,
    )

-- In a graph that keeps its edges by distinct sources, the JSON has for each source exactly its
-- dependencies, in their order, and as many edges as the graph counts.
pub leaving-export_json :
    (g : Graph) (s : String)
    → Distinct str_dec (keys g.edges)
    → (leaving s (export_json g).edges ≡ map (json_edge s) (dependencies g s))
      × (length (export_json g).edges ≡ edge_count g)
unfolding export_json dependencies edge_count
leaving-export_json g s u = (leaving-each_edge s g.edges u, length-each_edge json_edge g.edges)
