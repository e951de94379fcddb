-- ===== src/Graph/Export/Tests.antt =====
-- A graph of two files, what is written of it, and the theorem at it.
use effective_next.Prelude.{◌≡◌, refl, true, [], ◌∷◌, String, str_dec, str_le}
use effective_next.Prelude.Maps.{get_or, put}
use effective_next.Prelude.Sort.{sort}
use effective_next.Graph.{Node, Graph, new, add_node, append_edge, add_edge, nodes, dependencies}
use effective_next.Graph.Export.{
  each_edge, export_json, label_of, export_dot, is_replaced, sanitize_mermaid_id, export_mermaid,
}

program : Unit {0}
unfolding get_or put sort str_dec str_le new add_node append_edge add_edge nodes dependencies
    each_edge export_json label_of export_dot is_replaced sanitize_mermaid_id export_mermaid
program = tt

abbrev file : String → String → Node
file id path = record { id = id; path = path; type = "module"; hash = 0; size = 0; metadata = [] }

abbrev site : Graph
site =
    add_edge "src/b-c.ts" "src/a.ts" "import" true
      (add_node (file "src/b-c.ts" "") (add_node (file "src/a.ts" "/p/src/a.ts") new))

export_mermaid-site :
    export_mermaid site
    ≡ "graph LR\n" ∷ "    src_a_ts[\"/p/src/a.ts\"]\n" ∷ "    src_b_c_ts[\"src/b-c.ts\"]\n"
      ∷ "    src_b_c_ts -.-> src_a_ts\n" ∷ []
unfolding program
export_mermaid-site = refl

export_dot-site :
    export_dot (λ s. s) site
    ≡ "digraph dependencies {\n" ∷ "  rankdir=LR;\n" ∷ "  node [shape=box];\n"
      ∷ "  src/a.ts [label=/p/src/a.ts];\n" ∷ "  src/b-c.ts [label=src/b-c.ts];\n"
      ∷ "  src/b-c.ts -> src/a.ts [style=dashed];\n" ∷ "}\n" ∷ []
unfolding program
export_dot-site = refl

-- Two files become one in the diagram.
sanitize_mermaid_id-merges : sanitize_mermaid_id "a-b.ts" ≡ sanitize_mermaid_id "a/b.ts"
unfolding program
sanitize_mermaid_id-merges = refl
