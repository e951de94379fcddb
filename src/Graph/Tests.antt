-- ===== src/Graph/Tests.antt =====
-- Small graphs: what graph.go computes on them, and the theorems at them.
use effective_next.Prelude.{
  ℕ, ◌≡◌, ◌⊎◌, ◌↔◌, refl, true, false, some, List, [], ◌∷◌, String, flatten, contains, Distinct,
  str_dec, str_le, arith,
}
use effective_next.Prelude.Maps.{keys, get, get_or, put, delete, has}
use effective_next.Prelude.Sets.{index}
use effective_next.Prelude.Sort.{sort, IsSorted}
use effective_next.Prelude.Worklist.{scan, closure}
use effective_next.Prelude.Queues.{sorted_fifo, take_first}
use effective_next.Prelude.Kahn.{relax, run}
use effective_next.Prelude.Dfs.{dfs_all, start}
use effective_next.Prelude.Dfs.Correct.{IsFound}
use effective_next.Graph.Cycles.{detect_cycles_lem, detect_cycles-topological_sort}
use effective_next.Graph.Diff.{diff, IsWithin, diff_nil}
use effective_next.Graph.Store.{save, load}
use effective_next.Graph.Store.Nodes.{AllWords}
use effective_next.Graph.Store.Roundtrip.{IsLoaded, load-save}
use effective_next.Graph.{
  Node, Graph, new, add_node, add_edge, targets, sources, node_count, in_degrees, at_zero,
  affected_nodes, sorted, cycle_detected, topological_sort, detect_cycles,
}
use effective_next.Graph.Index.{IsValid, new-IsValid, add_node-IsValid, add_edge-IsValid}
use effective_next.Graph.Affected.{DependsOn, affected_nodes_lem}
use effective_next.Graph.Topological.Order.{
  IsClosed, IsRanked, IsOrder, topological_sort_ends, topological_sort_exact,
}

abbrev file : String → Node
file id = record { id = id; path = ""; type = "tsx"; hash = 0; size = 0; metadata = [] }

-- page imports button and utils, and button imports utils.
abbrev app : Graph
app = add_edge "button" "utils" "static-import" false (
    add_edge "page" "utils" "static-import" false (
      add_edge "page" "button" "static-import" true
        (add_node (file "utils") (add_node (file "page") (add_node (file "button") new)))))

program : Unit {0}
unfolding str_dec str_le flatten get get_or put contains sort scan closure take_first sorted_fifo
    relax run new add_node add_edge targets sources node_count in_degrees at_zero affected_nodes
    topological_sort detect_cycles dfs_all start delete
program = tt

app-IsValid : IsValid app
app-IsValid = add_edge-IsValid "button" "utils" "static-import" false _ (
    add_edge-IsValid "page" "utils" "static-import" false _ (
      add_edge-IsValid "page" "button" "static-import" true _ (
        add_node-IsValid (file "utils") _
          (add_node-IsValid (file "page") _ (add_node-IsValid (file "button") new new-IsValid)))))

affected-button : affected_nodes app "button" ≡ some ("button" ∷ "page" ∷ [])
unfolding program
affected-button = refl

sort-app : topological_sort app ≡ sorted ("page" ∷ "button" ∷ "utils" ∷ [])
unfolding program
sort-app = refl

-- An import of a package that is no node is reported as a cycle.
sort-package :
    topological_sort (add_edge "page" "react" "static-import" false (add_node (file "page") new))
    ≡ cycle_detected
unfolding program
sort-package = refl

-- And a cycle goes unnoticed when such imports make up the number of the nodes on it.
sort-masked :
    topological_sort (
      add_edge "utils" "utils" "static-import" false (
        add_edge "page" "react" "static-import" false
          (add_node (file "utils") (add_node (file "page") new))))
    ≡ sorted ("page" ∷ "react" ∷ [])
unfolding program
sort-masked = refl

affected_nodes_lem_example :
    (result : List String) × (affected_nodes app "utils" ≡ some result)
    × ((x : String) → (contains str_dec result x ≡ true) ↔ DependsOn app "utils" x)
    × Distinct str_dec result
    × IsSorted str_le result
affected_nodes_lem_example = affected_nodes_lem app "utils" app-IsValid

topological_sort_ends_example :
    (topological_sort app ≡ cycle_detected)
    ⊎ ((r : List String) × (topological_sort app ≡ sorted r) × IsOrder app r)
topological_sort_ends_example = topological_sort_ends app app-IsValid

app-IsClosed : IsClosed app
unfolding program
app-IsClosed u v h = ground arith

abbrev app_rank : String → ℕ
app_rank = index str_dec ("page" ∷ "button" ∷ "utils" ∷ [])

app-IsRanked : IsRanked app app_rank
app-IsRanked =
    (topological_sort_exact app ("page" ∷ "button" ∷ "utils" ∷ []) app-IsValid app-IsClosed
      sort-app).1

topological_sort_exact_example :
    ((v : String) → contains str_dec ("page" ∷ "button" ∷ "utils" ∷ []) v ≡ has str_dec app.nodes v)
    × IsRanked app app_rank
topological_sort_exact_example =
    topological_sort_exact app ("page" ∷ "button" ∷ "utils" ∷ []) app-IsValid app-IsClosed sort-app

add_edge-IsValid_example : IsValid (add_edge "utils" "clsx" "static-import" false app)
add_edge-IsValid_example = add_edge-IsValid "utils" "clsx" "static-import" false app app-IsValid

diff_nil_example :
    (((diff new app).removed_nodes ≡ []) × ((diff new app).removed_edges ≡ []) ↔ IsWithin new app)
    × (((diff new app).added_nodes ≡ []) × ((diff new app).added_edges ≡ []) ↔ IsWithin app new)
diff_nil_example = diff_nil new app new-IsValid app-IsValid

-- The two files of a circle report it once, and a file that imports itself as well.
abbrev circle : Graph
circle = add_edge "page" "page" "dynamic-import" true (
    add_edge "button" "page" "static-import" false (
      add_edge "page" "button" "static-import" false
        (add_node (file "button") (add_node (file "page") new))))

cycles-circle :
    detect_cycles circle ≡ some (("page" ∷ "button" ∷ "page" ∷ []) ∷ ("page" ∷ "page" ∷ []) ∷ [])
unfolding program
cycles-circle = refl

cycles-app : detect_cycles app ≡ some []
unfolding program
cycles-app = refl

detect_cycles_lem_example :
    (cycles : List (List String)) × (detect_cycles circle ≡ some cycles)
    × IsFound str_dec (targets circle) (keys circle.nodes) cycles
detect_cycles_lem_example = detect_cycles_lem circle

detect_cycles-topological_sort_example :
    (detect_cycles app ≡ some []) ↔ ((r : List String) × (topological_sort app ≡ sorted r))
detect_cycles-topological_sort_example = detect_cycles-topological_sort app app-IsValid app-IsClosed

app-AllWords : AllWords app.nodes
unfolding program
app-AllWords = (omega arith, (omega arith, (omega arith, tt)))

load-save_example :
    ((save 5 app (record { graph_nodes = []; graph_edges = [] })).0 ≡ true)
    × IsLoaded app (load (save 5 app (record { graph_nodes = []; graph_edges = [] })).1)
load-save_example =
    load-save 5 app (record { graph_nodes = []; graph_edges = [] }) app-IsValid app-AllWords
