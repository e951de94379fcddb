-- ===== src/Graph.antt =====
-- pkg/graph/graph.go: the dependency graph. A graph is its three maps and the insertion order. Each method
-- holds its lock from the first line to the last; Graph/Locks tells where that is too much.
pub mod Index
pub mod Affected
pub mod Topological
pub mod Cycles
pub mod Store
pub mod Diff
pub mod Stats
pub mod Locks
pub mod Export
mod Tests
use mathlib.Core.Option
use effective_next.Prelude.{
  ℕ, suc, ◌+◌, Bool, true, Option, none, some, List, [], ◌∷◌, ◌++◌, map, String, length, flatten,
  if◌then◌else◌, ◌==◌, str_dec, str_le,
}
use effective_next.Prelude.Maps.{keys, values, get, get_or, put}
use effective_next.Prelude.Sort.{sort}
use effective_next.Prelude.Worklist.{closure}
use effective_next.Prelude.Dfs.{dfs_all, start}
use effective_next.Prelude.Kahn.{State, run}
use effective_next.Prelude.Queues.{sorted_fifo}

-- `type NodeType string` and `type EdgeType string`: any text may come back from the store.
abbrev pub NodeType : Type 0
NodeType = String

abbrev pub EdgeType : Type 0
EdgeType = String

pub record Node : Type 0 where
  pub id : String
  pub path : String
  pub type : NodeType
  pub hash : ℕ
  pub size : ℕ
  pub metadata : List (String × String)

pub record Edge : Type 0 where
  pub source : String
  pub target : String
  pub type : EdgeType
  pub dynamic : Bool

pub record Graph : Type 0 where
  pub nodes : List (String × Node)
  pub edges : List (String × List Edge)
  pub reverse : List (String × List Edge)
  pub order : List String

unfoldable pub new : Graph
new = record { nodes = []; edges = []; reverse = []; order = [] }

unfoldable pub add_node : Node → Graph → Graph
add_node node g = record g {
  nodes = put str_dec node.id node g.nodes;
  order = g.order ++ node.id ∷ [];
}

unfoldable pub get_node : Graph → String → Option Node
get_node g id = get str_dec g.nodes id

-- `m[k] = append(m[k], edge)`
unfoldable pub append_edge : String → Edge → List (String × List Edge) → List (String × List Edge)
append_edge k edge m = put str_dec k (get_or str_dec m k [] ++ edge ∷ []) m

unfoldable pub add_edge : (source target : String) → EdgeType → Bool → Graph → Graph
unfolding append_edge
add_edge source target type dynamic g =
    let edge : Edge = record { source = source; target = target; type = type; dynamic = dynamic } in
    record g {
      edges = append_edge source edge g.edges;
      reverse = append_edge target edge g.reverse;
    }

unfoldable pub dependencies : Graph → String → List Edge
dependencies g id = get_or str_dec g.edges id []

unfoldable pub dependents : Graph → String → List Edge
dependents g id = get_or str_dec g.reverse id []

unfoldable pub node_count : Graph → ℕ
node_count g = length g.nodes

unfoldable pub count_edges : List (String × List Edge) → ℕ
count_edges [] = 0
count_edges ((_, es) ∷ m) = length es + count_edges m

unfoldable pub edge_count : Graph → ℕ
unfolding count_edges
edge_count g = count_edges g.edges

unfoldable pub nodes : Graph → List Node
nodes g = sort (λ a b. str_le a.id b.id) (values g.nodes)

unfoldable pub all_edges : Graph → List Edge
all_edges g = flatten (values g.edges)

unfoldable pub targets : Graph → String → List String
unfolding dependencies
targets g id = map (λ e. e.target) (dependencies g id)

unfoldable pub sources : Graph → String → List String
unfolding dependents
sources g id = map (λ e. e.source) (dependents g id)

-- Each edge is taken once at most, so one round for each and one for `id` are enough.
unfoldable pub affected_nodes : Graph → String → Option (List String)
affected_nodes g id =
    Option.map (sort str_le)
      (closure str_dec (sources g) (suc (length (flatten (values g.reverse)))) id)

-- `for id := range g.nodes { inDegree[id] = 0 }`
zero_degrees : List (String × Node) → List (String × ℕ)
zero_degrees [] = []
zero_degrees ((id, _) ∷ m) = put str_dec id 0 (zero_degrees m)

-- `for _, e := range edges { inDegree[e.Target]++ }`
raise_degrees : List Edge → List (String × ℕ) → List (String × ℕ)
raise_degrees [] d = d
raise_degrees (e ∷ es) d =
    raise_degrees es (put str_dec e.target (get_or str_dec d e.target 0 + 1) d)

-- `for _, edges := range g.edges`
raise_all : List (String × List Edge) → List (String × ℕ) → List (String × ℕ)
unfolding raise_degrees
raise_all [] d = d
raise_all ((_, es) ∷ m) d = raise_all m (raise_degrees es d)

unfoldable pub in_degrees : Graph → List (String × ℕ)
unfolding zero_degrees raise_all
in_degrees g = raise_all g.edges (zero_degrees g.nodes)

-- `if degree == 0 { queue = append(queue, id) }`
unfoldable pub at_zero : List (String × ℕ) → List String
at_zero [] = []
at_zero ((id, n) ∷ d) = if n == 0 then id ∷ at_zero d else at_zero d

pub data TopoResult : Type 0 where
  sorted : List String → TopoResult
  cycle_detected : TopoResult
  out_of_fuel : TopoResult

-- Each key of the in-degree map is queued once at most.
unfoldable pub topological_sort : Graph → TopoResult
topological_sort g =
    let degree = in_degrees g in
    let start : State String = record { degree = degree; queue = sort str_le (at_zero degree) } in
    elim (run sorted_fifo (λ _. true) (targets g) (length degree) start) [
      | none ↦ out_of_fuel
      | some result ↦ if length result == length g.nodes then sorted result else cycle_detected
    ]

-- Each key is entered once at most: it is a node, or the target of an edge.
unfoldable pub detect_cycles : Graph → Option (List (List String))
detect_cycles g =
    Option.map (λ s. s.cycles)
      (dfs_all str_dec (targets g) (length g.nodes + length (flatten (values g.edges)))
        (keys g.nodes) start)

unfoldable pub clear : Graph → Graph
clear g = record { nodes = []; edges = []; reverse = []; order = [] }
