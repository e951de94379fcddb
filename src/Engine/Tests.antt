-- ===== src/Engine/Tests.antt =====
-- A snapshot of three files and the changes against it, and the theorems of the engine at them.
use effective_next.Prelude.{
  ℕ, ◌≡◌, ◌↔◌, refl, true, false, none, some, List, [], ◌∷◌, String, contains, Distinct, str_dec,
}
use effective_next.Prelude.Maps.{keys, get, put}
use effective_next.Graph.{Node, add_node, add_edge}
use effective_next.Graph.Index.{IsValid, new-IsValid, add_node-IsValid, add_edge-IsValid}
use effective_next.Engine.{
  File, Engine, new, record_hashes, snapshot, current_map, changed, gone, compute_changes,
  created_at, modified_at, deleted_at, affected_files,
}
use effective_next.Engine.Changes.{
  at_path, paths, file_at, expected, compute_changes_exact, snapshot-compute_changes,
}
use effective_next.Engine.Affected.{IsTouched, affected_files_lem}
use effective_next.Graph as Graphs

abbrev file : String → ℕ → File
file path hash = record {
  path = path;
  rel_path = path;
  size = 10;
  hash = hash;
  mod_time = 0;
  is_dir = false;
  is_symlink = false;
  extension = ".ts";
}

abbrev base : Engine
base = snapshot (file "a.ts" 1 ∷ file "b.ts" 2 ∷ file "c.ts" 3 ∷ []) new

abbrev now : List File
now = file "a.ts" 1 ∷ file "b.ts" 5 ∷ file "d.ts" 4 ∷ []

program : Unit {0}
unfolding str_dec get put contains new record_hashes snapshot current_map changed gone
    compute_changes
program = tt

changes-now :
    compute_changes base now
    ≡ modified_at 2 (file "b.ts" 5) ∷ created_at (file "d.ts" 4) ∷ deleted_at "c.ts" 3 ∷ []
unfolding program
changes-now = refl

-- A second snapshot does not forget c.ts.
changes-again : compute_changes (snapshot now base) now ≡ deleted_at "c.ts" 3 ∷ []
unfolding program
changes-again = refl

base-Distinct : Distinct str_dec (keys base.base_hashes)
unfolding program
base-Distinct = (refl, (refl, (refl, tt)))

now-Distinct : Distinct str_dec (paths now)
unfolding program
now-Distinct = (refl, (refl, (refl, tt)))

compute_changes_exact_example :
    at_path "b.ts" (compute_changes base now)
    ≡ expected "b.ts" (get str_dec base.base_hashes "b.ts") (file_at now "b.ts")
compute_changes_exact_example = compute_changes_exact base now "b.ts" base-Distinct now-Distinct

snapshot-compute_changes_example :
    at_path "c.ts" (compute_changes (snapshot now base) now) ≡ elim (file_at now "c.ts") [
      | some _ ↦ []
      | none ↦ expected "c.ts" (get str_dec base.base_hashes "c.ts") none
    ]
snapshot-compute_changes_example =
    snapshot-compute_changes base now "c.ts" base-Distinct now-Distinct

abbrev node : String → Node
node id = record { id = id; path = id; type = "typescript"; hash = 0; size = 0; metadata = [] }

-- a.ts imports b.ts.
abbrev linked : Engine
linked = record base {
  graph =
      add_edge "a.ts" "b.ts" "static-import" false
        (add_node (node "b.ts") (add_node (node "a.ts") Graphs.new));
}

linked-IsValid : IsValid linked.graph
linked-IsValid =
    add_edge-IsValid "a.ts" "b.ts" "static-import" false _
      (add_node-IsValid (node "b.ts") _ (add_node-IsValid (node "a.ts") Graphs.new new-IsValid))

affected_files_lem_example :
    (r : List String) × (affected_files linked (compute_changes linked now) ≡ some r)
    × Distinct str_dec r
    × ((x : String)
        → (contains str_dec r x ≡ true) ↔ IsTouched linked.graph x (compute_changes linked now))
affected_files_lem_example = affected_files_lem linked (compute_changes linked now) linked-IsValid
