-- ===== src/Engine.antt =====
-- pkg/engine/engine.go: the hashes of the last snapshot, the changes against it, and the files that
-- changes affect. The database that the engine keeps is read by none of its methods.
pub mod Changes
pub mod Affected
mod Tests
use effective_next.Prelude.{
  ℕ, Bool, Option, none, some, List, [], ◌∷◌, ◌++◌, String, if◌then◌else◌, ◌==◌, str_dec,
}
use effective_next.Prelude.Maps.{keys, get, put, has}
use effective_next.Graph as Graphs
use effective_next.Graph.{Graph, affected_nodes}

-- `scanner.File`; the modification time in nanoseconds.
pub record File : Type 0 where
  pub path : String
  pub rel_path : String
  pub size : ℕ
  pub hash : ℕ
  pub mod_time : ℕ
  pub is_dir : Bool
  pub is_symlink : Bool
  pub extension : String

pub data ChangeType : Type 0 where
  modified : ChangeType
  created : ChangeType
  deleted : ChangeType
  renamed : ChangeType

pub record Change : Type 0 where
  pub path : String
  pub type : ChangeType
  pub old_hash : ℕ
  pub new_hash : ℕ

pub record Engine : Type 0 where
  pub graph : Graph
  pub base_hashes : List (String × ℕ)

unfoldable pub new : Engine
new = record { graph = Graphs.new; base_hashes = [] }

-- `for _, f := range files { e.baseHashes[f.Path] = f.Hash }`
unfoldable pub record_hashes : List File → List (String × ℕ) → List (String × ℕ)
record_hashes [] m = m
record_hashes (f ∷ fs) m = record_hashes fs (put str_dec f.path f.hash m)

unfoldable pub snapshot : List File → Engine → Engine
snapshot files e = record e { base_hashes = record_hashes files e.base_hashes }

-- `currentMap[f.Path] = f`
unfoldable pub current_map : List File → List (String × File) → List (String × File)
current_map [] m = m
current_map (f ∷ fs) m = current_map fs (put str_dec f.path f m)

abbrev pub created_at : File → Change
created_at f = record { path = f.path; type = created; old_hash = 0; new_hash = f.hash }

abbrev pub modified_at : ℕ → File → Change
modified_at old f = record { path = f.path; type = modified; old_hash = old; new_hash = f.hash }

-- The loop over the current files.
unfoldable pub changed : List (String × ℕ) → List File → List Change
changed base [] = []
changed base (f ∷ fs) =
    let rest = changed base fs in
    elim (get str_dec base f.path) [
      | none ↦ created_at f ∷ rest
      | some old ↦ if old == f.hash then rest else modified_at old f ∷ rest
    ]

abbrev pub deleted_at : String → ℕ → Change
deleted_at path old = record { path = path; type = deleted; old_hash = old; new_hash = 0 }

-- The loop over the snapshot.
unfoldable pub gone : List (String × File) → List (String × ℕ) → List Change
gone current [] = []
gone current ((path, old) ∷ base) =
    let rest = gone current base in
    if has str_dec current path then rest else deleted_at path old ∷ rest

unfoldable pub compute_changes : Engine → List File → List Change
compute_changes e current =
    changed e.base_hashes current ++ gone (current_map current []) e.base_hashes

-- `for _, d := range … { affected[d] = true }`
unfoldable pub mark : List String → List (String × Unit {0}) → List (String × Unit {0})
mark [] affected = affected
mark (d ∷ ds) affected = mark ds (put str_dec d tt affected)

-- `none` is a search of the graph that runs out of fuel.
unfoldable pub affect :
    Graph → List Change → List (String × Unit {0}) → Option (List (String × Unit {0}))
affect g [] affected = some affected
affect g (c ∷ cs) affected = elim (affected_nodes g c.path) [
  | none ↦ none
  | some dependents ↦ affect g cs (mark dependents (put str_dec c.path tt affected))
]

unfoldable pub affected_files : Engine → List Change → Option (List String)
affected_files e changes = elim (affect e.graph changes []) [
  | none ↦ none
  | some affected ↦ some (keys affected)
]

unfoldable pub clear : Engine → Engine
clear e = record { graph = Graphs.clear e.graph; base_hashes = [] }
