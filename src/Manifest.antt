-- ===== src/Manifest.antt =====
-- pkg/manifest/manifest.go: the generator that gathers the entries, the totals of `Build`, and the
-- difference of two manifests. The time of generation is left out. An `int64` stands as its 64 bits,
-- read as a number below 2^64; addition wraps.
pub mod Build
pub mod Differ
mod Tests
use effective_next.Prelude.{
  ℕ, ◌+◌, ◌%◌, ◌^◌, Bool, true, false, Option, none, some, List, [], ◌∷◌, ◌++◌, String, length,
  if◌then◌else◌, str_dec, str_le, ite,
}
use effective_next.Prelude.Maps.{values, get, put, has}
use effective_next.Prelude.Sort.{sort}

pub record RouteEntry : Type 0 where
  pub path : String
  pub file : String
  pub type : String
  pub layout : String
  pub children : List String

pub record AssetEntry : Type 0 where
  pub path : String
  pub hash : String
  pub size : ℕ
  pub type : String

pub record DependencyEntry : Type 0 where
  pub path : String
  pub hash : String
  pub size : ℕ
  pub deps : List String
  pub type : String

pub record ChunkEntry : Type 0 where
  pub id : String
  pub files : List String
  pub size : ℕ
  pub parents : List String

pub record Stats : Type 0 where
  pub total_routes : ℕ
  pub total_assets : ℕ
  pub total_dependencies : ℕ
  pub total_chunks : ℕ
  pub total_size : ℕ

pub record Manifest : Type 0 where
  pub version : String
  pub routes : List RouteEntry
  pub assets : List AssetEntry
  pub dependencies : List DependencyEntry
  pub chunks : List ChunkEntry
  pub stats : Stats

unfoldable pub new_generator : Manifest
new_generator = record {
  version = "1.0";
  routes = [];
  assets = [];
  dependencies = [];
  chunks = [];
  stats = record {
    total_routes = 0;
    total_assets = 0;
    total_dependencies = 0;
    total_chunks = 0;
    total_size = 0;
  };
}

unfoldable pub add_route : RouteEntry → Manifest → Manifest
add_route entry m = record m { routes = m.routes ++ entry ∷ [] }

unfoldable pub add_asset : AssetEntry → Manifest → Manifest
add_asset entry m = record m { assets = m.assets ++ entry ∷ [] }

unfoldable pub add_dependency : DependencyEntry → Manifest → Manifest
add_dependency entry m = record m { dependencies = m.dependencies ++ entry ∷ [] }

unfoldable pub add_chunk : ChunkEntry → Manifest → Manifest
add_chunk entry m = record m { chunks = m.chunks ++ entry ∷ [] }

-- `for _, a := range g.manifest.Assets { …TotalSize += a.Size }`
unfoldable pub add_sizes : List AssetEntry → ℕ → ℕ
add_sizes [] total = total
add_sizes (a ∷ assets) total = add_sizes assets ((total + a.size) % 2 ^ 64)

unfoldable pub count_entries : Manifest → Stats
count_entries m = record {
  total_routes = length m.routes;
  total_assets = length m.assets;
  total_dependencies = length m.dependencies;
  total_chunks = length m.chunks;
  total_size = add_sizes m.assets 0;
}

-- `g.manifest.Routes[i].Path < g.manifest.Routes[j].Path` sorts by this order.
unfoldable pub path_le : RouteEntry → RouteEntry → Bool
path_le a b = str_le a.path b.path

unfoldable pub build : Manifest → Manifest
unfolding path_le
build m = record m { stats = count_entries m; routes = sort path_le m.routes }

-- `for _, r := range a.Routes { aRoutes[r.Path] = r }`
unfoldable pub by_path :
    {E : Type 0} → (E → String) → List E → List (String × E) → List (String × E)
by_path path [] m = m
by_path path (e ∷ es) m = by_path path es (put str_dec (path e) e m)

-- `for path, r := range bRoutes { if _, ok := aRoutes[path]; !ok { append } }`
unfoldable pub only_in : {E : Type 0} → List (String × E) → List (String × E) → List E
only_in [] other = []
only_in ((path, e) ∷ m) other =
    let rest = only_in m other in if has str_dec other path then rest else e ∷ rest

-- `else if existing.Hash != a.Hash { append }`
unfoldable pub changed : List (String × AssetEntry) → List (String × AssetEntry) → List AssetEntry
changed [] other = []
changed ((path, a) ∷ m) other =
    let rest = changed m other in
    elim (get str_dec other path) [
      | none ↦ rest
      | some existing ↦ ite (str_dec existing.hash a.hash) rest (a ∷ rest)
    ]

pub record DiffResult : Type 0 where
  pub added_routes : List RouteEntry
  pub removed_routes : List RouteEntry
  pub added_assets : List AssetEntry
  pub removed_assets : List AssetEntry
  pub changed_assets : List AssetEntry

unfoldable pub diff : Manifest → Manifest → DiffResult
unfolding by_path only_in changed
diff a b =
    let a_routes = by_path (λ (r : RouteEntry). r.path) a.routes [] in
    let b_routes = by_path (λ (r : RouteEntry). r.path) b.routes [] in
    let a_assets = by_path (λ (x : AssetEntry). x.path) a.assets [] in
    let b_assets = by_path (λ (x : AssetEntry). x.path) b.assets [] in
    record {
      added_routes = only_in b_routes a_routes;
      removed_routes = only_in a_routes b_routes;
      added_assets = only_in b_assets a_assets;
      removed_assets = only_in a_assets b_assets;
      changed_assets = changed b_assets a_assets;
    }
