-- ===== src/Database/Operations.antt =====
-- The operations on the tables of files, dependencies, routes, statistics and benchmarks.
use effective_next.Prelude.{
  ℕ, Option, none, some, List, [], ◌∷◌, ◌++◌, map, String, length, str_dec,
}
use effective_next.Prelude.Maps.{put}
use effective_next.Database.{
  format_time, bool_to_int, FileRecord, DepRecord, RouteRecord, ValueRow, Db, select, delete_where,
  replace, first, same, to_row, of_row, same_dep, dep_of_row,
}

module _ {V : Type 0} where
  unfoldable pub upsert_file : FileRecord → Db V → Db V
  upsert_file rec db = record db {
    files = replace (λ row. same row.path rec.path) (to_row rec) db.files;
  }

  -- `none` is `sql.ErrNoRows`.
  unfoldable pub get_file : String → Db V → Option FileRecord
  get_file path db = elim (first (select (λ row. same row.path path) db.files)) [
    | none ↦ none
    | some row ↦ some (of_row row)
  ]

  unfoldable pub list_files : Db V → List FileRecord
  list_files db = map of_row db.files

  unfoldable pub file_count : Db V → ℕ
  file_count db = length db.files

  unfoldable pub delete_file : String → Db V → Db V
  delete_file path db = record db { files = delete_where (λ row. same row.path path) db.files }

  unfoldable pub upsert_dependency : DepRecord → Db V → Db V
  upsert_dependency rec db = record db {
    dependencies =
        replace (λ row. same_dep row rec)
          (record {
            source = rec.source;
            target = rec.target;
            edge_type = rec.edge_type;
            dynamic = bool_to_int rec.dynamic;
          })
          db.dependencies;
  }

  unfoldable pub get_dependencies : String → Db V → List DepRecord
  get_dependencies source db =
      map dep_of_row (select (λ row. same row.source source) db.dependencies)

  unfoldable pub get_dependents : String → Db V → List DepRecord
  get_dependents target db = map dep_of_row (select (λ row. same row.target target) db.dependencies)

  unfoldable pub clear_dependencies : String → Db V → Db V
  clear_dependencies source db = record db {
    dependencies = delete_where (λ row. same row.source source) db.dependencies;
  }

  unfoldable pub upsert_route : RouteRecord → Db V → Db V
  upsert_route rec db = record db { routes = replace (λ row. same row.path rec.path) rec db.routes }

  unfoldable pub list_routes : Db V → List RouteRecord
  list_routes db = db.routes

  unfoldable pub clear_routes : Db V → Db V
  clear_routes db = record db { routes = [] }

  -- `INSERT INTO stats …` at the time `now`.
  unfoldable pub record_stat : (build_id key : String) → V → ℕ → Db V → Db V
  record_stat build_id key value now db = record db {
    stats =
        db.stats
        ++ record {
          name = build_id;
          key = key;
          value = value;
          unit = "";
          recorded = format_time now;
        }
          ∷ [];
  }

  -- `result[key] = value` for each row.
  unfoldable pub collect : List (ValueRow V) → List (String × V) → List (String × V)
  collect [] m = m
  collect (row ∷ rows) m = collect rows (put str_dec row.key row.value m)

  unfoldable pub get_stats : String → Db V → List (String × V)
  unfolding collect
  get_stats build_id db = collect (select (λ row. same row.name build_id) db.stats) []

  unfoldable pub record_benchmark : (name metric : String) → V → String → ℕ → Db V → Db V
  record_benchmark name metric value unit now db = record db {
    benchmarks =
        db.benchmarks
        ++ record {
          name = name;
          key = metric;
          value = value;
          unit = unit;
          recorded = format_time now;
        }
          ∷ [];
  }

  unfoldable pub get_benchmarks : String → Db V → List (String × V)
  unfolding collect
  get_benchmarks name db = collect (select (λ row. same row.name name) db.benchmarks) []

  unfoldable pub purge_all : Db V → Db V
  purge_all db = record {
    files = [];
    dependencies = [];
    routes = [];
    cache_entries = [];
    stats = [];
    benchmarks = [];
    history = [];
  }
