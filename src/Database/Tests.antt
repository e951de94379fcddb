-- ===== src/Database/Tests.antt =====
-- A database with a file and a build, whose values are numbers, and the theorems at it.
use effective_next.Prelude.{
  ℕ, ◌≡◌, ◌↔◌, refl, true, false, none, some, [], ◌∷◌, String, contains, str_dec,
}
use effective_next.Prelude.Int.{pos, negsuc}
use effective_next.Prelude.Maps.{get_or, put}
use effective_next.Database.{
  FileRecord, DepRecord, Db, format_time, parse_time, bool_to_int, is_set, select, delete_where,
  replace, first, to_row, of_row, dep_of_row,
}
use effective_next.Database.Operations.{
  upsert_file, get_file, list_files, file_count, delete_file, upsert_dependency, get_dependencies,
  get_dependents, clear_dependencies, record_stat, get_stats, purge_all,
}
use effective_next.Database.History.{
  start_build, newest_first, limited, finish_build, scan_rows, get_build_history, any_running,
  get_build_history-none_iff,
}
use effective_next.Database.Tables.{IsFileTable, file_table_lem}

program : Unit {0}
unfolding contains str_dec get_or put format_time parse_time bool_to_int is_set select delete_where
    replace first to_row of_row dep_of_row upsert_file get_file list_files file_count delete_file
    upsert_dependency get_dependencies get_dependents clear_dependencies record_stat get_stats
    purge_all start_build newest_first limited finish_build scan_rows get_build_history
program = tt

abbrev empty : Db ℕ
empty = record {
  files = [];
  dependencies = [];
  routes = [];
  cache_entries = [];
  stats = [];
  benchmarks = [];
  history = [];
}

abbrev file : String → ℕ → FileRecord
file path time = record {
  path = path;
  hash = "ab";
  size = 3;
  mod_time = time;
  scan_time = 0;
  is_dir = false;
}

abbrev one_file : Db ℕ
unfolding program
one_file = upsert_file (file "a.ts" 5000000001) (upsert_file (file "a.ts" 7) empty)

get_file-a : get_file "a.ts" one_file ≡ some (file "a.ts" 5000000000)
unfolding program
get_file-a = refl

abbrev dep : String → DepRecord
dep edge_type = record { source = "a.ts"; target = "b.ts"; edge_type = edge_type; dynamic = true }

-- The type of an edge is a part of the key.
get_dependents-b :
    get_dependents "b.ts" (upsert_dependency (dep "style") (upsert_dependency (dep "import") empty))
    ≡ dep "import" ∷ dep "style" ∷ []
unfolding program
get_dependents-b = refl

get_stats-last :
    get_stats "build-1"
      (record_stat "build-1" "files" 2 9 (record_stat "build-1" "files" 1 8 empty))
    ≡ ("files", 2) ∷ []
unfolding program
get_stats-last = refl

file_table_lem_example : IsFileTable one_file
unfolding program
file_table_lem_example = file_table_lem one_file (refl, tt)

abbrev running : Db ℕ
unfolding program
running = start_build "build-2" 20 (
    finish_build 0 pos "build-1" "success" (("files_scanned", 4) ∷ []) 10
      (start_build "build-1" 5 empty))

-- The newest build is still running: all reports that hold it fail.
history-running : get_build_history 0 pos (pos 1) running ≡ none
unfolding program
history-running = refl

get_build_history-none_iff_example :
    (get_build_history 0 pos (negsuc 0) running ≡ none)
    ↔ (any_running 0 pos (limited (negsuc 0) (newest_first running.history [])) ≡ true)
unfolding program
get_build_history-none_iff_example = get_build_history-none_iff 0 pos (negsuc 0) running
