-- ===== src/Database.antt =====
-- pkg/db/db.go: the tables of the SQLite file as lists of rows, in the order in which SQLite gives
-- them: a replaced row is deleted and inserted at the end. The statements are those that the driver
-- carries out; one that it refuses changes nothing. A floating-point number is an opaque value. A
-- time is a number of nanoseconds, and the RFC 3339 text of a time, which holds no more than the
-- seconds, is the number of these.

pub mod Operations
pub mod History
pub mod Tables
mod Tests
use effective_next.Prelude.{
  ℕ, ◌+◌, ◌*◌, ◌/◌, ◌^◌, Bool, true, false, not, Option, none, some, List, [], ◌∷◌, ◌++◌, map,
  String, length, if◌then◌else◌, ◌==◌, str_dec, ite,
}
use effective_next.Prelude.Int.{ℤ}
use effective_next.Prelude.Maps.{get_or, put}
use effective_next.Cache.{CacheEntry}

-- `t.Format(time.RFC3339)` and `time.Parse(time.RFC3339, text)`.
unfoldable pub format_time : ℕ → ℕ
format_time t = t / 10 ^ 9

unfoldable pub parse_time : ℕ → ℕ
parse_time text = text * 10 ^ 9

unfoldable pub bool_to_int : Bool → ℕ
bool_to_int b = if b then 1 else 0

unfoldable pub is_set : ℕ → Bool
is_set n = not (n == 0)

pub record FileRecord : Type 0 where
  pub path : String
  pub hash : String
  pub size : ℕ
  pub mod_time : ℕ
  pub scan_time : ℕ
  pub is_dir : Bool

-- A row of `files`, with the texts of the times and the number of the flag.
pub record FileRow : Type 0 where
  pub path : String
  pub hash : String
  pub size : ℕ
  pub mod_text : ℕ
  pub scan_text : ℕ
  pub is_dir : ℕ

pub record DepRecord : Type 0 where
  pub source : String
  pub target : String
  pub edge_type : String
  pub dynamic : Bool

pub record DepRow : Type 0 where
  pub source : String
  pub target : String
  pub edge_type : String
  pub dynamic : ℕ

pub record RouteRecord : Type 0 where
  pub path : String
  pub route_type : String
  pub layout : String
  pub metadata : String

-- A row of `stats`, with the build and the key, or of `benchmarks`, with the name and the metric.
pub record ValueRow (V : Type 0) : Type 0 where
  pub name : String
  pub key : String
  pub value : V
  pub unit : String
  pub recorded : ℕ

-- A row of `history`; `none` is NULL.
pub record HistoryRow (V : Type 0) : Type 0 where
  pub build_id : String
  pub started : ℕ
  pub finished : Option ℕ
  pub status : String
  pub cold_time_ms : Option V
  pub incremental_time_ms : Option V
  pub files_scanned : Option ℤ
  pub files_rebuilt : Option ℤ
  pub cache_hit_ratio : Option V

pub record BuildHistory (V : Type 0) : Type 0 where
  pub build_id : String
  pub started_at : ℕ
  pub finished_at : ℕ
  pub status : String
  pub cold_time_ms : V
  pub incremental_time_ms : V
  pub files_scanned : ℤ
  pub files_rebuilt : ℤ
  pub cache_hit_ratio : V

-- The tables that have operations; the cache entries are those of Cache.
pub record Db (V : Type 0) : Type 0 where
  pub files : List FileRow
  pub dependencies : List DepRow
  pub routes : List RouteRecord
  pub cache_entries : List (String × CacheEntry)
  pub stats : List (ValueRow V)
  pub benchmarks : List (ValueRow V)
  pub history : List (HistoryRow V)

-- `SELECT … WHERE …` and `DELETE … WHERE …`
module _ {ℓ} {R : Type ℓ} where
  unfoldable pub select : (R → Bool) → List R → List R
  select p [] = []
  select p (r ∷ rows) = let rest = select p rows in if p r then r ∷ rest else rest

  unfoldable pub delete_where : (R → Bool) → List R → List R
  delete_where p [] = []
  delete_where p (r ∷ rows) = let rest = delete_where p rows in if p r then rest else r ∷ rest

  -- `INSERT OR REPLACE`, where `p` are the rows with the key of the new one.
  unfoldable pub replace : (R → Bool) → R → List R → List R
  unfolding delete_where
  replace p r rows = delete_where p rows ++ r ∷ []

  -- `QueryRow`
  unfoldable pub first : List R → Option R
  first [] = none
  first (r ∷ rows) = some r

abbrev pub same : String → String → Bool
same s t = ite (str_dec s t) true false

unfoldable pub to_row : FileRecord → FileRow
to_row rec = record {
  path = rec.path;
  hash = rec.hash;
  size = rec.size;
  mod_text = format_time rec.mod_time;
  scan_text = format_time rec.scan_time;
  is_dir = bool_to_int rec.is_dir;
}

unfoldable pub of_row : FileRow → FileRecord
of_row row = record {
  path = row.path;
  hash = row.hash;
  size = row.size;
  mod_time = parse_time row.mod_text;
  scan_time = parse_time row.scan_text;
  is_dir = is_set row.is_dir;
}

abbrev pub same_dep : DepRow → DepRecord → Bool
same_dep row rec =
    if same row.source rec.source
    then (if same row.target rec.target then same row.edge_type rec.edge_type else false)
    else false

unfoldable pub dep_of_row : DepRow → DepRecord
dep_of_row row = record {
  source = row.source;
  target = row.target;
  edge_type = row.edge_type;
  dynamic = is_set row.dynamic;
}
