-- ===== src/Css.antt =====
-- pkg/css/css.go: the tracker of style files. What `TrackFile` reads out of a file by regular
-- expressions is the file record that `track` is given.
pub mod Affected
pub mod Totals
mod Tests
use effective_next.Prelude.{
  ℕ, zero, suc, ◌+◌, Bool, true, false, ◌||◌, Option, none, some, List, [], ◌∷◌, map, String,
  length, contains, if◌then◌else◌, str_dec, ite,
}
use effective_next.Prelude.Maps.{values, get, get_or, put}
use effective_next.Prelude.Worklist.{closure}

-- `type FileType string`
abbrev pub FileType : Type 0
FileType = String

pub record File : Type 0 where
  pub path : String
  pub type : FileType
  pub imports : List String
  pub tailwind : Bool
  pub is_module : Bool
  pub hash : ℕ
  pub size : ℕ

pub record Tracker : Type 0 where
  pub files : List (String × File)

unfoldable pub new : Tracker
new = record { files = [] }

unfoldable pub ext_to_file_type : String → FileType
ext_to_file_type ext =
    ite (str_dec ext ".scss") "scss"
      (ite (str_dec ext ".sass") "sass" (ite (str_dec ext ".less") "less" "css"))

-- `t.files[path] = ft`, where `ft.Path` is `path`.
unfoldable pub track : File → Tracker → Tracker
track f t = record { files = put str_dec f.path f t.files }

unfoldable pub get_dependencies : Tracker → String → List String
get_dependencies t path = elim (get str_dec t.files path) [ none ↦ [] | some f ↦ f.imports ]

-- `for _, ft := range t.files { … if imp == path { …; break } }`
unfoldable pub importers : List (String × File) → String → List String
importers [] path = []
importers ((_, f) ∷ files) path =
    let rest = importers files path in
    if contains str_dec f.imports path then f.path ∷ rest else rest

unfoldable pub get_dependents : Tracker → String → List String
get_dependents t path = importers t.files path

-- `none` is out of fuel. A file is queued once at most.
unfoldable pub affected_files : Tracker → String → Option (List String)
affected_files t path = closure str_dec (get_dependents t) (suc (length t.files)) path

unfoldable pub any_file : (File → Bool) → List (String × File) → Bool
any_file test [] = false
any_file test ((_, f) ∷ files) = let rest = any_file test files in if test f then true else rest

unfoldable pub has_tailwind : Tracker → Bool
has_tailwind t = any_file (λ f. f.tailwind) t.files

unfoldable pub has_modules : Tracker → Bool
has_modules t = any_file (λ f. f.is_module) t.files

unfoldable pub list_files : Tracker → List File
list_files t = values t.files

pub record Stats : Type 0 where
  pub total_files : ℕ
  pub total_imports : ℕ
  pub has_tailwind : Bool
  pub has_modules : Bool
  pub has_scss : Bool
  pub file_types : List (FileType × ℕ)

unfoldable pub is_scss : File → Bool
is_scss f = ite (str_dec f.type "scss") true (ite (str_dec f.type "sass") true false)

-- One round of the loop of `GetStats`.
unfoldable pub add_file : File → Stats → Stats
unfolding is_scss
add_file f stats = record {
  total_files = stats.total_files + 1;
  total_imports = stats.total_imports + length f.imports;
  has_tailwind = if f.tailwind then true else stats.has_tailwind;
  has_modules = if f.is_module then true else stats.has_modules;
  has_scss = if is_scss f then true else stats.has_scss;
  file_types = put str_dec f.type (get_or str_dec stats.file_types f.type 0 + 1) stats.file_types;
}

unfoldable pub add_files : List (String × File) → Stats → Stats
unfolding add_file
add_files [] stats = stats
add_files ((_, f) ∷ files) stats = add_files files (add_file f stats)

unfoldable pub get_stats : Tracker → Stats
get_stats t = add_files t.files (record {
  total_files = 0;
  total_imports = 0;
  has_tailwind = false;
  has_modules = false;
  has_scss = false;
  file_types = [];
})
