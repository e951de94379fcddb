-- ===== src/Scanner.antt =====
-- pkg/scanner/scanner.go: the files of a project, found by workers that share a bounded queue of
-- directories. What the operating system tells is an argument: `read_dir` for `os.ReadDir`, with
-- what `Info` tells of an entry, and `hash_file` for `hash.Hash64File`. A modification time is a
-- number of nanoseconds.
pub mod Workers
mod Tests
use Prim.Native.String
use effective_next.Prelude.{
  ℕ, zero, suc, ◌+◌, ◌≤◌, Bool, true, false, ◌&&◌, ◌||◌, not, Option, none, some, List, [], ◌∷◌,
  ◌++◌, String, length, contains, if◌then◌else◌, ltb, leb, str_dec, str_le, ite,
}
use effective_next.Prelude.Int.{ℤ, pos, negsuc}
use effective_next.Prelude.Maps.{get_or, put}
use effective_next.Prelude.Sort.{sort}
use effective_next.Prelude.Paths.{split_slash, trim_suffix, join, rel, ext}
use effective_next.Engine.{File}

-- `os.DirEntry`
pub record Entry : Type 0 where
  pub name : String
  pub is_dir : Bool
  pub size : ℕ
  pub mod_time : ℕ
  pub is_symlink : Bool

pub record IgnoreMatcher : Type 0 where
  pub patterns : List String
  pub root : String

-- `filesScanned` is a field of what the workers share (Scanner/Workers).
pub record Scanner : Type 0 where
  pub root : String
  pub workers : ℕ
  pub ignore : IgnoreMatcher

abbrev pub default_ignores : List String
default_ignores =
    "node_modules" ∷ ".next" ∷ ".git" ∷ "dist" ∷ "coverage" ∷ "out" ∷ ".effective-next"
    ∷ ".effective-next-cache" ∷ []

-- `if !contains(all, p) { all = append(all, p) }`
unfoldable pub add_patterns : List String → List String → List String
unfolding contains
add_patterns all [] = all
add_patterns all (p ∷ patterns) =
    add_patterns (if contains str_dec all p then all else all ++ p ∷ []) patterns

unfoldable pub new_ignore_matcher : List String → String → IgnoreMatcher
unfolding add_patterns
new_ignore_matcher patterns root = record {
  patterns = add_patterns default_ignores patterns;
  root = root;
}

unfoldable pub new : (root : String) (ignore : List String) (workers : ℤ) (num_cpu : ℕ) → Scanner
unfolding new_ignore_matcher
new root ignore workers num_cpu = record {
  root = root;
  workers = elim workers [ pos n ↦ elim n [ zero ↦ num_cpu | suc m ↦ suc m ] | negsuc _ ↦ num_cpu ];
  ignore = new_ignore_matcher ignore root;
}

unfoldable pub matches_any : List String → String → Bool → Bool
unfolding str_dec
matches_any [] name is_dir = false
matches_any (p ∷ patterns) name is_dir =
    let rest = matches_any patterns name is_dir in
    ite (str_dec p name) true
      (if is_dir then ite (str_dec (trim_suffix p "/") name) true rest else rest)

unfoldable pub matches : IgnoreMatcher → String → Bool → Bool
unfolding matches_any
matches m name is_dir = matches_any m.patterns name is_dir

unfoldable pub matches_part : IgnoreMatcher → List String → Bool
unfolding matches
matches_part m [] = false
matches_part m (part ∷ parts) = matches m part true || matches_part m parts

unfoldable pub matches_path : IgnoreMatcher → String → Bool
unfolding matches_part
matches_path m path = elim (rel m.root path) [
  | none ↦ false
  | some relative ↦ matches_part m (split_slash relative)
]

abbrev or_zero : Option ℕ → ℕ
or_zero none = 0
or_zero (some h) = h

abbrev or_empty : Option String → String
or_empty none = ""
or_empty (some text) = text

module _ (hash_file : String → Option ℕ) where
  -- `info.Size()` panics where `Info` fails, which is left out: `info` is given with each entry.
  unfoldable pub make_file : (path rel_path : String) → Entry → File
  make_file path rel_path e = record {
    path = path;
    rel_path = rel_path;
    size = e.size;
    hash = or_zero (hash_file path);
    mod_time = e.mod_time;
    is_dir = false;
    is_symlink = e.is_symlink;
    extension = ext e.name;
  }

  -- The first loop of `Scan`.
  unfoldable pub root_files : Scanner → List Entry → List File
  unfolding make_file
  root_files s [] = []
  root_files s (e ∷ entries) =
      let rest = root_files s entries in
      if matches s.ignore e.name false
      then rest
      else (if e.is_dir then rest else make_file (join (s.root ∷ e.name ∷ [])) e.name e ∷ rest)

  -- The file that `walkDir` makes of an entry.
  unfoldable pub walked_file : Scanner → String → Entry → File
  unfolding make_file
  walked_file s path e = make_file path (or_empty (rel s.root path)) e

-- The second loop of `Scan`.
unfoldable pub root_dirs : Scanner → List Entry → List String
root_dirs s [] = []
root_dirs s (e ∷ entries) =
    let rest = root_dirs s entries in
    if not e.is_dir || matches s.ignore e.name true
    then rest
    else join (s.root ∷ e.name ∷ []) ∷ rest

-- `s.ignore.Matches(name, e.IsDir()) || s.ignore.MatchesPath(fullPath)`
unfoldable pub skips : Scanner → String → Entry → Bool
skips s path e = matches s.ignore e.name e.is_dir || matches_path s.ignore path

-- `dirQueue := make(chan string, 64)`
abbrev pub queue_cap : ℕ
queue_cap = 64

-- `for _, d := range rootDirs { dirQueue <- d }`: no worker runs yet, so that a send on a full
-- channel blocks for good, which is `none`.
unfoldable pub fill : List String → List String → Option (List String)
fill queue [] = some queue
fill queue (d ∷ dirs) =
    let rest = fill (queue ++ d ∷ []) dirs in if ltb (length queue) queue_cap then rest else none

unfoldable pub filter_files : (File → Bool) → List File → List File
filter_files filter [] = []
filter_files filter (f ∷ files) =
    let rest = filter_files filter files in if filter f then f ∷ rest else rest

-- `ScanWithFilter`, `ScanByExtension` and `ScanModifiedAfter` are given what `Scan` returns.
unfoldable pub scan_with_filter : (File → Bool) → Option (List File) → Option (List File)
unfolding filter_files
scan_with_filter filter none = none
scan_with_filter filter (some all) = some (filter_files filter all)

unfoldable pub scan_modified_after : ℕ → Option (List File) → Option (List File)
unfolding scan_with_filter
scan_modified_after after all = scan_with_filter (λ f. ltb after f.mod_time) all

unfoldable pub extension_key : File → String
unfolding str_dec
extension_key f = ite (str_dec f.extension "") "(none)" f.extension

unfoldable pub by_extension : List File → List (String × List File) → List (String × List File)
unfolding extension_key
by_extension [] m = m
by_extension (f ∷ files) m =
    let key = extension_key f in
    by_extension files (put str_dec key (get_or str_dec m key [] ++ f ∷ []) m)

unfoldable pub scan_by_extension : Option (List File) → Option (List (String × List File))
unfolding by_extension
scan_by_extension none = none
scan_by_extension (some all) = some (by_extension all [])

unfoldable pub sort_by_path : List File → List File
sort_by_path files = sort (λ a b. str_le a.path b.path) files

unfoldable pub sort_by_size : List File → List File
sort_by_size files = sort (λ a b. leb b.size a.size) files

unfoldable pub total_size : List File → ℕ
total_size [] = 0
total_size (f ∷ files) = f.size + total_size files

unfoldable pub filter_by_extension : List File → String → List File
unfolding filter_files str_dec
filter_by_extension files extension =
    filter_files (λ f. ite (str_dec f.extension extension) true false) files
