-- ===== src/Assets.antt =====
-- pkg/assets/assets.go and the decimal text of pkg/assets/optimize.go: the asset files that a scan has
-- found, their totals, the groups of one size, and the digits of a number.
pub mod Totals
pub mod Groups
pub mod Digits
pub mod Optimize
mod Tests
use effective_next.Prelude.{
  ℕ, zero, suc, ◌+◌, ◌-◌, ◌/◌, ◌%◌, Bool, true, false, Option, none, some, List, [], ◌∷◌, ◌++◌, map,
  String, length, if◌then◌else◌, ◌==◌, ltb, str_dec, str_le, ite,
}
use effective_next.Prelude.Int.{ℤ, pos, negsuc, ltb_ℤ, pos_part}
use effective_next.Prelude.Maps.{values, get, get_or, put}
use effective_next.Prelude.Sort.{sort}
use native.Mathlib.Decide.{ℕ_discrete}

-- `type FileType string`
abbrev pub FileType : Type 0
FileType = String

pub record File : Type 0 where
  pub path : String
  pub rel_path : String
  pub type : FileType
  pub size : ℕ
  pub hash : ℕ

pub record Optimizer : Type 0 where
  pub root : String
  pub files : List File
  pub workers : ℕ

-- `if workers <= 0 { workers = 4 }`
unfoldable pub new_optimizer : String → ℤ → Optimizer
new_optimizer root workers = record {
  root = root;
  files = [];
  workers = if ltb_ℤ (pos 0) workers then pos_part workers else 4;
}

unfoldable pub one_of : List String → String → Bool
one_of [] ext = false
one_of (e ∷ es) ext = ite (str_dec ext e) true (one_of es ext)

-- `classifyFile` on the extension of the path.
unfoldable pub classify : String → FileType
unfolding one_of
classify ext =
    if one_of (".png" ∷ []) ext
    then "png"
    else if one_of (".jpeg" ∷ ".jpg" ∷ []) ext
    then "jpeg"
    else if one_of (".svg" ∷ []) ext
    then "svg"
    else if one_of (".webp" ∷ []) ext
    then "webp"
    else if one_of (".avif" ∷ []) ext
    then "avif"
    else if one_of (".gif" ∷ []) ext
    then "gif"
    else if one_of (".ico" ∷ []) ext
    then "ico"
    else if one_of (".woff" ∷ ".woff2" ∷ ".ttf" ∷ ".otf" ∷ ".eot" ∷ []) ext
    then "font"
    else if one_of (".mp4" ∷ ".webm" ∷ ".avi" ∷ ".mov" ∷ []) ext
    then "video"
    else "other"

-- `sizeMap[f.Size] = append(sizeMap[f.Size], f)`
unfoldable pub group_by : (File → ℕ) → List File → List (ℕ × List File) → List (ℕ × List File)
group_by key [] m = m
group_by key (f ∷ fs) m =
    group_by key fs (put ℕ_discrete (key f) (get_or ℕ_discrete m (key f) [] ++ f ∷ []) m)

-- `if len(group) > 1 { duplicates = append(duplicates, group) }`
unfoldable pub repeated : List (ℕ × List File) → List (List File)
repeated [] = []
repeated ((_, group) ∷ m) =
    let rest = repeated m in if ltb 1 (length group) then group ∷ rest else rest

unfoldable pub duplicates_by : (File → ℕ) → List File → List (List File)
unfolding group_by repeated
duplicates_by key fs = repeated (group_by key fs [])

unfoldable pub deduplicate : Optimizer → List (List File)
deduplicate o = duplicates_by (λ f. f.size) o.files

unfoldable pub sort_by_path : List File → List File
sort_by_path fs = sort (λ a b. str_le a.path b.path) fs

-- `if f.Hash == 0 { … }`, where `content_hash` is the hash of the text of the digest of a file.
unfoldable pub fill_hash : (String → ℕ) → List File → List File
fill_hash content_hash [] = []
fill_hash content_hash (f ∷ fs) =
    (if f.hash == 0 then record f { hash = content_hash f.path } else f) ∷ fill_hash content_hash fs

unfoldable pub deduplicate_by_hash : (String → ℕ) → Optimizer → List (List File) × Optimizer
deduplicate_by_hash content_hash o =
    let files = fill_hash content_hash o.files in
    (map sort_by_path (duplicates_by (λ f. f.hash) files), record o { files = files })

unfoldable pub list_files : Optimizer → List File
unfolding sort_by_path
list_files o = sort_by_path o.files

unfoldable pub of_type : FileType → List File → List File
of_type t [] = []
of_type t (f ∷ fs) = ite (str_dec f.type t) (f ∷ of_type t fs) (of_type t fs)

unfoldable pub filter_by_type : FileType → Optimizer → List File
unfolding of_type
filter_by_type t o = of_type t o.files

pub record Stats : Type 0 where
  pub total_files : ℕ
  pub total_size : ℕ
  pub type_count : List (FileType × ℕ)
  pub type_size : List (FileType × ℕ)

unfoldable pub add_file : File → Stats → Stats
add_file f s = record {
  total_files = s.total_files + 1;
  total_size = s.total_size + f.size;
  type_count = put str_dec f.type (get_or str_dec s.type_count f.type 0 + 1) s.type_count;
  type_size = put str_dec f.type (get_or str_dec s.type_size f.type 0 + f.size) s.type_size;
}

unfoldable pub add_files : List File → Stats → Stats
unfolding add_file
add_files [] s = s
add_files (f ∷ fs) s = add_files fs (add_file f s)

unfoldable pub get_stats : Optimizer → Stats
get_stats o =
    add_files o.files (record { total_files = 0; total_size = 0; type_count = []; type_size = [] })

-- `for _, f := range o.files { total += f.Size }`
unfoldable pub add_sizes : List File → ℕ → ℕ
add_sizes [] total = total
add_sizes (f ∷ fs) total = add_sizes fs (total + f.size)

unfoldable pub total_size : Optimizer → ℕ
total_size o = add_sizes o.files 0

-- `for n > 0 { digits = append([]byte{byte('0' + n%10)}, digits...); n /= 10 }`; the number falls in
-- each round, so `n` rounds are enough.
unfoldable pub digits : ℕ → ℕ → List ℕ → List ℕ
digits zero n acc = acc
digits (suc fuel) n acc =
    let rest = digits fuel (n / 10) ((48 + n % 10) ∷ acc) in if n == 0 then acc else rest

-- The bytes of the text. The smallest integer, whose negation is itself, is left out.
unfoldable pub int_to_str : ℤ → List ℕ
unfolding digits
int_to_str (pos zero) = 48 ∷ []
int_to_str (pos (suc n)) = digits (suc n) (suc n) []
int_to_str (negsuc n) = 45 ∷ digits (suc n) (suc n) []
