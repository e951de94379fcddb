-- ===== src/Assets/Tests.antt =====
-- Three asset files, and the theorems at them.
use effective_next.Prelude.{ℕ, ◌≡◌, refl, [], ◌∷◌, String, str_dec, str_le}
use native.Mathlib.Decide.{ℕ_discrete}
use effective_next.Prelude.Int.{negsuc}
use effective_next.Prelude.Maps.{get_or, put}
use effective_next.Prelude.Sort.{insert, sort}
use effective_next.Assets.{
  FileType, File, Optimizer, one_of, classify, group_by, repeated, duplicates_by, deduplicate,
  of_type, filter_by_type, add_file, add_files, get_stats, add_sizes, total_size, digits,
  int_to_str, sort_by_path, list_files,
}

abbrev file : String → FileType → ℕ → File
file path type size = record { path = path; rel_path = path; type = type; size = size; hash = 0 }

abbrev public_dir : Optimizer
public_dir = record {
  root = ".";
  files = file "old.png" "png" 40 ∷ file "icon.svg" "svg" 7 ∷ file "logo.png" "png" 40 ∷ [];
  workers = 4;
}

program : Unit {0}
unfolding ℕ_discrete str_dec str_le get_or put insert sort one_of classify group_by repeated
    duplicates_by deduplicate of_type filter_by_type add_file add_files get_stats add_sizes
    total_size digits int_to_str sort_by_path list_files
program = tt

classify-font : classify ".woff2" ≡ "font"
unfolding program
classify-font = refl

stats-size : (get_stats public_dir).total_size ≡ 87
unfolding program
stats-size = refl

digits-1024 : int_to_str (negsuc 1023) ≡ 45 ∷ 49 ∷ 48 ∷ 50 ∷ 52 ∷ []
unfolding program
digits-1024 = refl
