-- ===== src/Css/Totals.antt =====
-- `GetStats`: what its one loop adds up.
use effective_next.Prelude.{
  ◌+◌, ◌≡◌, refl, ap, false, ◌||◌, List, [], ◌∷◌, map, flatten, String, length, length-append,
  count, str_dec, arith,
}
use effective_next.Prelude.Maps.{values, get_or, get_or-put}
use effective_next.Css.{
  FileType, File, Tracker, any_file, has_tailwind, has_modules, list_files, Stats, is_scss,
  add_file, add_files, get_stats,
}

-- The imports of all files, one after the other.
abbrev pub all_imports : List (String × File) → List String
all_imports m = flatten (map (λ f. f.imports) (values m))

abbrev pub types : List (String × File) → List FileType
types m = map (λ f. f.type) (values m)

length-values : (m : List (String × File)) → length (values m) ≡ length m
length-values [] = refl
length-values ((k, f) ∷ m) = omega (arith, length-values m)

add_files_lem :
    (m : List (String × File)) (s : Stats)
    → ((add_files m s).total_files ≡ s.total_files + length m)
      × ((add_files m s).total_imports ≡ s.total_imports + length (all_imports m))
      × ((add_files m s).has_tailwind ≡ (any_file (λ f. f.tailwind) m || s.has_tailwind))
      × ((add_files m s).has_modules ≡ (any_file (λ f. f.is_module) m || s.has_modules))
      × ((add_files m s).has_scss ≡ (any_file is_scss m || s.has_scss))
      × ((t : FileType)
          → get_or str_dec (add_files m s).file_types t 0
            ≡ get_or str_dec s.file_types t 0 + count str_dec t (types m))
unfolding add_files add_file any_file flatten
add_files_lem [] s = (omega arith, omega arith, refl, refl, refl, λ t. omega arith)
add_files_lem ((k, f) ∷ m) s =
    let (files, imports, tailwind, modules, scss, by_type) = add_files_lem m (add_file f s) in
    (
      omega (arith, files),
      omega (arith, imports, length-append f.imports (all_imports m)),
      ground (arith, tailwind),
      ground (arith, modules),
      ground (arith, scss),
      λ t. ground (
        arith,
        by_type t,
        get_or-put str_dec f.type t (get_or str_dec s.file_types f.type 0 + 1) 0 s.file_types,
        λ (e : f.type ≡ t). ap (λ x. get_or str_dec s.file_types x 0) e,
      ),
    )

-- `GetStats` counts the files and their imports, has the flags that `HasTailwind` and `HasModules`
-- compute, says if some file is SCSS or Sass, and counts the files of each type.
pub get_stats_lem :
    (t : Tracker)
    → ((get_stats t).total_files ≡ length (list_files t))
      × ((get_stats t).total_imports ≡ length (all_imports t.files))
      × ((get_stats t).has_tailwind ≡ has_tailwind t)
      × ((get_stats t).has_modules ≡ has_modules t)
      × ((get_stats t).has_scss ≡ any_file is_scss t.files)
      × ((type : FileType)
          → get_or str_dec (get_stats t).file_types type 0 ≡ count str_dec type (types t.files))
unfolding get_stats list_files has_tailwind has_modules get_or
get_stats_lem t =
    let (files, imports, tailwind, modules, scss, by_type) = add_files_lem t.files (record {
      total_files = 0;
      total_imports = 0;
      has_tailwind = false;
      has_modules = false;
      has_scss = false;
      file_types = [];
    }) in
    (
      omega (arith, files, length-values t.files),
      omega (arith, imports),
      ground (arith, tailwind),
      ground (arith, modules),
      ground (arith, scss),
      λ type. omega (arith, by_type type),
    )
