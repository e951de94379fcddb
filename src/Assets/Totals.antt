-- ===== src/Assets/Totals.antt =====
-- What the loops over the files add up.
use effective_next.Prelude.{ℕ, ◌+◌, ◌≡◌, ap, List, [], ◌∷◌, length, str_dec, arith}
use effective_next.Prelude.Maps.{get_or, get_or-put}
use effective_next.Assets.{
  FileType, File, Optimizer, of_type, filter_by_type, Stats, add_file, add_files, get_stats,
  add_sizes, total_size,
}

abbrev pub size_of : List File → ℕ
size_of [] = 0
size_of (f ∷ fs) = f.size + size_of fs

add_sizes-size_of : (fs : List File) (n : ℕ) → add_sizes fs n ≡ n + size_of fs
unfolding add_sizes
add_sizes-size_of [] n = omega arith
add_sizes-size_of (f ∷ fs) n = omega (arith, add_sizes-size_of fs (n + f.size))

add_files_lem :
    (fs : List File) (s : Stats)
    → ((add_files fs s).total_files ≡ s.total_files + length fs)
      × ((add_files fs s).total_size ≡ s.total_size + size_of fs)
      × ((t : FileType)
          → get_or str_dec (add_files fs s).type_count t 0
            ≡ get_or str_dec s.type_count t 0 + length (of_type t fs))
      × ((t : FileType)
          → get_or str_dec (add_files fs s).type_size t 0
            ≡ get_or str_dec s.type_size t 0 + size_of (of_type t fs))
unfolding add_files add_file of_type
add_files_lem [] s = (omega arith, omega arith, λ t. omega arith, λ t. omega arith)
add_files_lem (f ∷ fs) s =
    let (files, size, by_count, by_size) = add_files_lem fs (add_file f s) in
    (
      omega (arith, files),
      omega (arith, size),
      λ t. ground (
        arith,
        by_count t,
        get_or-put str_dec f.type t (get_or str_dec s.type_count f.type 0 + 1) 0 s.type_count,
        λ (e : f.type ≡ t). ap (λ x. get_or str_dec s.type_count x 0) e,
      ),
      λ t. ground (
        arith,
        by_size t,
        get_or-put str_dec f.type t (get_or str_dec s.type_size f.type 0 + f.size) 0 s.type_size,
        λ (e : f.type ≡ t). ap (λ x. get_or str_dec s.type_size x 0) e,
      ),
    )

-- `GetStats` counts all files and adds up their sizes, as `totalSize` does; and for each type it counts
-- the files that `FilterByType` lists, and adds up their sizes.
pub get_stats-filter_by_type :
    (o : Optimizer)
    → ((get_stats o).total_files ≡ length o.files)
      × ((get_stats o).total_size ≡ total_size o)
      × ((t : FileType) → get_or str_dec (get_stats o).type_count t 0 ≡ length (filter_by_type t o))
      × ((t : FileType) → get_or str_dec (get_stats o).type_size t 0 ≡ size_of (filter_by_type t o))
unfolding get_stats filter_by_type total_size get_or
get_stats-filter_by_type o =
    let (files, size, by_count, by_size) =
      add_files_lem o.files
        (record { total_files = 0; total_size = 0; type_count = []; type_size = [] }) in
    (
      omega (arith, files),
      omega (arith, size, add_sizes-size_of o.files 0),
      λ t. omega (arith, by_count t),
      λ t. omega (arith, by_size t),
    )
