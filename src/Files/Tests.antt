-- ===== src/Files/Tests.antt =====
-- A small file system in memory, and the theorem at it.
use effective_next.Prelude.{
  ℕ, ◌+◌, ◌≡◌, refl, Option, none, List, [], ◌∷◌, String, contains, str_dec,
}
use effective_next.Prelude.Maps.{get, put}
use effective_next.Prelude.Paths.{clean, base, dir, rel, is_abs}
use effective_next.Files.{
  FileInfo, MemFs, Result, ok, err, not_exist, invalid, new, info_of, stat, infos_in, read_dir,
  leaves_root, is_under, walk_files, walk, read_file, mkdir_all, remove_under, remove_all,
  write_file,
}
use effective_next.Files.View.{IsFileSystem, view_lem}

program : Unit {0}
unfolding clean base dir rel is_abs str_dec contains get put new info_of stat infos_in read_dir
    leaves_root is_under walk_files walk read_file mkdir_all remove_under remove_all write_file
program = tt

abbrev site : MemFs
site =
    write_file "/p/src/..b" (2 ∷ []) 420 3
      (write_file "/p/./src/a.ts" (1 ∷ 1 ∷ []) 420 2 (mkdir_all "/p/src/" 493 1 new))

-- The parent of the directory is not made.
stat-parent : stat "/p" site ≡ err not_exist
unfolding program
stat-parent = refl

read_file-a : read_file "/p/src/../src/a.ts" site ≡ ok (1 ∷ 1 ∷ [])
unfolding program
read_file-a = refl

read_file-dir : read_file "/p/src" site ≡ err invalid
unfolding program
read_file-dir = refl

abbrev names : Result (List FileInfo) → List String
names (err e) = []
names (ok []) = []
names (ok (f ∷ fs)) = f.name ∷ names (ok fs)

read_dir-src : names (read_dir "/p/src" site) ≡ "a.ts" ∷ "..b" ∷ []
unfolding program
read_dir-src = refl

abbrev count_files : String → FileInfo → ℕ → Option (Unit {0}) × ℕ
count_files path info n = (none, n + 1)

walk-p : walk count_files "/p" site 0 ≡ (none, 3)
unfolding program
walk-p = refl

-- A name that begins with two dots does not count as under its directory, and so survives.
remove_all-dots : read_file "/p/src/..b" (remove_all "/p/src" site) ≡ ok (2 ∷ [])
unfolding program
remove_all-dots = refl

view_lem_example : IsFileSystem site
view_lem_example = view_lem site
