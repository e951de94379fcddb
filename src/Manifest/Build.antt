-- ===== src/Manifest/Build.antt =====
-- `Build`: the totals and the order of the routes.
use effective_next.Prelude.{
  ℕ, ◌+◌, ◌%◌, ◌^◌, ◌<◌, ◌≡◌, refl, List, [], ◌∷◌, Perm, length, str_le, str_le_trans, str_le_total,
  arith,
}
use effective_next.Prelude.Sort.{IsSorted, sort-perm, sort-IsSorted, length-sort}
use effective_next.Manifest.{AssetEntry, Manifest, add_sizes, count_entries, path_le, build}

abbrev pub size_of : List AssetEntry → ℕ
size_of [] = 0
size_of (a ∷ assets) = a.size + size_of assets

add_sizes-size_of :
    (assets : List AssetEntry) (total : ℕ)
    → total < 2 ^ 64
    → add_sizes assets total ≡ (total + size_of assets) % 2 ^ 64
unfolding add_sizes
add_sizes-size_of [] total h = omega (arith, h)
add_sizes-size_of (a ∷ assets) total h =
    omega (arith, h, add_sizes-size_of assets ((total + a.size) % 2 ^ 64) (omega arith))

-- `Build` keeps the routes, each as often as it is there, and orders them by their paths as texts; its
-- totals are the numbers of entries of the manifest that it returns, and the sum of the sizes of its
-- assets modulo 2^64, so the sum itself where it is below that.
pub build_lem :
    (m : Manifest)
    → IsSorted (λ a b. str_le a.path b.path) (build m).routes
      × Perm (build m).routes m.routes
      × ((build m).stats.total_routes ≡ length (build m).routes)
      × ((build m).stats.total_assets ≡ length (build m).assets)
      × ((build m).stats.total_dependencies ≡ length (build m).dependencies)
      × ((build m).stats.total_chunks ≡ length (build m).chunks)
      × ((build m).stats.total_size ≡ size_of (build m).assets % 2 ^ 64)
unfolding build count_entries path_le
build_lem m = (
  sort-IsSorted path_le (λ a b c. str_le_trans a.path b.path c.path)
      (λ a b. str_le_total a.path b.path) m.routes,
  sort-perm path_le m.routes,
  omega (arith, length-sort path_le m.routes),
  refl,
  refl,
  refl,
  omega (arith, add_sizes-size_of m.assets 0 (omega arith)),
)
