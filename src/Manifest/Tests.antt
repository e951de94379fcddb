-- ===== src/Manifest/Tests.antt =====
-- Two small manifests, and the theorems at them.
use effective_next.Prelude.{
  ℕ, ◌-◌, ◌%◌, ◌^◌, ◌≡◌, refl, [], ◌∷◌, Perm, String, length, contains, str_dec, str_le,
}
use effective_next.Prelude.Maps.{get, put}
use effective_next.Prelude.Sort.{insert, sort, IsSorted}
use effective_next.Manifest.{
  RouteEntry, AssetEntry, Manifest, new_generator, add_route, add_asset, add_sizes, count_entries,
  path_le, build, by_path, only_in, changed, diff,
}
use effective_next.Manifest.Build.{size_of, build_lem}
use effective_next.Manifest.Differ.{IsDiff, diff-IsDiff}

abbrev route : String → RouteEntry
route path = record { path = path; file = "page.tsx"; type = "page"; layout = ""; children = [] }

abbrev asset : String → String → ℕ → AssetEntry
asset path hash size = record { path = path; hash = hash; size = size; type = "png" }

abbrev old : Manifest
old =
    add_asset (asset "logo.png" "aa" 100)
      (add_route (route "/blog") (add_route (route "/about") new_generator))

abbrev latest : Manifest
latest =
    add_asset (asset "hero.png" "cc" 50)
      (add_asset (asset "logo.png" "bb" 120) (add_route (route "/about") new_generator))

program : Unit {0}
unfolding str_dec str_le contains get put insert sort new_generator add_route add_asset add_sizes
    count_entries path_le build by_path only_in changed diff
program = tt

build-size : (build latest).stats.total_size ≡ 170
unfolding program
build-size = refl

-- Sizes of 2^63 and more are negative numbers, and the sum wraps.
build_wraps : (build (add_asset (asset "a.png" "dd" (2 ^ 64 - 20)) latest)).stats.total_size ≡ 150
unfolding program
build_wraps = refl

diff-changed : (diff old latest).changed_assets ≡ asset "logo.png" "bb" 120 ∷ []
unfolding program
diff-changed = refl

diff-removed : (diff old latest).removed_routes ≡ route "/blog" ∷ []
unfolding program
diff-removed = refl

build_lem_example :
    IsSorted (λ a b. str_le a.path b.path) (build old).routes
    × Perm (build old).routes old.routes
    × ((build old).stats.total_routes ≡ length (build old).routes)
    × ((build old).stats.total_assets ≡ length (build old).assets)
    × ((build old).stats.total_dependencies ≡ length (build old).dependencies)
    × ((build old).stats.total_chunks ≡ length (build old).chunks)
    × ((build old).stats.total_size ≡ size_of (build old).assets % 2 ^ 64)
build_lem_example = build_lem old

diff-IsDiff_example : IsDiff old latest (diff old latest) "logo.png"
diff-IsDiff_example = diff-IsDiff old latest "logo.png"
