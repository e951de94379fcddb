-- ===== src/Routes/Tests.antt =====
-- A project with two routers, and the theorems at it.
use effective_next.Prelude.{
  ◌≡◌, refl, true, false, Option, none, some, List, [], ◌∷◌, String, str_dec, str_le, if◌then◌else◌,
  ltb, length, contains,
}
use effective_next.Prelude.Maps.{get, put, get_or}
use effective_next.Prelude.Sort.{sort}
use effective_next.Prelude.Paths.{
  join, rel, dir, ext, trim_suffix, contains_text, has_prefix, has_suffix,
}
use effective_next.Routes.{
  Route, file, folder, Items, nil, cons, is_source, build_route_path, type_of, path_of, parse_file,
  next_layout, scan_dir, layouts_of, add_child, link_each, build_parent_child_relationships,
  scan_router, scan, generate_manifest, filter_by_type, is_page, path_types, crowded,
  find_conflicts,
}
use effective_next.Routes.Conflicts.{at, pages, at-find_conflicts}
use effective_next.Routes.Children.{attach_all, build_parent_child_relationships_lem}

program : Unit {0}
unfolding join rel dir ext trim_suffix contains_text has_prefix has_suffix str_dec get put get_or
    sort str_le is_source build_route_path type_of path_of parse_file next_layout scan_dir
    layouts_of add_child link_each build_parent_child_relationships scan_router scan
    generate_manifest filter_by_type is_page path_types crowded find_conflicts contains
program = tt

-- `about` stands before `layout.tsx` in the directory, `users` after it.
abbrev app : Items
app = cons (folder "about" true (cons (file "page.tsx") nil)) (
    cons (file "layout.tsx") (
      cons (file "notes.md") (
        cons (file "page.tsx") (
          cons
            (folder "users" true
              (cons (folder "[id]" true (cons (file "page.tsx") (cons (file "route.ts") nil))) nil))
            nil))))

abbrev routes_of : Option (List Route) → List Route
routes_of none = []
routes_of (some routes) = routes

abbrev found : List Route
found = routes_of (scan_router "/p" "app" (some (true, app)))

abbrev named : List Route → List (String × String × String)
named [] = []
named (r ∷ routes) = (r.path, r.file_path, r.layout) ∷ named routes

scan-app :
    named found
    ≡ ("/about", "app/about/page.tsx", "")
      ∷ ("", "app/layout.tsx", "")
      ∷ ("/", "app/page.tsx", "app/layout.tsx")
      ∷ ("/users/[id]", "app/users/[id]/page.tsx", "app/layout.tsx")
      ∷ ("/users/[id]", "app/users/[id]/route.ts", "app/layout.tsx")
      ∷ []
unfolding program
scan-app = refl

find_conflicts-app :
    named (find_conflicts found)
    ≡ ("/users/[id]", "app/users/[id]/page.tsx", "app/layout.tsx")
      ∷ ("/users/[id]", "app/users/[id]/route.ts", "app/layout.tsx")
      ∷ []
unfolding program
find_conflicts-app = refl

-- A directory below that cannot be read is an error of the scan.
scan-unreadable : scan "/p" none (some (true, cons (folder "api" false nil) nil)) ≡ none
unfolding program
scan-unreadable = refl

build_parent_child_relationships_lem_example :
    build_parent_child_relationships found ≡ attach_all found found
unfolding program
build_parent_child_relationships_lem_example = build_parent_child_relationships_lem found (refl, tt)

at-find_conflicts_example : at "/users/[id]" (find_conflicts found) ≡ (
    if ltb 1 (length (at "/users/[id]" (pages found))) then at "/users/[id]" (pages found) else [])
at-find_conflicts_example = at-find_conflicts found "/users/[id]"
