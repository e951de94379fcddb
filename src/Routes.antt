-- ===== src/Routes.antt =====
-- pkg/routes/routes.go: the routes of a Next.js project. What the operating system tells of a
-- directory is a tree: the entries in the order of `os.ReadDir`, and whether they could be read.
pub mod Layouts
pub mod Children
pub mod Conflicts
mod Tests
use Prim.Native.String
use effective_next.Prelude.{
  ℕ, zero, suc, ◌+◌, Bool, true, false, ◌&&◌, ◌||◌, Option, none, some, List, [], ◌∷◌, ◌++◌, String,
  length, if◌then◌else◌, ltb, ◌==◌, str_dec, str_le, ite,
}
use effective_next.Prelude.Maps.{values, get, get_or, put}
use effective_next.Prelude.Sort.{sort}
use effective_next.Prelude.Paths.{
  join, rel, dir, ext, trim_suffix, contains_text, has_prefix, has_suffix,
}

-- `type RouteType string`
abbrev pub RouteType : Type 0
RouteType = String

pub record Route : Type 0 where
  pub path : String
  pub file_path : String
  pub type : RouteType
  pub layout : String
  pub parent : String
  pub is_dynamic : Bool
  pub is_group : Bool
  pub children : List String

mutual
  pub data Item : Type 0 where
    file : String → Item
    folder : String → (readable : Bool) → Items → Item

  pub data Items : Type 0 where
    nil : Items
    cons : Item → Items → Items

abbrev is_text : String → String → Bool
is_text s t = ite (str_dec s t) true false

unfoldable pub is_source : String → Bool
is_source e = is_text e ".tsx" || (is_text e ".ts" || (is_text e ".jsx" || is_text e ".js"))

abbrev or_empty : Option String → String
or_empty none = ""
or_empty (some text) = text

-- The two branches differ in the name of the directory of the router alone.
unfoldable pub build_route_path : (root dir_path router_type : String) → String
unfolding str_dec
build_route_path root dir_path router_type =
    let router = ite (str_dec router_type "pages") "pages" "app" in
    let r = or_empty (rel (join (root ∷ router ∷ [])) (join (root ∷ dir_path ∷ []))) in
    ite (str_dec r ".") "/" (String.◌++◌ "/" r)

-- The type of a file by its name without extension, and its path.
unfoldable pub type_of : String → RouteType
unfolding str_dec
type_of name = ite (str_dec name "layout") "layout" (
    ite (str_dec name "error") "error" (
      ite (str_dec name "loading") "loading" (
        ite (str_dec name "not-found") "not-found" (
          ite (str_dec name "template") "template" (
            ite (str_dec name "page") "page" (
              ite (str_dec name "route") "api-route" (
                ite (str_dec name "middleware") "middleware" (
                  if is_text name "metadata"
                    || (is_text name "opengraph-image"
                        || (is_text name "twitter-image"
                            || (is_text name "icon"
                                || (is_text name "apple-touch-icon" || is_text name "favicon"))))
                  then "metadata"
                  else "page"))))))))

unfoldable pub path_of : RouteType → (parent_path built : String) → String
unfolding str_dec
path_of type parent_path built =
    ite (str_dec type "page") built
      (ite (str_dec type "api-route") built (ite (str_dec type "middleware") "/" parent_path))

unfoldable pub parse_file :
    (root path name parent_layout parent_path router_type : String) → Option Route
unfolding is_source build_route_path type_of path_of
parse_file root path name parent_layout parent_path router_type =
    let extension = ext name in
    let bare = trim_suffix name extension in
    let rel_path = or_empty (rel root path) in
    let type = type_of bare in
    let route_path = path_of type parent_path (build_route_path root (dir rel_path) router_type) in
    if is_source extension
    then some (record {
      path = route_path;
      file_path = rel_path;
      type = type;
      layout = parent_layout;
      parent = parent_path;
      is_dynamic = contains_text route_path "[" || contains_text route_path "...";
      is_group = has_prefix bare "(" && has_suffix bare ")";
      children = [];
    })
    else none

-- The layout for the entries that follow.
unfoldable pub next_layout : Route → String → String
unfolding str_dec
next_layout r parent_layout = ite (str_dec r.type "layout") r.file_path parent_layout

abbrev both : Option (List Route) → Option (List Route) → Option (List Route)
both none _ = none
both (some sub) none = none
both (some sub) (some rest) = some (sub ++ rest)

-- `scanDir`; `none` is an error of `ReadDir`.
unfoldable pub scan_dir :
    (root dir_path parent_layout parent_path router_type : String) → Items → Option (List Route)
unfolding parse_file next_layout join
scan_dir root dir_path parent_layout parent_path router_type nil = some []
scan_dir root dir_path parent_layout parent_path router_type (cons (file name) rest) =
    elim (parse_file root (join (dir_path ∷ name ∷ [])) name parent_layout parent_path
      router_type) [
        | none ↦ scan_dir root dir_path parent_layout parent_path router_type rest
        | some r ↦
            both (some (r ∷ []))
              (scan_dir root dir_path (next_layout r parent_layout) parent_path router_type rest)
      ]
scan_dir root dir_path parent_layout parent_path router_type
      (cons (folder name readable items) rest) =
    let sub =
      scan_dir root (join (dir_path ∷ name ∷ [])) parent_layout parent_path router_type items in
    both (if readable then sub else none)
      (scan_dir root dir_path parent_layout parent_path router_type rest)

-- `layouts[routes[i].FilePath] = &routes[i]`, with the index for the pointer.
unfoldable pub layouts_of : List Route → ℕ → List (String × ℕ) → List (String × ℕ)
unfolding str_dec
layouts_of [] i m = m
layouts_of (r ∷ routes) i m =
    layouts_of routes (i + 1) (ite (str_dec r.type "layout") (put str_dec r.file_path i m) m)

unfoldable pub add_child : ℕ → String → List Route → List Route
add_child i child [] = []
add_child zero child (r ∷ routes) = record r { children = r.children ++ child ∷ [] } ∷ routes
add_child (suc i) child (r ∷ routes) = r ∷ add_child i child routes

-- The second loop; what it reads of a route, it does not change.
unfoldable pub link_each : List (String × ℕ) → List Route → List Route → List Route
unfolding add_child str_dec
link_each layouts [] linked = linked
link_each layouts (r ∷ routes) linked = link_each layouts routes (
    ite (str_dec r.layout "") linked (elim (get str_dec layouts r.layout) [
      | none ↦ linked
      | some i ↦ add_child i r.file_path linked
    ]))

unfoldable pub build_parent_child_relationships : List Route → List Route
unfolding layouts_of link_each
build_parent_child_relationships routes = link_each (layouts_of routes 0 []) routes routes

-- A router's directory, where it exists and is one: whether it can be read, and its entries.
abbrev pub Router : Type 0
Router = Option (Bool × Items)

unfoldable pub scan_router : String → String → Router → Option (List Route)
unfolding scan_dir
scan_router root name none = some []
scan_router root name (some (readable, items)) =
    if readable then scan_dir root (join (root ∷ name ∷ [])) "" "" name items else none

unfoldable pub scan : String → (app pages : Router) → Option (List Route)
unfolding scan_router build_parent_child_relationships
scan root app pages = elim (both (scan_router root "app" app) (scan_router root "pages" pages)) [
  | none ↦ none
  | some routes ↦ some (build_parent_child_relationships routes)
]

pub record RouteManifest : Type 0 where
  pub routes : List Route
  pub app_dir : String
  pub pages_dir : String
  pub has_app : Bool
  pub has_pages : Bool
  pub total_routes : ℕ

abbrev is_there : Router → Bool
is_there none = false
is_there (some _) = true

unfoldable pub generate_manifest : String → (app pages : Router) → Option RouteManifest
unfolding scan
generate_manifest root app pages = elim (scan root app pages) [
  | none ↦ none
  | some routes ↦ some (record {
    routes = sort (λ a b. str_le a.path b.path) routes;
    app_dir = if is_there app then join (root ∷ "app" ∷ []) else "";
    pages_dir = if is_there pages then join (root ∷ "pages" ∷ []) else "";
    has_app = is_there app;
    has_pages = is_there pages;
    total_routes = length routes;
  })
]

unfoldable pub filter_by_type : List Route → RouteType → List Route
unfolding str_dec
filter_by_type [] type = []
filter_by_type (r ∷ routes) type =
    let rest = filter_by_type routes type in ite (str_dec r.type type) (r ∷ rest) rest

-- `if r.Type == RouteTypePage || r.Type == RouteTypeAPI`
unfoldable pub is_page : Route → Bool
is_page r = is_text r.type "page" || is_text r.type "api-route"

unfoldable pub path_types : List Route → List (String × List Route) → List (String × List Route)
path_types [] m = m
path_types (r ∷ routes) m =
    path_types routes
      (if is_page r then put str_dec r.path (get_or str_dec m r.path [] ++ r ∷ []) m else m)

unfoldable pub crowded : List (String × List Route) → List Route
crowded [] = []
crowded ((_, rs) ∷ m) = let rest = crowded m in if ltb 1 (length rs) then rs ++ rest else rest

unfoldable pub find_conflicts : List Route → List Route
unfolding path_types crowded
find_conflicts routes = crowded (path_types routes [])
