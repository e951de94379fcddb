-- ===== src/Routes/Layouts.antt =====
-- The map of the layouts in `buildParentChildRelationships` of pkg/routes/routes.go.
use effective_next.Prelude.{
  ℕ, suc, ◌+◌, ◌≡◌, refl, ap, sym, subst, ◌∙◌, if_pos, if_neg, false, Option, none, some, List, [],
  ◌∷◌, String, str_dec, contains, Distinct, ite, arith,
}
use effective_next.Prelude.Maps.{get, put, get-put}
use effective_next.Routes.{Route, layouts_of}

-- The file paths of the layouts, in their order.
abbrev pub layout_paths : List Route → List String
layout_paths [] = []
layout_paths (r ∷ routes) =
    ite (str_dec r.type "layout") (r.file_path ∷ layout_paths routes) (layout_paths routes)

abbrev pub up : Option ℕ → Option ℕ
up none = none
up (some i) = some (suc i)

-- The place of the first layout at the path.
unfoldable pub slot : String → List Route → Option ℕ
slot p [] = none
slot p (r ∷ routes) =
    let rest = up (slot p routes) in
    ite (str_dec r.type "layout") (ite (str_dec r.file_path p) (some 0) rest) rest

abbrev pub or_old : ℕ → Option ℕ → Option ℕ → Option ℕ
or_old k (some i) old = some (k + i)
or_old k none old = old

pub Distinct-head :
    (r : Route) (routes : List Route)
    → r.type ≡ "layout"
    → Distinct str_dec (layout_paths (r ∷ routes))
    → contains str_dec (layout_paths routes) r.file_path ≡ false
Distinct-head r routes e u =
    let v =
      subst (Distinct str_dec)
        (if_pos (str_dec r.type "layout") e (r.file_path ∷ layout_paths routes)
          (layout_paths routes))
        u in
    v.0

pub Distinct-tail :
    (r : Route) (routes : List Route)
    → Distinct str_dec (layout_paths (r ∷ routes))
    → Distinct str_dec (layout_paths routes)
Distinct-tail r routes u = elim (str_dec r.type "layout") [
  | yes e ↦
      let v =
        subst (Distinct str_dec)
          (if_pos (str_dec r.type "layout") e (r.file_path ∷ layout_paths routes)
            (layout_paths routes))
          u in
      v.1
  | no n ↦
      subst (Distinct str_dec)
        (if_neg (str_dec r.type "layout") n (r.file_path ∷ layout_paths routes)
          (layout_paths routes))
        u
]

pub slot_absent :
    (p : String) (routes : List Route)
    → contains str_dec (layout_paths routes) p ≡ false
    → slot p routes ≡ none
unfolding slot contains
slot_absent p [] h = refl
slot_absent p (r ∷ routes) h = ground (arith, slot_absent p routes)

or_old-up : (k : ℕ) (i old : Option ℕ) → or_old (k + 1) i old ≡ or_old k (up i) old
or_old-up k none old = refl
or_old-up k (some i) old = ground arith

pub get-layouts_of :
    (routes : List Route) (k : ℕ) (m : List (String × ℕ)) (p : String)
    → Distinct str_dec (layout_paths routes)
    → get str_dec (layouts_of routes k m) p ≡ or_old k (slot p routes) (get str_dec m p)
unfolding layouts_of slot
get-layouts_of [] k m p u = refl
get-layouts_of (r ∷ routes) k m p u = elim (str_dec r.type "layout") [
  | no n ↦ ground (
    arith,
    get-layouts_of routes (k + 1) m p (Distinct-tail r routes u),
    or_old-up k (slot p routes) (get str_dec m p),
  )
  | yes e ↦ elim (str_dec r.file_path p) [
    | no n ↦ ground (
      arith,
      get-layouts_of routes (k + 1) (put str_dec r.file_path k m) p (Distinct-tail r routes u),
      or_old-up k (slot p routes) (get str_dec m p),
      get-put str_dec r.file_path p k m,
    )
    | yes f ↦
        let absent =
          slot_absent p routes
            (ap (contains str_dec (layout_paths routes)) (sym f) ∙ Distinct-head r routes e u) in
        ground (
          arith,
          get-layouts_of routes (k + 1) (put str_dec r.file_path k m) p (Distinct-tail r routes u),
          absent,
          get-put str_dec r.file_path p k m,
        )
  ]
]
