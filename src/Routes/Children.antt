-- ===== src/Routes/Children.antt =====
-- `buildParentChildRelationships` of pkg/routes/routes.go: the children of each layout.
use effective_next.Prelude.{
  ℕ, ◌≡◌, refl, ap, ap₂, sym, ◌∙◌, if_pos, ◌⊎◌, inl, inr, Option, none, some, List, [], ◌∷◌, ◌++◌,
  append_assoc, append-nil, String, str_dec, contains, Distinct, ite, arith,
}
use effective_next.Prelude.Maps.{get}
use effective_next.Routes.{
  Route, layouts_of, add_child, link_each, build_parent_child_relationships,
}
use effective_next.Routes.Layouts.{
  layout_paths, up, slot, or_old, Distinct-head, Distinct-tail, slot_absent, get-layouts_of,
}

-- The files that name the layout at the path.
abbrev pub under : String → List Route → List String
under p [] = []
under p (r ∷ routes) =
    ite (str_dec r.layout "") (under p routes)
      (ite (str_dec r.layout p) (r.file_path ∷ under p routes) (under p routes))

abbrev pub attach : List Route → Route → Route
attach done r =
    ite (str_dec r.type "layout") (record r { children = r.children ++ under r.file_path done }) r

abbrev pub attach_all : List Route → List Route → List Route
attach_all done [] = []
attach_all done (r ∷ routes) = attach done r ∷ attach_all done routes

abbrev place : Option ℕ → String → List Route → List Route
place none child linked = linked
place (some i) child linked = add_child i child linked

under-append :
    (p : String) (done : List Route) (r : Route)
    → under p (done ++ r ∷ []) ≡ under p done ++ under p (r ∷ [])
under-append p [] r = refl
under-append p (q ∷ done) r = ground (arith, under-append p done r)

place-up :
    (i : Option ℕ) (child : String) (r : Route) (linked : List Route)
    → place (up i) child (r ∷ linked) ≡ r ∷ place i child linked
unfolding add_child
place-up none child r linked = refl
place-up (some i) child r linked = refl

attach-same :
    (done : List Route) (r q : Route)
    → ¬ (q.type ≡ "layout") ⊎ ¬ (q.file_path ≡ r.layout)
    → attach done q ≡ attach (done ++ r ∷ []) q
attach-same done r q (inl n) = ground (arith)
attach-same done r q (inr n) =
    ground (arith, under-append q.file_path done r, append-nil (under q.file_path done))

abbrev with_child : String → Route → Route
with_child child r = record r { children = r.children ++ child ∷ [] }

under-hit :
    (done : List Route) (r : Route) (p : String)
    → p ≡ r.layout
    → ¬ (r.layout ≡ "")
    → under p (done ++ r ∷ []) ≡ under p done ++ r.file_path ∷ []
under-hit done r p f n = ground (arith, under-append p done r)

attach-hit :
    (done : List Route) (r q : Route)
    → q.type ≡ "layout"
    → q.file_path ≡ r.layout
    → ¬ (r.layout ≡ "")
    → with_child r.file_path (attach done q) ≡ attach (done ++ r ∷ []) q
attach-hit done r q e f n =
    let old = under q.file_path done in
    ap (with_child r.file_path)
      (if_pos (str_dec q.type "layout") e (record q { children = q.children ++ old }) q)
    ∙ ap (λ c. record q { children = c })
        (append_assoc q.children old (r.file_path ∷ [])
          ∙ ap (λ x. q.children ++ x) (sym (under-hit done r q.file_path f n)))
    ∙ sym (
        if_pos (str_dec q.type "layout") e
          (record q { children = q.children ++ under q.file_path (done ++ r ∷ []) }) q)

place-attach_all :
    (done : List Route) (r : Route) (routes : List Route)
    → Distinct str_dec (layout_paths routes)
    → ¬ (r.layout ≡ "")
    → place (slot r.layout routes) r.file_path (attach_all done routes)
      ≡ attach_all (done ++ r ∷ []) routes
unfolding slot add_child
place-attach_all done r [] u n = refl
place-attach_all done r (q ∷ routes) u n = elim (str_dec q.type "layout") [
  | no e ↦
      let rest = place-attach_all done r routes (Distinct-tail q routes u) n in
      ground (
        arith,
        rest,
        place-up (slot r.layout routes) r.file_path (attach done q) (attach_all done routes),
        attach-same done r q (inl e),
      )
  | yes e ↦ elim (str_dec q.file_path r.layout) [
    | no f ↦
        let rest = place-attach_all done r routes (Distinct-tail q routes u) n in
        ground (
          arith,
          rest,
          place-up (slot r.layout routes) r.file_path (attach done q) (attach_all done routes),
          attach-same done r q (inr f),
        )
    | yes f ↦
        let absent =
          slot_absent r.layout routes
            (ap (contains str_dec (layout_paths routes)) (sym f) ∙ Distinct-head q routes e u) in
        let rest = place-attach_all done r routes (Distinct-tail q routes u) n in
        let tail = ap (λ i. place i r.file_path (attach_all done routes)) absent in
        ground (arith, attach-hit done r q e f n, tail, rest)
  ]
]

or_old-zero : (i : Option ℕ) → or_old 0 i none ≡ i
or_old-zero none = refl
or_old-zero (some i) = ground arith

elim_place :
    (i : Option ℕ) (child : String) (linked : List Route)
    → elim i [ none ↦ linked | some j ↦ add_child j child linked ] ≡ place i child linked
elim_place none child linked = refl
elim_place (some i) child linked = refl

attach_all-skip :
    (done : List Route) (r : Route) (routes : List Route)
    → r.layout ≡ ""
    → attach_all done routes ≡ attach_all (done ++ r ∷ []) routes
attach_all-skip done r [] e = refl
attach_all-skip done r (q ∷ routes) e =
    ap₂ (λ x y. x ∷ y)
      (ground (arith, under-append q.file_path done r, append-nil (under q.file_path done)))
      (attach_all-skip done r routes e)

link_each-attach_all :
    (routes done todo : List Route)
    → Distinct str_dec (layout_paths routes)
    → link_each (layouts_of routes 0 []) todo (attach_all done routes)
      ≡ attach_all (done ++ todo) routes
unfolding link_each get
link_each-attach_all routes done [] u = ap (λ d. attach_all d routes) (sym (append-nil done))
link_each-attach_all routes done (r ∷ todo) u = elim (str_dec r.layout "") [
  | yes e ↦ ground (
    arith,
    attach_all-skip done r routes e,
    link_each-attach_all routes (done ++ r ∷ []) todo u,
    append_assoc done (r ∷ []) todo,
  )
  | no n ↦ ground (
    arith,
    get-layouts_of routes 0 [] r.layout u,
    or_old-zero (slot r.layout routes),
    place-attach_all done r routes u n,
    link_each-attach_all routes (done ++ r ∷ []) todo u,
    append_assoc done (r ∷ []) todo,
    elim_place (get str_dec (layouts_of routes 0 []) r.layout) r.file_path (attach_all done routes),
  )
]

attach_all-nil : (routes : List Route) → attach_all [] routes ≡ routes
attach_all-nil [] = refl
attach_all-nil (r ∷ routes) =
    ap₂ (λ x y. x ∷ y) (ground (arith, append-nil r.children)) (attach_all-nil routes)

-- If no two layouts stand at one path, the loops add to the children of each layout the files that name
-- it, all of them and in their order, and change nothing else.
pub build_parent_child_relationships_lem :
    (routes : List Route)
    → Distinct str_dec (layout_paths routes)
    → build_parent_child_relationships routes ≡ attach_all routes routes
unfolding build_parent_child_relationships
build_parent_child_relationships_lem routes u =
    ap (link_each (layouts_of routes 0 []) routes) (sym (attach_all-nil routes))
    ∙ link_each-attach_all routes [] routes u
