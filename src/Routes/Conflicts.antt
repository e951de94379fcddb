-- ===== src/Routes/Conflicts.antt =====
-- `FindConflicts` of pkg/routes/routes.go: the pages and API routes of one path.
use effective_next.Prelude.{
  ◌≡◌, refl, ap, sym, subst, ◌∙◌, false, List, [], ◌∷◌, ◌++◌, append_assoc, append-nil, String,
  str_dec, length, contains, Distinct, if◌then◌else◌, ltb, ite, arith,
}
use effective_next.Prelude.Maps.{keys, get_or, put, get_or-put, Distinct-put}
use effective_next.Routes.{Route, is_page, path_types, crowded, find_conflicts}

-- The routes of one path, in their order.
abbrev pub at : String → List Route → List Route
at p [] = []
at p (r ∷ routes) = ite (str_dec r.path p) (r ∷ at p routes) (at p routes)

abbrev pub pages : List Route → List Route
pages [] = []
pages (r ∷ routes) = if is_page r then r ∷ pages routes else pages routes

at-append : (p : String) (rs qs : List Route) → at p (rs ++ qs) ≡ at p rs ++ at p qs
at-append p [] qs = refl
at-append p (r ∷ rs) qs = ground (arith, at-append p rs qs)

-- All routes of one path.
On : String → List Route → Type 0
On p [] = Unit
On p (r ∷ rs) = (r.path ≡ p) × On p rs

at-On : (p : String) (rs : List Route) → On p rs → at p rs ≡ rs
unfolding On
at-On p [] o = refl
at-On p (r ∷ rs) o = ground (arith, at-On p rs o.1, o.0)

at-other : (p q : String) (rs : List Route) → On p rs → ¬ (p ≡ q) → at q rs ≡ []
unfolding On
at-other p q [] o n = refl
at-other p q (r ∷ rs) o n = elim (str_dec r.path q) [
  | yes e ↦ absurd (n (sym o.0 ∙ e))
  | no e ↦ ground (arith, at-other p q rs o.1 n)
]

On-append : (p : String) (rs : List Route) (r : Route) → On p rs → r.path ≡ p → On p (rs ++ r ∷ [])
unfolding On
On-append p [] r o e = (e, tt)
On-append p (q ∷ rs) r o e = (o.0, On-append p rs r o.1 e)

Keyed : List (String × List Route) → Type 0
Keyed [] = Unit
Keyed ((p, rs) ∷ m) = On p rs × Keyed m

Keyed-put :
    (p : String) (rs : List Route) (m : List (String × List Route))
    → On p rs
    → Keyed m
    → Keyed (put str_dec p rs m)
unfolding put Keyed
Keyed-put p rs [] l d = (l, tt)
Keyed-put p rs ((q, qs) ∷ m) l d = ground (arith, l, Keyed-put p rs m l d.1, d.0)

On-get_or : (p : String) (m : List (String × List Route)) → Keyed m → On p (get_or str_dec m p [])
unfolding get_or Keyed On
On-get_or p [] d = tt
On-get_or p ((q, qs) ∷ m) d =
    ground (arith, d.0, On-get_or p m d.1, λ (e : q ≡ p). subst (λ t. On t qs) e d.0)

Keyed-path_types :
    (routes : List Route) (m : List (String × List Route)) → Keyed m → Keyed (path_types routes m)
unfolding path_types
Keyed-path_types [] m d = d
Keyed-path_types (r ∷ routes) m d = ground (
  arith,
  Keyed-path_types routes m d,
  Keyed-path_types routes (put str_dec r.path (get_or str_dec m r.path [] ++ r ∷ []) m) (
      Keyed-put r.path (get_or str_dec m r.path [] ++ r ∷ []) m
        (On-append r.path (get_or str_dec m r.path []) r (On-get_or r.path m d) refl) d),
)

Distinct-path_types :
    (routes : List Route) (m : List (String × List Route))
    → Distinct str_dec (keys m)
    → Distinct str_dec (keys (path_types routes m))
unfolding path_types
Distinct-path_types [] m d = d
Distinct-path_types (r ∷ routes) m d = ground (
  arith,
  Distinct-path_types routes m d,
  Distinct-path_types routes (put str_dec r.path (get_or str_dec m r.path [] ++ r ∷ []) m)
      (Distinct-put str_dec r.path (get_or str_dec m r.path [] ++ r ∷ []) m d),
)

get_or-path_types :
    (routes : List Route) (m : List (String × List Route)) (p : String)
    → get_or str_dec (path_types routes m) p [] ≡ get_or str_dec m p [] ++ at p (pages routes)
unfolding path_types
get_or-path_types [] m p = sym (append-nil (get_or str_dec m p []))
get_or-path_types (r ∷ routes) m p =
    let old = get_or str_dec m r.path [] in
    ground (
      arith,
      get_or-path_types routes m p,
      get_or-path_types routes (put str_dec r.path (old ++ r ∷ []) m) p,
      get_or-put str_dec r.path p (old ++ r ∷ []) [] m,
      append_assoc old (r ∷ []) (at p (pages routes)),
      λ (e : r.path ≡ p). ap (λ q. get_or str_dec m q [] ++ r ∷ at p (pages routes)) e,
    )

crowded_absent :
    (m : List (String × List Route)) (p : String)
    → Keyed m
    → contains str_dec (keys m) p ≡ false
    → at p (crowded m) ≡ []
unfolding crowded contains Keyed
crowded_absent [] p d h = refl
crowded_absent ((q, qs) ∷ m) p d h =
    let other = at-other q p qs d.0 in
    ground (arith, crowded_absent m p d.1, at-append p qs (crowded m), other)

at-crowded :
    (m : List (String × List Route)) (p : String)
    → Keyed m
    → Distinct str_dec (keys m)
    → at p (crowded m)
      ≡ (if ltb 1 (length (get_or str_dec m p [])) then get_or str_dec m p [] else [])
unfolding crowded get_or Keyed
at-crowded [] p d u = ground arith
at-crowded ((q, qs) ∷ m) p d u = elim (str_dec q p) [
  | no e ↦ ground (arith, at-crowded m p d.1 u.1, at-append p qs (crowded m), at-other q p qs d.0 e)
  | yes e ↦
      let absent = crowded_absent m p d.1 (ap (contains str_dec (keys m)) (sym e) ∙ u.0) in
      let all = at-On p qs (subst (λ t. On t qs) e d.0) in
      ground (arith, absent, all, at-append p qs (crowded m), append-nil qs)
]

-- The conflicts hold for each path all its pages and API routes in their order, if there are at least
-- two of them, whatever their types; and no route of that path otherwise.
pub at-find_conflicts :
    (routes : List Route) (p : String)
    → at p (find_conflicts routes)
      ≡ (if ltb 1 (length (at p (pages routes))) then at p (pages routes) else [])
unfolding find_conflicts get_or
at-find_conflicts routes p = ground (
  arith,
  at-crowded (path_types routes []) p (Keyed-path_types routes [] (unfold Keyed in tt))
      (Distinct-path_types routes [] tt),
  get_or-path_types routes [] p,
)
