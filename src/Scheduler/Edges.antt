-- ===== src/Scheduler/Edges.antt =====
-- The edges that `Run` collects: for each task, one for each of its dependencies.
use effective_next.Prelude.{
  ℕ, ◌+◌, ◌≡◌, refl, ap, sym, ◌∙◌, true, false, ◌||◌, List, [], ◌∷◌, ◌++◌, map, map-append, String,
  length, contains, Distinct, count, count-append, str_dec, ite, arith,
}
use effective_next.Prelude.Maps.{keys, get, has, get-eq-none_iff}
use effective_next.Scheduler.{Task, DepEdge, edges_from, all_edges, waiting_on}
use effective_next.Scheduler.Valid.{Ids, deps_of}

abbrev pub heads : List DepEdge → List String
heads es = map (λ e. e.task) es

-- The edges into `v` from the keys of `all`.
abbrev pub edge_sum : List DepEdge → List String → String → ℕ
edge_sum es [] v = 0
edge_sum es (u ∷ all) v = count str_dec v (waiting_on es u) + edge_sum es all v

edge_sum-nil : (all : List String) (v : String) → edge_sum [] all v ≡ 0
unfolding waiting_on
edge_sum-nil [] v = refl
edge_sum-nil (u ∷ all) v = omega (arith, edge_sum-nil all v)

edge_sum_absent :
    (e : DepEdge) (es : List DepEdge) (all : List String) (v : String)
    → contains str_dec all e.dep ≡ false
    → edge_sum (e ∷ es) all v ≡ edge_sum es all v
unfolding waiting_on contains
edge_sum_absent e es [] v h = refl
edge_sum_absent e es (u ∷ all) v h = ground (arith, edge_sum_absent e es all v)

-- An edge is counted at its source, once.
edge_sum-cons :
    (e : DepEdge) (es : List DepEdge) (all : List String) (v : String)
    → Distinct str_dec all
    → contains str_dec all e.dep ≡ true
    → edge_sum (e ∷ es) all v ≡ edge_sum es all v + count str_dec v (e.task ∷ [])
unfolding waiting_on contains
edge_sum-cons e es [] v d h = cc
edge_sum-cons e es (u ∷ all) v d h = elim (str_dec e.dep u) [
  | yes p ↦ ground (arith, edge_sum_absent e es all v (ap (contains str_dec all) p ∙ d.0))
  | no p ↦ ground (arith, edge_sum-cons e es all v d.1)
]

abbrev pub From : List DepEdge → List String → Type 0
From [] all = Unit
From (e ∷ es) all = (contains str_dec all e.dep ≡ true) × From es all

pub edge_sum-heads :
    (es : List DepEdge) (all : List String) (v : String)
    → Distinct str_dec all
    → From es all
    → edge_sum es all v ≡ count str_dec v (heads es)
edge_sum-heads [] all v d f = edge_sum-nil all v
edge_sum-heads (e ∷ es) all v d f =
    ground (arith, edge_sum-cons e es all v d f.0, edge_sum-heads es all v d f.1)

count-edges_from :
    (deps : List String) (id v : String)
    → count str_dec v (heads (edges_from deps id)) ≡ ite {C = ℕ} (str_dec id v) (length deps) 0
unfolding edges_from
count-edges_from [] id v = ground arith
count-edges_from (d ∷ deps) id v = ground (arith, count-edges_from deps id v)

count-all_edges_absent :
    (m : List (String × Task)) (v : String)
    → Ids m
    → has str_dec m v ≡ false
    → count str_dec v (heads (all_edges m)) ≡ 0
unfolding all_edges contains
count-all_edges_absent [] v i h = refl
count-all_edges_absent ((k, t) ∷ m) v i h = ground (
  arith,
  map-append (λ (e : DepEdge). e.task) (edges_from t.deps t.id) (all_edges m),
  count-append str_dec v (heads (edges_from t.deps t.id)) (heads (all_edges m)),
  count-edges_from t.deps t.id v,
  count-all_edges_absent m v i.1,
)

-- A task has as many edges as dependencies.
pub count-all_edges :
    (m : List (String × Task)) (v : String)
    → Ids m
    → Distinct str_dec (keys m)
    → count str_dec v (heads (all_edges m)) ≡ length (deps_of m v)
unfolding all_edges get
count-all_edges [] v i d = refl
count-all_edges ((k, t) ∷ m) v i d =
    let cut = map-append (λ (e : DepEdge). e.task) (edges_from t.deps t.id) (all_edges m) in
    let sum = count-append str_dec v (heads (edges_from t.deps t.id)) (heads (all_edges m)) in
    elim (str_dec k v) [
      | yes p ↦ ground (
        arith,
        cut,
        sum,
        count-edges_from t.deps t.id v,
        count-all_edges_absent m v i.1 (ap (has str_dec m) (sym p) ∙ d.0),
        i.0,
      )
      | no p ↦
          ground (arith, cut, sum, count-edges_from t.deps t.id v, count-all_edges m v i.1 d.1, i.0)
    ]

waiting_on-append :
    (xs ys : List DepEdge) (u v : String)
    → contains str_dec (waiting_on (xs ++ ys) u) v
      ≡ (contains str_dec (waiting_on xs u) v || contains str_dec (waiting_on ys u) v)
unfolding waiting_on contains
waiting_on-append [] ys u v = refl
waiting_on-append (x ∷ xs) ys u v = ground (arith, waiting_on-append xs ys u v)

waiting_on-edges_from :
    (deps : List String) (id u v : String)
    → contains str_dec (waiting_on (edges_from deps id) u) v
      ≡ ite (str_dec id v) (contains str_dec deps u) false
unfolding waiting_on edges_from contains
waiting_on-edges_from [] id u v = ground arith
waiting_on-edges_from (d ∷ deps) id u v = ground (arith, waiting_on-edges_from deps id u v)

waiting_on_absent :
    (m : List (String × Task)) (u v : String)
    → Ids m
    → has str_dec m v ≡ false
    → contains str_dec (waiting_on (all_edges m) u) v ≡ false
unfolding waiting_on all_edges contains
waiting_on_absent [] u v i h = refl
waiting_on_absent ((k, t) ∷ m) u v i h = ground (
  arith,
  waiting_on-append (edges_from t.deps t.id) (all_edges m) u v,
  waiting_on-edges_from t.deps t.id u v,
  waiting_on_absent m u v i.1,
)

-- A task waits on exactly its dependencies.
pub waiting_on-deps_of :
    (m : List (String × Task)) (u v : String)
    → Ids m
    → Distinct str_dec (keys m)
    → contains str_dec (waiting_on (all_edges m) u) v ≡ contains str_dec (deps_of m v) u
unfolding all_edges get
waiting_on-deps_of [] u v i d = unfold waiting_on contains in refl
waiting_on-deps_of ((k, t) ∷ m) u v i d =
    let cut = waiting_on-append (edges_from t.deps t.id) (all_edges m) u v in
    elim (str_dec k v) [
      | yes p ↦ ground (
        arith,
        cut,
        waiting_on-edges_from t.deps t.id u v,
        waiting_on_absent m u v i.1 (ap (has str_dec m) (sym p) ∙ d.0),
        i.0,
      )
      | no p ↦
          ground (
            arith,
            cut,
            waiting_on-edges_from t.deps t.id u v,
            waiting_on-deps_of m u v i.1 d.1,
            i.0,
          )
    ]

From-append :
    (xs ys : List DepEdge) (all : List String) → From xs all → From ys all → From (xs ++ ys) all
From-append [] ys all fx fy = fy
From-append (x ∷ xs) ys all fx fy = (fx.0, From-append xs ys all fx.1 fy)

From-edges_from :
    (deps : List String) (id : String) (all : List String)
    → ((d : String) → contains str_dec deps d ≡ true → contains str_dec all d ≡ true)
    → From (edges_from deps id) all
unfolding edges_from contains
From-edges_from [] id all h = tt
From-edges_from (d ∷ deps) id all h =
    (h d (ground arith), From-edges_from deps id all (λ x m. h x (ground arith)))

pub From-all_edges :
    (m : List (String × Task)) (all : List String)
    → Distinct str_dec (keys m)
    → ((id d : String) → contains str_dec (deps_of m id) d ≡ true → contains str_dec all d ≡ true)
    → From (all_edges m) all
unfolding all_edges get
From-all_edges [] all d h = tt
From-all_edges ((k, t) ∷ m) all d h =
    From-append (edges_from t.deps t.id) (all_edges m) all
      (From-edges_from t.deps t.id all (λ x e. h k x (ground arith)))
      (From-all_edges m all d.1 (λ id x e. h id x (later id x e)))
  where
    later :
        (id x : String)
        → contains str_dec (deps_of m id) x ≡ true
        → contains str_dec (deps_of ((k, t) ∷ m) id) x ≡ true
    later id x e = elim (str_dec k id) [
      | no p ↦ ground arith
      | yes p ↦ absurd (
          unfold contains in
          ground (arith, (get-eq-none_iff str_dec m id).1 (ap (has str_dec m) (sym p) ∙ d.0)))
    ]
