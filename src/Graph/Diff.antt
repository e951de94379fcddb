-- ===== src/Graph/Diff.antt =====
-- `Diff`: what one graph has and the other has not. An edge is looked up by its source, target and
-- type; its `Dynamic` flag is not compared.
use effective_next.Prelude.{
  ◌≡◌, ◌↔◌, refl, ap, subst, if_pos, if_neg, Bool, true, false, ◌&&◌, ◌||◌, List, [], ◌∷◌, ◌++◌,
  String, contains, Distinct, if◌then◌else◌, str_dec, ite, arith,
}
use effective_next.Prelude.Maps.{keys, get_or, get_or_absent, has}
use effective_next.Graph.{Node, Edge, EdgeType, Graph, dependencies}
use effective_next.Graph.Index.{IsValid}

pub record DiffResult : Type 0 where
  pub added_nodes : List Node
  pub removed_nodes : List Node
  pub added_edges : List Edge
  pub removed_edges : List Edge

-- `for id, node := range nodes { if _, ok := other[id]; !ok { append } }`
nodes_missing : List (String × Node) → List (String × Node) → List Node
nodes_missing [] other = []
nodes_missing ((id, node) ∷ m) other =
    let rest = nodes_missing m other in if has str_dec other id then rest else node ∷ rest

-- The inner loop with `found` and `break`.
pub found : List Edge → (target : String) → EdgeType → Bool
found [] target type = false
found (e ∷ es) target type =
    ite (str_dec e.target target) true false && ite (str_dec e.type type) true false
    || found es target type

edges_absent : List Edge → List Edge → List Edge
unfolding found
edges_absent [] others = []
edges_absent (e ∷ es) others =
    let rest = edges_absent es others in if found others e.target e.type then rest else e ∷ rest

edges_missing : List (String × List Edge) → Graph → List Edge
unfolding edges_absent
edges_missing [] other = []
edges_missing ((source, es) ∷ m) other =
    edges_absent es (dependencies other source) ++ edges_missing m other

pub diff : Graph → Graph → DiffResult
unfolding nodes_missing edges_missing
diff g other = record {
  added_nodes = nodes_missing other.nodes g.nodes;
  removed_nodes = nodes_missing g.nodes other.nodes;
  added_edges = edges_missing other.edges g;
  removed_edges = edges_missing g.edges other;
}

-- Every node of the one is a node of the other, and so is every edge.
pub record IsWithin (g other : Graph) : Type 0 where
  pub nodes : (id : String) → has str_dec g.nodes id ≡ true → has str_dec other.nodes id ≡ true
  pub edges :
      (s t : String) (type : EdgeType)
      → found (dependencies g s) t type ≡ true
      → found (dependencies other s) t type ≡ true

nodes_missing-nil :
    (m other : List (String × Node))
    → (nodes_missing m other ≡ [])
      ↔ ((id : String) → has str_dec m id ≡ true → has str_dec other id ≡ true)
unfolding nodes_missing contains
nodes_missing-nil [] other = (λ _ id h. cc, λ _. refl)
nodes_missing-nil ((k, n) ∷ m) other = (
  λ e id h. elim (str_dec k id) [
    | yes p ↦ ground (arith, ap (contains str_dec (keys other)) p)
    | no p ↦ (nodes_missing-nil m other).0 (ground arith) id (ground arith)
  ],
  λ all.
      let here : has str_dec other k ≡ true = all k (ground arith) in
      rw here ((nodes_missing-nil m other).1 (λ id h. all id (ground arith))),
)

edges_absent-nil :
    (es others : List Edge)
    → (edges_absent es others ≡ [])
      ↔ ((t : String) (type : EdgeType) → found es t type ≡ true → found others t type ≡ true)
unfolding edges_absent found
edges_absent-nil [] others = (λ _ t type h. cc, λ _. refl)
edges_absent-nil (e ∷ es) others = (
  λ none t type h.
      let here : found others e.target e.type ≡ true = ground arith in
      let rest : edges_absent es others ≡ [] = ground arith in
      elim (str_dec e.target t) [
        | no p ↦ (edges_absent-nil es others).0 rest t type (ground arith)
        | yes p ↦ elim (str_dec e.type type) [
          | no q ↦ (edges_absent-nil es others).0 rest t type (ground arith)
          | yes q ↦
              subst (λ x. found others x type ≡ true) p
                (subst (λ x. found others e.target x ≡ true) q here)
        ]
      ],
  λ all.
      let here : found others e.target e.type ≡ true = all e.target e.type (ground arith) in
      rw here ((edges_absent-nil es others).1 (λ t type h. all t type (ground arith))),
)

append-nil_iff : (xs ys : List Edge) → (xs ++ ys ≡ []) ↔ ((xs ≡ []) × (ys ≡ []))
append-nil_iff [] ys = (λ h. (refl, h), λ h. h.1)
append-nil_iff (x ∷ xs) ys = (λ h. cc, λ h. cc (h.0))

edges_missing-nil :
    (m : List (String × List Edge)) (other : Graph)
    → Distinct str_dec (keys m)
    → (edges_missing m other ≡ []) ↔ (
        (s t : String) (type : EdgeType)
        → found (get_or str_dec m s []) t type ≡ true
        → found (dependencies other s) t type ≡ true)
unfolding edges_missing get_or contains
edges_missing-nil [] other d = (λ _ s t type h. absurd (unfold found in cc), λ _. refl)
edges_missing-nil ((k, es) ∷ m) other d = (
  λ none s t type h.
      let (here, rest) =
        (append-nil_iff (edges_absent es (dependencies other k)) (edges_missing m other)).0 none in
      elim (str_dec k s) [
        | yes p ↦
            subst (λ x. found (dependencies other x) t type ≡ true) p
              ((edges_absent-nil es (dependencies other k)).0 here t type (rw (if_pos _ p) at h))
        | no p ↦ (edges_missing-nil m other d.1).0 rest s t type (rw (if_neg _ p) at h)
      ],
  λ all. (append-nil_iff (edges_absent es (dependencies other k)) (edges_missing m other)).1 (
    (edges_absent-nil es (dependencies other k)).1
        (λ t type h. all k t type (rw (if_pos (str_dec k k) refl) h)),
    (edges_missing-nil m other d.1).1 (λ s t type h. all s t type (later s t type h)),
  ),
)
  where
    later :
        (s t : String) (type : EdgeType)
        → found (get_or str_dec m s []) t type ≡ true
        → found (ite (str_dec k s) es (get_or str_dec m s [])) t type ≡ true
    later s t type h = elim (str_dec k s) [
      | no p ↦ rw (if_neg _ p) h
      | yes p ↦
          let absent : has str_dec m s ≡ false = subst (λ x. has str_dec m x ≡ false) p d.0 in
          absurd
            (unfold found in cc (h, ap (λ l. found l t type) (get_or_absent str_dec m s [] absent)))
    ]

IsWithin-iff :
    (g other : Graph)
    → IsValid g
    → ((nodes_missing g.nodes other.nodes ≡ []) × (edges_missing g.edges other ≡ []))
      ↔ IsWithin g other
IsWithin-iff g other v = (
  λ (ns, es). record {
    nodes = (nodes_missing-nil g.nodes other.nodes).0 ns;
    edges = unfold dependencies in (edges_missing-nil g.edges other v.distinct_edges).0 es;
  },
  λ w. (
    (nodes_missing-nil g.nodes other.nodes).1 w.nodes,
    (edges_missing-nil g.edges other v.distinct_edges).1 (unfold dependencies in w.edges),
  ),
)

-- The difference of well-formed graphs has no removed node and no removed edge exactly if every
-- node and every edge, up to the `Dynamic` flag, of the first graph is one of the second, and no
-- added node and no added edge exactly if it is so the other way round.
pub diff_nil :
    (g other : Graph)
    → IsValid g
    → IsValid other
    → (((diff g other).removed_nodes ≡ []) × ((diff g other).removed_edges ≡ []) ↔ IsWithin g other)
      × (((diff g other).added_nodes ≡ []) × ((diff g other).added_edges ≡ []) ↔ IsWithin other g)
unfolding diff
diff_nil g other v w = (IsWithin-iff g other v, IsWithin-iff other g w)
