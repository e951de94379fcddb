-- ===== src/Graph/Affected.antt =====
-- `AffectedNodes`: the reverse index is searched, and the answer is read off the imports.
use mathlib.Core.Option
use effective_next.Prelude.{
  suc, ◌≡◌, ap, ◌∙◌, ◌↔◌, true, some, List, [], ◌∷◌, map, flatten, map-append, String, length,
  length-map, contains, contains-append, contains_of_count, count-pos, Distinct, str_dec, str_le,
  str_le_trans, str_le_total, arith,
}
use effective_next.Prelude.Maps.{values, get_or}
use effective_next.Prelude.Sort.{sort, IsSorted, sort-IsSorted, contains-sort, Distinct-sort}
use effective_next.Prelude.Worklist.{Reach, here, step, closure_lem}
use effective_next.Graph.{Edge, Graph, targets, sources, dependents, affected_nodes}
use effective_next.Graph.Index.{IsValid}

-- The files that import `id`, by any number of imports.
pub data DependsOn (g : Graph) (id : String) : String → Type 0 where
  self : DependsOn g id id
  imports :
      {u v : String} → DependsOn g id u → contains str_dec (targets g v) u ≡ true → DependsOn g id v

pub covered :
    (f : Edge → String) (m : List (String × List Edge)) (k x : String)
    → contains str_dec (map f (get_or str_dec m k [])) x ≡ true
    → contains str_dec (map f (flatten (values m))) x ≡ true
unfolding get_or flatten contains
covered f [] k x h = h
covered f ((j, es) ∷ m) k x h = ground (
  arith,
  covered f m k x,
  map-append f es (flatten (values m)),
  contains-append str_dec (map f es) (map f (flatten (values m))) x,
)

module _ (g : Graph) (v : IsValid g) (id : String) where
  mirrored :
      (s t : String)
      → (contains str_dec (targets g s) t ≡ true) ↔ (contains str_dec (sources g t) s ≡ true)
  mirrored s t = (
    λ h.
        contains_of_count str_dec s (sources g t)
          (omega (arith, v.mirrored s t, count-pos str_dec t (targets g s) h)),
    λ h.
        contains_of_count str_dec t (targets g s)
          (omega (arith, v.mirrored s t, count-pos str_dec s (sources g t) h)),
  )

  of_Reach : {x : String} → Reach str_dec (sources g) id x → DependsOn g id x
  of_Reach here = self
  of_Reach (step {u} {v = w} r e) = imports (of_Reach r) ((mirrored w u).1 e)

  to_Reach : {x : String} → DependsOn g id x → Reach str_dec (sources g) id x
  to_Reach self = here
  to_Reach (imports {u} {v = w} r e) = step (to_Reach r) ((mirrored w u).0 e)

-- On a well-formed graph `AffectedNodes` returns, and its result holds exactly the node itself and
-- the nodes that depend on it through imports, each once and in sorted order.
pub affected_nodes_lem :
    (g : Graph) (id : String)
    → IsValid g
    → (result : List String) × (affected_nodes g id ≡ some result)
      × ((x : String) → (contains str_dec result x ≡ true) ↔ DependsOn g id x)
      × Distinct str_dec result
      × IsSorted str_le result
unfolding affected_nodes
affected_nodes_lem g id v =
    let all : List String = map (λ e. e.source) (flatten (values g.reverse)) in
    let (found, runs, ok) =
      closure_lem str_dec (sources g) all
        (λ u w h. unfold sources dependents in covered (λ e. e.source) g.reverse u w h)
        (suc (length (flatten (values g.reverse)))) id
        (omega (arith, length-map (λ (e : Edge). e.source) (flatten (values g.reverse)))) in
    (
      sort str_le found,
      ap (Option.map (sort str_le)) runs,
      λ x. (
        λ h. of_Reach g v id ((ok.exact x).0 (rw (contains-sort str_dec str_le found x) at h)),
        λ h. contains-sort str_dec str_le found x ∙ (ok.exact x).1 (to_Reach g v id h),
      ),
      Distinct-sort str_dec str_le found ok.distinct,
      sort-IsSorted str_le str_le_trans str_le_total found,
    )
