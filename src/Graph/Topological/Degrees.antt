-- ===== src/Graph/Topological/Degrees.antt =====
-- The in-degree map counts the edges into each key, and its zero entries are queued.
use effective_next.Prelude.{
  ℕ, ◌+◌, ◌≡◌, refl, ap, Bool, true, false, ◌&&◌, ◌||◌, List, [], ◌∷◌, map, String, contains,
  Distinct, count, ◌==◌, str_dec, arith, if_neg,
}
use effective_next.Prelude.Maps.{keys, get_or, put, has, get_or-put, has-put, Distinct-put}
use effective_next.Prelude.Queues.{sorted_fifo}
use effective_next.Prelude.Kahn.{incoming, incoming_congr}
use effective_next.Graph.{
  Node, Edge, Graph, targets, dependencies, zero_degrees, raise_degrees, raise_all, in_degrees,
  at_zero,
}

abbrev pub heads : List Edge → List String
heads es = map (λ e. e.target) es

-- The edges into `v`, over the whole map.
abbrev total : List (String × List Edge) → String → ℕ
total [] v = 0
total ((_, es) ∷ m) v = count str_dec v (heads es) + total m v

get_or-raise_degrees :
    (es : List Edge) (d : List (String × ℕ)) (v : String)
    → get_or str_dec (raise_degrees es d) v 0 ≡ get_or str_dec d v 0 + count str_dec v (heads es)
unfolding raise_degrees
get_or-raise_degrees [] d v = omega arith
get_or-raise_degrees (e ∷ es) d v =
    let n : ℕ = get_or str_dec d e.target 0 in
    ground (
      arith,
      get_or-raise_degrees es (put str_dec e.target (n + 1) d) v,
      get_or-put str_dec e.target v (n + 1) 0 d,
    )

get_or-raise_all :
    (m : List (String × List Edge)) (d : List (String × ℕ)) (v : String)
    → get_or str_dec (raise_all m d) v 0 ≡ get_or str_dec d v 0 + total m v
unfolding raise_all
get_or-raise_all [] d v = omega arith
get_or-raise_all ((_, es) ∷ m) d v =
    omega (arith, get_or-raise_all m (raise_degrees es d) v, get_or-raise_degrees es d v)

get_or-zero_degrees :
    (m : List (String × Node)) (v : String) → get_or str_dec (zero_degrees m) v 0 ≡ 0
unfolding zero_degrees get_or
get_or-zero_degrees [] v = refl
get_or-zero_degrees ((id, _) ∷ m) v =
    ground (arith, get_or-put str_dec id v 0 0 (zero_degrees m), get_or-zero_degrees m v)

-- The sum over the sources, each with the edges that a lookup finds.
incoming-total :
    (m : List (String × List Edge)) (v : String)
    → Distinct str_dec (keys m)
    → incoming sorted_fifo (λ _. true) (λ u. heads (get_or str_dec m u [])) (keys m) [] v
      ≡ total m v
unfolding contains get_or
incoming-total [] v d = refl
incoming-total ((k, es) ∷ m) v d =
    let rest =
      incoming_congr sorted_fifo (λ _. true) (λ u. heads (get_or str_dec ((k, es) ∷ m) u []))
        (λ u. heads (get_or str_dec m u [])) (keys m) [] v (λ u h. ap heads (other u h)) in
    ground (arith, rest, incoming-total m v d.1)
  where
    other :
        (u : String)
        → contains str_dec (keys m) u ≡ true
        → get_or str_dec ((k, es) ∷ m) u [] ≡ get_or str_dec m u []
    other u h = elim (str_dec k u) [
      | yes p ↦ absurd (cc (ap (contains str_dec (keys m)) p, d.0))
      | no p ↦ if_neg _ p es (get_or str_dec m u [])
    ]

pub get_or-in_degrees :
    (g : Graph) (v : String)
    → Distinct str_dec (keys g.edges)
    → get_or str_dec (in_degrees g) v 0
      ≡ incoming sorted_fifo (λ _. true) (targets g) (keys g.edges) [] v
unfolding in_degrees targets dependencies
get_or-in_degrees g v d = omega (
  arith,
  get_or-raise_all g.edges (zero_degrees g.nodes) v,
  get_or-zero_degrees g.nodes v,
  incoming-total g.edges v d,
)

has-raise_degrees :
    (es : List Edge) (d : List (String × ℕ)) (v : String)
    → has str_dec (raise_degrees es d) v ≡ (has str_dec d v || contains str_dec (heads es) v)
unfolding raise_degrees contains
has-raise_degrees [] d v = ground arith
has-raise_degrees (e ∷ es) d v =
    let n : ℕ = get_or str_dec d e.target 0 in
    ground (
      arith,
      has-raise_degrees es (put str_dec e.target (n + 1) d) v,
      has-put str_dec e.target v (n + 1) d,
    )

Distinct-raise_degrees :
    (es : List Edge) (d : List (String × ℕ))
    → Distinct str_dec (keys d)
    → Distinct str_dec (keys (raise_degrees es d))
unfolding raise_degrees
Distinct-raise_degrees [] d h = h
Distinct-raise_degrees (e ∷ es) d h =
    Distinct-raise_degrees es _ (Distinct-put str_dec e.target _ d h)

abbrev pub is_target : List (String × List Edge) → String → Bool
is_target [] v = false
is_target ((_, es) ∷ m) v = contains str_dec (heads es) v || is_target m v

has-raise_all :
    (m : List (String × List Edge)) (d : List (String × ℕ)) (v : String)
    → has str_dec (raise_all m d) v ≡ (has str_dec d v || is_target m v)
unfolding raise_all
has-raise_all [] d v = ground arith
has-raise_all ((_, es) ∷ m) d v =
    ground (arith, has-raise_all m (raise_degrees es d) v, has-raise_degrees es d v)

Distinct-raise_all :
    (m : List (String × List Edge)) (d : List (String × ℕ))
    → Distinct str_dec (keys d)
    → Distinct str_dec (keys (raise_all m d))
unfolding raise_all
Distinct-raise_all [] d h = h
Distinct-raise_all ((_, es) ∷ m) d h =
    Distinct-raise_all m (raise_degrees es d) (Distinct-raise_degrees es d h)

has-zero_degrees :
    (m : List (String × Node)) (v : String) → has str_dec (zero_degrees m) v ≡ has str_dec m v
unfolding zero_degrees contains
has-zero_degrees [] v = refl
has-zero_degrees ((id, _) ∷ m) v =
    ground (arith, has-put str_dec id v 0 (zero_degrees m), has-zero_degrees m v)

Distinct-zero_degrees : (m : List (String × Node)) → Distinct str_dec (keys (zero_degrees m))
unfolding zero_degrees
Distinct-zero_degrees [] = tt
Distinct-zero_degrees ((id, _) ∷ m) =
    Distinct-put str_dec id 0 (zero_degrees m) (Distinct-zero_degrees m)

pub has-in_degrees :
    (g : Graph) (v : String)
    → has str_dec (in_degrees g) v ≡ (has str_dec g.nodes v || is_target g.edges v)
unfolding in_degrees
has-in_degrees g v =
    ground (arith, has-raise_all g.edges (zero_degrees g.nodes) v, has-zero_degrees g.nodes v)

pub Distinct-in_degrees : (g : Graph) → Distinct str_dec (keys (in_degrees g))
unfolding in_degrees
Distinct-in_degrees g =
    Distinct-raise_all g.edges (zero_degrees g.nodes) (Distinct-zero_degrees g.nodes)

contains-at_zero-le :
    (d : List (String × ℕ)) (v : String)
    → contains str_dec (at_zero d) v ≡ true
    → has str_dec d v ≡ true
unfolding at_zero contains
contains-at_zero-le [] v h = h
contains-at_zero-le ((id, n) ∷ d) v h = ground (arith, contains-at_zero-le d v)

pub contains-at_zero :
    (d : List (String × ℕ)) (v : String)
    → Distinct str_dec (keys d)
    → contains str_dec (at_zero d) v ≡ (has str_dec d v && get_or str_dec d v 0 == 0)
unfolding at_zero contains get_or
contains-at_zero [] v h = refl
contains-at_zero ((id, n) ∷ d) v h = ground (
  arith,
  contains-at_zero d v h.1,
  contains-at_zero-le d id,
  λ (p : id ≡ v). ap (contains str_dec (at_zero d)) p,
  λ (p : id ≡ v). ap (contains str_dec (keys d)) p,
)

pub Distinct-at_zero :
    (d : List (String × ℕ)) → Distinct str_dec (keys d) → Distinct str_dec (at_zero d)
unfolding at_zero
Distinct-at_zero [] h = tt
Distinct-at_zero ((id, n) ∷ d) h = ground (arith, Distinct-at_zero d h.1, contains-at_zero-le d id)
