-- ===== src/Prelude/Dfs.antt =====
-- The depth-first search for cycles: a mark for each key (0 unvisited, 1 in progress, 2 done), the
-- stack of the keys in progress with the position of each, and the cycles reported so far.
pub mod Walks
pub mod Moves
pub mod Leave
pub mod Loops
pub mod Correct
use Prim.Native.Nat.{ℕ, zero, suc}
use mathlib.Core.Option.{Option, none, some}
use mathlib.Core.List.{List, [], ◌∷◌, ◌++◌}
use effective_next.Prelude.Lists.{length}
use effective_next.Prelude.Maps.{get_or, put, delete}

pub record Dfs (K : Type 0) : Type 0 where
  pub visited : List (K × ℕ)
  pub path : List (K × ℕ)
  pub stack : List K
  pub cycles : List (List K)

module _ {K : Type 0} where
  -- `xs[n:]`
  unfoldable pub drop : ℕ → List K → List K
  drop zero xs = xs
  drop (suc n) [] = []
  drop (suc n) (x ∷ xs) = drop n xs

  -- `xs[:len(xs)-1]`
  unfoldable pub all_but_last : List K → List K
  all_but_last [] = []
  all_but_last (x ∷ []) = []
  all_but_last (x ∷ y ∷ xs) = x ∷ all_but_last (y ∷ xs)

module _ {K : Type 0} (dec : Discrete K) where
  abbrev pub mark : Dfs K → K → ℕ
  mark s v = get_or dec s.visited v 0

  unfoldable pub enter : K → Dfs K → Dfs K
  enter id s = record s {
    visited = put dec id 1 s.visited;
    path = put dec id (length s.stack) s.path;
    stack = s.stack ++ id ∷ [];
  }

  unfoldable pub leave : K → Dfs K → Dfs K
  unfolding all_but_last
  leave id s = record s {
    visited = put dec id 2 s.visited;
    path = delete dec id s.path;
    stack = all_but_last s.stack;
  }

  unfoldable pub report : K → Dfs K → Dfs K
  unfolding drop
  report t s = record s {
    cycles = s.cycles ++ (drop (get_or dec s.path t 0) s.stack ++ t ∷ []) ∷ [];
  }

  -- The body of the loop over the edges, by the mark of the target.
  unfoldable pub touch : (K → Dfs K → Option (Dfs K)) → K → Dfs K → ℕ → Option (Dfs K)
  unfolding report
  touch visit t s zero = visit t s
  touch visit t s (suc zero) = some (report t s)
  touch visit t s (suc (suc _)) = some s

  unfoldable pub each : (K → Dfs K → Option (Dfs K)) → List K → Dfs K → Option (Dfs K)
  unfolding touch
  each visit [] s = some s
  each visit (t ∷ ts) s = elim (touch visit t s (mark s t)) [
    | none ↦ none
    | some s' ↦ each visit ts s'
  ]

  module _ (next : K → List K) where
    -- `none` is out of fuel, of which each call takes one.
    unfoldable pub dfs : ℕ → K → Dfs K → Option (Dfs K)
    unfolding enter leave each
    dfs zero id s = none
    dfs (suc fuel) id s = elim (each (dfs fuel) (next id) (enter id s)) [
      | none ↦ none
      | some s' ↦ some (leave id s')
    ]

    -- `if visited[id] == 0 { dfs(id) }`
    unfoldable pub dfs_new : ℕ → K → Dfs K → ℕ → Option (Dfs K)
    unfolding dfs
    dfs_new fuel id s zero = dfs fuel id s
    dfs_new fuel id s (suc _) = some s

    -- `for id := range g.nodes`
    unfoldable pub dfs_all : ℕ → List K → Dfs K → Option (Dfs K)
    unfolding dfs_new
    dfs_all fuel [] s = some s
    dfs_all fuel (id ∷ ids) s = elim (dfs_new fuel id s (mark s id)) [
      | none ↦ none
      | some s' ↦ dfs_all fuel ids s'
    ]

unfoldable pub start : {K : Type 0} → Dfs K
start = record { visited = []; path = []; stack = []; cycles = [] }
