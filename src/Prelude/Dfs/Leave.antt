-- ===== src/Prelude/Dfs/Leave.antt =====
-- What the depth-first search keeps when it leaves a key.
use Prim.Native.Nat.{◌<◌}
use mathlib.Core.Path.{◌≡◌, sym, subst, ap, ap₂, ◌∙◌}
use mathlib.Core.Bool.{true, false, ◌||◌}
use mathlib.Core.List.{List, [], ◌∷◌}
use native.Mathlib.Omega.{arith}
use effective_next.Prelude.Lists.{length, contains, contains-append}
use effective_next.Prelude.Maps.{get_or, get_or-put, get_or-delete}
use effective_next.Prelude.Dfs.{Dfs, drop, all_but_last, mark, enter, leave}
use effective_next.Prelude.Dfs.Walks.{all_but_last-snoc, IsWalk}
use effective_next.Prelude.Dfs.Moves.{Inv, Kept}

module _ {K : Type 0} (dec : Discrete K) (next : K → List K) where
  stack-leave :
      (id : K) (s s' : Dfs K)
      → Kept dec next (enter dec id s) s'
      → (leave dec id s').stack ≡ s.stack
  unfolding enter leave
  stack-leave id s s' k = ap all_but_last k.stack ∙ all_but_last-snoc s.stack id

  path-leave :
      (id : K) (s s' : Dfs K) (fin : List K)
      → Inv dec next s fin
      → mark dec s id ≡ 0
      → Kept dec next (enter dec id s) s'
      → (v : K) → contains dec s.stack v ≡ true
      → get_or dec (leave dec id s').path v 0 ≡ get_or dec s.path v 0
  unfolding enter leave contains
  path-leave id s s' fin h new k v on =
      let other : ¬ (id ≡ v) =
        λ e. absurd (omega (arith, (h.on_stack v).1 on, ap (mark dec s) e)) in
      ground (
        arith,
        get_or-delete dec id v 0 s'.path,
        k.path v (ground (arith, contains-append dec s.stack (id ∷ []) v)),
        get_or-put dec id v (length s.stack) 0 s.path,
      )

  marks-leave :
      (id : K) (s s' : Dfs K) (fin : List K)
      → Inv dec next s fin
      → mark dec s id ≡ 0
      → Kept dec next (enter dec id s) s'
      → (v : K) → 0 < mark dec s v
      → mark dec (leave dec id s') v ≡ mark dec s v
  unfolding enter leave
  marks-leave id s s' fin h new k v pos =
      let other : ¬ (id ≡ v) = λ e. absurd (omega (arith, ap (mark dec s) e)) in
      let here = get_or-put dec id v 1 0 s.visited in
      ground (arith, get_or-put dec id v 2 0 s'.visited, k.marks v (ground arith), here)

  pub Kept-leave :
      (id : K) (s s' : Dfs K) (fin : List K)
      → Inv dec next s fin
      → mark dec s id ≡ 0
      → Kept dec next (enter dec id s) s'
      → Kept dec next s (leave dec id s')
  unfolding enter leave
  Kept-leave id s s' fin h new k = record {
    stack = stack-leave id s s' k;
    path = path-leave id s s' fin h new k;
    marks = marks-leave id s s' fin h new k;
    cycles = k.cycles;
  }

  pub Inv-leave :
      (id : K) (s s' : Dfs K) (fin fin' : List K)
      → Inv dec next s fin
      → mark dec s id ≡ 0
      → Kept dec next (enter dec id s) s'
      → Inv dec next s' fin'
      → (s'.cycles ≡ [] → (v : K) → contains dec (next id) v ≡ true → contains dec fin' v ≡ true)
      → Inv dec next (leave dec id s') (id ∷ fin')
  unfolding enter leave contains
  Inv-leave id s s' fin fin' h new k h' below =
      let same = stack-leave id s s' k in
      let kept = path-leave id s s' fin h new k in
      let m = λ (v : K). get_or-put dec id v 2 0 s'.visited in
      let on : (v : K)
          → contains dec s'.stack v ≡ (contains dec s.stack v || contains dec (id ∷ []) v) =
        λ v. ap (λ l. contains dec l v) k.stack ∙ contains-append dec s.stack (id ∷ []) v in
      let off : contains dec s.stack id ≡ false = ground (arith, h.on_stack id) in
      let undone : contains dec fin' id ≡ false =
        ground (arith, h'.finished id, k.marks id, get_or-put dec id id 1 0 s.visited) in
      record {
        small = λ v. ground (arith, m v, h'.small v);
        on_stack = λ v. ground (
          arith,
          m v,
          h'.on_stack v,
          on v,
          off,
          ap (λ l. contains dec l v) same,
          λ (e : id ≡ v). ap (contains dec s.stack) e,
        );
        finished = λ v. ground (arith, m v, h'.finished v);
        placed = λ v o.
            let o' : contains dec s.stack v ≡ true = ap (λ l. contains dec l v) (sym same) ∙ o in
            let (rest, at) = h.placed v o' in (rest, ap₂ drop (kept v o') same ∙ at);
        walk = subst (IsWalk dec next) (sym same) h.walk;
        sound = h'.sound;
        ranked = λ e. (undone, below e, h'.ranked e);
      }
