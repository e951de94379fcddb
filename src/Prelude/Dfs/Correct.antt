-- ===== src/Prelude/Dfs/Correct.antt =====
-- With a round of fuel for each key the depth-first search ends, and it reports a cycle exactly if
-- there is one.
use Prim.Native.Nat.{ℕ, zero, suc, ◌≤◌, ◌<◌}
use mathlib.Core.Path.{◌≡◌, refl, sym, subst, ap, ◌∙◌}
use mathlib.Core.Bool.{true, false}
use mathlib.Core.Option.{some}
use mathlib.Core.List.{List, [], ◌∷◌, Memᴰ}
use mathlib.Core.List.Memᴰ.{not-nil}
use native.Mathlib.Omega.{arith}
use effective_next.Prelude.Lists.{length, contains}
use effective_next.Prelude.Maps.{get_or, get_or-put}
use effective_next.Prelude.Dfs.{Dfs, mark, enter, leave, dfs, dfs_new, dfs_all, start}
use effective_next.Prelude.Dfs.Walks.{last?, last?-snoc, IsCycle}
use effective_next.Prelude.Dfs.Moves.{Ranked, Inv, Kept-refl, Kept-trans, IsNext, Inv-enter}
use effective_next.Prelude.Dfs.Leave.{Kept-leave, Inv-leave}
use effective_next.Prelude.Dfs.Loops.{
  unseen_in, unseen, unseen_in-le, unseen_in-lt, IsDone, IsVisit, AllDone, each_lem,
}

module _ {K : Type 0} (dec : Discrete K) (next : K → List K) where
  -- What a search from `ids` reports: closed walks only, and none only if each key can be listed
  -- before those that it leads to.
  pub record IsFound (ids : List K) (cycles : List (List K)) : Type 0 where
    pub sound : (c : List K) → Memᴰ c cycles → IsCycle dec next c
    pub order :
        cycles ≡ []
        → (fin : List K) × ((id : K) → contains dec ids id ≡ true → contains dec fin id ≡ true)
          × Ranked dec next fin

module _ {K : Type 0} (dec : Discrete K) (next : K → List K) (all : List K) where
  module _ (covers : (u v : K) → contains dec (next u) v ≡ true → contains dec all v ≡ true) where
    seen-enter : (id : K) (s : Dfs K) (v : K) → 0 < mark dec s v → 0 < mark dec (enter dec id s) v
    unfolding enter
    seen-enter id s v p = ground (arith, get_or-put dec id v 1 0 s.visited)

    unseen-enter :
        (id : K) (s : Dfs K)
        → mark dec s id ≡ 0
        → contains dec all id ≡ true
        → unseen dec next all (enter dec id s) < unseen dec next all s
    unfolding enter
    unseen-enter id s new m =
        unseen_in-lt dec next all all s (enter dec id s) id (seen-enter id s) m new
          (ground (arith, get_or-put dec id id 1 0 s.visited))

    ahead-enter :
        (id : K) (s : Dfs K) (t : K)
        → contains dec (next id) t ≡ true
        → IsNext dec next (enter dec id s) t × (contains dec all t ≡ true)
    unfolding enter
    ahead-enter id s t n = (
      λ x e.
          subst (λ y. contains dec (next y) t ≡ true) (some_same (sym (last?-snoc s.stack id) ∙ e))
            n,
      covers id t n,
    )
      where
        some_same : {x y : K} → some x ≡ some y → x ≡ y
        some_same e = cc

    dfs_lem : (fuel : ℕ) → IsVisit dec next all fuel (dfs dec next fuel)
    unfolding dfs leave
    dfs_lem zero id s fin h new tail m l = absurd (omega (arith, unseen-enter id s new m))
    dfs_lem (suc fuel) id s fin h new tail m l =
        let inner =
          each_lem dec next all fuel (dfs dec next fuel) (next id) (enter dec id s) fin
            (dfs_lem fuel) (Inv-enter dec next id s fin h new tail) (ahead-enter id s)
            (omega (arith, unseen-enter id s new m)) in
        record {
          state = leave dec id inner.state;
          fin = id ∷ inner.fin;
          some_state = rw (inner.some_state, dfs) refl;
          inv =
              Inv-leave dec next id s inner.state fin inner.fin h new inner.kept inner.inv
                (λ e v n. (inner.inv.finished v).0 (inner.done e v n));
          kept = Kept-leave dec next id s inner.state fin h new inner.kept;
          done = λ _. ground (arith, get_or-put dec id id 2 0 inner.state.visited);
        }

    IsNext-bottom : (s : Dfs K) (id : K) → s.stack ≡ [] → IsNext dec next s id
    IsNext-bottom s id e x l = cc (ap last? e)

    dfs_new_lem :
        (fuel : ℕ) (id : K) (s : Dfs K) (fin : List K) (n : ℕ)
        → mark dec s id ≡ n
        → Inv dec next s fin
        → s.stack ≡ []
        → contains dec all id ≡ true
        → unseen dec next all s ≤ fuel
        → IsDone dec next all s id (dfs_new dec next fuel id s n)
    unfolding dfs_new
    dfs_new_lem fuel id s fin zero e h empty m l =
        dfs_lem fuel id s fin h e (IsNext-bottom s id empty) m l
    dfs_new_lem fuel id s fin (suc n) e h empty m l = record {
      state = s;
      fin = fin;
      some_state = refl;
      inv = h;
      kept = Kept-refl dec next s;
      done = λ _.
          let off = (h.on_stack id).0 in
          ground (arith, h.small id, off, ap (λ l. contains dec l id) empty, nothing id);
    }
      where
        nothing : (v : K) → contains dec [] v ≡ false
        nothing v = unfold contains in refl

    dfs_all_lem :
        (fuel : ℕ) (ids : List K) (s : Dfs K) (fin : List K)
        → Inv dec next s fin
        → s.stack ≡ []
        → ((id : K) → contains dec ids id ≡ true → contains dec all id ≡ true)
        → unseen dec next all s ≤ fuel
        → AllDone dec next all s ids (dfs_all dec next fuel ids s)
    unfolding dfs_all contains
    dfs_all_lem fuel [] s fin h empty known l = record {
      state = s;
      fin = fin;
      some_state = refl;
      inv = h;
      kept = Kept-refl dec next s;
      done = λ e t m. cc;
    }
    dfs_all_lem fuel (id ∷ ids) s fin h empty known l =
        let one =
          dfs_new_lem fuel id s fin (mark dec s id) refl h empty (known id (ground arith)) l in
        let rest =
          dfs_all_lem fuel ids one.state one.fin one.inv (one.kept.stack ∙ empty)
            (λ u n. known u (ground arith))
            (omega (
              arith,
              unseen_in-le dec next all all s one.state (λ v p. omega (arith, one.kept.marks v p)),
            )) in
        record {
          state = rest.state;
          fin = rest.fin;
          some_state = rw (one.some_state, dfs_all) rest.some_state;
          inv = rest.inv;
          kept = Kept-trans dec next one.kept rest.kept;
          done = λ e u n. elim (dec id u) [
            | yes same ↦
                let two : mark dec one.state id ≡ 2 = one.done (rest.kept.cycles e) in
                ap (mark dec rest.state) (sym same) ∙ rest.kept.marks id (omega (arith, two)) ∙ two
            | no other ↦ rest.done e u (ground arith)
          ];
        }

    unseen_in-length : (us : List K) (s : Dfs K) → unseen_in dec next all us s ≤ length us
    unseen_in-length [] s = omega arith
    unseen_in-length (u ∷ us) s = ground (arith, unseen_in-length us s)

    Inv-start : Inv dec next start []
    unfolding start contains get_or
    Inv-start = record {
      small = λ v. omega arith;
      on_stack = λ v. (λ e. absurd (omega arith), λ m. cc);
      finished = λ v. (λ e. absurd (omega arith), λ m. cc);
      placed = λ v m. cc;
      walk = tt;
      sound = λ c m. absurd (not-nil m);
      ranked = λ _. tt;
    }

    pub search_lem :
        (fuel : ℕ) (ids : List K)
        → length all ≤ fuel
        → ((id : K) → contains dec ids id ≡ true → contains dec all id ≡ true)
        → (s : Dfs K) × (dfs_all dec next fuel ids start ≡ some s) × IsFound dec next ids s.cycles
    search_lem fuel ids l known =
        let r =
          dfs_all_lem fuel ids start [] Inv-start (unfold start in refl) known
            (omega (arith, unseen_in-length all start)) in
        (
          r.state,
          r.some_state,
          record {
            sound = r.inv.sound;
            order = λ e. (r.fin, λ id m. (r.inv.finished id).0 (r.done e id m), r.inv.ranked e);
          },
        )
