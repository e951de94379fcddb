-- ===== src/Prelude/Dfs/Loops.antt =====
-- The loop over the edges of the depth-first search, for a search below it that does what it is to.
use Prim.Native.Nat.{ℕ, zero, suc, ◌≤◌, ◌<◌}
use mathlib.Core.Path.{◌≡◌, refl, sym, ap, ◌∙◌}
use mathlib.Core.Bool.{true}
use mathlib.Core.Option.{Option, some}
use mathlib.Core.List.{List, [], ◌∷◌}
use native.Mathlib.Omega.{arith}
use effective_next.Prelude.Tests.{if◌then◌else◌, ◌==◌}
use effective_next.Prelude.Lists.{contains}
use effective_next.Prelude.Dfs.{Dfs, mark, report, touch, each}
use effective_next.Prelude.Dfs.Walks.{last?}
use effective_next.Prelude.Dfs.Moves.{
  Inv, Kept, Kept-refl, Kept-trans, IsNext, Kept-report, Inv-report, snoc-ne-nil,
}

module _ {K : Type 0} (dec : Discrete K) (next : K → List K) (all : List K) where
  abbrev pub unseen_in : List K → Dfs K → ℕ
  unseen_in [] s = 0
  unseen_in (u ∷ us) s = if mark dec s u == 0 then suc (unseen_in us s) else unseen_in us s

  abbrev pub unseen : Dfs K → ℕ
  unseen s = unseen_in all s

  pub unseen_in-le :
      (us : List K) (s s' : Dfs K)
      → ((v : K) → 0 < mark dec s v → 0 < mark dec s' v)
      → unseen_in us s' ≤ unseen_in us s
  unseen_in-le [] s s' h = omega arith
  unseen_in-le (u ∷ us) s s' h = ground (arith, unseen_in-le us s s' h, h u)

  pub unseen_in-lt :
      (us : List K) (s s' : Dfs K) (id : K)
      → ((v : K) → 0 < mark dec s v → 0 < mark dec s' v)
      → contains dec us id ≡ true
      → mark dec s id ≡ 0
      → 0 < mark dec s' id
      → unseen_in us s' < unseen_in us s
  unfolding contains
  unseen_in-lt [] s s' id h m new now = cc
  unseen_in-lt (u ∷ us) s s' id h m new now = elim (dec u id) [
    | yes e ↦ ground (arith, unseen_in-le us s s' h, ap (mark dec s) e, ap (mark dec s') e)
    | no d ↦ ground (arith, unseen_in-lt us s s' id h (ground arith) new now, h u)
  ]

  -- What a call on `id` comes to.
  pub record IsDone (s : Dfs K) (id : K) (o : Option (Dfs K)) : Type 0 where
    pub state : Dfs K
    pub fin : List K
    pub some_state : o ≡ some state
    pub inv : Inv dec next state fin
    pub kept : Kept dec next s state
    pub done : state.cycles ≡ [] → mark dec state id ≡ 2

  abbrev pub IsVisit : ℕ → (K → Dfs K → Option (Dfs K)) → Type 0
  IsVisit fuel visit =
      (id : K) (s : Dfs K) (fin : List K)
      → Inv dec next s fin
      → mark dec s id ≡ 0
      → IsNext dec next s id
      → contains dec all id ≡ true
      → unseen s ≤ fuel
      → IsDone s id (visit id s)

  touch_lem :
      (fuel : ℕ) (visit : K → Dfs K → Option (Dfs K)) (t : K) (s : Dfs K) (fin : List K) (n : ℕ)
      → IsVisit fuel visit
      → mark dec s t ≡ n
      → Inv dec next s fin
      → IsNext dec next s t
      → contains dec all t ≡ true
      → unseen s ≤ fuel
      → IsDone s t (touch dec visit t s n)
  unfolding touch
  touch_lem fuel visit t s fin zero ok e h tail m l = ok t s fin h e tail m l
  touch_lem fuel visit t s fin (suc zero) ok e h tail m l = record {
    state = report dec t s;
    fin = fin;
    some_state = refl;
    inv = Inv-report dec next t s fin h ((h.on_stack t).0 e) tail;
    kept = Kept-report dec next t s;
    done = λ e'. absurd (snoc-ne-nil dec next s.cycles _ e');
  }
  touch_lem fuel visit t s fin (suc (suc n)) ok e h tail m l = record {
    state = s;
    fin = fin;
    some_state = refl;
    inv = h;
    kept = Kept-refl dec next s;
    done = λ _. omega (arith, h.small t);
  }

  pub record AllDone (s : Dfs K) (ts : List K) (o : Option (Dfs K)) : Type 0 where
    pub state : Dfs K
    pub fin : List K
    pub some_state : o ≡ some state
    pub inv : Inv dec next state fin
    pub kept : Kept dec next s state
    pub done : state.cycles ≡ [] → (t : K) → contains dec ts t ≡ true → mark dec state t ≡ 2

  pub each_lem :
      (fuel : ℕ) (visit : K → Dfs K → Option (Dfs K)) (ts : List K) (s : Dfs K) (fin : List K)
      → IsVisit fuel visit
      → Inv dec next s fin
      → ((t : K) → contains dec ts t ≡ true → IsNext dec next s t × (contains dec all t ≡ true))
      → unseen s ≤ fuel
      → AllDone s ts (each dec visit ts s)
  unfolding each contains
  each_lem fuel visit [] s fin ok h ahead l = record {
    state = s;
    fin = fin;
    some_state = refl;
    inv = h;
    kept = Kept-refl dec next s;
    done = λ e t m. cc;
  }
  each_lem fuel visit (t ∷ ts) s fin ok h ahead l =
      let (tail, m) = ahead t (ground arith) in
      let one = touch_lem fuel visit t s fin (mark dec s t) ok refl h tail m l in
      let rest =
        each_lem fuel visit ts one.state one.fin ok one.inv
          (λ u n. (
            λ x e. (ahead u (ground arith)).0 x (ap last? (sym one.kept.stack) ∙ e),
            (ahead u (ground arith)).1,
          ))
          (omega
            (arith, unseen_in-le all s one.state (λ v p. omega (arith, one.kept.marks v p)))) in
      record {
        state = rest.state;
        fin = rest.fin;
        some_state = rw (one.some_state, each) rest.some_state;
        inv = rest.inv;
        kept = Kept-trans dec next one.kept rest.kept;
        done = λ e u n. elim (dec t u) [
          | yes same ↦
              let two : mark dec one.state t ≡ 2 = one.done (rest.kept.cycles e) in
              ap (mark dec rest.state) (sym same) ∙ rest.kept.marks t (omega (arith, two)) ∙ two
          | no other ↦ rest.done e u (ground arith)
        ];
      }
