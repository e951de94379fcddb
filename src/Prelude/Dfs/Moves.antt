-- ===== src/Prelude/Dfs/Moves.antt =====
-- What the depth-first search keeps when it enters a key and when it leaves it.
use Prim.Native.Nat.{◌≤◌, ◌<◌}
use mathlib.Core.Path.{◌≡◌, refl, sym, subst, ap, ◌∙◌}
use mathlib.Core.Logic.{◌↔◌, inl, inr}
use mathlib.Core.Bool.{true, false}
use mathlib.Core.Option.{some}
use mathlib.Core.List.{List, [], ◌∷◌, ◌++◌, Memᴰ}
use mathlib.Core.List.Memᴰ.{append_cases, eq_of_singleton}
use native.Mathlib.Omega.{arith}
use effective_next.Prelude.Lists.{length, contains, contains-append}
use effective_next.Prelude.Maps.{get_or, get_or-put}
use effective_next.Prelude.Dfs.{Dfs, drop, mark, enter, report}
use effective_next.Prelude.Dfs.Walks.{
  last?, last?-snoc, drop-length, drop-append, last?-drop, IsWalk, IsCycle, IsWalk-snoc,
  IsWalk-drop,
}

module _ {K : Type 0} (dec : Discrete K) (next : K → List K) where
  -- The keys that are done, the last one first: what one leads to was done before it.
  abbrev pub Ranked : List K → Type 0
  Ranked [] = Unit
  Ranked (u ∷ us) =
      (contains dec us u ≡ false)
      × ((v : K) → contains dec (next u) v ≡ true → contains dec us v ≡ true)
      × Ranked us

  pub record Inv (s : Dfs K) (fin : List K) : Type 0 where
    pub small : (v : K) → mark dec s v ≤ 2
    pub on_stack : (v : K) → (mark dec s v ≡ 1) ↔ (contains dec s.stack v ≡ true)
    pub finished : (v : K) → (mark dec s v ≡ 2) ↔ (contains dec fin v ≡ true)
    pub placed :
        (v : K)
        → contains dec s.stack v ≡ true
        → (rest : List K) × (drop (get_or dec s.path v 0) s.stack ≡ v ∷ rest)
    pub walk : IsWalk dec next s.stack
    pub sound : (c : List K) → Memᴰ c s.cycles → IsCycle dec next c
    pub ranked : s.cycles ≡ [] → Ranked fin

  -- What a call leaves as it was.
  pub record Kept (s s' : Dfs K) : Type 0 where
    pub stack : s'.stack ≡ s.stack
    pub path :
        (v : K) → contains dec s.stack v ≡ true → get_or dec s'.path v 0 ≡ get_or dec s.path v 0
    pub marks : (v : K) → 0 < mark dec s v → mark dec s' v ≡ mark dec s v
    pub cycles : s'.cycles ≡ [] → s.cycles ≡ []

  pub Kept-refl : (s : Dfs K) → Kept s s
  Kept-refl s = record { stack = refl; path = λ v m. refl; marks = λ v m. refl; cycles = λ e. e }

  pub Kept-trans : {s t u : Dfs K} → Kept s t → Kept t u → Kept s u
  Kept-trans a b = record {
    stack = b.stack ∙ a.stack;
    path = λ v m. b.path v (ap (λ l. contains dec l v) a.stack ∙ m) ∙ a.path v m;
    marks = λ v m. b.marks v (omega (arith, a.marks v m)) ∙ a.marks v m;
    cycles = λ e. a.cycles (b.cycles e);
  }

  -- The top of the stack leads to the key.
  abbrev pub IsNext : Dfs K → K → Type 0
  IsNext s v = (x : K) → last? s.stack ≡ some x → contains dec (next x) v ≡ true

  pub Inv-enter :
      (id : K) (s : Dfs K) (fin : List K)
      → Inv s fin
      → mark dec s id ≡ 0
      → IsNext s id
      → Inv (enter dec id s) fin
  unfolding enter contains
  Inv-enter id s fin h new tail =
      let off : ¬ (contains dec s.stack id ≡ true) =
        λ m. absurd (omega (arith, (h.on_stack id).1 m)) in
      let m = λ (v : K). get_or-put dec id v 1 0 s.visited in
      record {
        small = λ v. ground (arith, m v, h.small v);
        on_stack = λ v. ground (arith, m v, h.on_stack v, contains-append dec s.stack (id ∷ []) v);
        finished = λ v. ground (arith, m v, h.finished v, new, λ (e : id ≡ v). ap (mark dec s) e);
        placed = λ v on. elim (dec id v) [
          | yes e ↦ (
            [],
            ap (λ n. drop n (s.stack ++ id ∷ []))
                  (ground (arith, get_or-put dec id v (length s.stack) 0 s.path))
                ∙ drop-length s.stack (id ∷ [])
                ∙ ap (λ x. x ∷ []) e,
          )
          | no d ↦
              let (rest, at) =
                h.placed v (ground (arith, contains-append dec s.stack (id ∷ []) v)) in
              (
                rest ++ id ∷ [],
                ap (λ n. drop n (s.stack ++ id ∷ []))
                      (ground (arith, get_or-put dec id v (length s.stack) 0 s.path))
                    ∙ drop-append (get_or dec s.path v 0) s.stack (id ∷ []) v rest at,
              )
        ];
        walk = IsWalk-snoc dec next s.stack id h.walk tail;
        sound = h.sound;
        ranked = h.ranked;
      }

  pub snoc-ne-nil : (cs : List (List K)) (c : List K) → ¬ (cs ++ c ∷ [] ≡ [])
  snoc-ne-nil [] c e = cc
  snoc-ne-nil (d ∷ cs) c e = cc

  pub Kept-report : (t : K) (s : Dfs K) → Kept s (report dec t s)
  unfolding report
  Kept-report t s = record {
    stack = refl;
    path = λ v m. refl;
    marks = λ v m. refl;
    cycles = λ e. absurd (snoc-ne-nil s.cycles _ e);
  }

  IsCycle-report :
      (t : K) (s : Dfs K) (fin : List K)
      → Inv s fin
      → contains dec s.stack t ≡ true
      → IsNext s t
      → IsCycle dec next (drop (get_or dec s.path t 0) s.stack ++ t ∷ [])
  IsCycle-report t s fin h on tail =
      let n = get_or dec s.path t 0 in
      let (rest, at) = h.placed t on in
      record {
        first = t;
        rest = rest ++ t ∷ [];
        whole = ap (λ l. l ++ t ∷ []) at;
        closed = last?-snoc rest t;
        walk =
            IsWalk-snoc dec next (drop n s.stack) t (IsWalk-drop dec next n s.stack h.walk)
              (λ x e. tail x (sym (last?-drop n s.stack t rest at) ∙ ap last? (sym at) ∙ e));
      }

  pub Inv-report :
      (t : K) (s : Dfs K) (fin : List K)
      → Inv s fin
      → contains dec s.stack t ≡ true
      → IsNext s t
      → Inv (report dec t s) fin
  unfolding report
  Inv-report t s fin h on tail = record {
    small = h.small;
    on_stack = h.on_stack;
    finished = h.finished;
    placed = h.placed;
    walk = h.walk;
    sound = λ c m. elim (append_cases s.cycles m) [
      | inl old ↦ h.sound c old
      | inr new ↦
          subst (IsCycle dec next) (sym (eq_of_singleton new)) (IsCycle-report t s fin h on tail)
    ];
    ranked = λ e. absurd (snoc-ne-nil s.cycles _ e);
  }
