-- ===== src/Prelude/Queues.antt =====
-- The two ready queues that are slices: `append` at the end, and `append` with `sort.Strings`.
use mathlib.Core.Path.{◌≡◌, refl, ap, subst, ◌∙◌}
use mathlib.Core.Option.{Option, none, some}
use mathlib.Core.List.{List, [], ◌∷◌, ◌++◌}
use native.Mathlib.Omega.{arith}
use effective_next.Prelude.Lists.{contains, contains-snoc, Distinct, Distinct-snoc}
use effective_next.Prelude.Text.{str_dec, str_le}
use effective_next.Prelude.Sort.{sort, contains-sort, Distinct-sort}
use effective_next.Prelude.Kahn.{Discipline}
use Prim.Native.String.{String}

-- `q[0], q[1:]`
unfoldable pub take_first {ℓ} : {K : Type ℓ} → List K → Option (K × List K)
take_first [] = none
take_first (x ∷ q) = some (x, q)

module _ {ℓ} {K : Type ℓ} (dec : Discrete K) where
  unfoldable pub append_last : K → List K → List K
  append_last k q = q ++ k ∷ []

  pub first_none : (q : List K) → take_first q ≡ none → q ≡ []
  unfolding take_first
  first_none [] h = refl
  first_none (x ∷ q) h = cc

  pub first_some : (q : List K) {k : K} {r : List K} → take_first q ≡ some (k, r) → q ≡ k ∷ r
  unfolding take_first
  first_some [] h = cc
  first_some (x ∷ q) h = ground arith

  -- `queue = append(queue, k)`
  unfoldable pub fifo : Discipline dec
  unfolding append_last take_first
  fifo = record {
    push = append_last;
    pop = take_first;
    contains-push = λ k j q. contains-snoc dec q k j;
    Distinct-push = λ k q h. Distinct-snoc dec q k h.1 h.0;
    pop_none = first_none;
    contains-pop = λ q e j. ap (λ l. contains dec l j) (first_some q e);
    Distinct-pop = λ q e h. subst (Distinct dec) (first_some q e) h;
  }

sort_last : String → List String → List String
sort_last k q = sort str_le (q ++ k ∷ [])

-- `queue = append(queue, k); sort.Strings(queue)`
unfoldable pub sorted_fifo : Discipline str_dec
unfolding sort_last take_first
sorted_fifo = record {
  push = sort_last;
  pop = take_first;
  contains-push =
      λ k j q. contains-sort str_dec str_le (q ++ k ∷ []) j ∙ contains-snoc str_dec q k j;
  Distinct-push =
      λ k q h. Distinct-sort str_dec str_le (q ++ k ∷ []) (Distinct-snoc str_dec q k h.1 h.0);
  pop_none = first_none str_dec;
  contains-pop = λ q e j. ap (λ l. contains str_dec l j) (first_some str_dec q e);
  Distinct-pop = λ q e h. subst (Distinct str_dec) (first_some str_dec q e) h;
}
