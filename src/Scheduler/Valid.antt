-- ===== src/Scheduler/Valid.antt =====
-- The schedulers that `AddTask` builds.
use effective_next.Prelude.{
  ◌≡◌, refl, ap, true, ◌||◌, none, some, List, [], ◌∷◌, String, length, contains, Distinct,
  Bool-cases, inl, inr, str_dec, ite, arith,
}
use effective_next.Prelude.Maps.{
  keys, get, get_or, put, has, get-put, get_or-put, has-put, Distinct-put, get-eq-none_iff,
}
use effective_next.Scheduler.{Task, Scheduler, new, placeholder, add_deps, add_task, clear}

-- `t.Deps` of the task under a key; a missing key has none.
abbrev pub deps_of : List (String × Task) → String → List String
deps_of tasks id = elim (get str_dec tasks id) [ none ↦ [] | some t ↦ t.deps ]

abbrev pub Ids : List (String × Task) → Type 0
Ids [] = Unit
Ids ((k, t) ∷ m) = (t.id ≡ k) × Ids m

pub record IsValid (s : Scheduler) : Type 0 where
  pub ids : Ids s.tasks
  pub distinct_tasks : Distinct str_dec (keys s.tasks)
  pub distinct_degrees : Distinct str_dec (keys s.in_degree)
  pub degrees : (id : String) → get_or str_dec s.in_degree id 0 ≡ length (deps_of s.tasks id)
  pub known :
      (id dep : String)
      → contains str_dec (deps_of s.tasks id) dep ≡ true
      → has str_dec s.tasks dep ≡ true

Ids-put :
    (k : String) (t : Task) (m : List (String × Task)) → t.id ≡ k → Ids m → Ids (put str_dec k t m)
unfolding put
Ids-put k t [] e v = (e, tt)
Ids-put k t ((j, w) ∷ m) e v = ground (arith, Ids-put k t m e v.1)

Ids-add_deps : (deps : List String) (m : List (String × Task)) → Ids m → Ids (add_deps deps m)
unfolding add_deps
Ids-add_deps [] m v = v
Ids-add_deps (d ∷ deps) m v =
    Ids-add_deps deps _ (ground (arith, Ids-put d (placeholder d) m refl v))

Distinct-add_deps :
    (deps : List String) (m : List (String × Task))
    → Distinct str_dec (keys m)
    → Distinct str_dec (keys (add_deps deps m))
unfolding add_deps
Distinct-add_deps [] m v = v
Distinct-add_deps (d ∷ deps) m v =
    Distinct-add_deps deps _ (ground (arith, Distinct-put str_dec d (placeholder d) m v))

-- A placeholder has no dependencies, as a missing key has none.
deps_of-add_deps :
    (deps : List String) (m : List (String × Task)) (id : String)
    → deps_of (add_deps deps m) id ≡ deps_of m id
unfolding add_deps
deps_of-add_deps [] m id = refl
deps_of-add_deps (d ∷ deps) m id = elim (Bool-cases (has str_dec m d)) [
  | inl h ↦ rw h (deps_of-add_deps deps m id)
  | inr h ↦
      let absent : get str_dec m d ≡ none = (get-eq-none_iff str_dec m d).1 h in
      ground (
        arith,
        deps_of-add_deps deps (put str_dec d (placeholder d) m) id,
        get-put str_dec d id (placeholder d) m,
        absent,
        λ (p : d ≡ id). ap (get str_dec m) p,
      )
]

has-add_deps :
    (deps : List String) (m : List (String × Task)) (id : String)
    → has str_dec (add_deps deps m) id ≡ (has str_dec m id || contains str_dec deps id)
unfolding add_deps contains
has-add_deps [] m id = ground arith
has-add_deps (d ∷ deps) m id = elim (Bool-cases (has str_dec m d)) [
  | inl h ↦ ground (arith, has-add_deps deps m id, λ (p : d ≡ id). ap (contains str_dec (keys m)) p)
  | inr h ↦ ground (
    arith,
    has-add_deps deps (put str_dec d (placeholder d) m) id,
    has-put str_dec d id (placeholder d) m,
  )
]

pub new-IsValid : IsValid new
unfolding new get get_or contains
new-IsValid = record {
  ids = tt;
  distinct_tasks = tt;
  distinct_degrees = tt;
  degrees = λ id. refl;
  known = λ id dep h. h;
}

pub clear-IsValid : (s : Scheduler) → IsValid (clear s)
unfolding clear new
clear-IsValid s = new-IsValid

deps_of-put :
    (t : Task) (m : List (String × Task)) (id : String)
    → deps_of (put str_dec t.id t m) id ≡ ite (str_dec t.id id) t.deps (deps_of m id)
deps_of-put t m id = ground (arith, get-put str_dec t.id id t m)

pub add_task-IsValid : (t : Task) (s : Scheduler) → IsValid s → IsValid (add_task t s)
unfolding add_task
add_task-IsValid t s v =
    let m : List (String × Task) = put str_dec t.id t s.tasks in
    record {
      ids = Ids-add_deps t.deps m (Ids-put t.id t s.tasks refl v.ids);
      distinct_tasks =
          Distinct-add_deps t.deps m (Distinct-put str_dec t.id t s.tasks v.distinct_tasks);
      distinct_degrees = Distinct-put str_dec t.id (length t.deps) s.in_degree v.distinct_degrees;
      degrees = λ id. ground (
        arith,
        get_or-put str_dec t.id id (length t.deps) 0 s.in_degree,
        ap (length {A = String}) (deps_of-add_deps t.deps m id),
        ap (length {A = String}) (deps_of-put t s.tasks id),
        v.degrees id,
      );
      known = λ id dep h. ground (
        arith,
        ap (λ l. contains str_dec l dep) (deps_of-add_deps t.deps m id),
        ap (λ l. contains str_dec l dep) (deps_of-put t s.tasks id),
        has-add_deps t.deps m dep,
        has-put str_dec t.id dep t s.tasks,
        v.known id dep,
      );
    }
