-- ===== src/Scheduler/Launch.antt =====
-- What `Run` launches: the runnable tasks whose dependencies are all launched, behind them.
use effective_next.Prelude.{
  ℕ, ◌<◌, ◌≡◌, refl, ap, sym, ◌∙◌, ◌↔◌, Bool, true, ◌&&◌, some, List, [], ◌∷◌, String, length,
  length-pos, contains, Distinct, ◌==◌, Bool-cases, inl, inr, str_dec, arith,
}
use effective_next.Prelude.Maps.{keys, get_or, has, length-keys, get_or_absent}
use effective_next.Prelude.Sets.{index}
use effective_next.Prelude.Queues.{fifo}
use effective_next.Prelude.Kahn.{Discipline, incoming, done_of_incoming_zero, incoming_zero}
use effective_next.Prelude.Kahn.Correct.{IsNetwork, IsDone, run_lem, index-lt}
use effective_next.Scheduler.{Scheduler, all_edges, waiting_on, has_fn, ready, launch}
use effective_next.Scheduler.Valid.{IsValid, deps_of}
use effective_next.Scheduler.Edges.{
  edge_sum, edge_sum-heads, count-all_edges, waiting_on-deps_of, From-all_edges,
}

contains-ready-le :
    (eligible : String → Bool) (m : List (String × ℕ)) (v : String)
    → contains str_dec (ready eligible m) v ≡ true
    → has str_dec m v ≡ true
unfolding ready contains
contains-ready-le eligible [] v h = h
contains-ready-le eligible ((id, n) ∷ m) v h = ground (arith, contains-ready-le eligible m v)

pub contains-ready :
    (eligible : String → Bool) (m : List (String × ℕ)) (v : String)
    → Distinct str_dec (keys m)
    → contains str_dec (ready eligible m) v
      ≡ (has str_dec m v && (eligible v && get_or str_dec m v 0 == 0))
unfolding ready contains get_or
contains-ready eligible [] v d = refl
contains-ready eligible ((id, n) ∷ m) v d = ground (
  arith,
  contains-ready eligible m v d.1,
  contains-ready-le eligible m id,
  λ (p : id ≡ v). ap (contains str_dec (ready eligible m)) p,
  λ (p : id ≡ v). ap (contains str_dec (keys m)) p,
  λ (p : id ≡ v). ap eligible p,
)

pub Distinct-ready :
    (eligible : String → Bool) (m : List (String × ℕ))
    → Distinct str_dec (keys m)
    → Distinct str_dec (ready eligible m)
unfolding ready
Distinct-ready eligible [] d = tt
Distinct-ready eligible ((id, n) ∷ m) d =
    ground (arith, Distinct-ready eligible m d.1, contains-ready-le eligible m id)

-- What the list of launched tasks promises.
pub record IsLaunch (s : Scheduler) (launched : List String) : Type 0 where
  -- A task is launched exactly if it was added, has a function, and all that it depends on is.
  pub exact :
      (id : String)
      → (contains str_dec launched id ≡ true) ↔ (
          (has str_dec s.in_degree id ≡ true)
          × (has_fn s.tasks id ≡ true)
          × ((dep : String)
              → contains str_dec (deps_of s.tasks id) dep ≡ true
              → contains str_dec launched dep ≡ true))
  pub distinct : Distinct str_dec launched
  pub behind :
      (id dep : String)
      → contains str_dec (deps_of s.tasks id) dep ≡ true
      → contains str_dec launched id ≡ true
      → index str_dec launched dep < index str_dec launched id

-- The laws of the launch loop, for a ready queue of any discipline.
module _ (d : Discipline str_dec) (s : Scheduler) (valid : IsValid s) where
  abbrev pub successors : String → List String
  successors = waiting_on (all_edges s.tasks)

  abbrev pub all : List String
  all = keys s.tasks

  waits :
      (u v : String) → contains str_dec (successors u) v ≡ contains str_dec (deps_of s.tasks v) u
  waits u v = waiting_on-deps_of s.tasks u v valid.ids valid.distinct_tasks

  has_degree :
      (v u : String)
      → contains str_dec (deps_of s.tasks v) u ≡ true
      → has str_dec s.in_degree v ≡ true
  has_degree v u h = elim (Bool-cases (has str_dec s.in_degree v)) [
    | inl m ↦ m
    | inr m ↦ absurd (
        omega (
          arith,
          get_or_absent str_dec s.in_degree v 0 m,
          valid.degrees v,
          length-pos str_dec (deps_of s.tasks v) u h,
        ))
  ]

  pub network : IsNetwork d (has_fn s.tasks) successors all (keys s.in_degree)
  network = record {
    distinct = valid.distinct_tasks;
    sources = λ u v h. valid.known v u (sym (waits u v) ∙ h);
    targets = λ u v h. has_degree v u (sym (waits u v) ∙ h);
  }

  incoming-edge_sum :
      (us : List String) (v : String)
      → incoming d (has_fn s.tasks) successors us [] v ≡ edge_sum (all_edges s.tasks) us v
  unfolding contains
  incoming-edge_sum [] v = refl
  incoming-edge_sum (u ∷ us) v = omega (arith, incoming-edge_sum us v)

  pub degrees :
      (v : String)
      → get_or str_dec s.in_degree v 0 ≡ incoming d (has_fn s.tasks) successors all [] v
  degrees v = omega (
    arith,
    valid.degrees v,
    incoming-edge_sum all v,
    edge_sum-heads (all_edges s.tasks) all v valid.distinct_tasks
        (From-all_edges s.tasks all valid.distinct_tasks valid.known),
    count-all_edges s.tasks v valid.ids valid.distinct_tasks,
  )

  pub IsDone-IsLaunch :
      (r : List String)
      → IsDone d (has_fn s.tasks) successors all (keys s.in_degree) r
      → IsLaunch s r
  IsDone-IsLaunch r done = record {
    exact = λ id. (
      λ h.
          let (k, f, z) : (has str_dec s.in_degree id ≡ true)
              × (has_fn s.tasks id ≡ true)
              × (incoming d (has_fn s.tasks) successors all r id ≡ 0) =
            ground (arith, done.exact id) in
          (
            k,
            f,
            λ dep e.
                done_of_incoming_zero d (has_fn s.tasks) successors all r dep id z
                  (valid.known id dep e) (waits dep id ∙ e),
          ),
      λ (k, f, deps). ground (
        arith,
        done.exact id,
        incoming_zero d (has_fn s.tasks) successors all r id (λ u e. deps u (sym (waits u id) ∙ e)),
      ),
    );
    distinct = done.distinct;
    behind = λ id dep e h.
        elim (index-lt d (has_fn s.tasks) successors [] r dep id done.ordered h
          (waits dep id ∙ e)) [ inl early ↦ absurd (unfold contains in cc) | inr later ↦ later ];
  }

-- `Run` of the plain scheduler ends, and launches exactly the tasks that were added, have a
-- function and whose dependencies are all launched; each once, and behind its dependencies.
pub launch_lem :
    (s : Scheduler)
    → IsValid s
    → (launched : List String) × (launch s ≡ some launched) × IsLaunch s launched
unfolding launch
launch_lem s valid =
    let d = fifo str_dec in
    let (r, runs, done) =
      run_lem d (has_fn s.tasks) (successors d s valid) (all d s valid) (keys s.in_degree)
        (network d s valid) (length s.in_degree)
        (record { degree = s.in_degree; queue = ready (has_fn s.tasks) s.in_degree })
        (omega (arith, length-keys s.in_degree))
        (record {
          degrees = degrees d s valid;
          queued = λ v. ground (
            arith,
            contains-ready (has_fn s.tasks) s.in_degree v valid.distinct_degrees,
            degrees d s valid v,
          );
          distinct_queue = Distinct-ready (has_fn s.tasks) s.in_degree valid.distinct_degrees;
        }) in
    (r, runs, IsDone-IsLaunch d s valid r done)
