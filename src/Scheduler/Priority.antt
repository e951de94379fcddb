-- ===== src/Scheduler/Priority.antt =====
-- pkg/scheduler/steal.go: the scheduler whose ready queue is a heap by priority. It has the maps and
-- the `AddTask` of the plain scheduler, and the number of workers, which nothing reads.
use effective_next.Prelude.{
  ℕ, ◌≡◌, Bool, Option, none, some, List, [], ◌∷◌, String, length, if◌then◌else◌, str_dec, arith,
  ◌+◌, count,
}
use effective_next.Prelude.Int.{ℤ, pos, ltb_ℤ}
use effective_next.Prelude.Maps.{keys, get, length-keys}
use effective_next.Prelude.Sets.{Distinct-of_count, count_le_one, contains_of_eq_count}
use effective_next.Prelude.Heap.{push, init}
use effective_next.Prelude.Heap.Same.{count-init, count-push}
use effective_next.Prelude.Heap.Queue.{heap_queue}
use effective_next.Prelude.Kahn.{State, run}
use effective_next.Prelude.Kahn.Correct.{run_lem}
use effective_next.Scheduler
use effective_next.Scheduler.{Task, Scheduler, all_edges, waiting_on, has_fn, ready, add_task}
use effective_next.Scheduler.Valid.{IsValid}
use effective_next.Scheduler.Launch.{
  IsLaunch, IsDone-IsLaunch, successors, all, network, degrees, contains-ready, Distinct-ready,
}

pub record PriorityScheduler : Type 0 where
  pub base : Scheduler
  pub workers : ℤ

-- `if workers <= 0 { workers = 4 }`
pub new_priority : ℤ → PriorityScheduler
new_priority workers = record {
  base = Scheduler.new;
  workers = if ltb_ℤ (pos 0) workers then workers else pos 4;
}

pub add : Task → PriorityScheduler → PriorityScheduler
add task ps = record ps { base = add_task task ps.base }

pub count_tasks : PriorityScheduler → ℕ
count_tasks ps = Scheduler.task_count ps.base

pub reset : PriorityScheduler → PriorityScheduler
reset ps = record ps { base = Scheduler.clear ps.base }

-- `tasksByID[id].Priority`
unfoldable pub priority_of : List (String × Task) → String → ℤ
priority_of tasks id = elim (get str_dec tasks id) [ none ↦ pos 0 | some t ↦ t.priority ]

-- `pq[i].priority > pq[j].priority`
unfoldable pub less : List (String × Task) → String → String → Bool
unfolding priority_of
less tasks a b = ltb_ℤ (priority_of tasks b) (priority_of tasks a)

-- `for id, deg := range inDegree { … heap.Push … }`
unfoldable pub push_all : (String → String → Bool) → List String → List String → List String
push_all lt [] h = h
push_all lt (id ∷ ids) h = push_all lt ids (push lt id h)

-- The tasks in the order in which their goroutines are started.
unfoldable pub launch_priority : Scheduler → Option (List String)
launch_priority s =
    let lt = less s.tasks in
    let start : State String = record {
      degree = s.in_degree;
      queue = init lt (push_all lt (ready (has_fn s.tasks) s.in_degree) []);
    } in
    run (heap_queue str_dec lt) (has_fn s.tasks) (waiting_on (all_edges s.tasks))
      (length s.in_degree) start

count-push_all :
    (lt : String → String → Bool) (k : String) (ids h : List String)
    → count str_dec k (push_all lt ids h) ≡ count str_dec k ids + count str_dec k h
unfolding push_all
count-push_all lt k [] h = omega arith
count-push_all lt k (id ∷ ids) h =
    ground (arith, count-push_all lt k ids (push lt id h), count-push str_dec lt k id h)

-- The heap that the loop starts from holds the ready tasks.
pub count-start :
    (lt : String → String → Bool) (k : String) (ids : List String)
    → count str_dec k (init lt (push_all lt ids [])) ≡ count str_dec k ids
count-start lt k ids =
    omega (arith, count-init str_dec lt k (push_all lt ids []), count-push_all lt k ids [])

-- `Run` of the priority scheduler ends too, and launches the same tasks under the same promises.
pub launch_priority_lem :
    (s : Scheduler)
    → IsValid s
    → (launched : List String) × (launch_priority s ≡ some launched) × IsLaunch s launched
unfolding launch_priority
launch_priority_lem s valid =
    let lt = less s.tasks in
    let d = heap_queue str_dec lt in
    let first = ready (has_fn s.tasks) s.in_degree in
    let (r, runs, done) =
      run_lem d (has_fn s.tasks) (successors d s valid) (all d s valid) (keys s.in_degree)
        (network d s valid) (length s.in_degree)
        (record { degree = s.in_degree; queue = init lt (push_all lt first []) })
        (omega (arith, length-keys s.in_degree))
        (record {
          degrees = degrees d s valid;
          queued = λ v. ground (
            arith,
            contains_of_eq_count str_dec (init lt (push_all lt first [])) first v
                (count-start lt v first),
            contains-ready (has_fn s.tasks) s.in_degree v valid.distinct_degrees,
            degrees d s valid v,
          );
          distinct_queue = Distinct-of_count str_dec (init lt (push_all lt first [])) (λ v. omega (
            arith,
            count-start lt v first,
            count_le_one str_dec v first
                (Distinct-ready (has_fn s.tasks) s.in_degree valid.distinct_degrees),
          ));
        }) in
    (r, runs, IsDone-IsLaunch d s valid r done)
