-- ===== src/Scheduler/Urgent.antt =====
-- The heap of the priority scheduler hands out the most urgent task.
use effective_next.Prelude.{
  ◌≡◌, refl, ap, true, some, List, [], ◌∷◌, String, length, contains, contains_of_count, count-pos,
  str_dec, arith,
}
use effective_next.Prelude.Int.{◌≤ℤ◌}
use effective_next.Prelude.Sets.{index}
use effective_next.Prelude.Heap.{less_at, push, pop, init}
use effective_next.Prelude.Heap.Place.{get-index, get_elem?-lt, pop_first}
use effective_next.Prelude.Heap.Order.{IsWeakOrder, IsHeap}
use effective_next.Prelude.Heap.Top.{push-IsHeap, init-IsHeap, first_least}
use effective_next.Prelude.Heap.Queue.{heap_queue}
use effective_next.Prelude.Kahn.First.{run_first}
use effective_next.Scheduler.{Task, Scheduler, all_edges, waiting_on, has_fn, ready}
use effective_next.Scheduler.Priority.{priority_of, less, push_all, launch_priority, count-start}

less-IsWeakOrder : (tasks : List (String × Task)) → IsWeakOrder (less tasks)
unfolding less
less-IsWeakOrder tasks = record {
  asym = λ a b h. ground (arith, h);
  trans = λ a b c h k. ground (arith, h, k);
}

push_all-IsHeap :
    (tasks : List (String × Task)) (ids h : List String)
    → IsHeap (less tasks) (less-IsWeakOrder tasks) (length h) h
    → IsHeap
        (less tasks)
        (less-IsWeakOrder tasks)
        (length (push_all (less tasks) ids h))
        (push_all (less tasks) ids h)
unfolding push_all
push_all-IsHeap tasks [] h v = v
push_all-IsHeap tasks (id ∷ ids) h v =
    push_all-IsHeap tasks ids (push (less tasks) id h)
      (push-IsHeap (less tasks) (less-IsWeakOrder tasks) id h v)

-- What a heap hands out is as urgent as any of its elements.
pop_urgent :
    (tasks : List (String × Task)) (h r : List String) (id other : String)
    → IsHeap (less tasks) (less-IsWeakOrder tasks) (length h) h
    → pop (less tasks) h ≡ some (id, r)
    → contains str_dec h other ≡ true
    → priority_of tasks other ≤ℤ priority_of tasks id
unfolding less_at less contains
pop_urgent tasks [] r id other v e m = absurd cc
pop_urgent tasks (x ∷ h) r id other v e m =
    let at = get-index str_dec (x ∷ h) other m in
    let i = index str_dec (x ∷ h) other in
    let (r', top) = pop_first (less tasks) (x ∷ h) x refl in
    let same : x ≡ id = ground (arith, e, top) in
    let low =
      first_least (less tasks) (less-IsWeakOrder tasks) i i (x ∷ h) v (omega arith)
        (get_elem?-lt (x ∷ h) i at) in
    ground (arith, at, low, ap (priority_of tasks) same)

-- The first task that `Run` of the priority scheduler starts has the highest priority of all tasks that
-- are ready at the start.
pub launch_priority_first :
    (s : Scheduler) (id other : String) (rest : List String)
    → launch_priority s ≡ some (id ∷ rest)
    → contains str_dec (ready (has_fn s.tasks) s.in_degree) other ≡ true
    → priority_of s.tasks other ≤ℤ priority_of s.tasks id
unfolding launch_priority heap_queue
launch_priority_first s id other rest e m =
    let lt = less s.tasks in
    let first = ready (has_fn s.tasks) s.in_degree in
    let h = init lt (push_all lt first []) in
    let (q, p) =
      run_first (heap_queue str_dec lt) (has_fn s.tasks) (waiting_on (all_edges s.tasks))
        (length s.in_degree) (record { degree = s.in_degree; queue = h }) id rest e in
    pop_urgent s.tasks h q id other
      (init-IsHeap lt (less-IsWeakOrder s.tasks) (push_all lt first [])
        (push_all-IsHeap s.tasks first [] (λ k pos below. absurd (omega arith))))
      p
      (contains_of_count str_dec other h
        (omega (arith, count-start lt other first, count-pos str_dec other first m)))
