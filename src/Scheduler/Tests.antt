-- ===== src/Scheduler/Tests.antt =====
-- A small build of tasks: what scheduler.go and steal.go launch, and the theorems at it.
use effective_next.Prelude.{
  ◌≡◌, refl, true, Option, none, some, List, [], ◌∷◌, String, contains, str_dec, str_le,
}
use effective_next.Prelude.Int.{◌≤ℤ◌, ℤ, pos, negsuc}
use effective_next.Prelude.Maps.{get, get_or, put}
use effective_next.Prelude.Queues.{fifo, take_first, append_last}
use effective_next.Prelude.Kahn.{relax, run}
use effective_next.Prelude.Heap.{
  swap, pop_last, less_at, up, child, down, push, pop, settle, fix, init_from, init,
}
use effective_next.Prelude.Heap.Queue.{heap_queue}
use effective_next.Scheduler
use effective_next.Scheduler.{
  Error, Task, Scheduler, add_deps, add_task, task_count, edges_from, all_edges, waiting_on, has_fn,
  ready, launch,
}
use effective_next.Scheduler.Valid.{IsValid, new-IsValid, add_task-IsValid}
use effective_next.Scheduler.Launch.{IsLaunch, launch_lem}
use effective_next.Scheduler.Urgent.{launch_priority_first}
use effective_next.Scheduler.Priority.{
  priority_of, less, push_all, launch_priority, launch_priority_lem,
}

abbrev task : String → List String → ℤ → Option Error → Task
task id deps priority result = record {
  id = id;
  name = id;
  deps = deps;
  priority = priority;
  fn = some result;
}

-- bundle waits for css and js, and publish for a task that was never added.
abbrev build : Scheduler
build = add_task (task "publish" ("upload" ∷ []) (pos 9) none) (
    add_task (task "bundle" ("css" ∷ "js" ∷ []) (pos 5) none) (
      add_task (task "js" [] (pos 7) (some "syntax error"))
        (add_task (task "css" [] (pos 1) none) Scheduler.new)))

program : Unit {0}
unfolding str_dec str_le get get_or put contains take_first append_last fifo relax run swap pop_last
    less_at up child down push pop settle fix init_from init heap_queue Scheduler.new add_deps
    add_task edges_from all_edges waiting_on has_fn ready launch priority_of less push_all
    launch_priority
program = tt

build-IsValid : IsValid build
build-IsValid = add_task-IsValid (task "publish" ("upload" ∷ []) (pos 9) none) _ (
    add_task-IsValid (task "bundle" ("css" ∷ "js" ∷ []) (pos 5) none) _ (
      add_task-IsValid (task "js" [] (pos 7) (some "syntax error")) _
        (add_task-IsValid (task "css" [] (pos 1) none) Scheduler.new new-IsValid)))

launch-build : launch build ≡ some ("css" ∷ "js" ∷ "bundle" ∷ [])
unfolding program
launch-build = refl

-- The heap starts js first, whose priority is the higher one.
launch_priority-build : launch_priority build ≡ some ("js" ∷ "css" ∷ "bundle" ∷ [])
unfolding program
launch_priority-build = refl

launch_lem_example :
    (launched : List String) × (launch build ≡ some launched) × IsLaunch build launched
launch_lem_example = launch_lem build build-IsValid

launch_priority_lem_example :
    (launched : List String) × (launch_priority build ≡ some launched) × IsLaunch build launched
launch_priority_lem_example = launch_priority_lem build build-IsValid

add_task-IsValid_example : IsValid (add_task (task "deploy" ("publish" ∷ []) (negsuc 0) none) build)
add_task-IsValid_example =
    add_task-IsValid (task "deploy" ("publish" ∷ []) (negsuc 0) none) build build-IsValid

css-ready : contains str_dec (ready (has_fn build.tasks) build.in_degree) "css" ≡ true
unfolding program
css-ready = refl

launch_priority_first_example : priority_of build.tasks "css" ≤ℤ priority_of build.tasks "js"
launch_priority_first_example =
    launch_priority_first build "js" "css" ("css" ∷ "bundle" ∷ []) launch_priority-build css-ready
