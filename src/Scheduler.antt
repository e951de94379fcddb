-- ===== src/Scheduler.antt =====
-- pkg/scheduler/scheduler.go: tasks, the maps that `AddTask` fills, and the launch loop of `Run`.
-- A task's function is known by the error that its call returns.
pub mod Valid
pub mod Edges
pub mod Launch
pub mod Run
pub mod Priority
pub mod Urgent
mod Tests
use effective_next.Prelude.{
  ℕ, ◌≡◌, Bool, true, false, not, ◌&&◌, Option, none, some, List, [], ◌∷◌, ◌++◌, map, String,
  length, if◌then◌else◌, ◌==◌, str_dec, ite,
}
use effective_next.Prelude.Int.{ℤ, pos}
use effective_next.Prelude.Maps.{keys, get, get_or, put, has}
use effective_next.Prelude.Queues.{fifo}
use effective_next.Prelude.Kahn.{Discipline, State, run}

abbrev pub Error : Type 0
Error = String

pub record Task : Type 0 where
  pub id : String
  pub name : String
  pub deps : List String
  pub priority : ℤ
  pub fn : Option (Option Error)

pub record Scheduler : Type 0 where
  pub tasks : List (String × Task)
  pub in_degree : List (String × ℕ)

unfoldable pub new : Scheduler
new = record { tasks = []; in_degree = [] }

-- `&Task{ID: dep}`
abbrev pub placeholder : String → Task
placeholder id = record { id = id; name = ""; deps = []; priority = pos 0; fn = none }

-- `if _, ok := s.tasks[dep]; !ok { s.tasks[dep] = &Task{ID: dep} }`
unfoldable pub add_deps : List String → List (String × Task) → List (String × Task)
add_deps [] tasks = tasks
add_deps (dep ∷ deps) tasks =
    add_deps deps (if has str_dec tasks dep then tasks else put str_dec dep (placeholder dep) tasks)

unfoldable pub add_task : Task → Scheduler → Scheduler
unfolding add_deps
add_task task s = record {
  tasks = add_deps task.deps (put str_dec task.id task s.tasks);
  in_degree = put str_dec task.id (length task.deps) s.in_degree;
}

unfoldable pub task_count : Scheduler → ℕ
task_count s = length s.tasks

unfoldable pub clear : Scheduler → Scheduler
clear s = record { tasks = []; in_degree = [] }

-- `type edge struct { dep string; task string }`
pub record DepEdge : Type 0 where
  pub dep : String
  pub task : String

-- `for _, dep := range t.Deps { allEdges = append(allEdges, edge{dep: dep, task: t.ID}) }`
unfoldable pub edges_from : List String → String → List DepEdge
edges_from [] id = []
edges_from (dep ∷ deps) id = record { dep = dep; task = id } ∷ edges_from deps id

unfoldable pub all_edges : List (String × Task) → List DepEdge
unfolding edges_from
all_edges [] = []
all_edges ((_, t) ∷ tasks) = edges_from t.deps t.id ++ all_edges tasks

-- `for _, e := range allEdges { if e.dep == id { … e.task … } }`
unfoldable pub waiting_on : List DepEdge → String → List String
waiting_on [] id = []
waiting_on (e ∷ es) id = ite (str_dec e.dep id) (e.task ∷ waiting_on es id) (waiting_on es id)

-- `tasksByID[id].Fn != nil`
unfoldable pub has_fn : List (String × Task) → String → Bool
has_fn tasks id = elim (get str_dec tasks id) [
  | none ↦ false
  | some t ↦ elim t.fn [ none ↦ false | some _ ↦ true ]
]

-- `if deg == 0 && tasksByID[id].Fn != nil { readyQueue = append(readyQueue, id) }`
unfoldable pub ready : (String → Bool) → List (String × ℕ) → List String
ready eligible [] = []
ready eligible ((id, deg) ∷ m) =
    let rest = ready eligible m in if deg == 0 && eligible id then id ∷ rest else rest

-- The loop over `readyQueue`: the tasks in the order in which their goroutines are started. Each
-- key of the in-degree map is queued once at most.
unfoldable pub launch : Scheduler → Option (List String)
launch s =
    let start : State String = record {
      degree = s.in_degree;
      queue = ready (has_fn s.tasks) s.in_degree;
    } in
    run (fifo str_dec) (has_fn s.tasks) (waiting_on (all_edges s.tasks)) (length s.in_degree) start
