-- ===== src/Scheduler/Run/Tests.antt =====
-- A build in which a task fails, and the theorems at the points of a run of it.
use effective_next.Prelude.{
  ℕ, ◌≡◌, refl, true, Option, none, some, List, [], ◌∷◌, String, contains, str_dec, arith,
}
use effective_next.Prelude.Int.{pos}
use effective_next.Prelude.Maps.{get, get_or, put}
use effective_next.Prelude.Queues.{fifo, take_first, append_last}
use effective_next.Prelude.Kahn.{relax, run, loop}
use effective_next.Scheduler
use effective_next.Scheduler.{
  Error, Task, Scheduler, add_deps, add_task, edges_from, all_edges, waiting_on, has_fn, ready,
  launch,
}
use effective_next.Scheduler.Valid.{IsValid, deps_of, new-IsValid, add_task-IsValid}
use effective_next.Scheduler.Run.{
  Runner, begin_run, spawn, end_task, send_error, call, launched, succeeded, failed, Reach, start,
  later, result,
}
use effective_next.Scheduler.Run.Overlap.{Reach-overlaps}

abbrev task : String → List String → Option Error → Task
task id deps answer = record { id = id; name = id; deps = deps; priority = pos 0; fn = some answer }

-- bundle waits for js, whose function fails.
abbrev build : Scheduler
build =
    add_task (task "bundle" ("js" ∷ []) none)
      (add_task (task "js" [] (some "syntax error")) Scheduler.new)

program : Unit {0}
unfolding str_dec get get_or put contains take_first append_last fifo relax run loop Scheduler.new
    add_deps add_task edges_from all_edges waiting_on has_fn ready launch begin_run spawn end_task
    send_error call result
program = tt

build-IsValid : IsValid build
build-IsValid =
    add_task-IsValid (task "bundle" ("js" ∷ []) none) _
      (add_task-IsValid (task "js" [] (some "syntax error")) Scheduler.new new-IsValid)

launch-build : launch build ≡ some ("js" ∷ "bundle" ∷ [])
unfolding program
launch-build = refl

abbrev AtRunner : ℕ → List String → Type 0
AtRunner n ids = (r : Runner) × Reach build n ids r

-- bundle ends before js does.
abbrev over : AtRunner 4 ("js" ∷ "bundle" ∷ [])
unfolding program
over = (
  _,
  later
      (later (later (later start (launched "js" [] refl)) (launched "bundle" [] refl))
        (succeeded ("js" ∷ []) [] "bundle" refl refl))
      (failed [] [] "js" "syntax error" refl refl (omega arith)),
)

over-result : result over.0 ≡ some "syntax error"
unfolding program
over-result = refl

abbrev both : List String
both = "js" ∷ "bundle" ∷ []

bundle_needs_js : contains str_dec (deps_of build.tasks "bundle") "js" ≡ true
unfolding program
bundle_needs_js = refl

Reach-overlaps_example :
    (n : ℕ) × (r : Runner) × Reach build n both r
    × (r.running ≡ both)
    × (contains str_dec r.running "bundle" ≡ true)
    × (contains str_dec r.running "js" ≡ true)
Reach-overlaps_example =
    Reach-overlaps build both "bundle" "js" build-IsValid launch-build bundle_needs_js
      (unfold contains str_dec in refl)
