-- ===== src/Scheduler/Run.antt =====
-- `Run` of pkg/scheduler/scheduler.go as steps: the loop over the ready queue starts a goroutine and
-- lowers the in-degrees, and each goroutine calls its function, sends its error and ends. The steps of
-- the loop and of the goroutines come in any order.
pub mod Rounds
pub mod Kept
pub mod Ends
pub mod Overlap
mod Tests
use effective_next.Prelude.{
  ℕ, ◌+◌, ◌<◌, ◌≡◌, Option, none, some, List, [], ◌∷◌, ◌++◌, String, length, str_dec,
}
use effective_next.Prelude.Maps.{get}
use effective_next.Prelude.Queues.{fifo}
use effective_next.Prelude.Kahn.{State, relax}
use effective_next.Scheduler.{Error, Task, Scheduler, all_edges, waiting_on, has_fn, ready}

-- The in-degrees and the ready queue, the goroutines that have not ended, and what `errCh` holds.
pub record Runner : Type 0 where
  pub loop : State String
  pub running : List String
  pub errors : List Error

unfoldable pub begin_run : Scheduler → Runner
begin_run s = record {
  loop = record { degree = s.in_degree; queue = ready (has_fn s.tasks) s.in_degree };
  running = [];
  errors = [];
}

-- One round of the loop: `go func(t *Task) { … }(task)`, then the in-degrees.
unfoldable pub spawn : Scheduler → String → List String → Runner → Runner
spawn s id rest r = record r {
  loop =
      relax (fifo str_dec) (has_fn s.tasks) (record { degree = r.loop.degree; queue = rest })
        (waiting_on (all_edges s.tasks) id);
  running = r.running ++ id ∷ [];
}

-- The goroutine between `before` and `after` ends.
unfoldable pub end_task : List String → List String → Runner → Runner
end_task before after r = record r { running = before ++ after }

-- `errCh <- err`
unfoldable pub send_error : Error → Runner → Runner
send_error e r = record r { errors = r.errors ++ e ∷ [] }

-- What the call of the function of a task gives, if it is in the map and has one.
unfoldable pub call : List (String × Task) → String → Option (Option Error)
call tasks id = elim (get str_dec tasks id) [ none ↦ none | some t ↦ t.fn ]

-- The channel holds as many errors as there are tasks; a send to a full one waits.
pub data Step (s : Scheduler) (r : Runner) : Runner → List String → Type 0 where
  launched :
      (id : String) (rest : List String)
      → r.loop.queue ≡ id ∷ rest
      → Step s r (spawn s id rest r) (id ∷ [])
  succeeded :
      (before after : List String) (id : String)
      → r.running ≡ before ++ id ∷ after
      → call s.tasks id ≡ some none
      → Step s r (end_task before after r) []
  failed :
      (before after : List String) (id : String) (e : Error)
      → r.running ≡ before ++ id ∷ after
      → call s.tasks id ≡ some (some e)
      → length r.errors < length s.tasks
      → Step s r (end_task before after (send_error e r)) []

-- Reached in a number of steps, with the tasks launched on the way, in their order.
pub data Reach (s : Scheduler) : ℕ → List String → Runner → Type 0 where
  start : Reach s 0 [] (begin_run s)
  later :
      {n : ℕ} {ids more : List String} {r q : Runner}
      → Reach s n ids r
      → Step s r q more
      → Reach s (n + 1) (ids ++ more) q

-- After `wg.Wait()`: the first of the errors.
unfoldable pub result : Runner → Option Error
result r = elim r.errors [ [] ↦ none | e ∷ _ ↦ some e ]
