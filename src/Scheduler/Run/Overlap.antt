-- ===== src/Scheduler/Run/Overlap.antt =====
-- A task and what it depends on run at the same time.
use effective_next.Prelude.{
  ℕ, zero, suc, ◌≡◌, ap, sym, ◌∙◌, subst, ◌+◌, true, some, List, [], ◌∷◌, ◌++◌, String, contains,
  str_dec, refl, List-cases, inl, inr,
}
use effective_next.Scheduler.{Scheduler, launch}
use effective_next.Scheduler.Valid.{IsValid, deps_of}
use effective_next.Scheduler.Launch.{launch_lem}
use effective_next.Scheduler.Run.{Runner, begin_run, spawn, launched, Reach, start, later}
use effective_next.Scheduler.Run.Rounds.{
  loop_from, loop_from-take, loop_from-stuck, loop_from-empty, none-some, Reach-loop_from, some_inj,
}

all_there :
    (s : Scheduler) (fuel n : ℕ) (ids all : List String) (r : Runner)
    → Reach s n ids r
    → loop_from s fuel r.loop ids ≡ some all
    → r.running ≡ ids
    → r.loop.queue ≡ []
    → (m : ℕ) × (q : Runner) × Reach s m all q × (q.running ≡ all)
all_there s fuel n ids all r h e same empty =
    let p = some_inj (sym (loop_from-empty s fuel r.loop ids empty) ∙ e) in
    (n, r, subst (λ l. Reach s n l r) p h, same ∙ p)

-- The loop goes through all its rounds while no task ends.
all_running :
    (s : Scheduler) (fuel n : ℕ) (ids all : List String) (r : Runner)
    → Reach s n ids r
    → loop_from s fuel r.loop ids ≡ some all
    → r.running ≡ ids
    → (m : ℕ) × (q : Runner) × Reach s m all q × (q.running ≡ all)
unfolding spawn
all_running s zero n ids all r h e same = elim (List-cases r.loop.queue) [
  | inl empty ↦ all_there s zero n ids all r h e same empty
  | inr (id, rest, q) ↦ absurd (none-some _ all (loop_from-stuck s r id rest ids q) e)
]
all_running s (suc fuel) n ids all r h e same = elim (List-cases r.loop.queue) [
  | inl empty ↦ all_there s (suc fuel) n ids all r h e same empty
  | inr (id, rest, q) ↦
      all_running s fuel (n + 1) (ids ++ id ∷ []) all (spawn s id rest r)
        (later h (launched id rest q)) (sym (loop_from-take s fuel r id rest ids q) ∙ e)
        (ap (λ l. l ++ id ∷ []) same)
]

-- No task waits for its dependencies to end: for a launched task of a well-formed scheduler and any of
-- its dependencies, a run reaches a state in which all that is launched runs, the task and the
-- dependency among it.
pub Reach-overlaps :
    (s : Scheduler) (all : List String) (id dep : String)
    → IsValid s
    → launch s ≡ some all
    → contains str_dec (deps_of s.tasks id) dep ≡ true
    → contains str_dec all id ≡ true
    → (n : ℕ) × (r : Runner) × Reach s n all r
      × (r.running ≡ all)
      × (contains str_dec r.running id ≡ true)
      × (contains str_dec r.running dep ≡ true)
Reach-overlaps s all id dep valid e d k =
    let (listed, e', ok) = launch_lem s valid in
    let same : listed ≡ all = some_inj (sym e' ∙ e) in
    let (fuel, h) = Reach-loop_from all e start in
    let (n, r, reached, running) =
      all_running s fuel 0 [] all (begin_run s) start h (unfold begin_run in refl) in
    let needs = ((ok.exact id).0 (ap (λ l. contains str_dec l id) same ∙ k)).2 dep d in
    (
      n,
      r,
      reached,
      running,
      ap (λ l. contains str_dec l id) running ∙ k,
      ap (λ l. contains str_dec l dep) (running ∙ sym same) ∙ needs,
    )
