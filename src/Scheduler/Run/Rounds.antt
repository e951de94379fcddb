-- ===== src/Scheduler/Run/Rounds.antt =====
-- The rounds of the launch loop, one by one.
use effective_next.Prelude.{
  ℕ, zero, suc, ◌≡◌, refl, ap, sym, ◌∙◌, Option, some, none, List, [], ◌∷◌, ◌++◌, append-nil,
  append_assoc, String, str_dec, length, List-cases, inl, inr,
}
use effective_next.Prelude.Queues.{fifo, take_first}
use effective_next.Prelude.Kahn.{State, loop, run}
use effective_next.Scheduler.{Scheduler, all_edges, waiting_on, has_fn, launch}
use effective_next.Scheduler.Run.{
  Runner, begin_run, spawn, end_task, send_error, launched, succeeded, failed, Reach, start, later,
}

-- The rest of the launch loop.
abbrev pub loop_from : Scheduler → ℕ → State String → List String → Option (List String)
loop_from s fuel q ids =
    loop (fifo str_dec) (has_fn s.tasks) (waiting_on (all_edges s.tasks)) fuel q ids

pub loop_from-take :
    (s : Scheduler) (fuel : ℕ) (r : Runner) (id : String) (rest ids : List String)
    → r.loop.queue ≡ id ∷ rest
    → loop_from s (suc fuel) r.loop ids ≡ loop_from s fuel (spawn s id rest r).loop (ids ++ id ∷ [])
unfolding loop fifo take_first spawn
loop_from-take s fuel r id rest ids e = rw (e, loop, fifo, take_first) refl

pub loop_from-stuck :
    (s : Scheduler) (r : Runner) (id : String) (rest ids : List String)
    → r.loop.queue ≡ id ∷ rest
    → loop_from s zero r.loop ids ≡ none
unfolding loop fifo take_first
loop_from-stuck s r id rest ids e = rw (e, loop, fifo, take_first) refl

pub loop_from-empty :
    (s : Scheduler) (fuel : ℕ) (q : State String) (ids : List String)
    → q.queue ≡ []
    → loop_from s fuel q ids ≡ some ids
unfolding loop fifo take_first
loop_from-empty s zero q ids e = rw (e, loop, fifo, take_first) refl
loop_from-empty s (suc fuel) q ids e = rw (e, loop, fifo, take_first) refl

pub some_inj : {a b : List String} → some a ≡ some b → a ≡ b
some_inj e = cc

pub none-some : (x : Option (List String)) (all : List String) → x ≡ none → ¬ (x ≡ some all)
none-some x all h e = cc

-- What is launched up to now is the beginning of what `launch` lists.
pub loop_from-extends :
    (s : Scheduler) (fuel : ℕ) (r : Runner) (ids all : List String)
    → loop_from s fuel r.loop ids ≡ some all
    → (more : List String) × (all ≡ ids ++ more)
loop_from-extends s zero r ids all e = elim (List-cases r.loop.queue) [
  | inl q ↦ ([], some_inj (sym e ∙ loop_from-empty s zero r.loop ids q) ∙ sym (append-nil ids))
  | inr (id, rest, q) ↦ absurd (none-some _ all (loop_from-stuck s r id rest ids q) e)
]
loop_from-extends s (suc fuel) r ids all e = elim (List-cases r.loop.queue) [
  | inl q ↦
      ([], some_inj (sym e ∙ loop_from-empty s (suc fuel) r.loop ids q) ∙ sym (append-nil ids))
  | inr (id, rest, q) ↦
      let (more, p) =
        loop_from-extends s fuel (spawn s id rest r) (ids ++ id ∷ []) all
          (sym (loop_from-take s fuel r id rest ids q) ∙ e) in
      (id ∷ more, p ∙ append_assoc ids (id ∷ []) more)
]

-- Each state of a run has the rest of the loop before it.
pub Reach-loop_from :
    {s : Scheduler} {n : ℕ} {ids : List String} {r : Runner} (all : List String)
    → launch s ≡ some all
    → Reach s n ids r
    → (fuel : ℕ) × (loop_from s fuel r.loop ids ≡ some all)
unfolding launch run begin_run end_task send_error
Reach-loop_from {s} all e start = (length s.in_degree, e)
Reach-loop_from {s} all e (later {ids} {r} before (launched id rest q)) =
    round (Reach-loop_from all e before)
  where
    round :
        (fuel : ℕ) × (loop_from s fuel r.loop ids ≡ some all)
        → (fuel : ℕ) × (loop_from s fuel (spawn s id rest r).loop (ids ++ id ∷ []) ≡ some all)
    round (zero, h) = absurd (none-some _ all (loop_from-stuck s r id rest ids q) h)
    round (suc fuel, h) = (fuel, sym (loop_from-take s fuel r id rest ids q) ∙ h)
Reach-loop_from {s} all e (later {ids} {r} before (succeeded left right id q c)) =
    let (fuel, h) = Reach-loop_from all e before in
    (fuel, ap (loop_from s fuel r.loop) (append-nil ids) ∙ h)
Reach-loop_from {s} all e (later {ids} {r} before (failed left right id x q c l)) =
    let (fuel, h) = Reach-loop_from all e before in
    (fuel, ap (loop_from s fuel r.loop) (append-nil ids) ∙ h)
