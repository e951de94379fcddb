-- ===== src/Scheduler/Run/Ends.antt =====
-- `Run` returns, and what it returns.
use effective_next.Prelude.{
  ℕ, ◌+◌, ◌*◌, ◌≤◌, ◌<◌, ◌≡◌, ◌⊎◌, inl, inr, refl, ap, sym, ◌∙◌, subst, true, false, Option, some,
  none, List, [], ◌∷◌, ◌++◌, String, str_dec, length, length-append, contains, contains-append,
  Distinct, missing, missing-cons-lt, missing-le, List-cases, Option-cases, arith,
}
use effective_next.Prelude.Maps.{keys, get, length-keys}
use effective_next.Scheduler.{Error, Task, Scheduler, has_fn, launch}
use effective_next.Scheduler.Valid.{IsValid}
use effective_next.Scheduler.Launch.{IsLaunch, launch_lem}
use effective_next.Scheduler.Run.{Runner, call, Step, launched, succeeded, failed, Reach, result}
use effective_next.Scheduler.Run.Rounds.{
  loop_from-empty, loop_from-extends, Reach-loop_from, some_inj,
}
use effective_next.Scheduler.Run.Kept.{Sent, no_error, Inv, Reach-Inv}

-- The task is there, and its function returns this.
abbrev pub Returns : Scheduler → String → Option Error → Type 0
Returns s id answer = (t : Task) × (get str_dec s.tasks id ≡ some t) × (t.fn ≡ some answer)

call-Returns :
    (s : Scheduler) (id : String) (answer : Option Error)
    → call s.tasks id ≡ some answer
    → Returns s id answer
unfolding call
call-Returns s id answer c = elim (Option-cases (get str_dec s.tasks id)) [
  | inl e ↦ absurd (ground (arith, e, c))
  | inr (t, e) ↦ (t, e, ground (arith, e, c))
]

has_fn-call :
    (s : Scheduler) (id : String)
    → has_fn s.tasks id ≡ true
    → (answer : Option Error) × (call s.tasks id ≡ some answer)
unfolding has_fn call
has_fn-call s id h = elim (Option-cases (get str_dec s.tasks id)) [
  | inl e ↦ absurd (ground (arith, e, h))
  | inr (t, e) ↦ elim (Option-cases t.fn) [
    | inl f ↦ absurd (ground (arith, e, f, h))
    | inr (answer, f) ↦ (answer, ground (arith, e, f))
  ]
]

get-keys :
    (m : List (String × Task)) (k : String) (t : Task)
    → get str_dec m k ≡ some t
    → contains str_dec (keys m) k ≡ true
unfolding get contains
get-keys [] k t e = absurd cc
get-keys ((j, u) ∷ m) k t e = ground (arith, e, get-keys m k t)

-- Distinct keys that are all in a list are no more than it has.
fewer :
    (xs ys : List String)
    → Distinct str_dec xs
    → ((k : String) → contains str_dec xs k ≡ true → contains str_dec ys k ≡ true)
    → length xs + missing str_dec ys xs ≤ length ys
unfolding contains
fewer [] ys d h = omega (arith, missing-le str_dec ys [])
fewer (x ∷ xs) ys d h = omega (
  arith,
  fewer xs ys d.1 (λ k m. h k (ground (arith, m))),
  missing-cons-lt str_dec ys x xs (h x (ground arith)) d.0,
)

-- All launched tasks have returned no error, or the error that is returned is one of theirs.
abbrev pub IsOutcome : Scheduler → List String → Option Error → Type 0
IsOutcome s all answer =
    ((answer ≡ none) × ((id : String) → contains str_dec all id ≡ true → Returns s id none))
    ⊎ ((e : Error) × (id : String) × (answer ≡ some e)
        × (contains str_dec all id ≡ true)
        × Returns s id (some e))

outcome :
    (s : Scheduler) (ids : List String) (r : Runner) (es : List Error)
    → r.errors ≡ es
    → r.running ≡ []
    → Sent s ids es
    → ((id : String)
        → contains str_dec ids id ≡ true
        → (contains str_dec r.running id ≡ true)
          ⊎ ((call s.tasks id ≡ some none) ⊎ (no_error r.errors ≡ false)))
    → IsOutcome s ids (result r)
unfolding Sent result contains
outcome s ids r [] e none_runs sent done = inl (
  ground (arith, e),
  λ id k. elim (done id k) [
    | inl runs ↦ absurd (ground (arith, runs, ap (λ l. contains str_dec l id) none_runs))
    | inr (inl c) ↦ call-Returns s id none c
    | inr (inr x) ↦ absurd (ground (arith, x, ap no_error e))
  ],
)
outcome s ids r (x ∷ es) e none_runs ((id, k, c), sent) done =
    inr (x, id, ground (arith, e), k, call-Returns s id (some x) c)

-- A goroutine that runs can end: its error, if any, finds room in the channel.
can_end :
    (s : Scheduler) (r : Runner) (id : String) (rest : List String)
    → r.running ≡ id ∷ rest
    → has_fn s.tasks id ≡ true
    → length r.errors < length s.tasks
    → (q : Runner) × (more : List String) × Step s r q more
can_end s r id rest e f room = ends (has_fn-call s id f)
  where
    ends :
        (answer : Option Error) × (call s.tasks id ≡ some answer)
        → (q : Runner) × (more : List String) × Step s r q more
    ends (none, c) = (_, _, succeeded [] rest id e c)
    ends (some x, c) = (_, _, failed [] rest id x e c room)

record Facts (s : Scheduler) (all ids : List String) : Type 0 where
  longer : length ids ≤ length all
  inside : (id : String) → contains str_dec ids id ≡ true → contains str_dec all id ≡ true
  runnable : (id : String) → contains str_dec all id ≡ true → has_fn s.tasks id ≡ true
  enough : length all ≤ length s.tasks

facts :
    (s : Scheduler) (all ids more : List String)
    → IsLaunch s all
    → all ≡ ids ++ more
    → Facts s all ids
facts s all ids more ok split = record {
  longer = omega (arith, ap length split, length-append ids more);
  inside = λ id k.
      ap (λ l. contains str_dec l id) split
      ∙ (ground (arith, k, contains-append str_dec ids more id));
  runnable = λ id k. ((ok.exact id).0 k).1;
  enough = omega (
    arith,
    fewer all (keys s.tasks) ok.distinct (λ id k.
        let (answer, c) = has_fn-call s id ((ok.exact id).0 k).1 in
        let (t, e, f) = call-Returns s id answer c in get-keys s.tasks id t e),
    length-keys s.tasks,
  );
}

stage :
    (s : Scheduler) (all : List String) (n : ℕ) (ids : List String) (r : Runner)
    → Inv s n ids r
    → Facts s all ids
    → (r.loop.queue ≡ [] → ids ≡ all)
    → ((q : Runner) × (more : List String) × Step s r q more)
      ⊎ ((ids ≡ all) × IsOutcome s all (result r))
stage s all n ids r h facts finished = elim (List-cases r.loop.queue) [
  | inr (id, rest, q) ↦ inl (_, _, launched id rest q)
  | inl empty ↦ elim (List-cases r.running) [
    | inl none_runs ↦ inr (
      finished empty,
      subst (λ l. IsOutcome s l (result r)) (finished empty)
          (outcome s ids r r.errors refl none_runs h.sent h.done),
    )
    | inr (id, rest, runs) ↦
        let k : contains str_dec r.running id ≡ true =
          unfold contains in ground (arith, ap (λ l. contains str_dec l id) runs) in
        inl (
          can_end s r id rest runs (facts.runnable id (facts.inside id (h.known id k)))
            (omega (arith, h.room, ap length runs, facts.longer, facts.enough)))
  ]
]

pub run_ends :
    (s : Scheduler) (all : List String) (n : ℕ) (ids : List String) (r : Runner)
    → IsValid s
    → launch s ≡ some all
    → Reach s n ids r
    → (n ≤ 2 * length all)
      × (((q : Runner) × (more : List String) × Step s r q more)
          ⊎ ((ids ≡ all) × IsOutcome s all (result r)))
run_ends s all n ids r valid e reached =
    let h = Reach-Inv reached in
    let (fuel, rounds) = Reach-loop_from all e reached in
    let (more, split) = loop_from-extends s fuel r ids all rounds in
    let (listed, e', ok) = launch_lem s valid in
    let f = facts s all ids more (subst (IsLaunch s) (some_inj (sym e' ∙ e)) ok) split in
    (
      omega (arith, h.steps, f.longer),
      stage s all n ids r h f
          (λ empty. some_inj (sym (loop_from-empty s fuel r.loop ids empty) ∙ rounds)),
    )
