-- ===== src/Observability/Phases.antt =====
-- What `End` closes, and what the samples of the workers hold.
use effective_next.Prelude.{
  ℕ, ◌+◌, ◌-◌, ◌≡◌, ap, ◌∙◌, true, List, [], ◌∷◌, ◌++◌, String, if◌then◌else◌, arith,
}
use effective_next.Observability.{
  TimelineEvent, begin, is_open, has_open, end, add_durations, total_duration, WorkerSample,
  WorkerUtilization, record_sample,
}

-- The number of open events of a name.
abbrev pub count_open : String → List TimelineEvent → ℕ
count_open n [] = 0
count_open n (e ∷ es) = (if is_open n e then 1 else 0) + count_open n es

durations : List TimelineEvent → ℕ
durations [] = 0
durations (e ∷ es) = e.duration + durations es

add_durations-durations : (es : List TimelineEvent) (n : ℕ) → add_durations es n ≡ n + durations es
unfolding add_durations durations
add_durations-durations [] n = omega arith
add_durations-durations (e ∷ es) n = omega (arith, add_durations-durations es (n + e.duration))

has_open-snoc :
    (name : String) (es : List TimelineEvent) (e : TimelineEvent)
    → is_open name e ≡ true
    → has_open name (es ++ e ∷ []) ≡ true
unfolding has_open
has_open-snoc name [] e o = ground (arith, o)
has_open-snoc name (x ∷ es) e o = ground (arith, has_open-snoc name es e o)

end-snoc :
    (name : String) (now : ℕ) (es : List TimelineEvent) (e : TimelineEvent)
    → is_open name e ≡ true
    → end name now (es ++ e ∷ []) ≡ es ++ record e { duration = now - e.start } ∷ []
unfolding end
end-snoc name now [] e o = unfold has_open in ground (arith, o)
end-snoc name now (x ∷ es) e o = ground (arith, has_open-snoc name es e o, end-snoc name now es e o)

durations-snoc :
    (es : List TimelineEvent) (e : TimelineEvent)
    → durations (es ++ e ∷ []) ≡ durations es + e.duration
unfolding durations
durations-snoc [] e = omega arith
durations-snoc (x ∷ es) e = omega (arith, durations-snoc es e)

-- `End` right after `Begin` closes the event that was begun, and no other: it gets the time between
-- the two calls as its duration, and the total duration grows by that.
pub end-begin :
    (name phase : String) (w t now : ℕ) (es : List TimelineEvent)
    → (end name now (begin name phase w t es)
        ≡ es
          ++ record { name = name; phase = phase; start = t; duration = now - t; worker_id = w }
            ∷ [])
      × (total_duration (end name now (begin name phase w t es)) ≡ total_duration es + (now - t))
unfolding begin total_duration
end-begin name phase w t now es =
    let e : TimelineEvent = record {
      name = name;
      phase = phase;
      start = t;
      duration = 0;
      worker_id = w;
    } in
    let closed : TimelineEvent = record e { duration = now - t } in
    let shut = end-snoc name now es e (unfold is_open in ground arith) in
    (
      shut,
      ap (λ l. add_durations l 0) shut
          ∙ omega (
            arith,
            add_durations-durations (es ++ closed ∷ []) 0,
            add_durations-durations es 0,
            durations-snoc es closed,
          ),
    )

-- Every sample has as many busy and idle workers as there are workers.
abbrev pub IsFull : ℕ → List WorkerSample → Type 0
IsFull total [] = Unit
IsFull total (s ∷ ss) = (s.busy_workers + s.idle_workers ≡ total) × IsFull total ss

IsFull-snoc :
    (total : ℕ) (ss : List WorkerSample) (s : WorkerSample)
    → IsFull total ss
    → s.busy_workers + s.idle_workers ≡ total
    → IsFull total (ss ++ s ∷ [])
IsFull-snoc total [] s f e = (e, tt)
IsFull-snoc total (x ∷ ss) s f e = (f.0, IsFull-snoc total ss s f.1 e)

-- `RecordSample` keeps the busy and the idle workers of every sample at the number of workers, also
-- when more workers are reported busy than there are.
pub record_sample-IsFull :
    (busy now : ℕ) (wu : WorkerUtilization)
    → IsFull wu.total_workers wu.samples
    → IsFull (record_sample busy now wu).total_workers (record_sample busy now wu).samples
unfolding record_sample
record_sample-IsFull busy now wu f = IsFull-snoc wu.total_workers wu.samples _ f (ground arith)
