-- ===== src/Observability.antt =====
-- pkg/observability/tracing.go and metrics.go: the timeline of the build phases, the samples of the
-- workers, and the record of metrics. Times and durations are numbers of nanoseconds, and `now` is the
-- time of a call; ratios, which are floating-point quotients, are left out.
pub mod Phases
mod Tests
use effective_next.Prelude.{
  ℕ, zero, suc, ◌+◌, ◌-◌, Bool, true, false, ◌&&◌, Option, none, some, List, [], ◌∷◌, ◌++◌, String,
  length, if◌then◌else◌, ◌==◌, ltb, str_dec, ite,
}

pub record TimelineEvent : Type 0 where
  pub name : String
  pub phase : String
  pub start : ℕ
  pub duration : ℕ
  pub worker_id : ℕ

-- `tl.events = append(tl.events, …)`
unfoldable pub begin : String → String → ℕ → ℕ → List TimelineEvent → List TimelineEvent
begin name phase worker_id now events =
    events
    ++ record { name = name; phase = phase; start = now; duration = 0; worker_id = worker_id } ∷ []

-- `tl.events[i].Name == name && tl.events[i].Duration == 0`
unfoldable pub is_open : String → TimelineEvent → Bool
is_open name e = ite (str_dec e.name name) true false && e.duration == 0

unfoldable pub has_open : String → List TimelineEvent → Bool
unfolding is_open
has_open name [] = false
has_open name (e ∷ es) = if is_open name e then true else has_open name es

-- The loop of `End` from the last event down: the last open event of the name is the first that the
-- loop meets.
unfoldable pub end : String → ℕ → List TimelineEvent → List TimelineEvent
unfolding has_open is_open
end name now [] = []
end name now (e ∷ es) =
    let rest = end name now es in
    if has_open name es
    then e ∷ rest
    else if is_open name e
    then record e { duration = now - e.start } ∷ es
    else e ∷ es

-- `for _, e := range tl.events { total += e.Duration }`
unfoldable pub add_durations : List TimelineEvent → ℕ → ℕ
add_durations [] total = total
add_durations (e ∷ es) total = add_durations es (total + e.duration)

unfoldable pub total_duration : List TimelineEvent → ℕ
total_duration events = add_durations events 0

pub record WorkerSample : Type 0 where
  pub timestamp : ℕ
  pub busy_workers : ℕ
  pub idle_workers : ℕ

pub record WorkerUtilization : Type 0 where
  pub samples : List WorkerSample
  pub total_workers : ℕ

unfoldable pub new_worker_utilization : ℕ → WorkerUtilization
new_worker_utilization total = record { samples = []; total_workers = total }

-- `idle < 0` holds exactly if more workers are busy than there are.
unfoldable pub record_sample : ℕ → ℕ → WorkerUtilization → WorkerUtilization
record_sample busy now wu =
    let over = ltb wu.total_workers busy in
    record wu {
      samples =
          wu.samples
          ++ record {
            timestamp = now;
            busy_workers = if over then wu.total_workers else busy;
            idle_workers = if over then 0 else wu.total_workers - busy;
          }
            ∷ [];
    }

-- `Metric`, whose value is of type `V`.
pub record Metric (V : Type 0) : Type 0 where
  pub name : String
  pub value : V
  pub unit : String
  pub timestamp : ℕ

module _ {V : Type 0} where
  unfoldable pub record_metric : String → V → String → ℕ → List (Metric V) → List (Metric V)
  record_metric name value unit now metrics =
      metrics ++ record { name = name; value = value; unit = unit; timestamp = now } ∷ []

  unfoldable pub get_metrics : String → List (Metric V) → List (Metric V)
  get_metrics name [] = []
  get_metrics name (m ∷ ms) =
      let rest = get_metrics name ms in ite (str_dec m.name name) (m ∷ rest) rest

  unfoldable pub count_metrics : List (Metric V) → ℕ
  count_metrics metrics = length metrics
