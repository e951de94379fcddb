-- ===== src/Observability/Tests.antt =====
-- A short timeline and a sample of workers, and the theorems at them.
use effective_next.Prelude.{◌≡◌, refl, List, [], str_dec}
use effective_next.Observability.{
  TimelineEvent, begin, is_open, has_open, end, add_durations, total_duration, WorkerUtilization,
  new_worker_utilization, record_sample, record_metric, get_metrics,
}
use effective_next.Observability.Phases.{IsFull}

abbrev scan : List TimelineEvent
scan = begin "scan" "build" 0 10 []

program : Unit {0}
unfolding str_dec begin is_open has_open end add_durations total_duration new_worker_utilization
    record_sample record_metric get_metrics
program = tt

-- The scan is still open when the parse has ended.
total-parse : total_duration (end "parse" 45 (begin "parse" "build" 1 20 scan)) ≡ 25
unfolding program
total-parse = refl

-- An event of no duration stays open and takes the end of a later call.
end-again : total_duration (end "scan" 30 (end "scan" 10 scan)) ≡ 20
unfolding program
end-again = refl

abbrev four : WorkerUtilization
four = new_worker_utilization 4

four-IsFull : IsFull four.total_workers four.samples
unfolding program
four-IsFull = tt
