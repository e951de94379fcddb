-- ===== src/Watch/Tests.antt =====
-- Two writes of one file, the second while the batch of the first is sent, and the theorem at them.
use effective_next.Prelude.{ℕ, ◌≡◌, refl, none, true, false, [], ◌∷◌, String, str_dec, arith}
use effective_next.Prelude.Int.{pos}
use effective_next.Prelude.Maps.{get, put}
use effective_next.Prelude.Paths.{base}
use effective_next.Watch.{
  modified, Event, Notice, classify, debounce_of, Watcher, new, is_clutter, event_of, call_back,
  noted, write_batch, test_timer, copy_batch, empty_batch, clear_timer, add_event, uncopied,
  replaced, race, Fate, noticed, wrote, tested, fired, threw, cleared, sent, taken, Reach, start,
  later,
}

program : Unit {0}
unfolding str_dec get put base classify debounce_of new is_clutter event_of call_back noted
    write_batch test_timer copy_batch empty_batch clear_timer add_event uncopied replaced race
program = tt

abbrev written_to : String → Notice
written_to name = record {
  name = name;
  create = false;
  write = true;
  remove = false;
  rename = false;
  chmod = true;
}

abbrev change : ℕ → Event
change now = record { path = "/p/a.ts"; type = modified; time = now }

debounce_default : debounce_of (pos 0) ≡ 100000000
unfolding program
debounce_default = refl

clutter_ignored : event_of (written_to "/p/.DS_Store") 1 ≡ none
unfolding program
clutter_ignored = refl

-- The second event is passed to the callback, the timer copies the batch, the event is written, and
-- the batch is thrown away.
abbrev run : (w : Watcher) × (f : Fate) × Reach w f
unfolding program
run = (
  _,
  _,
  later
      (later
        (later
          (later
            (later
              (later
                (later
                  (later
                    (later
                      (later (later start (noticed (written_to "/p/a.ts") 1 refl refl refl))
                        (wrote (change 1) refl))
                      (tested refl))
                    (noticed (written_to "/p/a.ts") 2 refl refl refl))
                  (fired refl refl))
                (wrote (change 2) refl))
              (threw (change 1 ∷ []) (("/p/a.ts", change 2) ∷ []) refl))
            (tested refl))
          (cleared (change 1 ∷ []) refl))
        (sent [] [] (change 1) [] refl (omega arith)))
      (taken refl),
)

run_received : run.1.received ≡ change 1 ∷ []
unfolding program
run_received = refl

run_lost : run.1.lost ≡ change 2 ∷ []
unfolding program
run_lost = refl

-- An event that is written between the new batch and `batchTimer = nil` waits without a timer.
abbrev stranded : (w : Watcher) × (f : Fate) × Reach w f
unfolding program
stranded = (
  _,
  _,
  later
      (later
        (later
          (later
            (later
              (later
                (later
                  (later (later start (noticed (written_to "/p/a.ts") 1 refl refl refl))
                    (wrote (change 1) refl))
                  (tested refl))
                (noticed (written_to "/p/a.ts") 2 refl refl refl))
              (fired refl refl))
            (threw (change 1 ∷ []) [] refl))
          (wrote (change 2) refl))
        (tested refl))
      (cleared (change 1 ∷ []) refl),
)

stranded_waits : (stranded.0.batch ≡ ("/p/a.ts", change 2) ∷ []) × (stranded.0.armed ≡ false)
unfolding program
stranded_waits = (refl, refl)
