-- ===== src/Watch.antt =====
-- pkg/watch/watch.go: the loop of the watcher with its batch of changes, the timer that sends the
-- batch, and the channel of events. The loop writes the batch and tests the timer without the mutex
-- that the function of the timer holds, so each such access is a step of its own, and the steps of the
-- two come in any order. Go may also stop a program that writes a map while it is read; what is told
-- here is what happens where it does not. A timer fires after `batchTimer` is set, since setting it
-- takes less than the debounce time.
pub mod Delivery
mod Tests
use effective_next.Prelude.{
  ℕ, zero, suc, ◌+◌, ◌*◌, ◌≤◌, ◌<◌, ◌≡◌, Bool, true, false, ◌||◌, Option, none, some, List, [], ◌∷◌,
  ◌++◌, String, length, if◌then◌else◌, ltb, str_dec, ite,
}
use effective_next.Prelude.Int.{ℤ, pos, negsuc}
use effective_next.Prelude.Maps.{values, get, put}
use effective_next.Prelude.Paths.{base}

pub data EventType : Type 0 where
  created modified deleted renamed : EventType

pub record Event : Type 0 where
  pub path : String
  pub type : EventType
  pub time : ℕ

-- `fsnotify.Event`: the name, and which bits of `Op` are set.
pub record Notice : Type 0 where
  pub name : String
  pub create : Bool
  pub write : Bool
  pub remove : Bool
  pub rename : Bool
  pub chmod : Bool

-- `none` is -1.
unfoldable pub classify : Notice → Option EventType
classify ev =
    if ev.create
    then some created
    else (if ev.write
        then some modified
        else (if ev.remove
            then some deleted
            else (if ev.rename then some renamed else (if ev.chmod then some modified else none))))

-- `if debounceMs <= 0 { debounceMs = 100 }`, in nanoseconds.
unfoldable pub debounce_of : ℤ → ℕ
debounce_of (pos zero) = 100 * 1000000
debounce_of (pos (suc n)) = suc n * 1000000
debounce_of (negsuc n) = 100 * 1000000

-- `make(chan Event, 100)`
abbrev pub events_cap : ℕ
events_cap = 100

-- Where the loop stands: at its select, after the call of the callback, or after the write of the batch.
pub data Loop : Type 0 where
  selecting : Loop
  called_back : Event → Loop
  written : Loop

-- Where the function of the timer stands: before it has the mutex, after it has copied the batch, with
-- what was written to the batch since, or after it has made a new batch.
pub data Timer : Type 0 where
  resting : Timer
  copied : List Event → (fresh : List (String × Event)) → Timer
  emptied : List Event → Timer

-- `armed` says whether `batchTimer` is set, and `sending` holds what each firing has still to send.
-- `called` are the events that the callback was given.
pub record Watcher : Type 0 where
  pub loop : Loop
  pub timer : Timer
  pub batch : List (String × Event)
  pub armed : Bool
  pub sending : List (List Event)
  pub events : List Event
  pub called : List Event

unfoldable pub new : Watcher
new = record {
  loop = selecting;
  timer = resting;
  batch = [];
  armed = false;
  sending = [];
  events = [];
  called = [];
}

unfoldable pub is_clutter : String → Bool
is_clutter name =
    ite (str_dec (base name) ".DS_Store") true (ite (str_dec (base name) "Thumbs.db") true false)

-- The event of a notice at the time `now`; `none` is `continue`.
unfoldable pub event_of : Notice → ℕ → Option Event
event_of ev now = if is_clutter ev.name then none else (elim (classify ev) [
  | none ↦ none
  | some type ↦ some (record { path = ev.name; type = type; time = now })
])

-- `w.mu.Lock(); w.callback_fn(e); w.mu.Unlock()`
unfoldable pub call_back : Event → Watcher → Watcher
call_back e w = record w { loop = called_back e; called = w.called ++ e ∷ [] }

-- What the function of the timer has not seen of a write of the batch.
unfoldable pub noted : Event → Timer → Timer
noted e resting = resting
noted e (copied es fresh) = copied es (put str_dec e.path e fresh)
noted e (emptied es) = emptied es

-- `batch[ev.Name] = e`
unfoldable pub write_batch : Event → Watcher → Watcher
unfolding noted
write_batch e w = record w {
  loop = written;
  timer = noted e w.timer;
  batch = put str_dec e.path e w.batch;
}

-- `if batchTimer == nil { batchTimer = time.AfterFunc(…) }`
unfoldable pub test_timer : Watcher → Watcher
test_timer w = record w { loop = selecting; armed = true }

-- `events := …`, under the mutex.
unfoldable pub copy_batch : Watcher → Watcher
copy_batch w = record w { timer = copied (values w.batch) [] }

-- `batch = make(map[string]Event)`
unfoldable pub empty_batch : List Event → Watcher → Watcher
empty_batch es w = record w { timer = emptied es; batch = [] }

-- `batchTimer = nil`, and the mutex is free again.
unfoldable pub clear_timer : List Event → Watcher → Watcher
clear_timer es w = record w { timer = resting; armed = false; sending = w.sending ++ es ∷ [] }

-- `select { case w.events <- e: default: }`
unfoldable pub add_event : Event → Watcher → Watcher
add_event e w =
    if ltb (length w.events) events_cap then record w { events = w.events ++ e ∷ [] } else w

-- What stands in the batch and has not been copied from it.
unfoldable pub uncopied : Timer → (batch : List (String × Event)) → List (String × Event)
uncopied resting batch = batch
uncopied (copied _ fresh) batch = fresh
uncopied (emptied _) batch = batch

-- The event that a write of the path replaces before it is copied.
unfoldable pub replaced : String → List (String × Event) → List Event
replaced path m = elim (get str_dec m path) [ none ↦ [] | some old ↦ old ∷ [] ]

-- The event of a write, if the function of the timer is at work.
unfoldable pub race : Event → Timer → List Event
race e resting = []
race e (copied _ _) = e ∷ []
race e (emptied _) = e ∷ []

-- What becomes of events in a step: received by the client, dropped by a full channel, replaced in the
-- batch, or lost with a batch that is thrown away after it was copied; and `raced`, those that were
-- written while the function of the timer was at work.
pub record Fate : Type 0 where
  pub received : List Event
  pub dropped : List Event
  pub superseded : List Event
  pub lost : List Event
  pub raced : List Event

abbrev pub no_fate : Fate
no_fate = record { received = []; dropped = []; superseded = []; lost = []; raced = [] }

pub data Step (w : Watcher) : Watcher → Fate → Type 0 where
  ignored : (ev : Notice) (now : ℕ) → w.loop ≡ selecting → event_of ev now ≡ none → Step w w no_fate
  noticed :
      (ev : Notice) (now : ℕ) {e : Event}
      → w.loop ≡ selecting
      → event_of ev now ≡ some e
      → w.timer ≡ resting
      → Step w (call_back e w) no_fate
  wrote :
      (e : Event)
      → w.loop ≡ called_back e
      → Step w (write_batch e w) (record no_fate {
        superseded = replaced e.path (uncopied w.timer w.batch);
        raced = race e w.timer;
      })
  tested : w.loop ≡ written → Step w (test_timer w) no_fate
  fired : w.armed ≡ true → w.timer ≡ resting → Step w (copy_batch w) no_fate
  threw :
      (es : List Event) (fresh : List (String × Event))
      → w.timer ≡ copied es fresh
      → Step w (empty_batch es w) (record no_fate { lost = values fresh })
  cleared : (es : List Event) → w.timer ≡ emptied es → Step w (clear_timer es w) no_fate
  sent :
      (before after : List (List Event)) (e : Event) (rest : List Event)
      → w.sending ≡ before ++ (e ∷ rest) ∷ after
      → length w.events < events_cap
      → Step w (add_event e (record w { sending = before ++ rest ∷ after })) no_fate
  refused :
      (before after : List (List Event)) (e : Event) (rest : List Event)
      → w.sending ≡ before ++ (e ∷ rest) ∷ after
      → events_cap ≤ length w.events
      → Step w
          (add_event e (record w { sending = before ++ rest ∷ after }))
          (record no_fate { dropped = e ∷ [] })
  taken :
      {e : Event} {rest : List Event}
      → w.events ≡ e ∷ rest
      → Step w (record w { events = rest }) (record no_fate { received = e ∷ [] })

abbrev pub also : Fate → Fate → Fate
also f g = record {
  received = f.received ++ g.received;
  dropped = f.dropped ++ g.dropped;
  superseded = f.superseded ++ g.superseded;
  lost = f.lost ++ g.lost;
  raced = f.raced ++ g.raced;
}

pub data Reach : Watcher → Fate → Type 0 where
  start : Reach new no_fate
  later : {w v : Watcher} {f g : Fate} → Reach w f → Step w v g → Reach v (also g f)
