-- ===== src/Graph/Locks/Tests.antt =====
-- A method that reads while one writer comes, and the theorem at the state in which both wait.
use effective_next.Prelude.{◌⊎◌, ◌↔◌, refl, true, false}
use effective_next.Graph.Locks.{
  outer, done, System, read_next, lock, locked, unlock, r_lock, r_unlock, reader_next, step, start,
  Reach, begin, later, Blocked, IsFinished, IsDeadlock, Reach-Blocked_iff,
}

program : Unit {0}
unfolding r_lock r_unlock reader_next step start
program = tt

-- The writer calls `Lock` between the two read locks of the method.
abbrev waiting : System
waiting = record { reader = outer; readers = 1; writers = 0; pending = true; writing = false }

-- The writer comes after the method.
abbrev finished : System
finished = record { reader = done; readers = 0; writers = 0; pending = false; writing = false }

reach-waiting : Reach 1 waiting
unfolding program
reach-waiting = later (later begin read_next refl) lock refl

reach-finished : Reach 1 finished
unfolding program
reach-finished =
    later
      (later
        (later
          (later (later (later (later begin read_next refl) read_next refl) read_next refl)
            read_next refl)
          lock refl)
        locked refl)
      unlock refl

Reach-Blocked_iff_example : Blocked waiting ↔ (IsFinished waiting ⊎ IsDeadlock waiting)
Reach-Blocked_iff_example = Reach-Blocked_iff 1 waiting reach-waiting
