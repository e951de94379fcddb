-- ===== src/Graph/Locks.antt =====
-- The lock of pkg/graph/graph.go where a method that holds it for reading calls another that takes it
-- for reading: `Stats` calls `EdgeCount`, and the exports of pkg/graph/export.go call `Nodes`. The lock
-- is Go's `sync.RWMutex`: from a call of `Lock` on, no further reader is let in.
mod Tests
use effective_next.Prelude.{
  ℕ, ◌+◌, ◌-◌, ◌≡◌, ◌⊎◌, ◌↔◌, refl, ap, subst, inl, inr, Bool, true, false, ◌&&◌, not, Option, none,
  some, if◌then◌else◌, ltb, ◌==◌, arith,
}

-- The method that reads: where it stands between its calls of the lock.
pub data Reader : Type 0 where
  before outer inner after done : Reader

-- `writers` have not called `Lock` yet; of those that have, one is `pending` until it unlocks.
pub record System : Type 0 where
  pub reader : Reader
  pub readers : ℕ
  pub writers : ℕ
  pub pending : Bool
  pub writing : Bool

pub data Call : Type 0 where
  read_next lock locked unlock : Call

unfoldable pub r_lock : Reader → System → Option System
r_lock next s =
    if s.pending then none else some (record s { reader = next; readers = s.readers + 1 })

unfoldable pub r_unlock : Reader → System → System
r_unlock next s = record s { reader = next; readers = s.readers - 1 }

unfoldable pub reader_next : Reader → System → Option System
unfolding r_lock r_unlock
reader_next before s = r_lock outer s
reader_next outer s = r_lock inner s
reader_next inner s = some (r_unlock after s)
reader_next after s = some (r_unlock done s)
reader_next done s = none

unfoldable pub step : Call → System → Option System
unfolding reader_next
step read_next s = reader_next s.reader s
step lock s =
    if ltb 0 s.writers && not s.pending
    then some (record s { writers = s.writers - 1; pending = true })
    else none
step locked s =
    if s.pending && (not s.writing && (s.readers == 0))
    then some (record s { writing = true })
    else none
step unlock s = if s.writing then some (record s { pending = false; writing = false }) else none

unfoldable pub start : ℕ → System
start writers = record {
  reader = before;
  readers = 0;
  writers = writers;
  pending = false;
  writing = false;
}

pub data Reach (writers : ℕ) : System → Type 0 where
  begin : Reach writers (start writers)
  later : {s t : System} → Reach writers s → (c : Call) → step c s ≡ some t → Reach writers t

-- The read locks that the method holds.
abbrev held : Reader → ℕ
held before = 0
held outer = 1
held inner = 2
held after = 1
held done = 0

record Inv (s : System) : Type 0 where
  counted : s.readers ≡ held s.reader
  alone : s.writing ≡ true → (s.pending ≡ true) × (s.readers ≡ 0)

abbrev pub Blocked : System → Type 0
Blocked s = (c : Call) → step c s ≡ none

abbrev pub IsFinished : System → Type 0
IsFinished s = (s.reader ≡ done) × ((s.writers ≡ 0) × (s.pending ≡ false))

-- The method holds the lock and waits for a writer, which waits for the method.
abbrev pub IsDeadlock : System → Type 0
IsDeadlock s = (s.reader ≡ outer) × (s.pending ≡ true)

Safe : Option System → Type 0
Safe none = Unit
Safe (some t) = Inv t

Safe-if : (b : Bool) (t : System) → (b ≡ true → Inv t) → Safe (if b then some t else none)
unfolding Safe
Safe-if true t h = h refl
Safe-if false t h = tt

Safe-unless : (b : Bool) (t : System) → (b ≡ false → Inv t) → Safe (if b then none else some t)
unfolding Safe
Safe-unless true t h = tt
Safe-unless false t h = h refl

Safe-r_lock :
    (next : Reader) (s : System) → held next ≡ held s.reader + 1 → Inv s → Safe (r_lock next s)
unfolding r_lock Safe
Safe-r_lock next s e h =
    Safe-unless s.pending (record s { reader = next; readers = s.readers + 1 })
      (λ p. record {
        counted = omega (arith, h.counted, e);
        alone = λ w. absurd (ground (arith, p, (h.alone w).0));
      })

Safe-r_unlock :
    (next : Reader) (s : System) → held next + 1 ≡ held s.reader → Inv s → Inv (r_unlock next s)
unfolding r_unlock
Safe-r_unlock next s e h = record {
  counted = omega (arith, h.counted, e);
  alone = λ w. absurd (omega (arith, h.counted, e, (h.alone w).1));
}

Safe-reader_next : (r : Reader) (s : System) → r ≡ s.reader → Inv s → Safe (reader_next r s)
unfolding reader_next Safe
Safe-reader_next before s e h = Safe-r_lock outer s (ap (λ r. held r + 1) e) h
Safe-reader_next outer s e h = Safe-r_lock inner s (ap (λ r. held r + 1) e) h
Safe-reader_next inner s e h = Safe-r_unlock after s (ap held e) h
Safe-reader_next after s e h = Safe-r_unlock done s (ap held e) h
Safe-reader_next done s e h = tt

Safe-step : (c : Call) (s : System) → Inv s → Safe (step c s)
unfolding step
Safe-step read_next s h = Safe-reader_next s.reader s refl h
Safe-step lock s h =
    Safe-if (ltb 0 s.writers && not s.pending)
      (record s { writers = s.writers - 1; pending = true })
      (λ q. record { counted = h.counted; alone = λ w. (refl, (h.alone w).1) })
Safe-step locked s h =
    Safe-if (s.pending && (not s.writing && (s.readers == 0))) (record s { writing = true })
      (λ q. record { counted = h.counted; alone = λ w. ground (arith, q) })
Safe-step unlock s h =
    Safe-if s.writing (record s { pending = false; writing = false })
      (λ q. record { counted = h.counted; alone = λ w. absurd (ground (arith, w)) })

Reach-Inv : (n : ℕ) (s : System) → Reach n s → Inv s
unfolding start Safe
Reach-Inv n s begin = record { counted = refl; alone = λ w. absurd (ground (arith, w)) }
Reach-Inv n s (later {s = v} r c q) = subst Safe q (Safe-step c v (Reach-Inv n v r))

stuck_cases :
    (r : Reader) (s : System) → s.reader ≡ r → Inv s → Blocked s → IsFinished s ⊎ IsDeadlock s
unfolding step reader_next r_lock r_unlock
stuck_cases before s e h b =
    ground (arith, e, h.counted, h.alone, b read_next, b lock, b locked, b unlock)
stuck_cases outer s e h b =
    ground (arith, e, h.counted, h.alone, b read_next, b lock, b locked, b unlock)
stuck_cases inner s e h b =
    ground (arith, e, h.counted, h.alone, b read_next, b lock, b locked, b unlock)
stuck_cases after s e h b =
    ground (arith, e, h.counted, h.alone, b read_next, b lock, b locked, b unlock)
stuck_cases done s e h b =
    ground (arith, e, h.counted, h.alone, b read_next, b lock, b locked, b unlock)

finished-Blocked : (s : System) → Inv s → IsFinished s → Blocked s
unfolding step reader_next
finished-Blocked s h f read_next = ground (arith, f.0)
finished-Blocked s h f lock = ground (arith, f.1)
finished-Blocked s h f locked = ground (arith, f.1)
finished-Blocked s h f unlock = ground (arith, f.1, h.alone)

deadlock-Blocked : (s : System) → Inv s → IsDeadlock s → Blocked s
unfolding step reader_next r_lock
deadlock-Blocked s h f read_next = ground (arith, f)
deadlock-Blocked s h f lock = ground (arith, f)
deadlock-Blocked s h f locked = ground (arith, f, h.counted)
deadlock-Blocked s h f unlock = ground (arith, f, h.alone, h.counted)

-- However the method and the writers take their turns, no call goes on exactly if all have returned, or
-- the method waits inside for its second read lock and a writer for the first to be released.
pub Reach-Blocked_iff : (n : ℕ) (s : System) → Reach n s → Blocked s ↔ (IsFinished s ⊎ IsDeadlock s)
Reach-Blocked_iff n s r =
    let h = Reach-Inv n s r in
    (
      stuck_cases s.reader s refl h,
      λ x. elim x [ inl f ↦ finished-Blocked s h f | inr d ↦ deadlock-Blocked s h d ],
    )
