-- ===== src/Scanner/Workers/Balance.antt =====
-- What the workers of `Scan` have found, as a balance that every step keeps.
use effective_next.Prelude.{
  ℕ, ◌+◌, ◌≡◌, refl, ap, true, false, Option, none, some, List, [], ◌∷◌, ◌++◌, String, arith,
}
use effective_next.Prelude.Sums.{sum, sum-append, sum-snoc, sum_below, sum_below-moved}
use effective_next.Engine.{File}
use effective_next.Scanner.{Entry, Scanner, walked_file, skips}
use effective_next.Scanner.Workers.{
  Pc, Shared, System, full_path, walk_entries, walk_dir, Move, Step, Reach, unreadable, take, quit,
  skip, descend, found, walked, send, drop, next, pick, start, later,
}

module _ (read_dir : String → Option (List Entry)) (hash_file : String → Option ℕ)
    (s : Scanner) where
  abbrev pub entries_of : String → List Entry → List File × List String
  entries_of = walk_entries read_dir hash_file s

  abbrev pub dir_of : String → List File × List String
  dir_of = walk_dir read_dir hash_file s

  -- What a worker still has to add and to send.
  abbrev pub files_left : Pc → List File
  files_left (Pc.walking dir left subs) = (entries_of dir left).0
  files_left _ = []

  abbrev pub dirs_left : Pc → List String
  dirs_left (Pc.walking dir left subs) = subs ++ (entries_of dir left).1
  dirs_left (Pc.sending subs) = subs
  dirs_left _ = []

  pub walk-skip :
      (dir : String) (e : Entry) (left : List Entry)
      → skips s (full_path read_dir hash_file s dir e) e ≡ true
      → entries_of dir (e ∷ left) ≡ entries_of dir left
  unfolding walk_entries
  walk-skip dir e left k = rw k refl

  pub walk-descend :
      (dir : String) (e : Entry) (left : List Entry)
      → skips s (full_path read_dir hash_file s dir e) e ≡ false
      → e.is_dir ≡ true
      → entries_of dir (e ∷ left)
        ≡ ((entries_of dir left).0, full_path read_dir hash_file s dir e ∷ (entries_of dir left).1)
  unfolding walk_entries
  walk-descend dir e left k d = rw (k, d) refl

  pub walk-found :
      (dir : String) (e : Entry) (left : List Entry)
      → skips s (full_path read_dir hash_file s dir e) e ≡ false
      → e.is_dir ≡ false
      → entries_of dir (e ∷ left) ≡ (
        walked_file hash_file s (full_path read_dir hash_file s dir e) e ∷ (entries_of dir left).0,
        (entries_of dir left).1,
      )
  unfolding walk_entries
  walk-found dir e left k d = rw (k, d) refl

  pub walk-none : (dir : String) → read_dir dir ≡ none → dir_of dir ≡ ([], [])
  unfolding walk_dir
  walk-none dir e = rw (e, walk_dir) refl

  pub walk-some :
      (dir : String) (entries : List Entry)
      → read_dir dir ≡ some entries
      → dir_of dir ≡ entries_of dir entries
  unfolding walk_dir
  walk-some dir entries e = rw (e, walk_dir) refl

  -- The directory that a step takes from the queue.
  unfoldable pub taken :
      {m m' : Shared} {p p' : Pc} {lost : List String}
      → Move read_dir hash_file s m p m' p' lost
      → List String
  taken (unreadable {dir} q e) = dir ∷ []
  taken (take {dir} q e) = dir ∷ []
  taken _ = []

  Move-files :
      (w : File → ℕ) {m m' : Shared} {p p' : Pc} {lost : List String}
      → (mv : Move read_dir hash_file s m p m' p' lost)
      → sum w m'.files + sum w (files_left p')
        ≡ sum w m.files + sum w (files_left p) + sum (λ d. sum w (dir_of d).0) (taken mv)
  unfolding taken walk_entries
  Move-files w (unreadable {dir} q e) = omega (arith, ap (λ r. sum w r.0) (walk-none dir e))
  Move-files w (take {dir} {entries} q e) =
      omega (arith, ap (λ r. sum w r.0) (walk-some dir entries e))
  Move-files w (quit q) = omega arith
  Move-files w (skip {dir} {e} {left} k) =
      omega (arith, ap (λ r. sum w r.0) (walk-skip dir e left k))
  Move-files w (descend {dir} {e} {left} k d) =
      omega (arith, ap (λ r. sum w r.0) (walk-descend dir e left k d))
  Move-files w {m} (found {dir} {e} {left} k d) = omega (
    arith,
    ap (λ r. sum w r.0) (walk-found dir e left k d),
    sum-snoc w m.files (walked_file hash_file s (full_path read_dir hash_file s dir e) e),
  )
  Move-files w walked = omega arith
  Move-files w (send l) = omega arith
  Move-files w (drop l) = omega arith
  Move-files w next = omega arith

  Move-dirs :
      (w : String → ℕ) {m m' : Shared} {p p' : Pc} {lost : List String}
      → (mv : Move read_dir hash_file s m p m' p' lost)
      → sum w m'.queue + sum w (dirs_left p') + sum w lost + sum w (taken mv)
        ≡ sum w m.queue + sum w (dirs_left p) + sum (λ d. sum w (dir_of d).1) (taken mv)
  unfolding taken
  Move-dirs w (unreadable {dir} q e) =
      omega (arith, ap (λ r. sum w r.1) (walk-none dir e), ap (λ ds. sum w ds) q)
  Move-dirs w (take {dir} {entries} q e) =
      omega (arith, ap (λ r. sum w r.1) (walk-some dir entries e), ap (λ ds. sum w ds) q)
  Move-dirs w (quit q) = omega arith
  Move-dirs w (skip {dir} {e} {left} {subs} k) = omega (
    arith,
    ap (λ r. sum w r.1) (walk-skip dir e left k),
    sum-append w subs (entries_of dir left).1,
    sum-append w subs (entries_of dir (e ∷ left)).1,
  )
  Move-dirs w (descend {dir} {e} {left} {subs} k d) = omega (
    arith,
    ap (λ r. sum w r.1) (walk-descend dir e left k d),
    sum-append w (subs ++ full_path read_dir hash_file s dir e ∷ []) (entries_of dir left).1,
    sum-snoc w subs (full_path read_dir hash_file s dir e),
    sum-append w subs (entries_of dir (e ∷ left)).1,
  )
  Move-dirs w (found {dir} {e} {left} {subs} k d) = omega (
    arith,
    ap (λ r. sum w r.1) (walk-found dir e left k d),
    sum-append w subs (entries_of dir left).1,
    sum-append w subs (entries_of dir (e ∷ left)).1,
  )
  Move-dirs w (walked {dir} {subs}) = omega (arith, sum-append w subs (entries_of dir []).1, empty)
    where
      empty : sum w (entries_of dir []).1 ≡ 0
      empty = unfold walk_entries in refl
  Move-dirs w {m} (send {dir} l) = omega (arith, sum-snoc w m.queue dir)
  Move-dirs w (drop l) = omega arith
  Move-dirs w next = omega arith

  abbrev pub files_pending : (File → ℕ) → (ℕ → Pc) → ℕ
  files_pending w pc = sum_below (λ p. sum w (files_left p)) s.workers pc

  abbrev pub dirs_pending : (String → ℕ) → (ℕ → Pc) → ℕ
  dirs_pending w pc = sum_below (λ p. sum w (dirs_left p)) s.workers pc

  unfoldable pub step_taken :
      {u v : System} {lost : List String} → Step read_dir hash_file s u v lost → List String
  unfolding taken
  step_taken (pick i l mv) = taken mv

  -- The directories that the workers have taken from the queue, the last one first.
  unfoldable pub visited_of :
      {t u : System} {n : ℕ} {lost : List String}
      → Reach read_dir hash_file s t n u lost
      → List String
  unfolding step_taken
  visited_of start = []
  visited_of (later r st) = step_taken st ++ visited_of r

  -- What the directories `visited` account for, between two states and with what was dropped.
  pub record Balance (t u : System) (lost visited : List String) : Type 0 where
    pub files :
        (w : File → ℕ)
        → sum w u.shared.files + files_pending w u.pc
          ≡ sum w t.shared.files + files_pending w t.pc + sum (λ d. sum w (dir_of d).0) visited
    pub dirs :
        (w : String → ℕ)
        → sum w u.shared.queue + dirs_pending w u.pc + sum w lost + sum w visited
          ≡ sum w t.shared.queue + dirs_pending w t.pc + sum (λ d. sum w (dir_of d).1) visited

  Balance-later :
      {t u v : System} {lost more visited : List String}
      → Balance t u lost visited
      → (st : Step read_dir hash_file s u v more)
      → Balance t v (more ++ lost) (step_taken st ++ visited)
  unfolding step_taken
  Balance-later {t} {u} {v} {lost} {more} {visited} b (pick i {m} {p} l mv) = record {
    files = λ w. omega (
      arith,
      b.files w,
      Move-files w mv,
      sum_below-moved (λ p. sum w (files_left p)) s.workers u.pc i p l,
      sum-append (λ d. sum w (dir_of d).0) (taken mv) visited,
    );
    dirs = λ w. omega (
      arith,
      b.dirs w,
      Move-dirs w mv,
      sum_below-moved (λ p. sum w (dirs_left p)) s.workers u.pc i p l,
      sum-append (λ d. sum w (dir_of d).1) (taken mv) visited,
      sum-append w (taken mv) visited,
      sum-append w more lost,
    );
  }

  pub Reach-Balance :
      {t u : System} {n : ℕ} {lost : List String}
      → (r : Reach read_dir hash_file s t n u lost) → Balance t u lost (visited_of r)
  unfolding visited_of
  Reach-Balance start = record { files = λ w. omega arith; dirs = λ w. omega arith }
  Reach-Balance (later r st) = Balance-later (Reach-Balance r) st
