-- ===== src/Scanner/Workers.antt =====
-- The workers of `Scan`: each takes directories from the shared queue, walks them, and sends the
-- directories below to the queue if it has room. A step is one receive, one entry of a directory or
-- one send, and the steps of the workers come in any order.
pub mod Balance
pub mod Sound
pub mod Exact
pub mod Ends
use effective_next.Prelude.{
  ℕ, ◌+◌, ◌≤◌, ◌<◌, ◌≡◌, Bool, true, false, Option, none, some, List, [], ◌∷◌, ◌++◌, String, length,
  if◌then◌else◌,
}
use effective_next.Prelude.Paths.{join}
use effective_next.Prelude.Sums.{moved}
use effective_next.Engine.{File}
use effective_next.Scanner.{
  Entry, Scanner, walked_file, root_files, root_dirs, skips, queue_cap, fill,
}

-- Where a worker stands, with what `walkDir` has left and has collected.
pub data Pc : Type 0 where
  idle : Pc
  walking : (dir : String) (left : List Entry) (sub_dirs : List String) → Pc
  sending : (sub_dirs : List String) → Pc
  done : Pc

pub record Shared : Type 0 where
  pub queue : List String
  pub files : List File
  pub files_scanned : ℕ

pub record System : Type 0 where
  pub shared : Shared
  pub pc : ℕ → Pc

-- How `Scan` begins: the root cannot be read, there is no directory to walk, a send blocks, or the
-- workers start.
pub data Begin : Type 0 where
  failed : Begin
  finished : List File → Begin
  blocked : Begin
  running : System → Begin

module _ (read_dir : String → Option (List Entry)) (hash_file : String → Option ℕ)
    (s : Scanner) where
  start_workers : List File → Option (List String) → Begin
  start_workers files none = blocked
  start_workers files (some queue) = running (record {
    shared = record { queue = queue; files = files; files_scanned = length files };
    pc = λ _. idle;
  })

  with_dirs : List File → List String → Begin
  unfolding start_workers
  with_dirs files [] = finished files
  with_dirs files (d ∷ dirs) = start_workers files (fill [] (d ∷ dirs))

  with_entries : Option (List Entry) → Begin
  unfolding with_dirs root_files root_dirs
  with_entries none = failed
  with_entries (some entries) = with_dirs (root_files hash_file s entries) (root_dirs s entries)

  unfoldable pub begin : Begin
  unfolding with_entries
  begin = with_entries (read_dir s.root)

  abbrev pub full_path : String → Entry → String
  full_path dir e = join (dir ∷ e.name ∷ [])

  -- What `walkDir` adds to the files and returns, for the entries that are left.
  unfoldable pub walk_entries : String → List Entry → List File × List String
  walk_entries dir [] = ([], [])
  walk_entries dir (e ∷ entries) =
      let rest = walk_entries dir entries in
      if skips s (full_path dir e) e
      then rest
      else (if e.is_dir
          then (rest.0, full_path dir e ∷ rest.1)
          else (walked_file hash_file s (full_path dir e) e ∷ rest.0, rest.1))

  unfoldable pub walk_dir : String → List File × List String
  unfolding walk_entries
  walk_dir dir = elim (read_dir dir) [ none ↦ ([], []) | some entries ↦ walk_entries dir entries ]

  -- One step of one worker, with the directories that it drops.
  pub data Move (m : Shared) : Pc → Shared → Pc → List String → Type 0 where
    unreadable :
        {dir : String} {rest : List String}
        → m.queue ≡ dir ∷ rest
        → read_dir dir ≡ none
        → Move m idle (record m { queue = rest }) (sending []) []
    take :
        {dir : String} {rest : List String} {entries : List Entry}
        → m.queue ≡ dir ∷ rest
        → read_dir dir ≡ some entries
        → Move m idle (record m { queue = rest }) (walking dir entries []) []
    quit : m.queue ≡ [] → Move m idle m done []
    skip :
        {dir : String} {e : Entry} {left : List Entry} {subs : List String}
        → skips s (full_path dir e) e ≡ true
        → Move m (walking dir (e ∷ left) subs) m (walking dir left subs) []
    descend :
        {dir : String} {e : Entry} {left : List Entry} {subs : List String}
        → skips s (full_path dir e) e ≡ false
        → e.is_dir ≡ true
        → Move m
            (walking dir (e ∷ left) subs)
            m
            (walking dir left (subs ++ full_path dir e ∷ []))
            []
    found :
        {dir : String} {e : Entry} {left : List Entry} {subs : List String}
        → skips s (full_path dir e) e ≡ false
        → e.is_dir ≡ false
        → Move m
            (walking dir (e ∷ left) subs)
            (record m {
              files = m.files ++ walked_file hash_file s (full_path dir e) e ∷ [];
              files_scanned = m.files_scanned + 1;
            })
            (walking dir left subs)
            []
    walked : {dir : String} {subs : List String} → Move m (walking dir [] subs) m (sending subs) []
    send :
        {dir : String} {subs : List String}
        → length m.queue < queue_cap
        → Move m (sending (dir ∷ subs)) (record m { queue = m.queue ++ dir ∷ [] }) (sending subs) []
    drop :
        {dir : String} {subs : List String}
        → queue_cap ≤ length m.queue
        → Move m (sending (dir ∷ subs)) m (sending subs) (dir ∷ [])
    next : Move m (sending []) m idle []

  pub data Step (t : System) : System → List String → Type 0 where
    pick :
        (i : ℕ) {m : Shared} {p : Pc} {lost : List String}
        → i < s.workers
        → Move t.shared (t.pc i) m p lost
        → Step t (record { shared = m; pc = moved t.pc i p }) lost

  -- Reached from `t` in a number of steps, with the directories dropped on the way.
  pub data Reach (t : System) : ℕ → System → List String → Type 0 where
    start : Reach t 0 t []
    later :
        {n : ℕ} {u v : System} {lost more : List String}
        → Reach t n u lost
        → Step u v more
        → Reach t (n + 1) v (more ++ lost)
