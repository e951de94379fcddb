-- ===== src/Scanner/Workers/Exact.antt =====
-- A scan that drops no directory finds every file, each as often as the directories hold it.
use effective_next.Prelude.{
  ℕ, ◌+◌, ◌<◌, ◌≡◌, ◌↔◌, inl, inr, refl, sym, ap, subst, ◌∙◌, true, Option, none, some, List, [],
  ◌∷◌, ◌++◌, append-nil, append_assoc, String, contains, str_dec, arith,
}
use effective_next.Prelude.Sums.{sum, sum-ge, is_key, sum-is_key, sum_below-zero, sum_below-ge}
use effective_next.Engine.{File}
use effective_next.Scanner.{Entry, Scanner, root_files, root_dirs, fill}
use effective_next.Scanner.Workers.{
  Pc, System, running, walk_dir, Reach, begin, start_workers, with_dirs, with_entries,
}
use effective_next.Scanner.Workers.Balance.{
  files_left, dirs_left, Reach-Balance, visited_of, Balance,
}
use effective_next.Scanner.Workers.Sound.{
  active, IsServed, Reach-IsServed, Visit, root, below, AllVisit, AllVisit-nil, AllSound,
  Reach-Sound,
}

of_running : {t u : System} → running t ≡ running u → t ≡ u
of_running e = cc

module _ (read_dir : String → Option (List Entry)) (hash_file : String → Option ℕ)
    (s : Scanner) where
  -- What a scan returns, with the directories it has walked.
  pub record IsExact (entries : List Entry) (visited : List String) (files : List File)
      : Type 0 where
    pub all_visited :
        (d : String) → (contains str_dec visited d ≡ true) ↔ Visit read_dir hash_file s entries d
    pub once :
        (w : String → ℕ)
        → sum w visited
          ≡ sum w (root_dirs s entries)
            + sum (λ d. sum w (walk_dir read_dir hash_file s d).1) visited
    pub exact :
        (w : File → ℕ)
        → sum w files
          ≡ sum w (root_files hash_file s entries)
            + sum (λ d. sum w (walk_dir read_dir hash_file s d).0) visited

  fill_lem :
      (queue dirs result : List String) → fill queue dirs ≡ some result → result ≡ queue ++ dirs
  unfolding fill
  fill_lem queue [] result e = ground (arith, append-nil queue)
  fill_lem queue (d ∷ dirs) result e =
      ground (arith, fill_lem (queue ++ d ∷ []) dirs result, append_assoc queue (d ∷ []) dirs)

  visits :
      (entries : List Entry) (visited : List String)
      → ((w : String → ℕ)
          → sum w visited
            ≡ sum w (root_dirs s entries)
              + sum (λ d. sum w (walk_dir read_dir hash_file s d).1) visited)
      → {d : String} → Visit read_dir hash_file s entries d
      → contains str_dec visited d ≡ true
  visits entries visited eq (root {d} m) =
      (sum-is_key str_dec d visited).0
        (omega (arith, eq (is_key str_dec d), (sum-is_key str_dec d (root_dirs s entries)).1 m))
  visits entries visited eq (below {d} {e} v m) = (sum-is_key str_dec e visited).0 (
      omega (
        arith,
        eq (is_key str_dec e),
        sum-ge str_dec (λ d. sum (is_key str_dec e) (walk_dir read_dir hash_file s d).1) visited d
            (visits entries visited eq v),
        (sum-is_key str_dec e (walk_dir read_dir hash_file s d).1).1 m,
      ))

  pub record IsInit (entries : List Entry) (t : System) : Type 0 where
    pub queue : t.shared.queue ≡ root_dirs s entries
    pub files : t.shared.files ≡ root_files hash_file s entries
    pub idle : (i : ℕ) → t.pc i ≡ Pc.idle

  start_workers-running :
      (files : List File) (dirs : List String) (found : Option (List String)) (t : System)
      → fill [] dirs ≡ found
      → start_workers read_dir hash_file s files found ≡ running t
      → (t.shared.queue ≡ dirs) × (t.shared.files ≡ files) × ((i : ℕ) → t.pc i ≡ Pc.idle)
  unfolding start_workers
  start_workers-running files dirs none t e b = cc
  start_workers-running files dirs (some queue) t e b = (
    sym (ap (λ (u : System). u.shared.queue) (of_running b)) ∙ fill_lem [] dirs queue e,
    sym (ap (λ (u : System). u.shared.files) (of_running b)),
    λ i. sym (ap (λ (u : System). u.pc i) (of_running b)),
  )

  with_dirs-running :
      (files : List File) (dirs : List String) (t : System)
      → with_dirs read_dir hash_file s files dirs ≡ running t
      → (t.shared.queue ≡ dirs) × (t.shared.files ≡ files) × ((i : ℕ) → t.pc i ≡ Pc.idle)
  unfolding with_dirs
  with_dirs-running files [] t b = cc
  with_dirs-running files (d ∷ dirs) t b =
      start_workers-running files (d ∷ dirs) (fill [] (d ∷ dirs)) t refl b

  pub begin-IsInit :
      (entries : List Entry) (t : System)
      → read_dir s.root ≡ some entries
      → begin read_dir hash_file s ≡ running t
      → IsInit entries t
  unfolding begin with_entries
  begin-IsInit entries t e b =
      let b' = subst (λ o. with_entries read_dir hash_file s o ≡ running t) e b in
      let (queue, files, idle) = with_dirs-running _ _ t b' in
      record { queue = queue; files = files; idle = idle }

  IsServed-init :
      (entries : List Entry) (t : System)
      → IsInit entries t
      → 0 < s.workers
      → IsServed read_dir hash_file s t
  IsServed-init entries t h some_worker =
      inr (omega (arith, ap active (h.idle 0), sum_below-ge active s.workers t.pc 0 some_worker))

  empty_at_end :
      (u : System)
      → IsServed read_dir hash_file s u
      → ((i : ℕ) → i < s.workers → u.pc i ≡ Pc.done)
      → u.shared.queue ≡ []
  empty_at_end u (inl empty) ends = empty
  empty_at_end u (inr working) ends =
      absurd
        (omega (arith, working, sum_below-zero active s.workers u.pc (λ i l. ap active (ends i l))))

  IsExact-Balance :
      (entries : List Entry) (t u : System) (visited : List String)
      → IsInit entries t
      → u.shared.queue ≡ []
      → ((i : ℕ) → i < s.workers → u.pc i ≡ Pc.done)
      → Balance read_dir hash_file s t u [] visited
      → ((d : String) → contains str_dec visited d ≡ true → Visit read_dir hash_file s entries d)
      → IsExact entries visited u.shared.files
  IsExact-Balance entries t u visited h empty ends b sound =
      let once : (w : String → ℕ)
          → sum w visited
            ≡ sum w (root_dirs s entries)
              + sum (λ d. sum w (walk_dir read_dir hash_file s d).1) visited =
        λ w. omega (
          arith,
          b.dirs w,
          ap (sum w) empty,
          ap (sum w) h.queue,
          sum_below-zero (λ p. sum w (dirs_left read_dir hash_file s p)) s.workers u.pc
              (λ i l. ap (λ p. sum w (dirs_left read_dir hash_file s p)) (ends i l)),
          sum_below-zero (λ p. sum w (dirs_left read_dir hash_file s p)) s.workers t.pc
              (λ i l. ap (λ p. sum w (dirs_left read_dir hash_file s p)) (h.idle i)),
        ) in
      record {
        all_visited = λ d. (sound d, visits entries visited once);
        once = once;
        exact = λ w. omega (
          arith,
          b.files w,
          ap (sum w) h.files,
          sum_below-zero (λ p. sum w (files_left read_dir hash_file s p)) s.workers u.pc
              (λ i l. ap (λ p. sum w (files_left read_dir hash_file s p)) (ends i l)),
          sum_below-zero (λ p. sum w (files_left read_dir hash_file s p)) s.workers t.pc
              (λ i l. ap (λ p. sum w (files_left read_dir hash_file s p)) (h.idle i)),
        );
      }

  AllSound-init :
      (entries : List Entry) (t : System)
      → IsInit entries t
      → AllSound read_dir hash_file s entries t
  AllSound-init entries t h = record {
    queued = record { at = λ d m. root (ap (λ l. contains str_dec l d) (sym h.queue) ∙ m) };
    held = λ i.
        subst (λ p. AllVisit read_dir hash_file s entries (dirs_left read_dir hash_file s p))
          (sym (h.idle i)) (AllVisit-nil read_dir hash_file s entries);
  }

  -- If a scan starts its workers, one at least, they drop no directory and all return, then exactly
  -- the directories to visit were taken, each as often as it was found, and the files are those of
  -- the root and of these directories, each as often as they hold it.
  pub scan-IsExact :
      (entries : List Entry) (t u : System) (n : ℕ)
      → read_dir s.root ≡ some entries
      → begin read_dir hash_file s ≡ running t
      → 0 < s.workers
      → Reach read_dir hash_file s t n u []
      → ((i : ℕ) → i < s.workers → u.pc i ≡ Pc.done)
      → (visited : List String) × IsExact entries visited u.shared.files
  scan-IsExact entries t u n e b some_worker r ends =
      let h = begin-IsInit entries t e b in
      let empty =
        empty_at_end u
          (Reach-IsServed read_dir hash_file s (IsServed-init entries t h some_worker) r) ends in
      let sound = (Reach-Sound read_dir hash_file s entries (AllSound-init entries t h) r).1 in
      (
        visited_of read_dir hash_file s r,
        IsExact-Balance entries t u _ h empty ends (Reach-Balance read_dir hash_file s r) sound.at,
      )
