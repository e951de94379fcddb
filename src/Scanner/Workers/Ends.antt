-- ===== src/Scanner/Workers/Ends.antt =====
-- The workers of `Scan` return: each run is finite and none gets stuck. The sends before they start
-- may block.
use native.Mathlib.Decide.{dec_lt, ℕ_discrete}
use effective_next.Prelude.{
  ℕ, zero, suc, ◌+◌, ◌≤◌, ◌<◌, ◌≡◌, ◌↔◌, ◌⊎◌, inl, inr, refl, sym, ap, ◌∙◌, subst, append_assoc,
  Option, none, some, List, [], ◌∷◌, ◌++◌, length, length-append, String, arith, Option-cases,
  Bool-cases, List-cases,
}
use effective_next.Prelude.Sums.{sum, sum-append, sum-snoc, sum_below, sum_below-moved}
use effective_next.Engine.{File}
use effective_next.Scanner.{Entry, Scanner, root_files, root_dirs, skips, queue_cap, fill}
use effective_next.Scanner.Workers.{
  Pc, Shared, System, running, blocked, full_path, walk_entries, walk_dir, Move, Step, Reach, begin,
  with_entries, with_dirs, start_workers, unreadable, take, quit, skip, descend, found, walked,
  send, drop, next, pick, start, later,
}
use effective_next.Scanner.Workers.Balance.{
  dirs_left, walk-skip, walk-descend, walk-found, walk-some,
}
use effective_next.Scanner.Workers.Sound.{active}
use effective_next.Scanner.Workers.Exact.{begin-IsInit}

module _ (read_dir : String → Option (List Entry)) (hash_file : String → Option ℕ)
    (s : Scanner) where
  -- The directories are a finite tree: a weight that is above those of the directories below.
  pub record IsTree (weight : String → ℕ) : Type 0 where
    pub some_weight : (d : String) → 2 ≤ weight d
    pub falls :
        (d : String) (entries : List Entry)
        → read_dir d ≡ some entries
        → 3 + length entries + sum (λ e. weight e + 1) (walk_dir read_dir hash_file s d).1
          ≤ weight d

  module _ (weight : String → ℕ) where
    -- The steps that a worker may still take with what it holds.
    abbrev cost : Pc → ℕ
    cost Pc.idle = 1
    cost Pc.done = 0
    cost (Pc.sending subs) = 2 + sum (λ e. weight e + 1) subs
    cost (Pc.walking dir left subs) =
        3
        + length left
        + sum (λ e. weight e + 1) (dirs_left read_dir hash_file s (Pc.walking dir left subs))

    Move-cost :
        {m m' : Shared} {p p' : Pc} {lost : List String}
        → IsTree weight
        → Move read_dir hash_file s m p m' p' lost
        → sum weight m'.queue + cost p' + 1 ≤ sum weight m.queue + cost p
    unfolding walk_entries
    Move-cost t (unreadable {dir} q e) = omega (arith, ap (sum weight) q, t.some_weight dir)
    Move-cost t (take {dir} {entries} q e) = omega (
      arith,
      ap (sum weight) q,
      t.falls dir entries e,
      ap (λ r. sum (λ e. weight e + 1) r.1) (walk-some read_dir hash_file s dir entries e),
    )
    Move-cost t (quit q) = omega arith
    Move-cost t (skip {dir} {e} {left} {subs} k) = omega (
      arith,
      ap (λ r. sum (λ e. weight e + 1) (subs ++ r.1)) (walk-skip read_dir hash_file s dir e left k),
    )
    Move-cost t (descend {dir} {e} {left} {subs} k d) = omega (
      arith,
      ap (λ r. sum (λ e. weight e + 1) (subs ++ r.1))
          (walk-descend read_dir hash_file s dir e left k d),
      ap (sum (λ e. weight e + 1)) (
          append_assoc subs (full_path read_dir hash_file s dir e ∷ [])
            (walk_entries read_dir hash_file s dir left).1),
    )
    Move-cost t (found {dir} {e} {left} {subs} k d) = omega (
      arith,
      ap (λ r. sum (λ e. weight e + 1) (subs ++ r.1))
          (walk-found read_dir hash_file s dir e left k d),
    )
    Move-cost t (walked {dir} {subs}) = omega (arith, sum-append (λ e. weight e + 1) subs [])
    Move-cost {m} t (send {dir} l) = omega (arith, sum-snoc weight m.queue dir)
    Move-cost t (drop l) = omega arith
    Move-cost t next = omega arith

    Step-cost :
        {u v : System} {lost : List String}
        → IsTree weight
        → Step read_dir hash_file s u v lost
        → sum weight v.shared.queue + sum_below cost s.workers v.pc + 1
          ≤ sum weight u.shared.queue + sum_below cost s.workers u.pc
    Step-cost {u} t (pick i {m} {p} l mv) =
        omega (arith, Move-cost t mv, sum_below-moved cost s.workers u.pc i p l)

    Reach-cost :
        {t u : System} {n : ℕ} {lost : List String}
        → IsTree weight
        → Reach read_dir hash_file s t n u lost
        → n + (sum weight u.shared.queue + sum_below cost s.workers u.pc)
          ≤ sum weight t.shared.queue + sum_below cost s.workers t.pc
    Reach-cost t start = omega arith
    Reach-cost t (later r st) = omega (arith, Reach-cost t r, Step-cost t st)

  -- What a worker that has not returned does next.
  Move-exists :
      (m : Shared) (p : Pc)
      → active p ≡ 1
      → (m' : Shared) × (p' : Pc) × (lost : List String) × Move read_dir hash_file s m p m' p' lost
  Move-exists m Pc.idle a = elim (List-cases m.queue) [
    | inl empty ↦ (_, _, _, quit empty)
    | inr (d, rest, q) ↦ elim (Option-cases (read_dir d)) [
      | inl e ↦ (_, _, _, unreadable q e)
      | inr (entries, e) ↦ (_, _, _, take q e)
    ]
  ]
  Move-exists m (Pc.walking dir [] subs) a = (_, _, _, walked)
  Move-exists m (Pc.walking dir (e ∷ left) subs) a =
      elim (Bool-cases (skips s (full_path read_dir hash_file s dir e) e)) [
        | inl k ↦ (_, _, _, skip k)
        | inr k ↦ elim (Bool-cases e.is_dir) [
          | inl d ↦ (_, _, _, descend k d)
          | inr d ↦ (_, _, _, found k d)
        ]
      ]
  Move-exists m (Pc.sending []) a = (_, _, _, next)
  Move-exists m (Pc.sending (d ∷ subs)) a = elim (dec_lt (length m.queue) queue_cap) [
    | yes l ↦ (_, _, _, send l)
    | no l ↦ (_, _, _, drop (omega arith))
  ]
  Move-exists m Pc.done a = absurd (omega arith)

  all_done_or :
      (n : ℕ) (pc : ℕ → Pc)
      → ((i : ℕ) → i < n → pc i ≡ Pc.done) ⊎ ((i : ℕ) × (i < n) × (active (pc i) ≡ 1))
  all_done_or zero pc = inl (λ i l. absurd (omega arith))
  all_done_or (suc n) pc = elim (all_done_or n pc) [
    | inr (i, l, a) ↦ inr (i, omega arith, a)
    | inl all ↦ elim (done_or (pc n)) [
      | inr a ↦ inr (n, omega arith, a)
      | inl e ↦ inl (λ i l. elim (ℕ_discrete i n) [
        | yes same ↦ ap pc same ∙ e
        | no other ↦ all i (omega arith)
      ])
    ]
  ]
    where
      done_or : (p : Pc) → (p ≡ Pc.done) ⊎ (active p ≡ 1)
      done_or Pc.idle = inr refl
      done_or (Pc.walking dir left subs) = inr refl
      done_or (Pc.sending subs) = inr refl
      done_or Pc.done = inl refl

  sum_idle :
      (weight : String → ℕ) (n : ℕ) (pc : ℕ → Pc)
      → ((i : ℕ) → pc i ≡ Pc.idle)
      → sum_below (cost weight) n pc ≡ n
  sum_idle weight zero pc h = refl
  sum_idle weight (suc n) pc h = omega (arith, ap (cost weight) (h n), sum_idle weight n pc h)

  -- If the directories are a finite tree and a scan starts its workers, then however their steps
  -- come, at most the weight of the root's directories and one step for each worker are taken, and at
  -- each point all workers have returned or one can take a step.
  pub scan_ends :
      (weight : String → ℕ) (entries : List Entry) (t u : System) (n : ℕ) (lost : List String)
      → IsTree weight
      → read_dir s.root ≡ some entries
      → begin read_dir hash_file s ≡ running t
      → Reach read_dir hash_file s t n u lost
      → (n ≤ sum weight (root_dirs s entries) + s.workers)
        × (((i : ℕ) → i < s.workers → u.pc i ≡ Pc.done)
            ⊎ ((v : System) × (more : List String) × Step read_dir hash_file s u v more))
  scan_ends weight entries t u n lost tree e b r =
      let h = begin-IsInit read_dir hash_file s entries t e b in
      (
        omega (
          arith,
          Reach-cost weight tree r,
          ap (sum weight) h.queue,
          sum_idle weight s.workers t.pc h.idle,
        ),
        elim (all_done_or s.workers u.pc) [
          | inl all ↦ inl all
          | inr (i, l, a) ↦
              let (m, p, more, mv) = Move-exists u.shared (u.pc i) a in inr (_, more, pick i l mv)
        ],
      )

  fill-none :
      (queue dirs : List String)
      → length queue ≤ queue_cap
      → (fill queue dirs ≡ none) ↔ (queue_cap < length queue + length dirs)
  unfolding fill
  fill-none queue [] h = (λ e. cc, λ l. absurd (omega arith))
  fill-none queue (d ∷ dirs) h = elim (dec_lt (length queue) queue_cap) [
    | yes l ↦
        let longer = length-append queue (d ∷ []) in
        ground (arith, fill-none (queue ++ d ∷ []) dirs (omega arith), longer)
    | no l ↦ ground arith
  ]

  start_workers-blocked :
      (files : List File) (found : Option (List String))
      → (start_workers read_dir hash_file s files found ≡ blocked) ↔ (found ≡ none)
  unfolding start_workers
  start_workers-blocked files none = (λ _. refl, λ _. refl)
  start_workers-blocked files (some queue) = (λ e. cc, λ e. cc)

  with_dirs-blocked :
      (files : List File) (dirs : List String)
      → (with_dirs read_dir hash_file s files dirs ≡ blocked) ↔ (64 < length dirs)
  unfolding with_dirs
  with_dirs-blocked files [] = (λ e. cc, λ l. absurd (omega arith))
  with_dirs-blocked files (d ∷ dirs) =
      let (none_of, of_none) = start_workers-blocked files (fill [] (d ∷ dirs)) in
      let (long_of, of_long) = fill-none [] (d ∷ dirs) (omega arith) in
      (λ e. omega (arith, long_of (none_of e)), λ l. of_none (of_long (omega arith)))

  -- `Scan` of a root that can be read blocks for good, before any worker has started, exactly if
  -- the root has more than 64 directories that are not ignored.
  pub begin-blocked_iff :
      (entries : List Entry)
      → read_dir s.root ≡ some entries
      → (begin read_dir hash_file s ≡ blocked) ↔ (64 < length (root_dirs s entries))
  unfolding begin with_entries
  begin-blocked_iff entries e =
      subst
        (λ o. (with_entries read_dir hash_file s o ≡ blocked) ↔ (64 < length (root_dirs s entries)))
        (sym e) (with_dirs-blocked (root_files hash_file s entries) (root_dirs s entries))
