-- ===== src/Scanner/Workers/Sound.antt =====
-- The directories that the workers take are those that a scan is to walk, and while one is queued
-- a worker is left to take it.
use effective_next.Prelude.{
  ℕ, ◌<◌, ◌≡◌, ◌⊎◌, inl, inr, refl, sym, ap, ◌∙◌, subst, true, Option, List, [], ◌∷◌, ◌++◌, String,
  contains, contains-append, append_assoc, str_dec, arith, Bool-cases,
}
use effective_next.Prelude.Sums.{moved-cases, sum_below, sum_below-moved, sum_below-ge}
use effective_next.Scanner.{Entry, Scanner, root_dirs}
use effective_next.Scanner.Workers.{
  Pc, Shared, System, walk_entries, walk_dir, Move, Step, Reach, unreadable, take, quit, skip,
  descend, found, walked, send, drop, next, pick, start, later,
}
use effective_next.Scanner.Workers.Balance.{
  dirs_left, taken, step_taken, visited_of, walk-skip, walk-descend, walk-found, walk-some,
}

-- Workers that have not returned.
abbrev pub active : Pc → ℕ
active Pc.done = 0
active _ = 1

module _ (read_dir : String → Option (List Entry)) (hash_file : String → Option ℕ)
    (s : Scanner) where
  -- Only the last worker leaves the queue, and only when it is empty.
  abbrev pub IsServed : System → Type 0
  IsServed u = (u.shared.queue ≡ []) ⊎ (0 < sum_below active s.workers u.pc)

  Move-served :
      {m m' : Shared} {p p' : Pc} {lost : List String}
      → Move read_dir hash_file s m p m' p' lost
      → (active p ≡ 1) × ((m'.queue ≡ []) ⊎ (active p' ≡ 1))
  Move-served (unreadable q e) = (refl, inr refl)
  Move-served (take q e) = (refl, inr refl)
  Move-served (quit q) = (refl, inl q)
  Move-served (skip k) = (refl, inr refl)
  Move-served (descend k d) = (refl, inr refl)
  Move-served (found k d) = (refl, inr refl)
  Move-served walked = (refl, inr refl)
  Move-served (send l) = (refl, inr refl)
  Move-served (drop l) = (refl, inr refl)
  Move-served next = (refl, inr refl)

  Step-IsServed :
      {u v : System} {lost : List String} → Step read_dir hash_file s u v lost → IsServed v
  Step-IsServed {u} (pick i {m} {p} l mv) = elim (Move-served mv).1 [
    | inl empty ↦ inl empty
    | inr on ↦ inr (
        omega (
          arith,
          on,
          (Move-served mv).0,
          sum_below-moved active s.workers u.pc i p l,
          sum_below-ge active s.workers u.pc i l,
        ))
  ]

  pub Reach-IsServed :
      {t u : System} {n : ℕ} {lost : List String}
      → IsServed t
      → Reach read_dir hash_file s t n u lost
      → IsServed u
  Reach-IsServed h start = h
  Reach-IsServed h (later r st) = Step-IsServed st

  -- The directories that a scan is to walk.
  pub data Visit (entries : List Entry) : String → Type 0 where
    root : {d : String} → contains str_dec (root_dirs s entries) d ≡ true → Visit entries d
    below :
        {d e : String}
        → Visit entries d
        → contains str_dec (walk_dir read_dir hash_file s d).1 e ≡ true
        → Visit entries e

  module _ (entries : List Entry) where
    pub record AllVisit (ds : List String) : Type 0 where
      pub at : (d : String) → contains str_dec ds d ≡ true → Visit entries d

    AllVisit-append : {xs ys : List String} → AllVisit xs → AllVisit ys → AllVisit (xs ++ ys)
    AllVisit-append {xs} {ys} h k = record {
      at = λ d m. elim (Bool-cases (contains str_dec xs d)) [
        | inl a ↦ h.at d a
        | inr b ↦ k.at d (ground (arith, contains-append str_dec xs ys d))
      ];
    }

    AllVisit-tail : {x : String} {xs : List String} → AllVisit (x ∷ xs) → AllVisit xs
    unfolding contains
    AllVisit-tail h = record { at = λ d m. h.at d (ground arith) }

    AllVisit-head : {x : String} {xs : List String} → AllVisit (x ∷ xs) → Visit entries x
    unfolding contains
    AllVisit-head {x} h = h.at x (ground arith)

    AllVisit-one : {x : String} → Visit entries x → AllVisit (x ∷ [])
    unfolding contains
    AllVisit-one {x} v = record {
      at = λ d m. elim (str_dec x d) [
        | yes e ↦ subst (Visit entries) e v
        | no n ↦ absurd (ground arith)
      ];
    }

    pub AllVisit-nil : AllVisit []
    unfolding contains
    AllVisit-nil = record { at = λ d m. cc }

    record Sound (m : Shared) (p : Pc) : Type 0 where
      queued : AllVisit m.queue
      held : AllVisit (dirs_left read_dir hash_file s p)

    Move-Sound :
        {m m' : Shared} {p p' : Pc} {lost : List String}
        → (mv : Move read_dir hash_file s m p m' p' lost) → Sound m p
        → Sound m' p' × AllVisit (taken read_dir hash_file s mv)
    unfolding taken
    Move-Sound (unreadable q e) h =
        let all = subst AllVisit q h.queued in
        (
          record { queued = AllVisit-tail all; held = AllVisit-nil },
          AllVisit-one (AllVisit-head all),
        )
    Move-Sound (take {dir} {entries = es} q e) h =
        let all = subst AllVisit q h.queued in
        (
          record {
            queued = AllVisit-tail all;
            held = record {
              at = λ d m.
                  below (AllVisit-head all) (
                    ap (λ r. contains str_dec r.1 d) (walk-some read_dir hash_file s dir es e) ∙ m);
            };
          },
          AllVisit-one (AllVisit-head all),
        )
    Move-Sound (quit q) h = (record { queued = h.queued; held = AllVisit-nil }, AllVisit-nil)
    Move-Sound (skip {dir} {e} {left} {subs} k) h = (
      record {
        queued = h.queued;
        held =
            subst (λ r. AllVisit (subs ++ r.1)) (walk-skip read_dir hash_file s dir e left k)
              h.held;
      },
      AllVisit-nil,
    )
    Move-Sound (descend {dir} {e} {left} {subs} k d) h =
        let all =
          subst (λ r. AllVisit (subs ++ r.1)) (walk-descend read_dir hash_file s dir e left k d)
            h.held in
        (
          record { queued = h.queued; held = subst AllVisit (sym (append_assoc subs _ _)) all },
          AllVisit-nil,
        )
    Move-Sound (found {dir} {e} {left} {subs} k d) h = (
      record {
        queued = h.queued;
        held =
            subst (λ r. AllVisit (subs ++ r.1)) (walk-found read_dir hash_file s dir e left k d)
              h.held;
      },
      AllVisit-nil,
    )
    Move-Sound (walked {dir} {subs}) h = (
      record {
        queued = h.queued;
        held = record {
          at = λ d m. h.held.at d (
              ground (
                arith,
                contains-append str_dec subs (walk_entries read_dir hash_file s dir []).1 d,
              ));
        };
      },
      AllVisit-nil,
    )
    Move-Sound (send {dir} l) h = (
      record {
        queued = AllVisit-append h.queued (AllVisit-one (AllVisit-head h.held));
        held = AllVisit-tail h.held;
      },
      AllVisit-nil,
    )
    Move-Sound (drop l) h =
        (record { queued = h.queued; held = AllVisit-tail h.held }, AllVisit-nil)
    Move-Sound next h = (record { queued = h.queued; held = AllVisit-nil }, AllVisit-nil)

    pub record AllSound (u : System) : Type 0 where
      pub queued : AllVisit u.shared.queue
      pub held : (i : ℕ) → AllVisit (dirs_left read_dir hash_file s (u.pc i))

    pub Reach-Sound :
        {t u : System} {n : ℕ} {lost : List String}
        → AllSound t
        → (r : Reach read_dir hash_file s t n u lost)
        → AllSound u × AllVisit (visited_of read_dir hash_file s r)
    unfolding visited_of step_taken
    Reach-Sound h start = (h, AllVisit-nil)
    Reach-Sound h (later {u} r (pick i {m} {p} l mv)) =
        let (k, all) = Reach-Sound h r in
        let (after, new) = Move-Sound mv (record { queued = k.queued; held = k.held i }) in
        (
          record {
            queued = after.queued;
            held = λ j. elim (moved-cases u.pc i p j) [
              | inl e ↦ subst (λ q. AllVisit (dirs_left read_dir hash_file s q)) (sym e) after.held
              | inr e ↦ subst (λ q. AllVisit (dirs_left read_dir hash_file s q)) (sym e) (k.held j)
            ];
          },
          AllVisit-append new all,
        )
