-- ===== src/Assets/Optimize/Progress.antt =====
-- The steps of the workers of `Optimize` are bounded, and none waits for ever.
use effective_next.Prelude.{
  ℕ, ◌+◌, ◌*◌, ◌≤◌, ◌<◌, ◌≡◌, ◌⊎◌, inl, inr, refl, sym, ap, ◌∙◌, subst, some, List, [], ◌∷◌, String,
  get_elem?, length, arith, List-cases, Bool, true, false,
}
use mathlib.Core.Bool.{false≢true}
use effective_next.Prelude.Sums.{moved, moved-cases, sum_below, sum_below-moved}
use effective_next.Assets.{File}
use effective_next.Assets.Optimize.{
  Pc, waiting, taken, hashed, returned, Pool, Step, take, quit, write_hash, write_result,
}

-- The steps that a worker may still take with what it holds.
abbrev pub cost : Pc → ℕ
cost waiting = 1
cost (taken i) = 3
cost (hashed i) = 2
cost returned = 0

abbrev is_taken : Pc → Bool
is_taken waiting = true
is_taken (taken i) = true
is_taken (hashed i) = true
is_taken returned = false

abbrev is_empty : List ℕ → Bool
is_empty [] = true
is_empty (i ∷ jobs) = false

module _ (hash_file : String → String × ℕ) (files : List File) (threads : ℕ) where
  -- Each index that is left, or that a worker holds, is that of a file.
  unfoldable pub AllFiles : List ℕ → Type 0
  AllFiles [] = Unit
  AllFiles (i ∷ jobs) = ((f : File) × (get_elem? files i ≡ some f)) × AllFiles jobs

  unfoldable pub IsFile : Pc → Type 0
  IsFile waiting = Unit
  IsFile (taken i) = (f : File) × (get_elem? files i ≡ some f)
  IsFile (hashed i) = (f : File) × (get_elem? files i ≡ some f)
  IsFile returned = Unit

  pub record InRange (p : Pool) : Type 0 where
    pub jobs : AllFiles p.jobs
    pub pcs : (w : ℕ) → IsFile (p.pc w)

  IsFile-moved :
      (pc : ℕ → Pc) (w : ℕ) (c : Pc)
      → ((v : ℕ) → IsFile (pc v))
      → IsFile c
      → (v : ℕ) → IsFile (moved pc w c v)
  IsFile-moved pc w c h x v = elim (moved-cases pc w c v) [
    | inl e ↦ subst IsFile (sym e) x
    | inr e ↦ subst IsFile (sym e) (h v)
  ]

  pub Step-InRange : (p q : Pool) → InRange p → Step hash_file files threads p q → InRange q
  unfolding AllFiles IsFile
  Step-InRange p q h (take w {i = j} {rest} l e s) =
      let left = subst AllFiles s h.jobs in
      record { jobs = left.1; pcs = IsFile-moved p.pc w (taken j) h.pcs left.0 }
  Step-InRange p q h (quit w l e s) = record {
    jobs = h.jobs;
    pcs = IsFile-moved p.pc w returned h.pcs tt;
  }
  Step-InRange p q h (write_hash w {i = j} {f = g} l e s) = record {
    jobs = h.jobs;
    pcs = IsFile-moved p.pc w (hashed j) h.pcs (g, s);
  }
  Step-InRange p q h (write_result w {i = j} {f = g} l e s) = record {
    jobs = h.jobs;
    pcs = IsFile-moved p.pc w waiting h.pcs tt;
  }

  pub Step-cost :
      (p q : Pool)
      → Step hash_file files threads p q
      → 3 * length q.jobs + sum_below cost threads q.pc + 1
        ≤ 3 * length p.jobs + sum_below cost threads p.pc
  Step-cost p q (take w {i = j} l e s) =
      omega (arith, ap length s, sum_below-moved cost threads p.pc w (taken j) l, ap cost e)
  Step-cost p q (quit w l e s) =
      omega (arith, sum_below-moved cost threads p.pc w returned l, ap cost e)
  Step-cost p q (write_hash w {i = j} l e s) =
      omega (arith, sum_below-moved cost threads p.pc w (hashed j) l, ap cost e)
  Step-cost p q (write_result w l e s) =
      omega (arith, sum_below-moved cost threads p.pc w waiting l, ap cost e)

  -- A worker has returned only if no index is left.
  abbrev pub Closed : Pool → Type 0
  Closed p = (w : ℕ) → p.pc w ≡ returned → p.jobs ≡ []

  pub Step-Closed : (p q : Pool) → Closed p → Step hash_file files threads p q → Closed q
  Step-Closed p q h (take w {i = j} l e s) v r = elim (moved-cases p.pc w (taken j) v) [
    | inl d ↦ absurd (false≢true (ap is_taken (sym r ∙ d)))
    | inr d ↦ absurd (false≢true (ap is_empty (sym s ∙ h v (sym d ∙ r))))
  ]
  Step-Closed p q h (quit w l e s) v r = s
  Step-Closed p q h (write_hash w {i = j} l e s) v r = elim (moved-cases p.pc w (hashed j) v) [
    | inl d ↦ absurd (false≢true (ap is_taken (sym r ∙ d)))
    | inr d ↦ h v (sym d ∙ r)
  ]
  Step-Closed p q h (write_result w l e s) v r = elim (moved-cases p.pc w waiting v) [
    | inl d ↦ absurd (false≢true (ap is_taken (sym r ∙ d)))
    | inr d ↦ h v (sym d ∙ r)
  ]

  pub Step-exists :
      (p : Pool) (w : ℕ) (c : Pc)
      → p.pc w ≡ c
      → w < threads
      → IsFile c
      → (c ≡ returned) ⊎ ((q : Pool) × Step hash_file files threads p q)
  unfolding IsFile
  Step-exists p w waiting e l x = elim (List-cases p.jobs) [
    | inl s ↦ inr (_, quit w l e s)
    | inr (i, rest, s) ↦ inr (_, take w l e s)
  ]
  Step-exists p w (taken i) e l (f, s) = inr (_, write_hash w l e s)
  Step-exists p w (hashed i) e l (f, s) = inr (_, write_result w l e s)
  Step-exists p w returned e l x = inl refl
