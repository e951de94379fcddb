-- ===== src/Assets/Optimize/Done.antt =====
-- The workers of `Optimize` return, and what they leave then.
use native.Mathlib.Decide.{ℕ_discrete}
use effective_next.Prelude.{
  ℕ, zero, suc, ◌+◌, ◌*◌, ◌≤◌, ◌<◌, ◌≡◌, ◌⊎◌, inl, inr, refl, ap, ap₂, ◌∙◌, some, List, [], ◌∷◌,
  String, get_elem?, length, map, arith,
}
use effective_next.Prelude.Int.{ℤ}
use effective_next.Prelude.Sums.{sum, is_key, sum_below, sum_below-zero}
use effective_next.Assets.{File, Optimizer}
use effective_next.Assets.Optimize.{
  OptimizeResult, threads_of, indices, waiting, returned, Pool, result_of, Step, Reach, begin,
  later, start_pool, apply_hashes, slice,
}
use effective_next.Assets.Optimize.Exact.{holds, Inv, Step-Inv}
use effective_next.Assets.Optimize.Progress.{
  cost, AllFiles, IsFile, InRange, Step-InRange, Step-cost, Closed, Step-Closed, Step-exists,
}

length-indices : (files : List File) (k : ℕ) → length (indices files k) ≡ length files
unfolding indices
length-indices [] k = refl
length-indices (f ∷ files) k = omega (arith, length-indices files (k + 1))

next_index : (k i : ℕ) → (k + 1) + i ≡ k + suc i
next_index k i = omega arith

first_index : (k : ℕ) → k ≡ k + 0
first_index k = omega arith

whole_index : (i : ℕ) → 0 + i ≡ i
whole_index i = omega arith

index_left :
    (files : List File) (k i : ℕ) (f : File)
    → get_elem? files i ≡ some f
    → 0 < sum (is_key ℕ_discrete (k + i)) (indices files k)
unfolding indices
index_left [] k i f e = cc
index_left (g ∷ files) k zero f e = ground arith
index_left (g ∷ files) k (suc i) f e = omega (
  arith,
  index_left files (k + 1) i f e,
  ap (λ j. sum (is_key ℕ_discrete j) (indices files (k + 1))) (next_index k i),
)

sum_waiting : (n : ℕ) → sum_below cost n (λ _. waiting) ≡ n
sum_waiting zero = refl
sum_waiting (suc n) = omega (arith, sum_waiting n)

-- All workers have returned.
abbrev pub AllReturned : ℕ → Pool → Type 0
AllReturned threads p = (w : ℕ) → w < threads → p.pc w ≡ returned

-- The file with the hash of its digest.
abbrev pub with_hash : (String → ℕ) → (String → String × ℕ) → File → File
with_hash hash64 hash_file f = record f { hash = hash64 (hash_file f.path).0 }

threads_of-pos : (max_threads : ℤ) (o : Optimizer) → 0 < o.workers → 0 < threads_of max_threads o
unfolding threads_of
threads_of-pos (ℤ.pos n) o h = ground (arith, h)
threads_of-pos (ℤ.negsuc n) o h = ground (arith, h)

module _ (hash_file : String → String × ℕ) (files : List File) (threads : ℕ) (hashes : ℕ → String)
    (results : ℕ → OptimizeResult) (file_hashes : ℕ → ℕ) where
  start_at : Pool
  start_at = start_pool hashes results file_hashes files

  AllFiles-indices :
      (rest : List File) (k : ℕ)
      → ((i : ℕ) (f : File) → get_elem? rest i ≡ some f → get_elem? files (k + i) ≡ some f)
      → AllFiles hash_file files threads (indices rest k)
  unfolding AllFiles indices
  AllFiles-indices [] k h = tt
  AllFiles-indices (f ∷ rest) k h = (
    (f, ap (get_elem? files) (first_index k) ∙ h 0 f refl),
    AllFiles-indices rest (k + 1) (λ i g e. ap (get_elem? files) (next_index k i) ∙ h (suc i) g e),
  )

  Reach-Inv :
      (n : ℕ) (p : Pool) (i : ℕ) (f : File)
      → get_elem? files i ≡ some f
      → Reach hash_file files threads start_at n p
      → Inv hash_file files threads i f p
  unfolding start_at start_pool
  Reach-Inv n p i f e begin = record {
    digest = λ w h. absurd (omega (arith, h));
    kept = inl (
        omega (
          arith,
          index_left files 0 i f e,
          ap (λ j. sum (is_key ℕ_discrete j) (indices files 0)) (whole_index i),
        ));
  }
  Reach-Inv n p i f e (later {n = m} {p = q} r st) =
      Step-Inv hash_file files threads i f q p e (Reach-Inv m q i f e r) st

  Reach-InRange :
      (n : ℕ) (p : Pool)
      → Reach hash_file files threads start_at n p
      → InRange hash_file files threads p
  unfolding start_at start_pool IsFile
  Reach-InRange n p begin = record {
    jobs = AllFiles-indices files 0 (λ i f e. ap (get_elem? files) (whole_index i) ∙ e);
    pcs = λ w. tt;
  }
  Reach-InRange n p (later {n = m} {p = q} r st) =
      Step-InRange hash_file files threads q p (Reach-InRange m q r) st

  Reach-Closed :
      (n : ℕ) (p : Pool)
      → Reach hash_file files threads start_at n p
      → Closed hash_file files threads p
  unfolding start_at start_pool
  Reach-Closed n p begin = λ w e. absurd cc
  Reach-Closed n p (later {n = m} {p = q} r st) =
      Step-Closed hash_file files threads q p (Reach-Closed m q r) st

  Reach-cost :
      (n : ℕ) (p : Pool)
      → Reach hash_file files threads start_at n p
      → n + (3 * length p.jobs + sum_below cost threads p.pc) ≤ 3 * length files + threads
  unfolding start_at start_pool
  Reach-cost n p begin = omega (arith, length-indices files 0, sum_waiting threads)
  Reach-cost n p (later {n = m} {p = q} r st) =
      omega (arith, Reach-cost m q r, Step-cost hash_file files threads q p st)

  written :
      (n : ℕ) (p : Pool) (i : ℕ) (f : File)
      → 0 < threads
      → get_elem? files i ≡ some f
      → Reach hash_file files threads start_at n p
      → AllReturned threads p
      → (p.hashes i ≡ (hash_file f.path).0) × (p.results i ≡ result_of hash_file f)
  written n p i f t e r all =
      let empty = Reach-Closed n p r 0 (all 0 t) in
      let idle = sum_below-zero (holds i) threads p.pc (λ w l. ap (holds i) (all w l)) in
      elim (Reach-Inv n p i f e r).kept [
        | inl m ↦ absurd (omega (arith, m, idle, ap (sum (is_key ℕ_discrete i)) empty))
        | inr done ↦ done
      ]

  apply_hashes-written :
      (hash64 : String → ℕ) (given : ℕ → String) (rest : List File) (k : ℕ)
      → ((i : ℕ) (f : File) → get_elem? rest i ≡ some f → given (k + i) ≡ (hash_file f.path).0)
      → apply_hashes hash64 given k rest ≡ map (with_hash hash64 hash_file) rest
  unfolding apply_hashes
  apply_hashes-written hash64 given [] k h = refl
  apply_hashes-written hash64 given (f ∷ rest) k h =
      ap₂ (λ (d : String) (fs : List File). record f { hash = hash64 d } ∷ fs)
        (ap given (first_index k) ∙ h 0 f refl)
        (apply_hashes-written hash64 given rest (k + 1)
          (λ i g e. ap given (next_index k i) ∙ h (suc i) g e))

  slice-written :
      (given : ℕ → OptimizeResult) (rest : List File) (k : ℕ)
      → ((i : ℕ) (f : File) → get_elem? rest i ≡ some f → given (k + i) ≡ result_of hash_file f)
      → slice given k rest ≡ map (result_of hash_file) rest
  unfolding slice
  slice-written given [] k h = refl
  slice-written given (f ∷ rest) k h =
      ap₂ ◌∷◌ (ap given (first_index k) ∙ h 0 f refl)
        (slice-written given rest (k + 1) (λ i g e. ap given (next_index k i) ∙ h (suc i) g e))

  going_on :
      (n : ℕ) (p : Pool)
      → Reach hash_file files threads start_at n p
      → (k : ℕ) → k ≤ threads
      → ((w : ℕ) → w < k → p.pc w ≡ returned) ⊎ ((q : Pool) × Step hash_file files threads p q)
  going_on n p r zero l = inl (λ w h. absurd (omega arith))
  going_on n p r (suc k) l = elim (going_on n p r k (omega (arith, l))) [
    | inr step ↦ inr step
    | inl all ↦
        elim (Step-exists hash_file files threads p k (p.pc k) refl (omega (arith, l))
          ((Reach-InRange n p r).pcs k)) [
            | inr step ↦ inr step
            | inl e ↦ inl (λ w h. elim (ℕ_discrete w k) [
              | yes same ↦ ap p.pc same ∙ e
              | no other ↦ all w (omega (arith, h))
            ])
          ]
  ]

-- If the optimizer has a worker, then however the steps of the workers come, there are at most three for
-- each file and one for each worker; and at each point one can take a step, or all have returned and
-- the results and the hashes of the files are, in their order, those of the files taken alone.
pub optimize_ends :
    (hash_file : String → String × ℕ) (hash64 : String → ℕ) (max_threads : ℤ) (o : Optimizer)
    (hashes : ℕ → String) (results : ℕ → OptimizeResult) (file_hashes : ℕ → ℕ) (n : ℕ) (p : Pool)
    → 0 < o.workers
    → Reach hash_file o.files
        (threads_of max_threads o)
        (start_pool hashes results file_hashes o.files)
        n
        p
    → (n ≤ 3 * length o.files + threads_of max_threads o)
      × (((q : Pool) × Step hash_file o.files (threads_of max_threads o) p q)
          ⊎ (AllReturned (threads_of max_threads o) p
              × ((slice p.results 0 o.files ≡ map (result_of hash_file) o.files)
                  × (apply_hashes hash64 p.hashes 0 o.files
                      ≡ map (with_hash hash64 hash_file) o.files))))
unfolding start_at
optimize_ends hash_file hash64 max_threads o hashes results file_hashes n p workers r =
    let threads = threads_of max_threads o in
    let pos = threads_of-pos max_threads o workers in
    (
      omega (arith, Reach-cost hash_file o.files threads hashes results file_hashes n p r),
      elim (going_on hash_file o.files threads hashes results file_hashes n p r threads
          (omega arith)) [
            | inr step ↦ inl step
            | inl all ↦ inr (
              all,
              (
                slice-written hash_file o.files threads hashes results file_hashes p.results o.files
                    0
                    (λ i f e.
                      ap p.results (whole_index i)
                      ∙ (written hash_file o.files threads hashes results file_hashes n p i f pos e
                          r all).1),
                apply_hashes-written hash_file o.files threads hashes results file_hashes hash64
                    p.hashes o.files 0
                    (λ i f e.
                      ap p.hashes (whole_index i)
                      ∙ (written hash_file o.files threads hashes results file_hashes n p i f pos e
                          r all).0),
              ),
            )
          ],
    )
