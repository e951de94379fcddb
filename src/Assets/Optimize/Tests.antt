-- ===== src/Assets/Optimize/Tests.antt =====
-- Two workers on two files, and the theorem at the point where one has returned.
use effective_next.Prelude.{ℕ, ◌+◌, ◌*◌, ◌≤◌, ◌≡◌, ◌⊎◌, refl, [], ◌∷◌, String, length, map, arith}
use effective_next.Prelude.Int.{pos}
use effective_next.Prelude.Sums.{moved}
use effective_next.Assets.{File, Optimizer}
use effective_next.Assets.Optimize.{
  OptimizeResult, threads_of, indices, Pool, result_of, Step, take, quit, write_hash, write_result,
  Reach, begin, later, start_pool, apply_hashes, slice,
}
use effective_next.Assets.Optimize.Done.{AllReturned, with_hash, optimize_ends}

program : Unit {0}
unfolding threads_of indices start_pool moved
program = tt

abbrev logo : File
logo = record { path = "/p/logo.png"; rel_path = "logo.png"; type = "png"; size = 9; hash = 0 }

abbrev icon : File
icon = record { path = "/p/icon.ico"; rel_path = "icon.ico"; type = "ico"; size = 4; hash = 0 }

abbrev site : Optimizer
site = record { root = "/p"; files = logo ∷ icon ∷ []; workers = 2 }

abbrev digest : String → String × ℕ
digest path = (path, 4)

abbrev length_of : String → ℕ
length_of digest = 7

abbrev blank : OptimizeResult
blank = record {
  original_path = "";
  output_path = "";
  original_size = 0;
  output_size = 0;
  saved_bytes = pos 0;
  hash = "";
}

abbrev pool : Pool
pool = start_pool (λ _. "") (λ _. blank) (λ _. 0) site.files

abbrev AtPool : ℕ → Type 0
AtPool n = (p : Pool) × Reach digest site.files 2 pool n p

-- The second worker takes the first file, both take turns, and the first returns.
abbrev run : AtPool 7
unfolding program
run = (
  _,
  later
      (later
        (later
          (later
            (later
              (later (later begin (take 1 (omega arith) refl refl))
                (take 0 (omega arith) refl refl))
              (write_hash 0 (omega arith) refl refl))
            (write_hash 1 (omega arith) refl refl))
          (write_result 0 (omega arith) refl refl))
        (quit 0 (omega arith) refl refl))
      (write_result 1 (omega arith) refl refl),
)

optimize_ends_example :
    (7 ≤ 3 * length site.files + threads_of (pos 0) site)
    × (((q : Pool) × Step digest site.files (threads_of (pos 0) site) run.0 q)
        ⊎ (AllReturned (threads_of (pos 0) site) run.0
            × ((slice run.0.results 0 site.files ≡ map (result_of digest) site.files)
                × (apply_hashes length_of run.0.hashes 0 site.files
                    ≡ map (with_hash length_of digest) site.files))))
unfolding program
optimize_ends_example =
    optimize_ends digest length_of (pos 0) site (λ _. "") (λ _. blank) (λ _. 0) 7 run.0
      (omega arith) run.1
