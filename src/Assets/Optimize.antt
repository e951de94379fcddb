-- ===== src/Assets/Optimize.antt =====
-- `Optimize` of pkg/assets/optimize.go: its workers take the indices of the files from a channel that is
-- filled and closed before they start. A step is one receive or one of the two critical sections, and
-- the steps of the workers come in any order. A slice of the length of the files is the function of
-- its indices. `hash_file` tells the digest and the size of a file, nothing and 0 on an error.
pub mod Exact
pub mod Progress
pub mod Done
mod Tests
use effective_next.Prelude.{
  ℕ, ◌+◌, ◌<◌, ◌≡◌, Option, some, List, [], ◌∷◌, String, get_elem?, if◌then◌else◌,
}
use effective_next.Prelude.Int.{ℤ, pos, ltb_ℤ, pos_part, ◌-ℤ◌}
use effective_next.Prelude.Sums.{moved}
use effective_next.Assets.{File, Optimizer}

pub record OptimizeResult : Type 0 where
  pub original_path : String
  pub output_path : String
  pub original_size : ℕ
  pub output_size : ℕ
  pub saved_bytes : ℤ
  pub hash : String

-- `if opts.MaxThreads <= 0 { opts.MaxThreads = o.workers }`
unfoldable pub threads_of : ℤ → Optimizer → ℕ
threads_of max_threads o = if ltb_ℤ (pos 0) max_threads then pos_part max_threads else o.workers

-- `for i := range o.files { jobs <- i }`
unfoldable pub indices : List File → ℕ → List ℕ
indices [] k = []
indices (_ ∷ files) k = k ∷ indices files (k + 1)

-- Where a worker stands: before a receive, before and after it has written the digest.
pub data Pc : Type 0 where
  waiting : Pc
  taken : ℕ → Pc
  hashed : ℕ → Pc
  returned : Pc

-- `file_hashes` are the fields `Hash` of the files.
pub record Pool : Type 0 where
  pub jobs : List ℕ
  pub hashes : ℕ → String
  pub results : ℕ → OptimizeResult
  pub file_hashes : ℕ → ℕ
  pub pc : ℕ → Pc

unfoldable pub result_of : (hash_file : String → String × ℕ) → File → OptimizeResult
result_of hash_file f =
    let (h, size) = hash_file f.path in
    record {
      original_path = f.path;
      output_path = f.path;
      original_size = f.size;
      output_size = size;
      saved_bytes = pos f.size -ℤ pos size;
      hash = h;
    }

module _ (hash_file : String → String × ℕ) (files : List File) where
  -- A step of worker `w`.
  pub data Step (threads : ℕ) (p : Pool) : Pool → Type 0 where
    take :
        (w : ℕ) {i : ℕ} {rest : List ℕ}
        → w < threads
        → p.pc w ≡ waiting
        → p.jobs ≡ i ∷ rest
        → Step threads p (record p { jobs = rest; pc = moved p.pc w (taken i) })
    quit :
        (w : ℕ)
        → w < threads
        → p.pc w ≡ waiting
        → p.jobs ≡ []
        → Step threads p (record p { pc = moved p.pc w returned })
    write_hash :
        (w : ℕ) {i : ℕ} {f : File}
        → w < threads
        → p.pc w ≡ taken i
        → get_elem? files i ≡ some f
        → Step threads p (record p {
          hashes = moved p.hashes i (hash_file f.path).0;
          pc = moved p.pc w (hashed i);
        })
    write_result :
        (w : ℕ) {i : ℕ} {f : File}
        → w < threads
        → p.pc w ≡ hashed i
        → get_elem? files i ≡ some f
        → Step threads p (record p {
          file_hashes = moved p.file_hashes i 0;
          results = moved p.results i (result_of hash_file f);
          pc = moved p.pc w waiting;
        })

  pub data Reach (threads : ℕ) (start : Pool) : ℕ → Pool → Type 0 where
    begin : Reach threads start 0 start
    later :
        {n : ℕ} {p q : Pool}
        → Reach threads start n p
        → Step threads p q
        → Reach threads start (n + 1) q

-- The pool before its first step, with what the slices and the files then hold.
unfoldable pub start_pool : (ℕ → String) → (ℕ → OptimizeResult) → (ℕ → ℕ) → List File → Pool
unfolding indices
start_pool hashes results file_hashes files = record {
  jobs = indices files 0;
  hashes = hashes;
  results = results;
  file_hashes = file_hashes;
  pc = λ _. waiting;
}

-- `for i, f := range o.files { f.Hash = hash.Hash64([]byte(hashes[i])) }`
unfoldable pub apply_hashes : (hash64 : String → ℕ) → (ℕ → String) → ℕ → List File → List File
apply_hashes hash64 hashes k [] = []
apply_hashes hash64 hashes k (f ∷ files) =
    record f { hash = hash64 (hashes k) } ∷ apply_hashes hash64 hashes (k + 1) files

-- `results`, as the list of its elements.
unfoldable pub slice : {T : Type 0} → (ℕ → T) → ℕ → List File → List T
slice results k [] = []
slice results k (_ ∷ files) = results k ∷ slice results (k + 1) files
