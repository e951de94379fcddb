-- ===== src/Scanner/Tests.antt =====
-- A project of two files, scanned by one worker.
use native.Mathlib.Decide.{ℕ_discrete}
use effective_next.Prelude.{
  ℕ, zero, suc, ◌+◌, ◌≤◌, ◌<◌, ◌≡◌, ◌↔◌, ◌⊎◌, refl, sym, subst, true, false, Option, none, some,
  List, [], ◌∷◌, String, length, contains, str_dec, str_le, ite, arith,
}
use effective_next.Prelude.Int.{pos}
use effective_next.Prelude.Maps.{get_or, put}
use effective_next.Prelude.Sort.{sort}
use effective_next.Prelude.Paths.{split_slash, trim_suffix, join, rel, ext}
use effective_next.Prelude.Sums.{sum, moved}
use effective_next.Engine.{File}
use effective_next.Scanner.{
  Entry, Scanner, new, matches, matches_path, root_files, root_dirs, skips, make_file, walked_file,
  fill, sort_by_path, scan_by_extension, total_size, filter_by_extension,
}
use effective_next.Scanner.Workers.{
  Pc, System, running, blocked, walk_dir, walk_entries, begin, Step, Reach, take, found, walked,
  next, quit, pick, start, later,
}
use effective_next.Scanner.Workers.Exact.{IsExact, scan-IsExact}
use effective_next.Scanner.Workers.Ends.{IsTree, scan_ends, begin-blocked_iff}

abbrev entry : String → Option ℕ → Entry
entry name size = record {
  name = name;
  is_dir = elim size [ none ↦ true | some _ ↦ false ];
  size = elim size [ none ↦ 0 | some n ↦ n ];
  mod_time = 7;
  is_symlink = false;
}

abbrev top : List Entry
top = entry "a.ts" (some 3) ∷ entry "node_modules" none ∷ entry "src" none ∷ []

abbrev source : List Entry
source = entry "b.tsx" (some 5) ∷ []

abbrev read_dir : String → Option (List Entry)
read_dir d = ite (str_dec d "/p") (some top) (ite (str_dec d "/p/src") (some source) none)

abbrev hash_file : String → Option ℕ
hash_file path = ite (str_dec path "/p/a.ts") (some 11) none

abbrev scanner : Scanner
scanner = new "/p" ("dist/" ∷ []) (pos 1) 4

program : Unit {0}
unfolding begin root_files root_dirs walk_dir walk_entries skips make_file walked_file matches
    matches_path fill new str_dec str_le moved sort sort_by_path scan_by_extension total_size
    filter_by_extension put get_or ℕ_discrete join rel ext trim_suffix split_slash contains
program = tt

abbrev a_ts : File
a_ts = record {
  path = "/p/a.ts";
  rel_path = "a.ts";
  size = 3;
  hash = 11;
  mod_time = 7;
  is_dir = false;
  is_symlink = false;
  extension = ".ts";
}

abbrev b_tsx : File
b_tsx = record {
  path = "/p/src/b.tsx";
  rel_path = "src/b.tsx";
  size = 5;
  hash = 0;
  mod_time = 7;
  is_dir = false;
  is_symlink = false;
  extension = ".tsx";
}

abbrev started : System
started = record {
  shared = record { queue = "/p/src" ∷ []; files = a_ts ∷ []; files_scanned = 1 };
  pc = λ _. Pc.idle;
}

begins : begin read_dir hash_file scanner ≡ running started
unfolding program
begins = refl

-- The worker takes the directory, finds its file, and returns.
abbrev run : (u : System) × Reach read_dir hash_file scanner started 5 u []
unfolding program
run = (
  _,
  later
      (later
        (later
          (later (later start (pick 0 (omega arith) (take refl refl)))
            (pick 0 (omega arith) (found refl refl)))
          (pick 0 (omega arith) walked))
        (pick 0 (omega arith) next))
      (pick 0 (omega arith) (quit refl)),
)

run_files : run.0.shared.files ≡ a_ts ∷ b_tsx ∷ []
unfolding program
run_files = refl

run_ends : (i : ℕ) → i < 1 → run.0.pc i ≡ Pc.done
unfolding program
run_ends zero l = refl
run_ends (suc i) l = absurd (omega arith)

scan-IsExact_example :
    (visited : List String) × IsExact read_dir hash_file scanner top visited run.0.shared.files
unfolding program
scan-IsExact_example =
    scan-IsExact read_dir hash_file scanner top started run.0 5 refl begins (omega arith) run.1
      run_ends

abbrev weight : String → ℕ
weight d = ite (str_dec d "/p") 20 (ite (str_dec d "/p/src") 5 2)

abbrev Falls : String → Type 0
Falls d =
    (entries : List Entry)
    → read_dir d ≡ some entries
    → 3 + length entries + sum (λ e. weight e + 1) (walk_dir read_dir hash_file scanner d).1
      ≤ weight d

length_of : (known entries : List Entry) → some known ≡ some entries → length entries ≡ length known
length_of known entries e = cc

Falls-top : Falls "/p"
unfolding program
Falls-top entries e = omega (arith, length_of top entries e)

Falls-source : Falls "/p/src"
unfolding program
Falls-source entries e = omega (arith, length_of source entries e)

Falls-elsewhere : (d : String) → ¬ (d ≡ "/p") → ¬ (d ≡ "/p/src") → Falls d
Falls-elsewhere d n m entries e = absurd (ground arith)

IsTree-project : IsTree read_dir hash_file scanner weight
IsTree-project = record {
  some_weight = λ d. ground arith;
  falls = λ d. elim (str_dec d "/p") [
    | yes p ↦ subst Falls (sym p) Falls-top
    | no n ↦ elim (str_dec d "/p/src") [
      | yes q ↦ subst Falls (sym q) Falls-source
      | no m ↦ Falls-elsewhere d n m
    ]
  ];
}

scan_ends_example :
    (5 ≤ sum weight (root_dirs scanner top) + 1)
    × (((i : ℕ) → i < 1 → run.0.pc i ≡ Pc.done)
        ⊎ ((v : System) × (more : List String) × Step read_dir hash_file scanner run.0 v more))
unfolding program
scan_ends_example =
    scan_ends read_dir hash_file scanner weight top started run.0 5 [] IsTree-project refl begins
      run.1

begin-blocked_iff_example :
    (begin read_dir hash_file scanner ≡ blocked) ↔ (64 < length (root_dirs scanner top))
unfolding program
begin-blocked_iff_example = begin-blocked_iff read_dir hash_file scanner top refl
