-- ===== src/Engine/Changes.antt =====
-- What `ComputeChanges` returns: for each path one change or none, as the snapshot and the current
-- file say.
use effective_next.Prelude.{
  ℕ, ◌≡◌, refl, ap, sym, ◌∙◌, true, false, Option, none, some, List, [], ◌∷◌, ◌++◌, map, append-nil,
  String, contains, Distinct, if◌then◌else◌, ◌==◌, Bool-cases, str_dec, ite, arith,
}
use effective_next.Prelude.Maps.{keys, get, put, has, get-put, get-eq-none_iff, Distinct-put}
use effective_next.Engine.{
  File, Change, Engine, record_hashes, snapshot, current_map, created_at, modified_at, deleted_at,
  changed, gone, compute_changes,
}

-- The changes of a path.
abbrev pub at_path : String → List Change → List Change
at_path p [] = []
at_path p (c ∷ cs) = ite (str_dec c.path p) (c ∷ at_path p cs) (at_path p cs)

abbrev pub paths : List File → List String
paths fs = map (λ f. f.path) fs

abbrev pub file_at : List File → String → Option File
file_at [] p = none
file_at (f ∷ fs) p = ite (str_dec f.path p) (some f) (file_at fs p)

-- The change that a path calls for.
abbrev pub expected : String → Option ℕ → Option File → List Change
expected p none none = []
expected p none (some f) = created_at f ∷ []
expected p (some old) (some f) = if old == f.hash then [] else modified_at old f ∷ []
expected p (some old) none = deleted_at p old ∷ []

at_path-append :
    (p : String) (xs ys : List Change) → at_path p (xs ++ ys) ≡ at_path p xs ++ at_path p ys
at_path-append p [] ys = refl
at_path-append p (c ∷ xs) ys = ground (arith, at_path-append p xs ys)

file_at-absent :
    (fs : List File) (p : String) → contains str_dec (paths fs) p ≡ false → file_at fs p ≡ none
unfolding contains
file_at-absent [] p h = refl
file_at-absent (f ∷ fs) p h = ground (arith, file_at-absent fs p)

get-current_map :
    (fs : List File) (m : List (String × File)) (p : String)
    → Distinct str_dec (paths fs)
    → get str_dec (current_map fs m) p
      ≡ elim (file_at fs p) [ none ↦ get str_dec m p | some f ↦ some f ]
unfolding current_map
get-current_map [] m p d = refl
get-current_map (f ∷ fs) m p d = ground (
  arith,
  get-current_map fs (put str_dec f.path f m) p d.1,
  get-put str_dec f.path p f m,
  file_at-absent fs p,
  λ (e : f.path ≡ p). ap (contains str_dec (paths fs)) e,
)

changed_absent :
    (base : List (String × ℕ)) (fs : List File) (p : String)
    → contains str_dec (paths fs) p ≡ false
    → at_path p (changed base fs) ≡ []
unfolding changed contains
changed_absent base [] p h = refl
changed_absent base (f ∷ fs) p h = ground (arith, changed_absent base fs p)

at_path-changed :
    (base : List (String × ℕ)) (fs : List File) (p : String)
    → Distinct str_dec (paths fs)
    → at_path p (changed base fs)
      ≡ elim (file_at fs p) [ none ↦ [] | some f ↦ expected p (get str_dec base p) (some f) ]
unfolding changed
at_path-changed base [] p d = refl
at_path-changed base (f ∷ fs) p d = elim (str_dec f.path p) [
  | no q ↦ ground (arith, at_path-changed base fs p d.1)
  | yes q ↦
      let alone = changed_absent base fs p (ap (contains str_dec (paths fs)) (sym q) ∙ d.0) in
      let same = ap (get str_dec base) q in ground (arith, alone, same)
]

at_path-gone :
    (current : List (String × File)) (base : List (String × ℕ)) (p : String)
    → Distinct str_dec (keys base)
    → at_path p (gone current base)
      ≡ (if has str_dec current p then [] else expected p (get str_dec base p) none)
unfolding gone get
at_path-gone current [] p d = ground arith
at_path-gone current ((path, old) ∷ base) p d = elim (str_dec path p) [
  | no q ↦ ground (arith, at_path-gone current base p d.1)
  | yes q ↦
      let absent =
        (get-eq-none_iff str_dec base p).1 (ap (contains str_dec (keys base)) (sym q) ∙ d.0) in
      ground (arith, at_path-gone current base p d.1, absent, ap (has str_dec current) q)
]

has-current_map :
    (fs : List File) (p : String)
    → Distinct str_dec (paths fs)
    → has str_dec (current_map fs []) p ≡ elim (file_at fs p) [ none ↦ false | some _ ↦ true ]
unfolding get
has-current_map fs p d = ground (
  arith,
  get-current_map fs [] p d,
  get-eq-none_iff str_dec (current_map fs []) p,
  Bool-cases (has str_dec (current_map fs []) p),
)

-- The hashes of a snapshot are kept one per path.
pub Distinct-record_hashes :
    (fs : List File) (m : List (String × ℕ))
    → Distinct str_dec (keys m)
    → Distinct str_dec (keys (record_hashes fs m))
unfolding record_hashes
Distinct-record_hashes [] m d = d
Distinct-record_hashes (f ∷ fs) m d =
    Distinct-record_hashes fs (put str_dec f.path f.hash m) (Distinct-put str_dec f.path f.hash m d)

-- The changes of each path, when no path is listed twice: one change, whose type and hashes are
-- what the snapshot and the current file of that path call for, or none if their hashes agree.
pub compute_changes_exact :
    (e : Engine) (current : List File) (p : String)
    → Distinct str_dec (keys e.base_hashes)
    → Distinct str_dec (paths current)
    → at_path p (compute_changes e current)
      ≡ expected p (get str_dec e.base_hashes p) (file_at current p)
unfolding compute_changes
compute_changes_exact e current p d d' = ground (
  arith,
  at_path-append p (changed e.base_hashes current) (gone (current_map current []) e.base_hashes),
  at_path-changed e.base_hashes current p d',
  at_path-gone (current_map current []) e.base_hashes p d,
  has-current_map current p d',
  append-nil (expected p (get str_dec e.base_hashes p) (file_at current p)),
)

get-record_hashes :
    (fs : List File) (m : List (String × ℕ)) (p : String)
    → Distinct str_dec (paths fs)
    → get str_dec (record_hashes fs m) p
      ≡ elim (file_at fs p) [ none ↦ get str_dec m p | some f ↦ some f.hash ]
unfolding record_hashes
get-record_hashes [] m p d = refl
get-record_hashes (f ∷ fs) m p d = ground (
  arith,
  get-record_hashes fs (put str_dec f.path f.hash m) p d.1,
  get-put str_dec f.path p f.hash m,
  file_at-absent fs p,
  λ (e : f.path ≡ p). ap (contains str_dec (paths fs)) e,
)

-- Right after a snapshot of files without two of one path, the same files show no change but for
-- the paths that only an earlier snapshot had: those are still reported as deleted.
pub snapshot-compute_changes :
    (e : Engine) (files : List File) (p : String)
    → Distinct str_dec (keys e.base_hashes)
    → Distinct str_dec (paths files)
    → at_path p (compute_changes (snapshot files e) files) ≡ elim (file_at files p) [
      | some _ ↦ []
      | none ↦ expected p (get str_dec e.base_hashes p) none
    ]
unfolding snapshot
snapshot-compute_changes e files p d d' = ground (
  arith,
  compute_changes_exact (snapshot files e) files p (Distinct-record_hashes files e.base_hashes d)
      d',
  get-record_hashes files e.base_hashes p d',
)
