-- ===== src/Files/View.antt =====
-- The file system as a function from cleaned paths to files: what each operation does to it, and
-- that what is read depends on it alone.
use effective_next.Prelude.{
  ℕ, ◌≡◌, refl, ap, ap₂, ◌&&◌, ◌==◌, Bool, true, false, not, ◌||◌, Option, none, some, List, [],
  ◌∷◌, String, if◌then◌else◌, str_dec, ite, arith, Bool-cases, Option-cases, inl, inr,
}
use Prim.Native.Nat.{bit_or}
use Prim.Native.Char.{code}
use text.Mathlib.TextEquality.{Char-path}
use effective_next.Prelude.Maps.{get, has, get-put, get-eq-none_iff}
use effective_next.Prelude.Paths.{clean, rel, is_abs, has_prefix}
use effective_next.Files.{
  Bytes, FileInfo, MemFile, MemFs, Result, ok, err, not_exist, invalid, leaves_root, is_under,
  walk_files, walk, read_file, mode_dir, mkdir_all, remove_under, remove_all, write_file,
}

-- The abstract file system.
abbrev pub View : Type 0
View = String → Option MemFile

unfoldable pub view : MemFs → View
view m path = get str_dec m.files (clean path)

abbrev pub updated : View → String → MemFile → View
updated v path f q = ite (str_dec (clean path) (clean q)) (some f) (v q)

-- What `RemoveAll` of the path takes: the path itself, and each path whose text relative to it, as
-- `filepath.Rel` tells it, is relative and does not begin with two dots.
abbrev pub is_removed : String → String → Bool
is_removed q path = ite (str_dec (clean q) (clean path)) true (elim (rel (clean path) (clean q)) [
  | none ↦ false
  | some r ↦ not (is_abs r || has_prefix r "..")
])

no_more_dots : (r : String) → ¬ (r ≡ "..") → leaves_root r ≡ has_prefix r ".."
unfolding leaves_root has_prefix
no_more_dots String.[] n = refl
no_more_dots (String.◌∷◌ a String.[]) n = ground arith
no_more_dots (String.◌∷◌ a (String.◌∷◌ b String.[])) n =
    elim (Bool-cases (code a == b'.' && code b == b'.')) [
      | inl dots ↦ absurd (
          n (
            ap₂ String.◌∷◌ (Char-path a _ (ground (arith, dots)))
              (ap (λ c. String.◌∷◌ c "") (Char-path b _ (ground (arith, dots))))))
      | inr other ↦ ground (arith, other)
    ]
no_more_dots (String.◌∷◌ a (String.◌∷◌ b (String.◌∷◌ c s))) n = ground arith

leaves_root-has_prefix :
    (r : String) → ite (str_dec r "..") true (leaves_root r) ≡ has_prefix r ".."
unfolding has_prefix
leaves_root-has_prefix r = elim (str_dec r "..") [
  | yes e ↦ ground (arith, ap (λ t. has_prefix t "..") e)
  | no n ↦ ground (arith, no_more_dots r n)
]

is_under-is_removed :
    (q path : String)
    → is_removed q path
      ≡ ite (str_dec (clean q) (clean path)) true (is_under (clean q) (clean path))
unfolding is_under
is_under-is_removed q path = elim (Option-cases (rel (clean path) (clean q))) [
  | inl e ↦ ground (arith, e)
  | inr (r, e) ↦ ground (arith, e, leaves_root-has_prefix r)
]

get-remove_under :
    (path q : String) (files : List (String × MemFile))
    → get str_dec (remove_under path files) q
      ≡ (if is_under q path then none else ite (str_dec q path) none (get str_dec files q))
unfolding remove_under get
get-remove_under path q [] = ground arith
get-remove_under path q ((p, f) ∷ files) =
    ground (arith, get-remove_under path q files, λ (e : p ≡ q). ap (λ x. is_under x path) e)

-- What reading a path answers for a file of the view.
abbrev pub answer : Option MemFile → Result Bytes
answer none = err not_exist
answer (some f) = if f.is_dir then err invalid else ok f.data_bytes

pub record IsFileSystem (m : MemFs) : Type 0 where
  pub reads : (q : String) → read_file q m ≡ answer (view m q)
  pub writes :
      (path q : String) (bytes : Bytes) (perm now : ℕ)
      → view (write_file path bytes perm now m) q
        ≡ updated
            (view m)
            path
            (record { data_bytes = bytes; mode = perm; mod_time = now; is_dir = false })
            q
  pub makes :
      (path q : String) (perm now : ℕ)
      → view (mkdir_all path perm now m) q ≡ elim (view m path) [
        | some _ ↦ view m q
        | none ↦
            updated
              (view m)
              path
              (record {
                data_bytes = [];
                mode = bit_or perm mode_dir;
                mod_time = now;
                is_dir = true;
              })
              q
      ]
  pub removes :
      (path q : String)
      → view (remove_all path m) q ≡ (if is_removed q path then none else view m q)

-- On cleaned paths the file system is a function: a read answers for the file at its path,
-- `WriteFile` sets that file, `MkdirAll` sets a directory where there is nothing, and `RemoveAll`
-- leaves nothing at its path and at the paths that are relative to it and whose relative text does
-- not begin with two dots; all other paths keep what they have, also a file `..b` of its directory.
pub view_lem : (m : MemFs) → IsFileSystem m
unfolding view read_file write_file mkdir_all remove_all
view_lem m = record {
  reads = λ q. elim (Option-cases (get str_dec m.files (clean q))) [
    | inl e ↦ rw (e, read_file) refl
    | inr (f, e) ↦ rw (e, read_file) refl
  ];
  writes = λ path q bytes perm now. get-put str_dec (clean path) (clean q) _ m.files;
  makes = λ path q perm now.
      let absent = get-eq-none_iff str_dec m.files (clean path) in
      let set = λ (f : MemFile). get-put str_dec (clean path) (clean q) f m.files in
      elim (Option-cases (get str_dec m.files (clean path))) [
        | inl e ↦ rw (e, absent.0 e, view, mkdir_all) (set _)
        | inr (f, e) ↦
            let present : has str_dec m.files (clean path) ≡ true = ground (arith, absent) in
            rw (e, present, view, mkdir_all) refl
      ];
  removes = λ path q.
      ground (arith, is_under-is_removed q path, get-remove_under (clean path) (clean q) m.files);
}

walk-remove_under :
    {E S : Type 0} (walk_fn : String → FileInfo → S → Option E × S) (root : String)
    (files : List (String × MemFile)) (s : S)
    → walk_files walk_fn root (remove_under root files) s ≡ (none, s)
unfolding walk_files remove_under
walk-remove_under walk_fn root [] s = refl
walk-remove_under walk_fn root ((p, f) ∷ files) s = elim (Bool-cases (is_under p root)) [
  | inl u ↦ rw (u, remove_under) (walk-remove_under walk_fn root files s)
  | inr n ↦ ground (arith, walk-remove_under walk_fn root files s)
]

-- After `RemoveAll` a walk from the same root calls its function for nothing.
pub walk-remove_all :
    {E S : Type 0} (walk_fn : String → FileInfo → S → Option E × S) (root : String) (m : MemFs)
    (s : S)
    → walk walk_fn root (remove_all root m) s ≡ (none, s)
unfolding walk remove_all
walk-remove_all walk_fn root m s = walk-remove_under walk_fn (clean root) m.files s
