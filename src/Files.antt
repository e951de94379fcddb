-- ===== src/Files.antt =====
-- pkg/fs/fs.go: the file system in memory. Paths are those of Prelude/Paths; a time is a number of
-- nanoseconds, and a mode the number of its bits. `OSFS` passes each call on to the system.
pub mod View
mod Tests
use Prim.Native.Nat.{bit_or}
use Prim.Native.Char.{code}
use Prim.Native.String
use effective_next.Prelude.{
  ℕ, ◌^◌, Bool, true, false, ◌&&◌, Option, none, some, List, [], ◌∷◌, String, length, if◌then◌else◌,
  ◌==◌, str_dec, ite,
}
use effective_next.Prelude.Maps.{get, put, has}
use effective_next.Prelude.Paths.{clean, base, dir, rel, is_abs}

-- Bytes, each below 256.
abbrev pub Bytes : Type 0
Bytes = List ℕ

pub record FileInfo : Type 0 where
  pub name : String
  pub path : String
  pub size : ℕ
  pub mode : ℕ
  pub mod_time : ℕ
  pub is_dir : Bool
  pub is_symlink : Bool
  pub symlink_target : String

pub record MemFile : Type 0 where
  pub data_bytes : Bytes
  pub mode : ℕ
  pub mod_time : ℕ
  pub is_dir : Bool

pub record MemFs : Type 0 where
  pub files : List (String × MemFile)

-- `os.ErrNotExist` and `os.ErrInvalid`
pub data FileError : Type 0 where
  not_exist : FileError
  invalid : FileError

pub data Result {ℓ} (A : Type ℓ) : Type ℓ where
  ok : A → Result A
  err : FileError → Result A

unfoldable pub new : MemFs
new = record { files = [] }

-- The information on a file, as `Stat`, `ReadDir` and `Walk` make it.
unfoldable pub info_of : String → MemFile → FileInfo
info_of path f = record {
  name = base path;
  path = path;
  size = length f.data_bytes;
  mode = f.mode;
  mod_time = f.mod_time;
  is_dir = f.is_dir;
  is_symlink = false;
  symlink_target = "";
}

unfoldable pub stat : String → MemFs → Result FileInfo
stat path m = elim (get str_dec m.files (clean path)) [
  | none ↦ err not_exist
  | some f ↦ ok (info_of (clean path) f)
]

unfoldable pub lstat : String → MemFs → Result FileInfo
unfolding stat
lstat path m = stat path m

unfoldable pub infos_in : String → List (String × MemFile) → List FileInfo
infos_in path [] = []
infos_in path ((p, f) ∷ files) =
    let rest = infos_in path files in ite (str_dec (dir p) path) (info_of p f ∷ rest) rest

unfoldable pub read_dir : String → MemFs → Result (List FileInfo)
unfolding infos_in
read_dir path m = ok (infos_in (clean path) m.files)

-- Whether a relative path begins with two dots and more.
unfoldable pub leaves_root : String → Bool
leaves_root (String.◌∷◌ a (String.◌∷◌ b (String.◌∷◌ _ _))) = code a == b'.' && code b == b'.'
leaves_root _ = false

unfoldable pub is_under : String → String → Bool
unfolding leaves_root
is_under path root = ite (str_dec path root) false (elim (rel root path) [
  | none ↦ false
  | some r ↦
      if is_abs r then false else ite (str_dec r "..") false (if leaves_root r then false else true)
])

-- `walkFn` with the state that it closes over; an error that it returns ends the walk.
module _ {E S : Type 0} (walk_fn : String → FileInfo → S → Option E × S) where
  unfoldable pub walk_files : String → List (String × MemFile) → S → Option E × S
  walk_files root [] s = (none, s)
  walk_files root ((p, f) ∷ files) s =
      if is_under p root
      then (let (e, s') = walk_fn p (info_of p f) s in
          elim e [ some failure ↦ (some failure, s') | none ↦ walk_files root files s' ])
      else walk_files root files s

  unfoldable pub walk : String → MemFs → S → Option E × S
  unfolding walk_files
  walk root m s = walk_files (clean root) m.files s

unfoldable pub read_file : String → MemFs → Result Bytes
read_file path m = elim (get str_dec m.files (clean path)) [
  | none ↦ err not_exist
  | some f ↦ if f.is_dir then err invalid else ok f.data_bytes
]

-- `os.ModeDir`
abbrev pub mode_dir : ℕ
mode_dir = 2 ^ 31

unfoldable pub mkdir_all : String → (perm now : ℕ) → MemFs → MemFs
mkdir_all path perm now m = if has str_dec m.files (clean path) then m else record {
  files =
      put str_dec (clean path)
        (record { data_bytes = []; mode = bit_or perm mode_dir; mod_time = now; is_dir = true })
        m.files;
}

-- `if isUnder(p, path) || p == path { delete(m.files, p) }`
unfoldable pub remove_under : String → List (String × MemFile) → List (String × MemFile)
remove_under path [] = []
remove_under path ((p, f) ∷ files) =
    let rest = remove_under path files in
    if is_under p path then rest else ite (str_dec p path) rest ((p, f) ∷ rest)

unfoldable pub remove_all : String → MemFs → MemFs
unfolding remove_under
remove_all path m = record { files = remove_under (clean path) m.files }

unfoldable pub write_file : String → Bytes → (perm now : ℕ) → MemFs → MemFs
write_file path bytes perm now m = record {
  files =
      put str_dec (clean path)
        (record { data_bytes = bytes; mode = perm; mod_time = now; is_dir = false }) m.files;
}

-- In memory no path is a symbolic link.
unfoldable pub eval_symlinks : String → Result String
eval_symlinks path = ok path
