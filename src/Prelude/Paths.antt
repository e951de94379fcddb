-- ===== src/Prelude/Paths.antt =====
-- What the program uses of Go's path/filepath, as it is on Unix, and of the strings package.
use Prim.Native.Char.{Char, code}
use Prim.Native.String
use Prim.Native.String.{String}
use mathlib.Core.Bool.{Bool, true, false, ◌&&◌, ◌||◌}
use mathlib.Core.Logic.{ite}
use mathlib.Core.Option.{Option, none, some}
use mathlib.Core.List.{List, [], ◌∷◌, ◌++◌}
use effective_next.Prelude.Tests.{if◌then◌else◌, ◌==◌}
use effective_next.Prelude.Text.{str_dec}

abbrev push_char : Char → List String → List String
push_char c [] = String.◌∷◌ c String.[] ∷ []
push_char c (part ∷ parts) = String.◌∷◌ c part ∷ parts

-- `strings.Split(s, "/")`
unfoldable pub split_slash : String → List String
split_slash String.[] = "" ∷ []
split_slash (String.◌∷◌ c s) =
    let rest = split_slash s in if code c == b'/' then "" ∷ rest else push_char c rest

-- `strings.Join(parts, "/")`
unfoldable pub join_slash : List String → String
join_slash [] = ""
join_slash (part ∷ []) = part
join_slash (part ∷ next ∷ parts) =
    let rest = join_slash (next ∷ parts) in String.◌++◌ part (String.◌++◌ "/" rest)

-- `filepath.IsAbs`
unfoldable pub is_abs : String → Bool
is_abs String.[] = false
is_abs (String.◌∷◌ c s) = code c == b'/'

-- `strings.HasPrefix`
unfoldable pub has_prefix : String → String → Bool
has_prefix s String.[] = true
has_prefix String.[] (String.◌∷◌ d t) = false
has_prefix (String.◌∷◌ c s) (String.◌∷◌ d t) = code c == code d && has_prefix s t

-- `strings.Contains`
unfoldable pub contains_text : String → String → Bool
unfolding has_prefix
contains_text String.[] t = has_prefix "" t
contains_text (String.◌∷◌ c s) t = has_prefix (String.◌∷◌ c s) t || contains_text s t

-- `strings.TrimSuffix`
unfoldable pub trim_suffix : String → String → String
unfolding str_dec
trim_suffix String.[] suffix = ""
trim_suffix (String.◌∷◌ c s) suffix =
    let rest = trim_suffix s suffix in ite (str_dec (String.◌∷◌ c s) suffix) "" (String.◌∷◌ c rest)

-- `strings.HasSuffix`
unfoldable pub has_suffix : String → String → Bool
unfolding str_dec
has_suffix String.[] suffix = ite (str_dec "" suffix) true false
has_suffix (String.◌∷◌ c s) suffix =
    let rest = has_suffix s suffix in ite (str_dec (String.◌∷◌ c s) suffix) true rest

-- One element of a path; the elements kept so far are a stack with its top at the head.
resolve : Bool → List String → String → List String
unfolding str_dec
resolve rooted stack part = ite (str_dec part "") stack (
    ite (str_dec part ".") stack (
      ite (str_dec part "..")
        (elim stack [
          | [] ↦ if rooted then [] else ".." ∷ []
          | top ∷ below ↦ ite (str_dec top "..") (".." ∷ top ∷ below) below
        ])
        (part ∷ stack)))

unfoldable pub resolve_all : Bool → List String → List String → List String
unfolding resolve
resolve_all rooted stack [] = stack
resolve_all rooted stack (part ∷ parts) = resolve_all rooted (resolve rooted stack part) parts

unfoldable pub reverse_onto : List String → List String → List String
reverse_onto [] acc = acc
reverse_onto (part ∷ parts) acc = reverse_onto parts (part ∷ acc)

-- The elements of `filepath.Clean(path)`.
unfoldable pub elements : String → List String
unfolding resolve_all reverse_onto split_slash is_abs
elements path = reverse_onto (resolve_all (is_abs path) [] (split_slash path)) []

from_elements : Bool → List String → String
unfolding join_slash
from_elements rooted [] = if rooted then "/" else "."
from_elements rooted (part ∷ parts) =
    let text = join_slash (part ∷ parts) in if rooted then String.◌++◌ "/" text else text

-- `filepath.Clean`
unfoldable pub clean : String → String
unfolding from_elements is_abs elements
clean path = from_elements (is_abs path) (elements path)

abbrev no_empty : List String → List String
no_empty [] = []
no_empty (part ∷ parts) = ite (str_dec part "") (no_empty parts) (part ∷ parts)

-- `filepath.Join`: leading empty elements are left out, and of nothing it makes nothing.
unfoldable pub join : List String → String
unfolding join_slash str_dec clean
join parts = elim (no_empty parts) [ [] ↦ "" | part ∷ rest ↦ clean (join_slash (part ∷ rest)) ]

last_of : String → List String → String
last_of d [] = d
last_of d (part ∷ parts) = last_of part parts

-- The last element that is not empty.
last_name : String → List String → String
unfolding str_dec
last_name d [] = d
last_name d (part ∷ parts) = last_name (ite (str_dec part "") d part) parts

-- `filepath.Base`
unfoldable pub base : String → String
unfolding last_name split_slash is_abs
base path = last_name (if is_abs path then "/" else ".") (split_slash path)

all_but_last : List String → List String
all_but_last [] = []
all_but_last (part ∷ []) = []
all_but_last (part ∷ next ∷ parts) = part ∷ all_but_last (next ∷ parts)

-- What `filepath.Dir` cleans: the path up to and with its last slash.
abbrev dir_text : List String → String
dir_text [] = ""
dir_text (part ∷ parts) = String.◌++◌ (join_slash (part ∷ parts)) "/"

-- `filepath.Dir`
unfoldable pub dir : String → String
unfolding all_but_last split_slash join_slash clean
dir path = clean (dir_text (all_but_last (split_slash path)))

-- From the last dot on, or nothing.
dot_suffix : String → Option String
dot_suffix String.[] = none
dot_suffix (String.◌∷◌ c s) =
    let rest = dot_suffix s in
    elim rest [
      | some found ↦ some found
      | none ↦ if code c == b'.' then some (String.◌∷◌ c s) else none
    ]

-- `filepath.Ext`
unfoldable pub ext : String → String
unfolding dot_suffix last_of split_slash
ext path = elim (dot_suffix (last_of "" (split_slash path))) [ none ↦ "" | some found ↦ found ]

ups : List String → List String
ups [] = []
ups (_ ∷ parts) = ".." ∷ ups parts

-- Past the first elements that agree. An element of the base that is `..` has no way up.
rel_elements : List String → List String → Option (List String)
unfolding ups str_dec
rel_elements [] target = some target
rel_elements (b ∷ from) [] = ite (str_dec b "..") none (some (ups (b ∷ from)))
rel_elements (b ∷ from) (t ∷ target) =
    let deeper = rel_elements from target in
    ite (str_dec b t) deeper (ite (str_dec b "..") none (some (ups (b ∷ from) ++ t ∷ target)))

-- A cleaned path that stays where it is reads `.` as a target.
abbrev target_elements : Bool → List String → List String
target_elements rooted [] = if rooted then [] else "." ∷ []
target_elements rooted (part ∷ parts) = part ∷ parts

abbrev xor : Bool → Bool → Bool
xor true b = if b then false else true
xor false b = b

-- `filepath.Rel`; `none` is its error.
unfoldable pub rel : String → String → Option String
unfolding rel_elements is_abs join_slash elements clean str_dec
rel from target =
    let rooted = is_abs target in
    ite (str_dec (clean target) (clean from)) (some ".") (
      if xor (is_abs from) rooted
      then none
      else (elim (rel_elements (elements from) (target_elements rooted (elements target))) [
        | none ↦ none
        | some parts ↦ some (join_slash parts)
      ]))
