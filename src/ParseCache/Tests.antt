-- ===== src/ParseCache/Tests.antt =====
-- A parse cache for two files, whose results are texts, and the theorems at it.
use effective_next.Prelude.{
  ℕ, ◌≡◌, ◌≤◌, ◌⊎◌, refl, false, none, some, List, [], ◌∷◌, String, length, contains, if◌then◌else◌,
  str_dec, ite,
}
use effective_next.Prelude.Int.{pos}
use effective_next.Prelude.Maps.{keys, get, put, delete}
use effective_next.Prelude.Heap.{
  swap, pop_last, less_at, up, child, down, push, pop, settle, fix, remove,
}
use effective_next.ParseCache.{
  ParseCache, new, count_of, less, get_result, evict, put_result, has_path, take_out, remove_path,
  is_current, sweep, invalidate, size,
}
use effective_next.ParseCache.Valid.{IsValid, new-IsValid}
use effective_next.ParseCache.Kept.{get_result-IsValid, put_result-IsValid}
use effective_next.ParseCache.Calls.{Call, put_call, get_call, calls, size-calls}
use effective_next.ParseCache.Effects.{invalidate_lem, stored, put_result_lem}

-- a.ts and b.ts are parsed, and a.ts is read once more.
abbrev read_a : ParseCache String
read_a =
    (get_result "a.ts" 3
      (put_result "b.ts" "tree b" 20 2 (put_result "a.ts" "tree a" 10 1 (new (pos 2))))).1

abbrev read_both : ParseCache String
read_both = (get_result "b.ts" 4 read_a).1

program : Unit {0}
unfolding str_dec contains get put delete swap pop_last less_at up child down push pop settle fix
    remove new count_of less get_result evict put_result has_path take_out remove_path is_current
    sweep invalidate
program = tt

get-a : (get_result "a.ts" 5 read_a).0 ≡ some "tree a"
unfolding program
get-a = refl

-- The file that was read least often makes room for c.ts.
put-c : keys (put_result "c.ts" "tree c" 30 5 read_a).items ≡ "a.ts" ∷ "c.ts" ∷ []
unfolding program
put-c = refl

-- When both have been read, c.ts itself is evicted at once, though it is the last that was used.
put-c-lost : has_path (put_result "c.ts" "tree c" 30 5 read_both) "c.ts" ≡ false
unfolding program
put-c-lost = refl

read_a-IsValid : IsValid read_a
read_a-IsValid = get_result-IsValid "a.ts" 3 _ (
    put_result-IsValid "b.ts" "tree b" 20 2 _
      (put_result-IsValid "a.ts" "tree a" 10 1 (new (pos 2)) (new-IsValid (pos 2))))

abbrev hashes : List (String × ℕ)
hashes = ("a.ts", 10) ∷ ("b.ts", 21) ∷ []

invalidate_lem_example :
    IsValid (invalidate hashes read_a).1
    × ((p : String)
        → get str_dec (invalidate hashes read_a).1.items p ≡ elim (get str_dec read_a.items p) [
          | none ↦ none
          | some item ↦ if is_current hashes p item then some item else none
        ])
invalidate_lem_example = invalidate_lem hashes read_a read_a-IsValid

put_result_lem_example :
    (get str_dec (put_result "c.ts" "tree c" 30 5 read_a).items "b.ts"
      ≡ ite
          (str_dec "c.ts" "b.ts")
          (some (stored "c.ts" "tree c" 30 5 read_a))
          (get str_dec read_a.items "b.ts"))
    ⊎ ((get str_dec (put_result "c.ts" "tree c" 30 5 read_a).items "b.ts" ≡ none)
        × (get str_dec read_a.items "c.ts" ≡ none)
        × (length read_a.items ≡ read_a.max_size))
put_result_lem_example = put_result_lem "c.ts" "tree c" 30 5 read_a "b.ts" read_a-IsValid

abbrev some_calls : List (Call String)
some_calls = put_call "a.ts" "tree a" 10 1 ∷ get_call "a.ts" 3 ∷ []

size-calls_example :
    IsValid (calls some_calls (new (pos 2)))
    × (size (calls some_calls (new (pos 2))) ≤ (new {R = String} (pos 2)).max_size)
size-calls_example = size-calls (pos 2) some_calls
