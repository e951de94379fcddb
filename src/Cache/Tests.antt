-- ===== src/Cache/Tests.antt =====
-- A compressor that counts the zeros in front, and the theorems of the cache with it.
use effective_next.Prelude.{
  ℕ, zero, suc, ◌≡◌, refl, true, false, Option, none, some, [], ◌∷◌, ◌++◌, String, str_dec, ite,
  arith,
}
use effective_next.Prelude.Maps.{get, put, delete}
use effective_next.Prelude.Paths.{join, dir, clean}
use effective_next.Cache.{
  Bytes, Cache, new, upsert_cache_entry, get_cache_entry, delete_cache_entry, remove, cache_size,
  miss, hit, get_data, pack, put_data, file_path, outside, purge,
}
use effective_next.Cache.Roundtrip.{IsValid, shared, put_data-IsValid, get_data-put_data}

abbrev zeros : ℕ → Bytes
zeros zero = []
zeros (suc n) = 0 ∷ zeros n

abbrev more : Bytes → Bytes
more [] = 1 ∷ []
more (n ∷ rest) = suc n ∷ rest

abbrev encode : Bytes → Bytes
encode [] = 0 ∷ []
encode (zero ∷ rest) = more (encode rest)
encode (suc b ∷ rest) = 0 ∷ suc b ∷ rest

abbrev decode : Bytes → Option Bytes
decode [] = none
decode (n ∷ rest) = some (zeros n ++ rest)

decode-more : (x y : Bytes) → decode x ≡ some y → decode (more x) ≡ some (0 ∷ y)
decode-more [] y e = absurd cc
decode-more (n ∷ rest) y e = ground (arith, e)

decode-encode : (x : Bytes) → decode (encode x) ≡ some x
decode-encode [] = refl
decode-encode (zero ∷ rest) = decode-more (encode rest) rest (decode-encode rest)
decode-encode (suc b ∷ rest) = refl

abbrev hash : Bytes → String
hash x = "0000000000000000"

program : Unit {0}
unfolding str_dec get put delete new upsert_cache_entry get_cache_entry delete_cache_entry remove
    cache_size miss hit get_data pack put_data file_path outside purge join dir clean
program = tt

abbrev stored : Cache
stored = (put_data encode decode hash "page" (1 ∷ 2 ∷ 3 ∷ []) true true (new "/c" [] true)).1

get-page : (get_data encode decode hash "page" stored).0 ≡ some (1 ∷ 2 ∷ 3 ∷ [])
unfolding program
get-page = refl

-- An error of the database after the file is written leaves the file of a key without its entry.
get-lost :
    (get_data encode decode hash "page"
      (put_data encode decode hash "page" (1 ∷ []) true false (new "/c" [] true)).1).0
    ≡ none
unfolding program
get-lost = refl

-- Two keys, one file: the second `Put` is read back under the first key.
get-shared :
    (get_data encode decode hash "page"
      (put_data encode decode hash "./page" (9 ∷ []) true true stored).1).0
    ≡ some (9 ∷ [])
unfolding program
get-shared = refl

purge-below :
    (purge true true (new "/c/" (("/c/page.bin", []) ∷ ("/c/a/page.bin", []) ∷ []) true)).1.files
    ≡ ("/c/a/page.bin", []) ∷ []
unfolding program
purge-below = refl

new-IsValid : IsValid (new "/c" [] true)
unfolding program
new-IsValid = record { keyed = λ key entry e. absurd cc }

stored-IsValid : IsValid stored
stored-IsValid =
    put_data-IsValid encode decode hash "page" (1 ∷ 2 ∷ 3 ∷ []) true true (new "/c" [] true)
      new-IsValid

get_data-put_data_example :
    (get_data encode decode hash "page"
      (put_data encode decode hash "./page" (zeros 2000) true true stored).1).0
    ≡ ite (str_dec "./page" "page") (some (zeros 2000)) (
        ite
          (str_dec (file_path "/c" "./page") (file_path "/c" "page"))
          (shared encode decode hash stored "page" (pack encode decode hash true (zeros 2000)).0)
          (get_data encode decode hash "page" stored).0)
unfolding program
get_data-put_data_example =
    get_data-put_data encode decode hash "./page" (zeros 2000) "page" stored decode-encode
      stored-IsValid
