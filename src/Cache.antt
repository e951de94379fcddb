-- ===== src/Cache.antt =====
-- pkg/cache/cache.go, with the table of cache entries of pkg/db/db.go: the files by their cleaned path,
-- the entries by key, and the counters. The compressor, its inverse and the hash are
-- arguments. Whether the operating system and the database carry out a write is an argument as well.
pub mod Roundtrip
mod Tests
use Prim.Native.String
use effective_next.Prelude.{
  ℕ, ◌+◌, Bool, true, false, ◌&&◌, Option, none, some, List, [], ◌∷◌, String, length, if◌then◌else◌,
  ltb, str_dec, ite,
}
use effective_next.Prelude.Paths.{join, dir, clean}
use effective_next.Prelude.Maps.{get, put, delete, has}

-- Bytes, each below 256.
abbrev pub Bytes : Type 0
Bytes = List ℕ

-- Without the two times, which the cache leaves unset.
pub record CacheEntry : Type 0 where
  pub key : String
  pub hash : String
  pub size : ℕ
  pub compressed : Bool

-- `compress` says if there are a compressor and a decompressor.
pub record Cache : Type 0 where
  pub dir : String
  pub files : List (String × Bytes)
  pub entries : List (String × CacheEntry)
  pub hits : ℕ
  pub misses : ℕ
  pub compress : Bool

-- Without the ratio, which is a floating-point quotient of the other two.
pub record Stats : Type 0 where
  pub size : ℕ
  pub entries : ℕ
  pub hits : ℕ
  pub misses : ℕ

-- With the files that there are.
unfoldable pub new : String → List (String × Bytes) → Bool → Cache
new dir files compress = record {
  dir = dir;
  files = files;
  entries = [];
  hits = 0;
  misses = 0;
  compress = compress;
}

-- `filepath.Join(c.dir, key+".bin")`; different keys may share it.
unfoldable pub file_path : String → String → String
file_path dir key = join (dir ∷ String.◌++◌ key ".bin" ∷ [])

-- `INSERT OR REPLACE INTO cache_entries …`
unfoldable pub upsert_cache_entry :
    CacheEntry → List (String × CacheEntry) → List (String × CacheEntry)
upsert_cache_entry entry m = put str_dec entry.key entry m

-- `SELECT … FROM cache_entries WHERE key = ?`
unfoldable pub get_cache_entry : String → List (String × CacheEntry) → Option CacheEntry
get_cache_entry key m = get str_dec m key

-- `DELETE FROM cache_entries WHERE key = ?`
unfoldable pub delete_cache_entry : String → List (String × CacheEntry) → List (String × CacheEntry)
delete_cache_entry key m = delete str_dec key m

unfoldable pub has_key : String → Cache → Bool
has_key key c = elim (get_cache_entry key c.entries) [ none ↦ false | some _ ↦ true ]

-- `os.Remove(path)`, whose error is ignored, and the row.
unfoldable pub remove : String → Bool → Cache → Cache
unfolding file_path
remove key deleted c = record c {
  files = delete str_dec (file_path c.dir key) c.files;
  entries = if deleted then delete_cache_entry key c.entries else c.entries;
}

-- The files of the directory go; those of directories below it stay.
unfoldable pub outside : String → List (String × Bytes) → List (String × Bytes)
outside d [] = []
outside d ((path, payload) ∷ files) =
    let rest = outside d files in ite (str_dec (dir path) d) rest ((path, payload) ∷ rest)

unfoldable pub purge : (readable deleted : Bool) → Cache → Bool × Cache
unfolding outside
purge readable deleted c =
    if readable
    then (
      deleted,
      record c {
        files = outside (clean c.dir) c.files;
        entries = if deleted then [] else c.entries;
      },
    )
    else (false, c)

-- `SELECT SUM(size) FROM cache_entries`
unfoldable pub cache_size : List (String × CacheEntry) → ℕ
cache_size [] = 0
cache_size ((_, e) ∷ m) = e.size + cache_size m

unfoldable pub stats : Cache → Stats
stats c = record {
  size = cache_size c.entries;
  entries = length c.entries;
  hits = c.hits;
  misses = c.misses;
}

module _ (encode : Bytes → Bytes) (decode : Bytes → Option Bytes) (hash : Bytes → String) where
  unfoldable pub miss : Cache → Option Bytes × Cache
  miss c = (none, record c { misses = c.misses + 1 })

  unfoldable pub hit : Bytes → Cache → Option Bytes × Cache
  hit payload c = (some payload, record c { hits = c.hits + 1 })

  unfoldable pub get_data : String → Cache → Option Bytes × Cache
  unfolding miss hit get_cache_entry file_path
  get_data key c = elim (get_cache_entry key c.entries) [
    | none ↦ miss c
    | some entry ↦ elim (get str_dec c.files (file_path c.dir entry.key)) [
      | none ↦ miss c
      | some payload ↦
          if entry.compressed && c.compress
          then elim (decode payload) [ none ↦ miss c | some decompressed ↦ hit decompressed c ]
          else hit payload c
    ]
  ]

  -- `stored` and `isCompressed`.
  unfoldable pub pack : Bool → Bytes → Bytes × Bool
  pack compress payload =
      let compressed = encode payload in
      if compress && ltb 1024 (length payload) && ltb (length compressed) (length payload)
      then (compressed, true)
      else (payload, false)

  -- False is an error that is returned.
  unfoldable pub put_data : String → Bytes → (written upserted : Bool) → Cache → Bool × Cache
  unfolding pack upsert_cache_entry file_path
  put_data key payload written upserted c =
      let (stored, is_compressed) = pack c.compress payload in
      let entry : CacheEntry = record {
        key = key;
        hash = hash payload;
        size = length stored;
        compressed = is_compressed;
      } in
      let files = put str_dec (file_path c.dir key) stored c.files in
      if written
      then (
        upserted,
        record c {
          files = files;
          entries = if upserted then upsert_cache_entry entry c.entries else c.entries;
        },
      )
      else (false, c)
