-- ===== src/Cache/Roundtrip.antt =====
-- What is read back from the cache after `Put` and after `Remove`.
use effective_next.Prelude.{
  ◌≡◌, ap, Bool, true, ◌&&◌, Option, none, some, String, length, if◌then◌else◌, Option-cases, inl,
  inr, str_dec, ite, arith,
}
use effective_next.Prelude.Maps.{get, get-put, get-delete}
use effective_next.Cache.{
  Bytes, CacheEntry, Cache, upsert_cache_entry, get_cache_entry, delete_cache_entry, remove, miss,
  hit, get_data, pack, put_data, file_path,
}

-- Each entry stands under its own key.
pub record IsValid (c : Cache) : Type 0 where
  pub keyed :
      (key : String) (entry : CacheEntry) → get str_dec c.entries key ≡ some entry → entry.key ≡ key

module _ (encode : Bytes → Bytes) (decode : Bytes → Option Bytes) (hash : Bytes → String) where
  -- What is read depends on the entry and the file of the key alone.
  abbrev pub content : Bool → Option CacheEntry → Option Bytes → Option Bytes
  content compress none file = none
  content compress (some entry) none = none
  content compress (some entry) (some payload) =
      if entry.compressed && compress then decode payload else some payload

  get_data-content :
      (key : String) (c : Cache)
      → IsValid c
      → (get_data encode decode hash key c).0
        ≡ content c.compress (get str_dec c.entries key) (get str_dec c.files (file_path c.dir key))
  unfolding get_data miss hit get_cache_entry
  get_data-content key c v = elim (Option-cases (get str_dec c.entries key)) [
    | inl e ↦ ground (arith, e)
    | inr (entry, e) ↦ ground (
      arith,
      e,
      v.keyed key entry e,
      ap (λ k. get str_dec c.files (file_path c.dir k)) (v.keyed key entry e),
    )
  ]

  pub put_data-IsValid :
      (key : String) (payload : Bytes) (written upserted : Bool) (c : Cache)
      → IsValid c
      → IsValid (put_data encode decode hash key payload written upserted c).1
  unfolding put_data upsert_cache_entry
  put_data-IsValid key payload written upserted c v = record {
    keyed = λ k entry e. ground (
      arith,
      v.keyed k entry,
      get-put str_dec key k
          (record {
            key = key;
            hash = hash payload;
            size = length (pack encode decode hash c.compress payload).0;
            compressed = (pack encode decode hash c.compress payload).1;
          })
          c.entries,
    );
  }

  remove-IsValid : (key : String) (c : Cache) → IsValid c → IsValid (remove key true c)
  unfolding remove delete_cache_entry
  remove-IsValid key c v = record {
    keyed = λ k entry e. ground (arith, v.keyed k entry, get-delete str_dec key k c.entries);
  }

  content-pack :
      (compress : Bool) (payload : Bytes)
      → ((x : Bytes) → decode (encode x) ≡ some x)
      → (if (pack encode decode hash compress payload).1 && compress
          then decode (pack encode decode hash compress payload).0
          else some (pack encode decode hash compress payload).0)
        ≡ some payload
  unfolding pack
  content-pack compress payload inverse = ground (arith, inverse payload)

  -- The entry of the key with the file that it shares.
  abbrev pub shared : Cache → String → Bytes → Option Bytes
  shared c k stored = content c.compress (get str_dec c.entries k) (some stored)

  -- If the decompressor undoes the compressor, then after a `Put` that succeeds its key reads back the
  -- payload, compressed or not. Another key whose file is another one reads back what it did before;
  -- one whose file is the same reads what was stored now, by its own entry, if it has one.
  pub get_data-put_data :
      (key : String) (payload : Bytes) (k : String) (c : Cache)
      → ((x : Bytes) → decode (encode x) ≡ some x)
      → IsValid c
      → (get_data encode decode hash k (put_data encode decode hash key payload true true c).1).0
        ≡ ite (str_dec key k) (some payload) (
            ite
              (str_dec (file_path c.dir key) (file_path c.dir k))
              (shared c k (pack encode decode hash c.compress payload).0)
              (get_data encode decode hash k c).0)
  unfolding put_data upsert_cache_entry
  get_data-put_data key payload k c inverse v =
      let c' = (put_data encode decode hash key payload true true c).1 in
      let (stored, packed) = pack encode decode hash c.compress payload in
      let entry : CacheEntry = record {
        key = key;
        hash = hash payload;
        size = length stored;
        compressed = packed;
      } in
      ground (
        arith,
        get_data-content k c' (put_data-IsValid key payload true true c v),
        get_data-content k c v,
        get-put str_dec key k entry c.entries,
        get-put str_dec (file_path c.dir key) (file_path c.dir k) stored c.files,
        λ (e : key ≡ k). ap (file_path c.dir) e,
        content-pack c.compress payload inverse,
      )

  -- After a `Remove` that succeeds its key reads back nothing, and so does one that shares its file;
  -- every other key reads back what it did before.
  pub get_data-remove :
      (key k : String) (c : Cache)
      → IsValid c
      → (get_data encode decode hash k (remove key true c)).0
        ≡ ite
            (str_dec (file_path c.dir key) (file_path c.dir k))
            none
            (get_data encode decode hash k c).0
  unfolding remove delete_cache_entry
  get_data-remove key k c v = ground (
    arith,
    get_data-content k (remove key true c) (remove-IsValid key c v),
    get_data-content k c v,
    get-delete str_dec key k c.entries,
    get-delete str_dec (file_path c.dir key) (file_path c.dir k) c.files,
    Option-cases (get str_dec c.entries k),
    λ (e : key ≡ k). ap (file_path c.dir) e,
  )
