-- ===== src/ParseCache.antt =====
-- pkg/parser/cache.go: the cache of parse results with its heap by access count. The heap holds
-- paths where the code holds pointers to the items: each item stands under one path. Its `index`
-- field, which `Swap`, `Push` and `Pop` keep, is the position of the path in the heap.
pub mod Valid
pub mod Kept
pub mod Effects
pub mod Calls
mod Tests
use effective_next.Prelude.{
  ℕ, zero, suc, ◌+◌, ◌-◌, Bool, true, false, Option, none, some, List, [], ◌∷◌, String, length,
  if◌then◌else◌, ◌==◌, ltb, str_dec,
}
use effective_next.Prelude.Int.{ℤ, pos, ltb_ℤ, pos_part}
use effective_next.Prelude.Maps.{get, put, delete, has}
use effective_next.Prelude.Sets.{index}
use effective_next.Prelude.Heap.{push, pop, fix, remove, init}

pub record ParsedFile (R : Type 0) : Type 0 where
  pub result : R
  pub hash : ℕ
  pub parsed_at : ℕ
  pub access_count : ℕ

pub record ParseCache (R : Type 0) : Type 0 where
  pub items : List (String × ParsedFile R)
  pub order : List String
  pub max_size : ℕ
  pub hits : ℕ
  pub misses : ℕ

-- Without the ratio, which is a floating-point quotient of the other two.
pub record CacheStats : Type 0 where
  pub size : ℕ
  pub max_size : ℕ
  pub hits : ℕ
  pub misses : ℕ

module _ {R : Type 0} where
  -- `if maxSize <= 0 { maxSize = 10000 }`
  unfoldable pub new : ℤ → ParseCache R
  new max_size = record {
    items = [];
    order = [];
    max_size = if ltb_ℤ (pos 0) max_size then pos_part max_size else 10000;
    hits = 0;
    misses = 0;
  }

  unfoldable pub count_of : List (String × ParsedFile R) → String → ℕ
  count_of items path = elim (get str_dec items path) [ none ↦ 0 | some item ↦ item.access_count ]

  -- `h.items[i].AccessCount < h.items[j].AccessCount`
  unfoldable pub less : List (String × ParsedFile R) → String → String → Bool
  unfolding count_of
  less items a b = ltb (count_of items a) (count_of items b)

  -- `Get` at the time `now`.
  unfoldable pub get_result : String → ℕ → ParseCache R → Option R × ParseCache R
  get_result path now pc = elim (get str_dec pc.items path) [
    | none ↦ (none, record pc { misses = pc.misses + 1 })
    | some item ↦
        let seen : ParsedFile R = record item {
          access_count = item.access_count + 1;
          parsed_at = now;
        } in
        let items = put str_dec path seen pc.items in
        (
          some item.result,
          record pc {
            items = items;
            hits = pc.hits + 1;
            order = fix (less items) (index str_dec pc.order path) pc.order;
          },
        )
  ]

  -- `for pc.order.Len() > pc.maxSize { … }`, which takes one out of the heap in each round.
  unfoldable pub evict : ℕ → ParseCache R → ParseCache R
  evict zero pc = pc
  evict (suc fuel) pc =
      elim (if ltb pc.max_size (length pc.order) then pop (less pc.items) pc.order else none) [
        | none ↦ pc
        | some (path, rest) ↦
            evict fuel (record pc { items = delete str_dec path pc.items; order = rest })
      ]

  unfoldable pub put_result : String → R → ℕ → ℕ → ParseCache R → ParseCache R
  unfolding evict
  put_result path result hash now pc = elim (get str_dec pc.items path) [
    | some existing ↦
        let items =
          put str_dec path
            (record {
              result = result;
              hash = hash;
              parsed_at = now;
              access_count = existing.access_count + 1;
            })
            pc.items in
        record pc { items = items; order = fix (less items) (index str_dec pc.order path) pc.order }
    | none ↦
        let items =
          put str_dec path
            (record { result = result; hash = hash; parsed_at = now; access_count = 0 }) pc.items in
        let order = push (less items) path pc.order in
        evict (length order) (record pc { items = items; order = order })
  ]

  unfoldable pub has_path : ParseCache R → String → Bool
  has_path pc path = has str_dec pc.items path

  -- `delete(pc.items, path); heap.Remove(pc.order, item.index)`
  unfoldable pub take_out : String → ParseCache R → ParseCache R
  take_out path pc = record pc {
    items = delete str_dec path pc.items;
    order = elim (remove (less pc.items) (index str_dec pc.order path) pc.order) [
      | none ↦ pc.order
      | some (_, rest) ↦ rest
    ];
  }

  unfoldable pub remove_path : String → ParseCache R → Bool × ParseCache R
  unfolding take_out
  remove_path path pc = if has str_dec pc.items path then (true, take_out path pc) else (false, pc)

  unfoldable pub clear : ParseCache R → ParseCache R
  clear pc = record pc { items = []; order = [] }

  unfoldable pub size : ParseCache R → ℕ
  size pc = length pc.items

  unfoldable pub stats : ParseCache R → CacheStats
  stats pc = record {
    size = length pc.items;
    max_size = pc.max_size;
    hits = pc.hits;
    misses = pc.misses;
  }

  -- `expectedHash, ok := currentHashes[path]; ok && item.Hash == expectedHash`
  unfoldable pub is_current : List (String × ℕ) → String → ParsedFile R → Bool
  is_current hashes path item = elim (get str_dec hashes path) [
    | none ↦ false
    | some expected ↦ item.hash == expected
  ]

  -- The loop over the items.
  unfoldable pub sweep :
      List (String × ℕ) → List (String × ParsedFile R) → ParseCache R → ℕ → ℕ × ParseCache R
  unfolding take_out is_current
  sweep hashes [] pc removed = (removed, pc)
  sweep hashes ((path, item) ∷ items) pc removed =
      let fresh = is_current hashes path item in
      sweep hashes items (if fresh then pc else take_out path pc)
        (if fresh then removed else removed + 1)

  unfoldable pub invalidate : List (String × ℕ) → ParseCache R → ℕ × ParseCache R
  invalidate hashes pc = sweep hashes pc.items pc 0
