-- ===== src/ParseCache/Kept.antt =====
-- Each operation of the parse cache keeps it well formed.
use effective_next.Prelude.{
  ℕ, ◌+◌, ◌≤◌, ◌≡◌, ap, true, false, some, List, String, length, contains_of_count, count-pos,
  Bool-cases, Option-cases, inl, inr, str_dec, arith,
}
use effective_next.Prelude.Maps.{keys, get, put, has, has-put, Distinct-put, get-eq-none_iff}
use effective_next.Prelude.Sets.{index}
use effective_next.Prelude.Heap.{push, fix}
use effective_next.Prelude.Heap.Same.{count-push, count-fix, count-remove}
use effective_next.Prelude.Heap.Place.{remove_at, get-index}
use effective_next.ParseCache.{
  ParsedFile, ParseCache, less, get_result, put_result, take_out, remove_path,
}
use effective_next.ParseCache.Valid.{
  IsHeaped, IsValid, count-Distinct, length-le_of_count, order-Distinct, taken-IsHeaped,
  evict-IsValid,
}

module _ {R : Type 0} where
  pub has-some :
      (m : List (String × ParsedFile R)) (p : String) {f : ParsedFile R}
      → get str_dec m p ≡ some f
      → has str_dec m p ≡ true
  has-some m p e = ground (arith, get-eq-none_iff str_dec m p, Bool-cases (has str_dec m p))

  -- A changed item keeps its place among the items, and `Fix` only reorders.
  fixed-IsHeaped :
      (pc : ParseCache R) (p : String) (f : ParsedFile R) (i : ℕ)
      → IsHeaped pc
      → has str_dec pc.items p ≡ true
      → IsHeaped (record pc {
        items = put str_dec p f pc.items;
        order = fix (less (put str_dec p f pc.items)) i pc.order;
      })
        × (length (fix (less (put str_dec p f pc.items)) i pc.order) ≤ length pc.order)
  fixed-IsHeaped pc p f i v h =
      let d = Distinct-put str_dec p f pc.items v.distinct in
      let lt = less (put str_dec p f pc.items) in
      let v' : IsHeaped
          (record pc { items = put str_dec p f pc.items; order = fix lt i pc.order }) =
        record {
          distinct = d;
          heaped = λ k. ground (
            arith,
            count-fix str_dec lt k i pc.order,
            v.heaped k,
            count-Distinct (keys pc.items) k v.distinct,
            count-Distinct (keys (put str_dec p f pc.items)) k d,
            has-put str_dec p k f pc.items,
            λ (e : p ≡ k). ap (has str_dec pc.items) e,
          );
        } in
      (
        v',
        length-le_of_count (fix lt i pc.order) pc.order (order-Distinct _ v')
            (λ k. omega (arith, count-fix str_dec lt k i pc.order)),
      )

  pushed-IsHeaped :
      (pc : ParseCache R) (p : String) (f : ParsedFile R)
      → IsHeaped pc
      → has str_dec pc.items p ≡ false
      → IsHeaped (record pc {
        items = put str_dec p f pc.items;
        order = push (less (put str_dec p f pc.items)) p pc.order;
      })
  pushed-IsHeaped pc p f v h =
      let d = Distinct-put str_dec p f pc.items v.distinct in
      record {
        distinct = d;
        heaped = λ k. ground (
          arith,
          count-push str_dec (less (put str_dec p f pc.items)) k p pc.order,
          v.heaped k,
          count-Distinct (keys pc.items) k v.distinct,
          count-Distinct (keys (put str_dec p f pc.items)) k d,
          has-put str_dec p k f pc.items,
          λ (e : p ≡ k). ap (has str_dec pc.items) e,
        );
      }

  -- `Get` keeps the cache well formed.
  pub get_result-IsValid :
      (path : String) (now : ℕ) (pc : ParseCache R)
      → IsValid pc
      → IsValid (get_result path now pc).1
  unfolding get_result
  get_result-IsValid path now pc v = elim (Option-cases (get str_dec pc.items path)) [
    | inl e ↦
        rw (e, get_result)
          (record {
            consistent = record { distinct = v.consistent.distinct; heaped = v.consistent.heaped };
            bounded = v.bounded;
          })
    | inr (item, e) ↦
        let (v', l) =
          fixed-IsHeaped pc path
            (record item { access_count = item.access_count + 1; parsed_at = now })
            (index str_dec pc.order path) v.consistent (has-some pc.items path e) in
        rw (e, get_result)
          (record {
            consistent = record { distinct = v'.distinct; heaped = v'.heaped };
            bounded = omega (arith, v.bounded);
          })
  ]

  -- `Put` keeps the cache well formed: the eviction loop brings it down to the maximum.
  pub put_result-IsValid :
      (path : String) (result : R) (hash now : ℕ) (pc : ParseCache R)
      → IsValid pc
      → IsValid (put_result path result hash now pc)
  unfolding put_result
  put_result-IsValid path result hash now pc v = elim (Option-cases (get str_dec pc.items path)) [
    | inl e ↦
        rw (e, put_result)
          (evict-IsValid _ _
            (pushed-IsHeaped pc path _ v.consistent ((get-eq-none_iff str_dec pc.items path).0 e))
            (omega arith))
    | inr (item, e) ↦
        let (v', l) =
          fixed-IsHeaped pc path
            (record {
              result = result;
              hash = hash;
              parsed_at = now;
              access_count = item.access_count + 1;
            })
            (index str_dec pc.order path) v.consistent (has-some pc.items path e) in
        rw (e, put_result) (record { consistent = v'; bounded = omega (arith, v.bounded) })
  ]

  pub take_out-IsValid :
      (path : String) (pc : ParseCache R)
      → IsValid pc
      → has str_dec pc.items path ≡ true
      → IsValid (take_out path pc)
  unfolding take_out
  take_out-IsValid path pc v h =
      let listed =
        contains_of_count str_dec path pc.order
          (omega (arith, v.consistent.heaped path, count-pos str_dec path (keys pc.items) h)) in
      let (rest, e) =
        remove_at (less pc.items) (index str_dec pc.order path) pc.order path
          (get-index str_dec pc.order path listed) in
      let (v', shorter) =
        taken-IsHeaped pc path rest v.consistent
          (λ k. count-remove str_dec (less pc.items) k (index str_dec pc.order path) pc.order e) in
      rw (e, take_out) (record { consistent = v'; bounded = omega (arith, v.bounded) })

  -- `Remove` keeps the cache well formed.
  pub remove_path-IsValid :
      (path : String) (pc : ParseCache R) → IsValid pc → IsValid (remove_path path pc).1
  unfolding remove_path
  remove_path-IsValid path pc v = elim (Bool-cases (has str_dec pc.items path)) [
    | inl h ↦ rw (h, remove_path) (take_out-IsValid path pc v h)
    | inr h ↦ rw (h, remove_path) v
  ]
