-- ===== src/ParseCache/Valid.antt =====
-- What the operations of the parse cache keep: the heap holds the paths of the items, each once, and
-- no more than the maximum.
use effective_next.Prelude.{
  ℕ, zero, suc, ◌≤◌, ◌≡◌, refl, ap, List, ◌∷◌, String, length, contains, Distinct, count, count-pos,
  count_zero, contains_of_count, if◌then◌else◌, ltb, Bool-cases, Option-cases, inl, inr, str_dec,
  arith,
}
use effective_next.Prelude.Int.{ℤ}
use effective_next.Prelude.Maps.{keys, delete, has, has-delete, Distinct-delete, length-keys}
use effective_next.Prelude.Sets.{count_le_one, Distinct-of_count, length-le_of_subset}
use effective_next.Prelude.Heap.{pop}
use effective_next.Prelude.Heap.Same.{count-pop}
use effective_next.Prelude.Heap.Queue.{heap_none}
use effective_next.ParseCache.{ParseCache, new, less, evict, clear}

-- A list without repetition holds a key once or not at all.
pub count-Distinct :
    (xs : List String) (p : String)
    → Distinct str_dec xs
    → count str_dec p xs ≡ (if contains str_dec xs p then 1 else 0)
count-Distinct xs p d = ground (
  arith,
  count_le_one str_dec p xs d,
  count-pos str_dec p xs,
  count_zero str_dec p xs,
  Bool-cases (contains str_dec xs p),
)

pub length-le_of_count :
    (xs ys : List String)
    → Distinct str_dec xs
    → ((p : String) → count str_dec p xs ≤ count str_dec p ys)
    → length xs ≤ length ys
length-le_of_count xs ys d h =
    length-le_of_subset str_dec xs ys d
      (λ p m. contains_of_count str_dec p ys (omega (arith, h p, count-pos str_dec p xs m)))

module _ {R : Type 0} where
  pub record IsHeaped (pc : ParseCache R) : Type 0 where
    pub distinct : Distinct str_dec (keys pc.items)
    pub heaped : (p : String) → count str_dec p pc.order ≡ count str_dec p (keys pc.items)

  pub record IsValid (pc : ParseCache R) : Type 0 where
    pub consistent : IsHeaped pc
    pub bounded : length pc.order ≤ pc.max_size

  pub new-IsValid : (max : ℤ) → IsValid (new max)
  unfolding new
  new-IsValid max = record {
    consistent = record { distinct = tt; heaped = λ p. refl };
    bounded = omega arith;
  }

  pub clear-IsValid : (pc : ParseCache R) → IsValid (clear pc)
  unfolding clear
  clear-IsValid pc = record {
    consistent = record { distinct = tt; heaped = λ p. refl };
    bounded = omega arith;
  }

  pub order-Distinct : (pc : ParseCache R) → IsHeaped pc → Distinct str_dec pc.order
  order-Distinct pc v =
      Distinct-of_count str_dec pc.order
        (λ p. omega (arith, v.heaped p, count_le_one str_dec p (keys pc.items) v.distinct))

  -- The number of items is the length of the heap.
  pub length-order : (pc : ParseCache R) → IsHeaped pc → length pc.order ≡ length pc.items
  length-order pc v = omega (
    arith,
    length-keys pc.items,
    length-le_of_count pc.order (keys pc.items) (order-Distinct pc v)
        (λ p. omega (arith, v.heaped p)),
    length-le_of_count (keys pc.items) pc.order v.distinct (λ p. omega (arith, v.heaped p)),
  )

  -- Taking a path out of the heap and out of the items.
  pub taken-IsHeaped :
      (pc : ParseCache R) (p : String) (rest : List String)
      → IsHeaped pc
      → ((k : String) → count str_dec k (p ∷ rest) ≡ count str_dec k pc.order)
      → IsHeaped (record pc { items = delete str_dec p pc.items; order = rest })
        × (suc (length rest) ≤ length pc.order)
  taken-IsHeaped pc p rest v h =
      let d = Distinct-delete str_dec p pc.items v.distinct in
      (
        record {
          distinct = d;
          heaped = λ k. ground (
            arith,
            h k,
            v.heaped k,
            count-Distinct (keys pc.items) k v.distinct,
            count-Distinct (keys (delete str_dec p pc.items)) k d,
            has-delete str_dec p k pc.items,
            λ (e : p ≡ k). ap (has str_dec pc.items) e,
          );
        },
        length-le_of_count (p ∷ rest) pc.order
            (Distinct-of_count str_dec (p ∷ rest) (λ k.
              omega (arith, h k, v.heaped k, count_le_one str_dec k (keys pc.items) v.distinct)))
            (λ k. omega (arith, h k)),
      )

  pub evict-IsValid :
      (fuel : ℕ) (pc : ParseCache R)
      → IsHeaped pc
      → length pc.order ≤ fuel
      → IsValid (evict fuel pc)
  unfolding evict
  evict-IsValid zero pc v l = record { consistent = v; bounded = omega arith }
  evict-IsValid (suc fuel) pc v l = elim (Bool-cases (ltb pc.max_size (length pc.order))) [
    | inr fits ↦ rw (fits, evict) (record { consistent = v; bounded = ground arith })
    | inl over ↦ elim (Option-cases (pop (less pc.items) pc.order)) [
      | inl empty ↦ absurd (ground (arith, heap_none str_dec (less pc.items) pc.order empty))
      | inr ((p, rest), e) ↦
          let (v', shorter) =
            taken-IsHeaped pc p rest v (λ k. count-pop str_dec (less pc.items) k pc.order e) in
          rw (over, e, evict)
            (evict-IsValid fuel (record pc { items = delete str_dec p pc.items; order = rest }) v'
              (omega arith))
    ]
  ]
