-- ===== src/ParseCache/Effects.antt =====
-- What the operations of the parse cache do to the items.
use effective_next.Prelude.{
  ℕ, zero, suc, ◌+◌, ◌<◌, ◌≡◌, refl, ap, ◌∙◌, ◌⊎◌, inl, inr, true, none, some, List, [], ◌∷◌,
  String, length, contains, Distinct, if◌then◌else◌, ltb, Bool-cases, Option-cases, str_dec, ite,
  arith,
}
use effective_next.Prelude.Maps.{
  keys, get, put, delete, has, get-put, get-delete, has-delete, get-eq-none_iff,
}
use effective_next.Prelude.Heap.{push, pop}
use effective_next.Prelude.Heap.Place.{length-push}
use effective_next.ParseCache.{
  ParsedFile, ParseCache, less, evict, put_result, is_current, take_out, sweep, invalidate,
}
use effective_next.ParseCache.Valid.{IsValid, length-order}
use effective_next.ParseCache.Kept.{take_out-IsValid}

module _ {R : Type 0} where
  sweep_lem :
      (hashes : List (String × ℕ)) (l : List (String × ParsedFile R)) (pc : ParseCache R)
      (removed : ℕ)
      → IsValid pc
      → Distinct str_dec (keys l)
      → ((p : String) → contains str_dec (keys l) p ≡ true → has str_dec pc.items p ≡ true)
      → IsValid (sweep hashes l pc removed).1
        × ((p : String)
            → get str_dec (sweep hashes l pc removed).1.items p ≡ elim (get str_dec l p) [
              | none ↦ get str_dec pc.items p
              | some item ↦ if is_current hashes p item then get str_dec pc.items p else none
            ])
  unfolding sweep contains get take_out
  sweep_lem hashes [] pc removed v d h = (v, λ p. refl)
  sweep_lem hashes ((path, item) ∷ l) pc removed v d h =
      elim (Bool-cases (is_current hashes path item)) [
        | inl fresh ↦
            let (v', e) = sweep_lem hashes l pc removed v d.1 (λ p m. h p (ground arith)) in
            rw (fresh, sweep)
              (
                v',
                λ p. ground (
                  arith,
                  e p,
                  get-eq-none_iff str_dec l path,
                  fresh,
                  λ (q : path ≡ p). ap (λ x. is_current hashes x item) q,
                  λ (q : path ≡ p). ap (get str_dec l) q,
                ),
              )
        | inr stale ↦
            let (v', e) =
              sweep_lem hashes l (take_out path pc) (removed + 1)
                (take_out-IsValid path pc v (h path (ground arith))) d.1
                (λ p m. ground (
                  arith,
                  h p,
                  has-delete str_dec path p pc.items,
                  λ (q : path ≡ p). ap (contains str_dec (keys l)) q,
                )) in
            rw (stale, sweep)
              (
                v',
                λ p. ground (
                  arith,
                  e p,
                  get-eq-none_iff str_dec l path,
                  get-delete str_dec path p pc.items,
                  stale,
                  λ (q : path ≡ p). ap (λ x. is_current hashes x item) q,
                  λ (q : path ≡ p). ap (get str_dec l) q,
                ),
              )
      ]

  -- `Invalidate` keeps exactly the items whose hash is the current one of their path, and the cache
  -- stays well formed.
  pub invalidate_lem :
      (hashes : List (String × ℕ)) (pc : ParseCache R)
      → IsValid pc
      → IsValid (invalidate hashes pc).1
        × ((p : String)
            → get str_dec (invalidate hashes pc).1.items p ≡ elim (get str_dec pc.items p) [
              | none ↦ none
              | some item ↦ if is_current hashes p item then some item else none
            ])
  unfolding invalidate
  invalidate_lem hashes pc v =
      let (v', e) = sweep_lem hashes pc.items pc 0 v v.consistent.distinct (λ p m. m) in
      (v', λ p. ground (arith, e p))

  evict_lem :
      (fuel : ℕ) (pc : ParseCache R) (p : String)
      → (get str_dec (evict fuel pc).items p ≡ get str_dec pc.items p)
        ⊎ ((get str_dec (evict fuel pc).items p ≡ none) × (pc.max_size < length pc.order))
  unfolding evict
  evict_lem zero pc p = inl refl
  evict_lem (suc fuel) pc p = elim (Bool-cases (ltb pc.max_size (length pc.order))) [
    | inr fits ↦ inl (rw (fits, evict))
    | inl over ↦ elim (Option-cases (pop (less pc.items) pc.order)) [
      | inl empty ↦ inl (rw (over, empty, evict))
      | inr ((q, rest), e) ↦
          rw (over, e, evict)
            (let next =
                evict_lem fuel (record pc { items = delete str_dec q pc.items; order = rest }) p in
              ground (arith, over, next, get-delete str_dec q p pc.items))
    ]
  ]

  -- What `Put` stores under a path.
  abbrev pub stored : String → R → ℕ → ℕ → ParseCache R → ParsedFile R
  stored path result hash now pc = record {
    result = result;
    hash = hash;
    parsed_at = now;
    access_count = elim (get str_dec pc.items path) [ none ↦ 0 | some old ↦ old.access_count + 1 ];
  }

  -- After `Put` each path has the item that it should have, the stored one or the one from before; or
  -- it has none, and then the stored path is a new one for which the cache had no room.
  pub put_result_lem :
      (path : String) (result : R) (hash now : ℕ) (pc : ParseCache R) (p : String)
      → IsValid pc
      → (get str_dec (put_result path result hash now pc).items p
          ≡ ite (str_dec path p) (some (stored path result hash now pc)) (get str_dec pc.items p))
        ⊎ ((get str_dec (put_result path result hash now pc).items p ≡ none)
            × (get str_dec pc.items path ≡ none)
            × (length pc.items ≡ pc.max_size))
  unfolding put_result
  put_result_lem path result hash now pc p v = elim (Option-cases (get str_dec pc.items path)) [
    | inr (item, e) ↦ inl (rw (e, put_result) (get-put str_dec path p _ pc.items))
    | inl e ↦
        let item : ParsedFile R = record {
          result = result;
          hash = hash;
          parsed_at = now;
          access_count = 0;
        } in
        let m = put str_dec path item pc.items in
        let order = push (less m) path pc.order in
        rw (e, put_result)
          (elim (evict_lem (length order) (record pc { items = m; order = order }) p) [
            | inl same ↦ inl (same ∙ get-put str_dec path p item pc.items)
            | inr (lost, over) ↦ inr (
              lost,
              refl,
              omega (
                arith,
                over,
                v.bounded,
                length-push (less m) path pc.order,
                length-order pc v.consistent,
              ),
            )
          ])
  ]
