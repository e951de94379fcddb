-- ===== src/ParseCache/Calls.antt =====
-- The parse cache under any sequence of calls of its methods.
use effective_next.Prelude.{
  ℕ, zero, suc, ◌≤◌, ◌≡◌, refl, ◌∙◌, List, [], ◌∷◌, String, length, ltb, str_dec, arith, Bool-cases,
  Option-cases, inl, inr,
}
use effective_next.Prelude.Int.{ℤ}
use effective_next.Prelude.Maps.{get, has}
use effective_next.Prelude.Heap.{pop}
use effective_next.ParseCache.{
  ParsedFile, ParseCache, new, less, get_result, evict, put_result, take_out, remove_path, clear,
  size, is_current, sweep, invalidate,
}
use effective_next.ParseCache.Valid.{IsValid, new-IsValid, clear-IsValid, length-order}
use effective_next.ParseCache.Kept.{get_result-IsValid, put_result-IsValid, remove_path-IsValid}
use effective_next.ParseCache.Effects.{invalidate_lem}

pub data Call (R : Type 0) : Type 0 where
  get_call : (path : String) (now : ℕ) → Call R
  put_call : (path : String) (result : R) (hash now : ℕ) → Call R
  remove_call : (path : String) → Call R
  invalidate_call : (hashes : List (String × ℕ)) → Call R
  clear_call : Call R

module _ {R : Type 0} where
  unfoldable pub call : Call R → ParseCache R → ParseCache R
  call (get_call path now) pc = (get_result path now pc).1
  call (put_call path result hash now) pc = put_result path result hash now pc
  call (remove_call path) pc = (remove_path path pc).1
  call (invalidate_call hashes) pc = (invalidate hashes pc).1
  call clear_call pc = clear pc

  unfoldable pub calls : List (Call R) → ParseCache R → ParseCache R
  unfolding call
  calls [] pc = pc
  calls (c ∷ cs) pc = calls cs (call c pc)

  call-IsValid : (c : Call R) (pc : ParseCache R) → IsValid pc → IsValid (call c pc)
  unfolding call
  call-IsValid (get_call path now) pc v = get_result-IsValid path now pc v
  call-IsValid (put_call path result hash now) pc v = put_result-IsValid path result hash now pc v
  call-IsValid (remove_call path) pc v = remove_path-IsValid path pc v
  call-IsValid (invalidate_call hashes) pc v = (invalidate_lem hashes pc v).0
  call-IsValid clear_call pc v = clear-IsValid pc

  max_size-evict : (fuel : ℕ) (pc : ParseCache R) → (evict fuel pc).max_size ≡ pc.max_size
  unfolding evict
  max_size-evict zero pc = refl
  max_size-evict (suc fuel) pc = elim (Bool-cases (ltb pc.max_size (length pc.order))) [
    | inr fits ↦ rw (fits, evict) refl
    | inl over ↦ elim (Option-cases (pop (less pc.items) pc.order)) [
      | inl empty ↦ rw (over, empty, evict) refl
      | inr ((p, rest), e) ↦ rw (over, e, evict) (max_size-evict fuel _)
    ]
  ]

  max_size-sweep :
      (hashes : List (String × ℕ)) (items : List (String × ParsedFile R)) (pc : ParseCache R)
      (n : ℕ)
      → (sweep hashes items pc n).1.max_size ≡ pc.max_size
  unfolding sweep take_out
  max_size-sweep hashes [] pc n = refl
  max_size-sweep hashes ((path, item) ∷ items) pc n =
      elim (Bool-cases (is_current hashes path item)) [
        | inl fresh ↦ rw (fresh, sweep) (max_size-sweep hashes items pc n)
        | inr stale ↦ rw (stale, sweep) (max_size-sweep hashes items (take_out path pc) _)
      ]

  max_size-call : (c : Call R) (pc : ParseCache R) → (call c pc).max_size ≡ pc.max_size
  unfolding call get_result put_result remove_path take_out invalidate clear
  max_size-call (get_call path now) pc = elim (Option-cases (get str_dec pc.items path)) [
    | inl e ↦ rw (e, call, get_result) refl
    | inr (item, e) ↦ rw (e, call, get_result) refl
  ]
  max_size-call (put_call path result hash now) pc =
      elim (Option-cases (get str_dec pc.items path)) [
        | inl e ↦ rw (e, call, put_result) (max_size-evict _ _)
        | inr (item, e) ↦ rw (e, call, put_result) refl
      ]
  max_size-call (remove_call path) pc = elim (Bool-cases (has str_dec pc.items path)) [
    | inl e ↦ rw (e, call, remove_path) refl
    | inr e ↦ rw (e, call, remove_path) refl
  ]
  max_size-call (invalidate_call hashes) pc = max_size-sweep hashes pc.items pc 0
  max_size-call clear_call pc = refl

  calls_keep :
      (cs : List (Call R)) (pc : ParseCache R)
      → IsValid pc
      → IsValid (calls cs pc) × ((calls cs pc).max_size ≡ pc.max_size)
  unfolding calls
  calls_keep [] pc v = (v, refl)
  calls_keep (c ∷ cs) pc v =
      let (w, e) = calls_keep cs (call c pc) (call-IsValid c pc v) in (w, e ∙ max_size-call c pc)

  -- After any calls on a new cache its items stand once each, under the paths of its heap, and
  -- there are at most as many as the maximum that the cache was made with.
  pub size-calls :
      (max : ℤ) (cs : List (Call R))
      → IsValid (calls cs (new max)) × (size (calls cs (new max)) ≤ (new {R = R} max).max_size)
  unfolding size
  size-calls max cs =
      let (v, e) = calls_keep cs (new max) (new-IsValid max) in
      (v, omega (arith, v.bounded, length-order _ v.consistent, e))
