-- ===== src/Prelude/Heap/Place.antt =====
-- Where the heap operations leave the elements: what `Pop` and `Remove` take out.
use Prim.Native.Nat.{ℕ, zero, suc, ◌+◌, ◌-◌, ◌*◌, ◌/◌, ◌≤◌, ◌<◌}
use mathlib.Core.Path.{◌≡◌, refl, ap, ◌∙◌}
use mathlib.Core.Logic.{inl, inr}
use mathlib.Core.Bool.{Bool, true, not, ◌&&◌, ◌||◌}
use mathlib.Core.Option.{some}
use mathlib.Core.List.{List, [], ◌∷◌, ◌++◌}
use native.Mathlib.Omega.{arith}
use effective_next.Prelude.Tests.{Bool-cases, Option-cases, if◌then◌else◌, ◌==◌, ltb, leb}
use effective_next.Prelude.Lists.{length, length-append, get_elem?, set, contains}
use effective_next.Prelude.Sets.{index}
use effective_next.Prelude.Heap.{
  swap, pop_last, less_at, up, child, down, push, pop, settle, remove,
}

module _ {A : Type 0} where
  pub length-set : (h : List A) (i : ℕ) (b : A) → length (set h i b) ≡ length h
  length-set [] i b = refl
  length-set (x ∷ h) zero b = refl
  length-set (x ∷ h) (suc i) b = omega (arith, length-set h i b)

  pub get-set :
      (h : List A) (i m : ℕ) (b : A)
      → get_elem? (set h i b) m ≡ (if i == m && ltb m (length h) then some b else get_elem? h m)
  get-set [] i m b = ground arith
  get-set (x ∷ h) zero zero b = ground arith
  get-set (x ∷ h) zero (suc m) b = ground arith
  get-set (x ∷ h) (suc i) zero b = ground arith
  get-set (x ∷ h) (suc i) (suc m) b = ground (arith, get-set h i m b)

  pub get_elem?-lt : (h : List A) (i : ℕ) {a : A} → get_elem? h i ≡ some a → i < length h
  get_elem?-lt [] i e = cc
  get_elem?-lt (x ∷ h) zero e = omega arith
  get_elem?-lt (x ∷ h) (suc i) e = omega (arith, get_elem?-lt h i e)

  pub get_elem?-some : (h : List A) (i : ℕ) → i < length h → (a : A) × (get_elem? h i ≡ some a)
  get_elem?-some [] i l = absurd (omega arith)
  get_elem?-some (x ∷ h) zero l = (x, refl)
  get_elem?-some (x ∷ h) (suc i) l = get_elem?-some h i (omega arith)

  pub length-swap : (i j : ℕ) (h : List A) → length (swap i j h) ≡ length h
  unfolding swap
  length-swap i j h = elim (Option-cases (get_elem? h i)) [
    | inl e ↦ rw (e, swap)
    | inr (a, e) ↦ elim (Option-cases (get_elem? h j)) [
      | inl e' ↦ rw (e, e', swap)
      | inr (b, e') ↦ ground (arith, length-set (set h i b) j a, length-set h i b)
    ]
  ]

  pub get-swap :
      (i j m : ℕ) (h : List A)
      → i < length h
      → j < length h
      → get_elem? (swap i j h) m
        ≡ (if j == m then get_elem? h i else if i == m then get_elem? h j else get_elem? h m)
  unfolding swap
  get-swap i j m h l l' =
      let (a, e) = get_elem?-some h i l in
      let (b, e') = get_elem?-some h j l' in
      ground (arith, e, e', get-set (set h i b) j m a, get-set h i m b, length-set h i b)

  pop_last-some :
      (h : List A) (a : A)
      → get_elem? h (length h - 1) ≡ some a
      → (r : List A) × (pop_last h ≡ some (a, r))
  unfolding pop_last
  pop_last-some [] a e = absurd cc
  pop_last-some (x ∷ []) a e = ([], ground arith)
  pop_last-some (x ∷ y ∷ h) a e =
      let (r, e') = pop_last-some (y ∷ h) a (ground arith) in (x ∷ r, ground arith)

module _ {A : Type 0} (less : A → A → Bool) where
  pub child-lt : (i n : ℕ) (h : List A) → 2 * i + 1 < n → child less (2 * i + 1) n h < n
  unfolding child
  child-lt i n h l = ground arith

  pub length-up : (fuel j : ℕ) (h : List A) → length (up less fuel j h) ≡ length h
  unfolding up
  length-up zero j h = refl
  length-up (suc fuel) j h =
      let i : ℕ = (j - 1) / 2 in ground (arith, length-up fuel i (swap i j h), length-swap i j h)

  pub length-push : (x : A) (h : List A) → length (push less x h) ≡ length h + 1
  unfolding push
  length-push x h =
      omega (arith, length-up (length h) (length h) (h ++ x ∷ []), length-append h (x ∷ []))

  pub length-down : (fuel i n : ℕ) (h : List A) → length (down less fuel i n h).0 ≡ length h
  unfolding down
  length-down zero i n h = refl
  length-down (suc fuel) i n h =
      let j = child less (2 * i + 1) n h in
      elim (Bool-cases (leb n (2 * i + 1) || not (less_at less h j i))) [
        | inl stop ↦ rw (stop, down)
        | inr go ↦ rw (go, down) (length-down fuel j n (swap i j h) ∙ length-swap i j h)
      ]

  -- `up` touches nothing behind its start, and `down` nothing from its bound on.
  get-up :
      (fuel j m : ℕ) (h : List A)
      → j < m
      → j < length h
      → get_elem? (up less fuel j h) m ≡ get_elem? h m
  unfolding up
  get-up zero j m h l b = refl
  get-up (suc fuel) j m h l b =
      let i : ℕ = (j - 1) / 2 in
      let below : i ≤ j = omega arith in
      ground (
        arith,
        get-up fuel i m (swap i j h) (omega arith) (omega (arith, length-swap i j h)),
        get-swap i j m h (omega arith) b,
      )

  get-down :
      (fuel i n m : ℕ) (h : List A)
      → n ≤ m
      → n ≤ length h
      → get_elem? (down less fuel i n h).0 m ≡ get_elem? h m
  unfolding down
  get-down zero i n m h l' b = refl
  get-down (suc fuel) i n m h l' b =
      let j = child less (2 * i + 1) n h in
      elim (Bool-cases (leb n (2 * i + 1) || not (less_at less h j i))) [
        | inl stop ↦ rw (stop, down)
        | inr go ↦
            let inner : 2 * i + 1 < n = ground arith in
            let near : j < n = child-lt i n h inner in
            rw (go, down)
              (get-down fuel j n m (swap i j h) l' (omega (arith, length-swap i j h))
                ∙ ground (arith, get-swap i j m h (omega arith) (omega arith)))
      ]

  -- `heap.Pop` takes out the first element.
  pub pop_first :
      (h : List A) (a : A) → get_elem? h 0 ≡ some a → (r : List A) × (pop less h ≡ some (a, r))
  unfolding pop
  pop_first h a e =
      let n = length h - 1 in
      let l = get_elem?-lt h 0 e in
      let moved : get_elem? (swap 0 n h) n ≡ some a =
        ground (arith, get-swap 0 n n h l (omega arith), e) in
      let settled =
        get-down n 0 n n (swap 0 n h) (omega arith) (omega (arith, length-swap 0 n h)) in
      pop_last-some (down less n 0 n (swap 0 n h)).0 a (
        ap (get_elem? (down less n 0 n (swap 0 n h)).0)
          (omega (arith, length-down n 0 n (swap 0 n h), length-swap 0 n h))
        ∙ (settled ∙ moved))

  pub length-settle : (i n : ℕ) (h : List A) → length (settle less i n h) ≡ length h
  unfolding settle
  length-settle i n h = ground (arith, length-down n i n h, length-up i i (down less n i n h).0)

  get-settle :
      (i n m : ℕ) (h : List A)
      → i < n
      → n ≤ m
      → n ≤ length h
      → get_elem? (settle less i n h) m ≡ get_elem? h m
  unfolding settle
  get-settle i n m h l l' b = ground (
    arith,
    get-down n i n m h l' b,
    length-down n i n h,
    get-up i i m (down less n i n h).0 (omega arith) (omega (arith, length-down n i n h)),
  )

  -- `heap.Remove(h, i)` takes out the element at `i`.
  pub remove_at :
      (i : ℕ) (h : List A) (a : A)
      → get_elem? h i ≡ some a
      → (r : List A) × (remove less i h ≡ some (a, r))
  unfolding remove
  remove_at i h a e =
      let n = length h - 1 in
      let l = get_elem?-lt h i e in
      elim (Bool-cases (n == i)) [
        | inl z ↦ rw (z, remove) (pop_last-some h a (ap (get_elem? h) (ground arith) ∙ e))
        | inr z ↦
            let near : i < n = ground arith in
            let b : n ≤ length (swap i n h) = omega (arith, length-swap i n h) in
            rw (z, remove)
              (pop_last-some (settle less i n (swap i n h)) a (
                ap (get_elem? (settle less i n (swap i n h)))
                  (omega (arith, length-settle i n (swap i n h), length-swap i n h))
                ∙ (get-settle i n n (swap i n h) near (omega arith) b
                    ∙ ground (arith, get-swap i n n h l (omega arith), e))))
      ]

pub get-index :
    {A : Type 0} (dec : Discrete A) (h : List A) (a : A)
    → contains dec h a ≡ true
    → get_elem? h (index dec h a) ≡ some a
unfolding contains
get-index dec [] a m = absurd cc
get-index dec (x ∷ h) a m = elim (dec x a) [
  | yes e ↦ ground (arith, e)
  | no e ↦ ground (arith, get-index dec h a)
]
