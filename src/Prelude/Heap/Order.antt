-- ===== src/Prelude/Heap/Order.antt =====
-- The order that the heap operations keep: no element is less than its parent.
use Prim.Native.Nat.{ℕ, zero, suc, ◌+◌, ◌-◌, ◌*◌, ◌/◌, ◌≤◌, ◌<◌}
use mathlib.Core.Path.{◌≡◌, ap, ◌∙◌}
use mathlib.Core.Logic.{◌≢◌, ◌⊎◌, inl, inr}
use mathlib.Core.Bool.{Bool, true, false, not, ◌||◌}
use mathlib.Core.List.{List}
use native.Mathlib.Omega.{arith}
use native.Mathlib.Decide.{ℕ_discrete}
use effective_next.Prelude.Tests.{Bool-cases, Option-cases, if◌then◌else◌, ◌==◌, leb}
use effective_next.Prelude.Lists.{length, get_elem?}
use effective_next.Prelude.Heap.{swap, less_at, child, down, up}
use effective_next.Prelude.Heap.Place.{get-swap, get_elem?-some, length-swap, child-lt}

-- `a` is not less than `b` when `b` is less than `a`, and not being less is transitive.
pub record IsWeakOrder {A : Type 0} (less : A → A → Bool) : Type 0 where
  pub asym : (a b : A) → less a b ≡ true → less b a ≡ false
  pub trans : (a b c : A) → less b a ≡ false → less c b ≡ false → less c a ≡ false

abbrev pub parent : ℕ → ℕ
parent m = (m - 1) / 2

module _ {A : Type 0} (less : A → A → Bool) (ord : IsWeakOrder less) where
  -- The first `n` elements are a heap.
  abbrev pub IsHeap : ℕ → List A → Type 0
  IsHeap n h = (m : ℕ) → 0 < m → m < n → less_at less h m (parent m) ≡ false

  pub asym_at : (h : List A) (i j : ℕ) → less_at less h i j ≡ true → less_at less h j i ≡ false
  unfolding less_at
  asym_at h i j e = elim (Option-cases (get_elem? h i)) [
    | inl x ↦ absurd (ground (arith, x))
    | inr (a, x) ↦ elim (Option-cases (get_elem? h j)) [
      | inl y ↦ absurd (ground (arith, x, y))
      | inr (b, y) ↦ ground (arith, x, y, ord.asym a b)
    ]
  ]

  pub trans_at :
      (h : List A) (i j k : ℕ)
      → j < length h
      → less_at less h j i ≡ false
      → less_at less h k j ≡ false
      → less_at less h k i ≡ false
  unfolding less_at
  trans_at h i j k l e e' =
      let (b, y) = get_elem?-some h j l in
      elim (Option-cases (get_elem? h k)) [
        | inl z ↦ ground (arith, z)
        | inr (c, z) ↦ elim (Option-cases (get_elem? h i)) [
          | inl x ↦ ground (arith, x, z)
          | inr (a, x) ↦ ground (arith, x, y, z, ord.trans a b c)
        ]
      ]

  -- Where the element at `m` stood before the swap.
  abbrev pub moved : ℕ → ℕ → ℕ → ℕ
  moved i j m = if j == m then i else if i == m then j else m

  pub less_at-swap :
      (i j x y : ℕ) (h : List A)
      → i < length h
      → j < length h
      → less_at less (swap i j h) x y ≡ less_at less h (moved i j x) (moved i j y)
  unfolding less_at
  less_at-swap i j x y h l l' =
      let ex = get-swap i j x h l l' in let ey = get-swap i j y h l l' in ground (arith, ex, ey)

  -- The child that `down` compares is not above its sibling.
  child-least :
      (i n m : ℕ) (h : List A)
      → 0 < m
      → m < n
      → parent m ≡ i
      → m ≢ child less (2 * i + 1) n h
      → less_at less h m (child less (2 * i + 1) n h) ≡ false
  unfolding child
  child-least i n m h pos below up other =
      let two : (m ≡ 2 * i + 1) ⊎ (m ≡ 2 * i + 1 + 1) = omega arith in
      elim two [
        | inl e ↦ ground (
          arith,
          e,
          asym_at h (2 * i + 1 + 1) (2 * i + 1),
          ap (λ x. less_at less h x (2 * i + 1 + 1)) e,
        )
        | inr e ↦ ground (arith, e, ap (λ x. less_at less h x (2 * i + 1)) e)
      ]

  -- All but the edges out of `i` are in order, and the children of `i` are not above its parent.
  pub record DownInv (i n : ℕ) (h : List A) : Type 0 where
    pub others : (m : ℕ) → 0 < m → m < n → parent m ≢ i → less_at less h m (parent m) ≡ false
    pub beyond :
        (m : ℕ) → 0 < m → m < n → parent m ≡ i → 0 < i → less_at less h m (parent i) ≡ false

  down-step :
      (i n : ℕ) (h : List A)
      → n ≤ length h
      → 2 * i + 1 < n
      → DownInv i n h
      → less_at less h (child less (2 * i + 1) n h) i ≡ true
      → DownInv (child less (2 * i + 1) n h) n (swap i (child less (2 * i + 1) n h) h)
  down-step i n h l inner inv above =
      let j = child less (2 * i + 1) n h in
      let near : j < n = child-lt less i n h inner in
      let under : parent j ≡ i = unfold child in ground arith in
      let lower : i < j = unfold child in ground arith in
      let l' : j < length h = omega arith in
      let sw = less_at-swap i j in
      record {
        others = λ m pos below away. elim (ℕ_discrete m j) [
          | yes e ↦
              ground (arith, sw m (parent m) h (omega arith) l', asym_at h j i above, ap parent e)
          | no e ↦ elim (ℕ_discrete m i) [
            | yes q ↦ ground (
              arith,
              sw m (parent m) h (omega arith) l',
              inv.beyond j (omega arith) near under,
              ap parent q,
            )
            | no q ↦ elim (ℕ_discrete (parent m) i) [
              | yes r ↦
                  ground
                    (arith, sw m (parent m) h (omega arith) l', child-least i n m h pos below r e)
              | no r ↦ ground (arith, sw m (parent m) h (omega arith) l', inv.others m pos below r)
            ]
          ]
        ];
        beyond = λ m pos below e q. ground (
          arith,
          sw m (parent j) h (omega arith) l',
          inv.others m pos below (λ r. omega (arith, r, e, lower)),
          ap (less_at less h m) e,
        );
      }

  down-stop :
      (i n : ℕ) (h : List A)
      → n ≤ length h
      → DownInv i n h
      → (leb n (2 * i + 1) || not (less_at less h (child less (2 * i + 1) n h) i)) ≡ true
      → IsHeap n h
  down-stop i n h l inv stop m pos below =
      let j = child less (2 * i + 1) n h in
      elim (ℕ_discrete (parent m) i) [
        | no e ↦ inv.others m pos below e
        | yes e ↦
            let inner : 2 * i + 1 < n = omega arith in
            let near : j < n = child-lt less i n h inner in
            let above : less_at less h j i ≡ false = ground (arith, stop) in
            elim (ℕ_discrete m j) [
              | yes q ↦ ap (less_at less h m) e ∙ (ap (λ x. less_at less h x i) q ∙ above)
              | no q ↦
                  ap (less_at less h m) e
                  ∙ trans_at h i j m (omega arith) above (child-least i n m h pos below e q)
            ]
      ]

  -- `down` brings the first `n` elements in order.
  pub down-IsHeap :
      (fuel i n : ℕ) (h : List A)
      → n ≤ length h
      → n ≤ i + fuel
      → DownInv i n h
      → IsHeap n (down less fuel i n h).0
  unfolding down
  down-IsHeap zero i n h l f inv = λ m pos below. inv.others m pos below (λ e. omega (arith, e))
  down-IsHeap (suc fuel) i n h l f inv =
      let j = child less (2 * i + 1) n h in
      elim (Bool-cases (leb n (2 * i + 1) || not (less_at less h j i))) [
        | inl stop ↦ rw (stop, down) (down-stop i n h l inv stop)
        | inr go ↦
            let inner : 2 * i + 1 < n = ground (arith, go) in
            let lower : i < j = unfold child in ground arith in
            rw (go, down)
              (down-IsHeap fuel j n (swap i j h) (omega (arith, length-swap i j h)) (omega arith)
                (down-step i n h l inner inv (ground (arith, go))))
      ]
