-- ===== src/Prelude/Worklist.antt =====
-- The breadth-first closure that the dependency graph and the CSS tracker both run: a set of keys
-- seen so far, a queue, and the keys that one key leads to.
use Prim.Native.Nat.{ℕ, zero, suc, ◌+◌, ◌≤◌, ◌<◌}
use mathlib.Core.Path.{◌≡◌, refl, ap}
use mathlib.Core.Logic.{◌⊎◌, inl, inr, ◌↔◌}
use mathlib.Core.Bool.{true, not, ◌&&◌, ◌||◌}
use mathlib.Core.Option.{Option, none, some}
use mathlib.Core.List.{List, [], ◌∷◌, ◌++◌}
use native.Mathlib.Omega.{arith}
use effective_next.Prelude.Tests.{if◌then◌else◌, Bool-cases}
use effective_next.Prelude.Lists.{
  length, length-append, contains, contains-append, Distinct, missing, missing-cons-lt, missing-le,
}

pub record Search {ℓ} (K : Type ℓ) : Type ℓ where
  pub affected : List K
  pub queue : List K

module _ {ℓ} {K : Type ℓ} (dec : Discrete K) where
  -- `if !affected[k] { affected[k] = true; queue = append(queue, k) }`
  offer : Search K → K → Search K
  offer s k =
      if contains dec s.affected k
      then s
      else record { affected = k ∷ s.affected; queue = s.queue ++ k ∷ [] }

  unfoldable pub scan : Search K → List K → Search K
  unfolding offer contains
  scan s [] = s
  scan s (k ∷ ks) = scan (offer s k) ks

  affected-scan :
      (s : Search K) (ks : List K) (w : K)
      → contains dec (scan s ks).affected w ≡ (contains dec s.affected w || contains dec ks w)
  unfolding scan
  affected-scan s [] w = ground arith
  affected-scan s (k ∷ ks) w = ground (arith, affected-scan (offer s k) ks w)

  queue-scan :
      (s : Search K) (ks : List K) (w : K)
      → contains dec (scan s ks).queue w
        ≡ (contains dec s.queue w || (contains dec ks w && not (contains dec s.affected w)))
  unfolding scan
  queue-scan s [] w = ground arith
  queue-scan s (k ∷ ks) w =
      ground (arith, queue-scan (offer s k) ks w, contains-append dec s.queue (k ∷ []) w)

  Distinct-scan :
      (s : Search K) (ks : List K) → Distinct dec s.affected → Distinct dec (scan s ks).affected
  unfolding scan
  Distinct-scan s [] d = d
  Distinct-scan s (k ∷ ks) d = Distinct-scan (offer s k) ks (ground arith)

  work-scan :
      (all : List K) (s : Search K) (ks : List K)
      → ((j : K) → contains dec ks j ≡ true → contains dec all j ≡ true)
      → missing dec all (scan s ks).affected + length (scan s ks).queue
        ≤ missing dec all s.affected + length s.queue
  unfolding scan
  work-scan all s [] h = omega arith
  work-scan all s (k ∷ ks) h =
      let known : contains dec all k ≡ true = h k (ground arith) in
      let rest = work-scan all (offer s k) ks (λ j m. h j (ground arith)) in
      ground
        (arith, rest, missing-cons-lt dec all k s.affected known, length-append s.queue (k ∷ []))

  module _ (next : K → List K) where
    -- `for len(queue) > 0 { current := queue[0]; queue = queue[1:]; … }`; `none` is out of fuel.
    loop : ℕ → List K → List K → Option (List K)
    loop zero affected [] = some affected
    loop zero affected (current ∷ queue) = none
    loop (suc fuel) affected [] = some affected
    loop (suc fuel) affected (current ∷ queue) =
        let s = scan (record { affected = affected; queue = queue }) (next current) in
        loop fuel s.affected s.queue

    unfoldable pub closure : ℕ → K → Option (List K)
    unfolding loop scan
    closure fuel k = loop fuel (k ∷ []) (k ∷ [])

    -- The keys that `next` leads to, in any number of steps.
    pub data Reach (src : K) : K → Type ℓ where
      here : Reach src src
      step : {u v : K} → Reach src u → contains dec (next u) v ≡ true → Reach src v

    -- What holds between two rounds of the loop.
    record Inv (src : K) (affected queue : List K) : Type ℓ where
      source : contains dec affected src ≡ true
      queued : (v : K) → contains dec queue v ≡ true → contains dec affected v ≡ true
      sound : (v : K) → contains dec affected v ≡ true → Reach src v
      closed :
          (u v : K)
          → contains dec affected u ≡ true
          → contains dec (next u) v ≡ true
          → (contains dec queue u ≡ true) ⊎ (contains dec affected v ≡ true)

    Inv-start : (src : K) → Inv src (src ∷ []) (src ∷ [])
    unfolding contains
    Inv-start src = record {
      source = ground arith;
      queued = λ v q. q;
      sound = λ v m. elim (dec src v) [ yes p ↦ rw (← p) here | no p ↦ absurd (ground arith) ];
      closed = λ u v m e. inl m;
    }

    Inv-round :
        (src current : K) (affected queue : List K)
        → Inv src affected (current ∷ queue)
        → Inv src
            (scan (record { affected = affected; queue = queue }) (next current)).affected
            (scan (record { affected = affected; queue = queue }) (next current)).queue
    Inv-round src current affected queue inv =
        let s : Search K = record { affected = affected; queue = queue } in
        let a = affected-scan s (next current) in
        let q = queue-scan s (next current) in
        let now : contains dec affected current ≡ true =
          inv.queued current (unfold contains in ground arith) in
        record {
          source = ground (arith, a src, inv.source);
          queued = λ v m. ground (arith, a v, q v, tail_queued v);
          sound = λ v m. elim (Bool-cases (contains dec affected v)) [
            | inl old ↦ inv.sound v old
            | inr new ↦ step (inv.sound current now) (ground (arith, a v))
          ];
          closed = λ u v m e. elim (dec current u) [
            | yes p ↦ inr (rw (a v) (ground (arith, ap (λ (w : K). contains dec (next w) v) p)))
            | no p ↦ elim (Bool-cases (contains dec affected u)) [
              | inr new ↦ inl (ground (arith, a u, q u))
              | inl old ↦ elim (inv.closed u v old e) [
                | inl waiting ↦ inl (ground (arith, q u, later p waiting))
                | inr seen ↦ inr (ground (arith, a v))
              ]
            ]
          ];
        }
      where
        later :
            {u : K}
            → ¬ (current ≡ u)
            → contains dec (current ∷ queue) u ≡ true
            → contains dec queue u ≡ true
        later p h = unfold contains in ground arith

        tail_queued : (v : K) → contains dec queue v ≡ true → contains dec affected v ≡ true
        tail_queued v m = inv.queued v (unfold contains in ground arith)

    -- What the caller learns from a closure that returns.
    pub record IsClosure (src : K) (result : List K) : Type ℓ where
      pub exact : (v : K) → (contains dec result v ≡ true) ↔ Reach src v
      pub distinct : Distinct dec result

    Inv-end :
        (src : K) (affected : List K)
        → Inv src affected []
        → {v : K} → Reach src v
        → contains dec affected v ≡ true
    Inv-end src affected inv here = inv.source
    Inv-end src affected inv (step {u} {v} r e) =
        elim (inv.closed u v (Inv-end src affected inv r) e) [
          | inl waiting ↦ absurd (unfold contains in cc)
          | inr m ↦ m
        ]

    module _ (all : List K)
        (covers : (u v : K) → contains dec (next u) v ≡ true → contains dec all v ≡ true) where
      loop_lem :
          (src : K) (fuel : ℕ) (affected queue : List K)
          → missing dec all affected + length queue ≤ fuel
          → Distinct dec affected
          → Inv src affected queue
          → (result : List K) × (loop fuel affected queue ≡ some result) × IsClosure src result
      unfolding loop
      loop_lem src zero affected [] w d inv = (
        affected,
        refl,
        record { exact = λ v. (inv.sound v, Inv-end src affected inv); distinct = d },
      )
      loop_lem src zero affected (current ∷ queue) w d inv = absurd (omega arith)
      loop_lem src (suc fuel) affected [] w d inv = (
        affected,
        refl,
        record { exact = λ v. (inv.sound v, Inv-end src affected inv); distinct = d },
      )
      loop_lem src (suc fuel) affected (current ∷ queue) w d inv =
          let s : Search K = record { affected = affected; queue = queue } in
          loop_lem src fuel _ _ (omega (arith, work-scan all s (next current) (covers current)))
            (Distinct-scan s (next current) d) (Inv-round src current affected queue inv)

      -- With fuel above the number of keys in reach the closure returns exactly those keys.
      pub closure_lem :
          (fuel : ℕ) (src : K)
          → length all < fuel
          → (result : List K) × (closure fuel src ≡ some result) × IsClosure src result
      unfolding closure
      closure_lem fuel src h =
          loop_lem src fuel (src ∷ []) (src ∷ []) (omega (arith, missing-le dec all (src ∷ [])))
            (unfold contains in (refl, tt)) (Inv-start src)
