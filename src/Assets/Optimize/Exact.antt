-- ===== src/Assets/Optimize/Exact.antt =====
-- What each step of the workers of `Optimize` keeps.
use native.Mathlib.Decide.{ℕ_discrete}
use effective_next.Prelude.{
  ℕ, ◌+◌, ◌<◌, ◌≡◌, ◌⊎◌, inl, inr, refl, sym, ap, ◌∙◌, some, List, String, get_elem?, arith,
}
use effective_next.Prelude.Sums.{moved, moved-cases, sum, is_key, sum_below, sum_below-moved}
use effective_next.Assets.{File}
use effective_next.Assets.Optimize.{
  Pc, waiting, taken, hashed, returned, Pool, result_of, Step, take, quit, write_hash, write_result,
}

moved-same {ℓ} : {P : Type ℓ} (g : ℕ → P) (i : ℕ) (x : P) → moved g i x i ≡ x
unfolding moved
moved-same g i x = ground arith

moved-other {ℓ} : {P : Type ℓ} (g : ℕ → P) (i j : ℕ) (x : P) → ¬ (i ≡ j) → moved g i x j ≡ g j
unfolding moved
moved-other g i j x n = ground arith

abbrev pub hashed_at : ℕ → Pc → ℕ
hashed_at i waiting = 0
hashed_at i (taken j) = 0
hashed_at i (hashed j) = is_key ℕ_discrete i j
hashed_at i returned = 0

abbrev pub holds : ℕ → Pc → ℕ
holds i waiting = 0
holds i (taken j) = is_key ℕ_discrete i j
holds i (hashed j) = is_key ℕ_discrete i j
holds i returned = 0

is_key-here : (i j : ℕ) → j ≡ i → is_key ℕ_discrete i j ≡ 1
is_key-here i j e = ground arith

is_key-other : (i j : ℕ) → ¬ (j ≡ i) → is_key ℕ_discrete i j ≡ 0
is_key-other i j n = ground arith

module _ (hash_file : String → String × ℕ) (files : List File) (threads : ℕ) where
  -- Of the file `f` at `i`: a worker that has written its digest has written the right one, and the file
  -- is to be taken, held by a worker, or done.
  pub record Inv (i : ℕ) (f : File) (p : Pool) : Type 0 where
    pub digest : (w : ℕ) → 0 < hashed_at i (p.pc w) → p.hashes i ≡ (hash_file f.path).0
    pub kept :
        (0 < sum (is_key ℕ_discrete i) p.jobs + sum_below (holds i) threads p.pc)
        ⊎ ((p.hashes i ≡ (hash_file f.path).0) × (p.results i ≡ result_of hash_file f))

  digest-moved :
      (i : ℕ) (p : Pool) (w : ℕ) (c : Pc) (v : ℕ)
      → hashed_at i c ≡ 0
      → 0 < hashed_at i (moved p.pc w c v)
      → 0 < hashed_at i (p.pc v)
  digest-moved i p w c v z h = elim (moved-cases p.pc w c v) [
    | inl e ↦ absurd (omega (arith, ap (hashed_at i) e))
    | inr e ↦ omega (arith, ap (hashed_at i) e)
  ]

  some_inj : {f g : File} → some f ≡ some g → f ≡ g
  some_inj e = cc

  same_file :
      (i j : ℕ) (f g : File)
      → get_elem? files i ≡ some f
      → get_elem? files j ≡ some g
      → j ≡ i
      → f ≡ g
  same_file i j f g at s e = some_inj (sym at ∙ ap (get_elem? files) (sym e) ∙ s)

  moved-here {ℓ} :
      {P : Type ℓ} (value : File → P) (slots : ℕ → P) (i j : ℕ) (f g : File)
      → get_elem? files i ≡ some f
      → get_elem? files j ≡ some g
      → j ≡ i
      → moved slots j (value g) i ≡ value f
  moved-here value slots i j f g at s e =
      ap (moved slots j (value g)) (sym e)
      ∙ moved-same slots j (value g)
      ∙ ap value (sym (same_file i j f g at s e))

  moved-keeps {ℓ} :
      {P : Type ℓ} (value : File → P) (slots : ℕ → P) (i j : ℕ) (f g : File)
      → get_elem? files i ≡ some f
      → get_elem? files j ≡ some g
      → slots i ≡ value f
      → moved slots j (value g) i ≡ value f
  moved-keeps value slots i j f g at s e = elim (ℕ_discrete j i) [
    | yes c ↦ moved-here value slots i j f g at s c
    | no c ↦ moved-other slots j i (value g) c ∙ e
  ]

  pub Step-Inv :
      (i : ℕ) (f : File) (p q : Pool)
      → get_elem? files i ≡ some f
      → Inv i f p
      → Step hash_file files threads p q
      → Inv i f q
  Step-Inv i f p q at h (take w {i = j} {rest} l e s) = record {
    digest = λ v d. h.digest v (digest-moved i p w (taken j) v refl d);
    kept = elim h.kept [
      | inr done ↦ inr done
      | inl m ↦ inl (
          omega (
            arith,
            ap (sum (is_key ℕ_discrete i)) s,
            sum_below-moved (holds i) threads p.pc w (taken j) l,
            ap (holds i) e,
          ))
    ];
  }
  Step-Inv i f p q at h (quit w l e s) = record {
    digest = λ v d. h.digest v (digest-moved i p w returned v refl d);
    kept = elim h.kept [
      | inr done ↦ inr done
      | inl m ↦
          inl (omega (arith, sum_below-moved (holds i) threads p.pc w returned l, ap (holds i) e))
    ];
  }
  Step-Inv i f p q at h (write_hash w {i = j} {f = g} l e s) = record {
    digest = λ v d. elim (ℕ_discrete j i) [
      | yes c ↦ moved-here (λ f. (hash_file f.path).0) p.hashes i j f g at s c
      | no c ↦
          moved-other p.hashes j i (hash_file g.path).0 c
          ∙ h.digest v (digest-moved i p w (hashed j) v (is_key-other i j c) d)
    ];
    kept = elim h.kept [
      | inr (a, b) ↦ inr (moved-keeps (λ f. (hash_file f.path).0) p.hashes i j f g at s a, b)
      | inl m ↦
          inl (omega (arith, sum_below-moved (holds i) threads p.pc w (hashed j) l, ap (holds i) e))
    ];
  }
  Step-Inv i f p q at h (write_result w {i = j} {f = g} l e s) = record {
    digest = λ v d. h.digest v (digest-moved i p w waiting v refl d);
    kept = elim h.kept [
      | inr (a, b) ↦ inr (a, moved-keeps (result_of hash_file) p.results i j f g at s b)
      | inl m ↦ elim (ℕ_discrete j i) [
        | yes c ↦ inr (
          h.digest w (omega (arith, ap (hashed_at i) e, is_key-here i j c)),
          moved-here (result_of hash_file) p.results i j f g at s c,
        )
        | no c ↦ inl (
            omega (
              arith,
              sum_below-moved (holds i) threads p.pc w waiting l,
              ap (holds i) e,
              is_key-other i j c,
            ))
      ]
    ];
  }
