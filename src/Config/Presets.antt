-- ===== src/Config/Presets.antt =====
-- The presets against the validation.
use effective_next.Prelude.{
  ℕ, ◌≤◌, ◌≡◌, refl, sym, subst, ◌↔◌, ◌⊎◌, inr, true, none, String, str_dec, arith,
}
use effective_next.Prelude.Int.{ℤ, pos, negsuc, eqb_ℤ, ◌≤ℤ◌}
use effective_next.Config.{
  Config, validate, min, max, ci, low_memory, desktop, applied, apply_preset,
}

-- What the validation asks for.
pub record IsValid (c : Config) : Type 0 where
  pub workers : (pos 1 ≤ℤ c.workers) ⊎ (c.workers ≡ negsuc 0)
  pub cache_size : pos 0 ≤ℤ c.cache.max_size_mb
  pub debounce : pos 0 ≤ℤ c.watch.debounce

pub eqb_ℤ-negsuc : (a : ℤ) → (eqb_ℤ a (negsuc 0) ≡ true) ↔ (a ≡ negsuc 0)
eqb_ℤ-negsuc (pos n) = ground arith
eqb_ℤ-negsuc (negsuc n) = ground arith

-- `Validate` returns no error exactly if there is at least one worker or the number is automatic, and
-- neither the cache size nor the debounce time is negative.
pub validate_iff : (c : Config) → (validate c ≡ none) ↔ IsValid c
unfolding validate
validate_iff c = (
  λ h. record {
    workers = ground (arith, eqb_ℤ-negsuc c.workers);
    cache_size = ground arith;
    debounce = ground arith;
  },
  λ v. ground (arith, eqb_ℤ-negsuc c.workers, v.workers, v.cache_size, v.debounce),
)

pub ci-IsValid : (cpus : ℕ) (c : Config) → 1 ≤ cpus → IsValid c → IsValid (ci cpus c)
unfolding ci
ci-IsValid cpus c h v = record {
  workers = ground (arith, eqb_ℤ-negsuc c.workers, v.workers, h);
  cache_size = v.cache_size;
  debounce = v.debounce;
}

pub low_memory-IsValid : (cpus : ℕ) (c : Config) → IsValid c → IsValid (low_memory cpus c)
unfolding low_memory min max
low_memory-IsValid cpus c v = record {
  workers = ground (arith, eqb_ℤ-negsuc c.workers, v.workers);
  cache_size = ground (arith, v.cache_size);
  debounce = v.debounce;
}

desktop-IsValid : (c : Config) → IsValid c → IsValid (desktop c)
unfolding desktop
desktop-IsValid c v = record {
  workers = inr refl;
  cache_size = v.cache_size;
  debounce = v.debounce;
}

-- The configurations that a preset may leave.
data Applies (cpus : ℕ) (c : Config) : String → Config → Type 0 where
  unnamed : Applies cpus c "" c
  default : Applies cpus c "default" c
  by_ci : Applies cpus c "ci" (ci cpus c)
  by_low_memory : Applies cpus c "low-memory" (low_memory cpus c)
  by_desktop : Applies cpus c "desktop" (desktop c)

applied_inj : {a b : Config} → applied a ≡ applied b → a ≡ b
applied_inj e = cc

named :
    {cpus : ℕ} {c a c' : Config} {n name : String}
    → name ≡ n
    → applied a ≡ applied c'
    → Applies cpus c n a
    → Applies cpus c name c'
named {cpus} {c} {a} {c'} {n} q e h =
    subst (λ x. Applies cpus c x c') (sym q) (subst (Applies cpus c n) (applied_inj e) h)

applies :
    (cpus : ℕ) (name : String) (c c' : Config)
    → apply_preset cpus name c ≡ applied c'
    → Applies cpus c name c'
unfolding apply_preset
applies cpus name c c' e = elim (str_dec name "") [
  | yes q ↦ named q (ground (arith, e)) unnamed
  | no n1 ↦ elim (str_dec name "default") [
    | yes q ↦ named q (ground (arith, e)) default
    | no n2 ↦ elim (str_dec name "ci") [
      | yes q ↦ named q (ground (arith, e)) by_ci
      | no n3 ↦ elim (str_dec name "low-memory") [
        | yes q ↦ named q (ground (arith, e)) by_low_memory
        | no n4 ↦ elim (str_dec name "desktop") [
          | yes q ↦ named q (ground (arith, e)) by_desktop
          | no n5 ↦ absurd (ground arith)
        ]
      ]
    ]
  ]
]

-- A preset that is applied keeps a configuration valid, if there is at least one processor.
pub apply_preset-IsValid :
    (cpus : ℕ) (name : String) (c c' : Config)
    → 1 ≤ cpus
    → IsValid c
    → apply_preset cpus name c ≡ applied c'
    → IsValid c'
apply_preset-IsValid cpus name c c' h v e = kept (applies cpus name c c' e)
  where
    kept : {name : String} {c' : Config} → Applies cpus c name c' → IsValid c'
    kept unnamed = v
    kept default = v
    kept by_ci = ci-IsValid cpus c h v
    kept by_low_memory = low_memory-IsValid cpus c v
    kept by_desktop = desktop-IsValid c v

again :
    (cpus : ℕ) (c : Config) {name : String} {c' : Config}
    → Applies cpus c name c'
    → apply_preset cpus name c' ≡ applied c'
unfolding apply_preset ci low_memory desktop min max str_dec
again cpus c unnamed = refl
again cpus c default = refl
again cpus c by_ci = ground (arith)
again cpus c by_low_memory = ground (arith)
again cpus c by_desktop = refl

-- Applying a preset twice is applying it once.
pub apply_preset-apply_preset :
    (cpus : ℕ) (name : String) (c c' : Config)
    → apply_preset cpus name c ≡ applied c'
    → apply_preset cpus name c' ≡ applied c'
apply_preset-apply_preset cpus name c c' e = again cpus c (applies cpus name c c' e)
