-- ===== src/Config/Field.antt =====
-- The field of package.json: which fields `Load` accepts.
use effective_next.Prelude.{
  ℕ, ◌≤◌, ◌≡◌, refl, ap, sym, ◌∙◌, ◌↔◌, ◌⊎◌, inl, inr, true, false, if_neg, ite, Option, none, some,
  List, [], ◌∷◌, String, contains, str_dec, Option-cases, Bool-cases, arith,
}
use mathlib.Core.Bool.{false≢true}
use effective_next.Prelude.Int.{pos, negsuc, ◌≤ℤ◌}
use effective_next.Config.{
  Config, default_workers, default_config, validate, min, max, ci, low_memory, desktop, ConfigError,
  Preset, applied, failed, apply_preset, unknown_profile, is_zero, from_package_json, finish,
}
use effective_next.Config.Presets.{
  IsValid, validate_iff, eqb_ℤ-negsuc, ci-IsValid, low_memory-IsValid,
}
use effective_next.Config.Unset.{IsUnset, is_zero-IsUnset, IsUnset-is_zero}

abbrev pub profiles : List String
profiles = "" ∷ "default" ∷ "ci" ∷ "low-memory" ∷ "desktop" ∷ []

-- A field that can be used as it is: its number of workers counts unless the profile replaces it.
pub record IsUsable (c : Config) : Type 0 where
  pub profile : contains str_dec profiles c.profile ≡ true
  pub workers : ((pos 1 ≤ℤ c.workers) ⊎ (c.workers ≡ negsuc 0)) ⊎ (c.profile ≡ "desktop")
  pub cache_size : pos 0 ≤ℤ c.cache.max_size_mb
  pub debounce : pos 0 ≤ℤ c.watch.debounce

abbrev pub IsAccepted : Preset → Type 0
IsAccepted p = (c : Config) × (p ≡ applied c)

applied-failed : {a : Config} {err : ConfigError} → ¬ (applied a ≡ failed err)
applied-failed e = cc

none-some : (e : Option ConfigError) (err : ConfigError) → e ≡ none → ¬ (e ≡ some err)
none-some e err h k = cc

finish-IsValid :
    (cpus : ℕ) (c a : Config)
    → apply_preset cpus c.profile c ≡ applied a
    → IsAccepted (finish cpus c) ↔ IsValid a
unfolding finish
finish-IsValid cpus c a e = elim (Option-cases (validate a)) [
  | inl good ↦
      let works : finish cpus c ≡ applied a = rw (e, good, finish) refl in
      (λ _. (validate_iff a).0 good, λ _. (a, works))
  | inr (err, bad) ↦
      let fails : finish cpus c ≡ failed err = rw (e, bad, finish) refl in
      (
        λ x. absurd (applied-failed (sym x.1 ∙ fails)),
        λ v. absurd (none-some (validate a) err ((validate_iff a).1 v) bad),
      )
]

usable :
    (c : Config)
    → contains str_dec profiles c.profile ≡ true
    → ¬ (c.profile ≡ "desktop")
    → IsValid c ↔ IsUsable c
usable c k n = (
  λ v. record {
    profile = k;
    workers = inl v.workers;
    cache_size = v.cache_size;
    debounce = v.debounce;
  },
  λ u. record {
    workers = elim u.workers [ inl w ↦ w | inr d ↦ absurd (n d) ];
    cache_size = u.cache_size;
    debounce = u.debounce;
  },
)

unknown :
    (cpus : ℕ) (c : Config)
    → ¬ (c.profile ≡ "")
    → ¬ (c.profile ≡ "default")
    → ¬ (c.profile ≡ "ci")
    → ¬ (c.profile ≡ "low-memory")
    → ¬ (c.profile ≡ "desktop")
    → ¬ IsAccepted (finish cpus c)
unfolding finish apply_preset
unknown cpus c n1 n2 n3 n4 n5 (a, x) =
    let fails : apply_preset cpus c.profile c ≡ failed (unknown_profile c.profile) =
      if_neg (str_dec c.profile "") n1 _ _
      ∙ if_neg (str_dec c.profile "default") n2 _ _
      ∙ if_neg (str_dec c.profile "ci") n3 _ _
      ∙ if_neg (str_dec c.profile "low-memory") n4 _ _
      ∙ if_neg (str_dec c.profile "desktop") n5 _ _ in
    let failure : finish cpus c ≡ failed (unknown_profile c.profile) = rw (fails, finish) refl in
    applied-failed (sym x ∙ failure)

not_listed :
    (name : String)
    → ¬ (name ≡ "")
    → ¬ (name ≡ "default")
    → ¬ (name ≡ "ci")
    → ¬ (name ≡ "low-memory")
    → ¬ (name ≡ "desktop")
    → contains str_dec profiles name ≡ false
unfolding contains
not_listed name n1 n2 n3 n4 n5 = ground arith

ci_iff : (cpus : ℕ) (c : Config) → 1 ≤ cpus → IsValid (ci cpus c) ↔ IsValid c
unfolding ci
ci_iff cpus c h = (
  λ v. record {
    workers = ground (arith, eqb_ℤ-negsuc c.workers, v.workers);
    cache_size = v.cache_size;
    debounce = v.debounce;
  },
  ci-IsValid cpus c h,
)

low_memory_iff : (cpus : ℕ) (c : Config) → IsValid (low_memory cpus c) ↔ IsValid c
unfolding low_memory min max
low_memory_iff cpus c = (
  λ v. record {
    workers = ground (arith, eqb_ℤ-negsuc c.workers, v.workers);
    cache_size = ground (arith, v.cache_size);
    debounce = v.debounce;
  },
  low_memory-IsValid cpus c,
)

desktop_iff : (c : Config) → c.profile ≡ "desktop" → IsValid (desktop c) ↔ IsUsable c
unfolding desktop contains str_dec
desktop_iff c d = (
  λ v. record {
    profile = ap (contains str_dec profiles) d;
    workers = inr d;
    cache_size = v.cache_size;
    debounce = v.debounce;
  },
  λ u. record { workers = inr refl; cache_size = u.cache_size; debounce = u.debounce },
)

abbrev both : {A B C : Type 0} → A ↔ B → B ↔ C → A ↔ C
both f g = (λ a. g.0 (f.0 a), λ c. f.1 (g.1 c))

apart : (name : String) → ite (str_dec name "desktop") true false ≡ false → ¬ (name ≡ "desktop")
apart name h e = absurd (ground (arith, h, e))

-- A profile that leaves the number of workers to the field.
by_name :
    (cpus : ℕ) (c : Config) (name : String) (a : Config)
    → c.profile ≡ name
    → ite (str_dec name "desktop") true false ≡ false
    → contains str_dec profiles name ≡ true
    → apply_preset cpus name c ≡ applied a
    → IsValid a ↔ IsValid c
    → IsAccepted (finish cpus c) ↔ IsUsable c
by_name cpus c name a e n k made same =
    both (finish-IsValid cpus c a (ap (λ x. apply_preset cpus x c) e ∙ made))
      (both same (usable c (ap (contains str_dec profiles) e ∙ k) (λ d. apart name n (sym e ∙ d))))

itself : {A : Type 0} → A ↔ A
itself = (λ a. a, λ a. a)

finish-default : (cpus : ℕ) → finish cpus default_config ≡ applied default_config
unfolding finish apply_preset default_config validate default_workers str_dec
finish-default cpus = refl

finish_iff : (cpus : ℕ) (c : Config) → 1 ≤ cpus → IsAccepted (finish cpus c) ↔ IsUsable c
unfolding apply_preset contains str_dec
finish_iff cpus c h = elim (str_dec c.profile "") [
  | yes e ↦ by_name cpus c "" c e refl refl refl itself
  | no n1 ↦ elim (str_dec c.profile "default") [
    | yes e ↦ by_name cpus c "default" c e refl refl refl itself
    | no n2 ↦ elim (str_dec c.profile "ci") [
      | yes e ↦ by_name cpus c "ci" (ci cpus c) e refl refl refl (ci_iff cpus c h)
      | no n3 ↦ elim (str_dec c.profile "low-memory") [
        | yes e ↦
            by_name cpus c "low-memory" (low_memory cpus c) e refl refl refl (low_memory_iff cpus c)
        | no n4 ↦ elim (str_dec c.profile "desktop") [
          | yes e ↦
              both (finish-IsValid cpus c (desktop c) (ap (λ x. apply_preset cpus x c) e))
                (desktop_iff c e)
          | no n5 ↦
              let k = not_listed c.profile n1 n2 n3 n4 n5 in
              (
                λ x. absurd (unknown cpus c n1 n2 n3 n4 n5 x),
                λ u. absurd (false≢true (sym k ∙ u.profile)),
              )
        ]
      ]
    ]
  ]
]

-- On a machine with a processor the field of package.json is accepted exactly if it leaves every
-- setting zero, or if its profile is known, neither its cache size nor its debounce time is negative,
-- and it sets at least one worker, or -1, or the profile "desktop".
pub finish-from_package_json :
    (cpus : ℕ) (c : Config)
    → 1 ≤ cpus
    → IsAccepted (finish cpus (from_package_json c)) ↔ (IsUnset c ⊎ IsUsable c)
unfolding from_package_json
finish-from_package_json cpus c h = elim (Bool-cases (is_zero c)) [
  | inl zero ↦
      let same : from_package_json c ≡ default_config = rw (zero, from_package_json) refl in
      (
        λ _. inl (is_zero-IsUnset c zero),
        λ _. (default_config, ap (finish cpus) same ∙ finish-default cpus),
      )
  | inr set ↦
      let same : from_package_json c ≡ c = rw (set, from_package_json) refl in
      let iff = finish_iff cpus c h in
      (
        λ x. inr (iff.0 (x.0, ap (finish cpus) (sym same) ∙ x.1)),
        λ y. elim y [
          | inl u ↦ absurd (false≢true (sym set ∙ IsUnset-is_zero c u))
          | inr u ↦ let (a, e) = iff.1 u in (a, ap (finish cpus) same ∙ e)
        ],
      )
]
