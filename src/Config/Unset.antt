-- ===== src/Config/Unset.antt =====
-- The fields of package.json that `loadFromPackageJSON` takes for no field.
use effective_next.Prelude.{
  ◌≡◌, refl, sym, ◌↔◌, Bool, true, false, not, ◌&&◌, ite, Option, none, some, List, String, str_dec,
  arith,
}
use mathlib.Core.Bool.{false≢true}
use effective_next.Prelude.Int.{ℤ, pos, negsuc, eqb_ℤ}
use effective_next.Config.{Config, is_zero}

-- Nothing is set, or all that is set is set to zero.
pub record IsUnset (c : Config) : Type 0 where
  pub workers : c.workers ≡ pos 0
  pub cache : c.cache.enabled ≡ false
  pub compression : c.cache.compression ≡ ""
  pub cache_size : c.cache.max_size_mb ≡ pos 0
  pub cache_dir : c.cache.dir ≡ ""
  pub ignore : c.ignore ≡ none
  pub watch : c.watch.enabled ≡ false
  pub debounce : c.watch.debounce ≡ pos 0
  pub assets : c.optimization.assets ≡ false
  pub css : c.optimization.css ≡ false
  pub profile : c.profile ≡ ""

eqb_ℤ-zero : (a : ℤ) → (eqb_ℤ a (pos 0) ≡ true) ↔ (a ≡ pos 0)
eqb_ℤ-zero (pos n) = ground arith
eqb_ℤ-zero (negsuc n) = ground arith

and-true : (a b : Bool) → (a && b) ≡ true → (a ≡ true) × (b ≡ true)
and-true a b h = (ground (arith, h), ground (arith, h))

true-and : {a b : Bool} → a ≡ true → b ≡ true → (a && b) ≡ true
true-and h k = ground (arith, h, k)

not-true : (a : Bool) → (not a ≡ true) ↔ (a ≡ false)
not-true true = (λ e. sym e, λ e. sym e)
not-true false = (λ _. refl, λ _. refl)

text-empty : (t : String) → (ite (str_dec t "") true false ≡ true) ↔ (t ≡ "")
text-empty t = ground arith

nil-slice :
    (t : Option (List String)) → (elim t [ none ↦ true | some _ ↦ false ] ≡ true) ↔ (t ≡ none)
nil-slice none = (λ _. refl, λ _. refl)
nil-slice (some names) = (λ e. absurd (false≢true e), λ e. absurd cc)

pub is_zero-IsUnset : (c : Config) → is_zero c ≡ true → IsUnset c
unfolding is_zero
is_zero-IsUnset c h =
    let (k10, h11) = and-true _ _ h in
    let (k9, h10) = and-true _ _ k10 in
    let (k8, h9) = and-true _ _ k9 in
    let (k7, h8) = and-true _ _ k8 in
    let (k6, h7) = and-true _ _ k7 in
    let (k5, h6) = and-true _ _ k6 in
    let (k4, h5) = and-true _ _ k5 in
    let (k3, h4) = and-true _ _ k4 in
    let (k2, h3) = and-true _ _ k3 in
    let (h1, h2) = and-true _ _ k2 in
    record {
      workers = (eqb_ℤ-zero c.workers).0 h1;
      cache = (not-true c.cache.enabled).0 h2;
      compression = (text-empty c.cache.compression).0 h3;
      cache_size = (eqb_ℤ-zero c.cache.max_size_mb).0 h4;
      cache_dir = (text-empty c.cache.dir).0 h5;
      ignore = (nil-slice c.ignore).0 h6;
      watch = (not-true c.watch.enabled).0 h7;
      debounce = (eqb_ℤ-zero c.watch.debounce).0 h8;
      assets = (not-true c.optimization.assets).0 h9;
      css = (not-true c.optimization.css).0 h10;
      profile = (text-empty c.profile).0 h11;
    }

pub IsUnset-is_zero : (c : Config) → IsUnset c → is_zero c ≡ true
unfolding is_zero
IsUnset-is_zero c u =
    true-and
      (true-and
        (true-and
          (true-and
            (true-and
              (true-and
                (true-and
                  (true-and
                    (true-and
                      (true-and ((eqb_ℤ-zero c.workers).1 u.workers)
                        ((not-true c.cache.enabled).1 u.cache))
                      ((text-empty c.cache.compression).1 u.compression))
                    ((eqb_ℤ-zero c.cache.max_size_mb).1 u.cache_size))
                  ((text-empty c.cache.dir).1 u.cache_dir))
                ((nil-slice c.ignore).1 u.ignore))
              ((not-true c.watch.enabled).1 u.watch))
            ((eqb_ℤ-zero c.watch.debounce).1 u.debounce))
          ((not-true c.optimization.assets).1 u.assets))
        ((not-true c.optimization.css).1 u.css))
      ((text-empty c.profile).1 u.profile)
