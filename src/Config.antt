-- ===== src/Config.antt =====
-- pkg/config/config.go, and from loader.go what becomes of the field of package.json: the defaults,
-- the presets and the validation. The number of processors, `runtime.NumCPU()`, is an argument.
pub mod Presets
pub mod Unset
pub mod Field
mod Tests
use effective_next.Prelude.{
  ℕ, ◌/◌, Bool, true, false, ◌&&◌, ◌||◌, not, Option, none, some, List, [], ◌∷◌, String,
  if◌then◌else◌, str_dec, ite,
}
use effective_next.Prelude.Int.{ℤ, pos, negsuc, ltb_ℤ, eqb_ℤ}

pub record CacheConfig : Type 0 where
  pub enabled : Bool
  pub compression : String
  pub max_size_mb : ℤ
  pub dir : String

pub record WatchConfig : Type 0 where
  pub enabled : Bool
  pub debounce : ℤ

pub record OptimizationConfig : Type 0 where
  pub assets : Bool
  pub css : Bool

-- `ScannerConfig` is its one field, the list of ignored names; `none` is a nil slice.
pub record Config : Type 0 where
  pub workers : ℤ
  pub cache : CacheConfig
  pub ignore : Option (List String)
  pub watch : WatchConfig
  pub optimization : OptimizationConfig
  pub profile : String

unfoldable pub default_workers : ℤ
default_workers = negsuc 0

unfoldable pub default_config : Config
unfolding default_workers
default_config = record {
  workers = default_workers;
  cache = record {
    enabled = true;
    compression = "zstd";
    max_size_mb = pos 25600;
    dir = ".effective-next/cache";
  };
  ignore = some ("node_modules" ∷ ".next" ∷ ".git" ∷ "dist" ∷ "coverage" ∷ "out" ∷ []);
  watch = record { enabled = true; debounce = pos 100 };
  optimization = record { assets = true; css = true };
  profile = "";
}

pub data ConfigError : Type 0 where
  bad_workers : ℤ → ConfigError
  bad_cache_size : ConfigError
  bad_debounce : ConfigError
  unknown_profile : String → ConfigError

unfoldable pub validate : Config → Option ConfigError
validate c =
    if ltb_ℤ c.workers (pos 1) && not (eqb_ℤ c.workers (negsuc 0))
    then some (bad_workers c.workers)
    else if ltb_ℤ c.cache.max_size_mb (pos 0)
    then some bad_cache_size
    else if ltb_ℤ c.watch.debounce (pos 0)
    then some bad_debounce
    else none

unfoldable pub min : ℤ → ℤ → ℤ
min a b = if ltb_ℤ a b then a else b

unfoldable pub max : ℤ → ℤ → ℤ
max a b = if ltb_ℤ b a then a else b

unfoldable pub ci : ℕ → Config → Config
ci cpus c = record c {
  workers = if eqb_ℤ c.workers (negsuc 0) then pos cpus else c.workers;
  cache = record (c.cache) { enabled = true };
  profile = "ci";
}

unfoldable pub low_memory : ℕ → Config → Config
unfolding min max
low_memory cpus c =
    let most = max (pos 2) (pos (cpus / 2)) in
    record c {
      workers = if eqb_ℤ c.workers (negsuc 0) || ltb_ℤ most c.workers then most else c.workers;
      cache = record (c.cache) { max_size_mb = min c.cache.max_size_mb (pos 5120) };
      profile = "low-memory";
    }

unfoldable pub desktop : Config → Config
desktop c = record c { workers = negsuc 0; profile = "desktop" }

pub data Preset : Type 0 where
  applied : Config → Preset
  failed : ConfigError → Preset

unfoldable pub apply_preset : ℕ → String → Config → Preset
unfolding ci low_memory desktop
apply_preset cpus name c = ite (str_dec name "") (applied c) (
    ite (str_dec name "default") (applied c) (
      ite (str_dec name "ci") (applied (ci cpus c)) (
        ite (str_dec name "low-memory") (applied (low_memory cpus c))
          (ite (str_dec name "desktop") (applied (desktop c)) (failed (unknown_profile name))))))

-- `reflect.DeepEqual(c, Config{})`
unfoldable pub is_zero : Config → Bool
is_zero c =
    let text = λ (s : String). ite (str_dec s "") true false in
    eqb_ℤ c.workers (pos 0)
    && not c.cache.enabled
    && text c.cache.compression
    && eqb_ℤ c.cache.max_size_mb (pos 0)
    && text c.cache.dir
    && elim c.ignore [ none ↦ true | some _ ↦ false ]
    && not c.watch.enabled
    && eqb_ℤ c.watch.debounce (pos 0)
    && not c.optimization.assets
    && not c.optimization.css
    && text c.profile

-- `loadFromPackageJSON` on the decoded field, in which what the file leaves out is zero.
unfoldable pub from_package_json : Config → Config
unfolding is_zero
from_package_json c = if is_zero c then default_config else c

-- The end of `Load`: the preset that the configuration names, then the validation.
unfoldable pub finish : ℕ → Config → Preset
finish cpus cfg = elim (apply_preset cpus cfg.profile cfg) [
  | failed err ↦ failed err
  | applied c ↦ elim (validate c) [ none ↦ applied c | some err ↦ failed err ]
]
