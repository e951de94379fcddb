-- ===== src/Config/Tests.antt =====
-- The default configuration and its presets, and the theorems at them.
use effective_next.Prelude.{◌≡◌, ◌↔◌, ◌⊎◌, refl, arith, true, false, none, str_dec}
use effective_next.Prelude.Int.{pos}
use effective_next.Config.{
  Config, bad_workers, default_workers, default_config, validate, min, max, ci, low_memory, desktop,
  applied, failed, apply_preset, is_zero, from_package_json, finish,
}
use effective_next.Config.Presets.{IsValid, validate_iff}
use effective_next.Config.Unset.{IsUnset}
use effective_next.Config.Field.{IsUsable, IsAccepted, finish-from_package_json}

program : Unit {0}
unfolding str_dec default_workers default_config validate min max ci low_memory desktop apply_preset
    is_zero from_package_json finish
program = tt

finish-default : finish 8 default_config ≡ applied default_config
unfolding program
finish-default = refl

default-IsValid : IsValid default_config
unfolding program
default-IsValid = (validate_iff default_config).0 refl

low_memory-workers : (low_memory 8 default_config).workers ≡ pos 4
unfolding program
low_memory-workers = refl

apply-low_memory :
    apply_preset 8 "low-memory" default_config ≡ applied (low_memory 8 default_config)
unfolding program
apply-low_memory = refl

-- `{ "effective-next": { "optimization": { "assets": true } } }`
abbrev field : Config
field = record {
  workers = pos 0;
  cache = record { enabled = false; compression = ""; max_size_mb = pos 0; dir = "" };
  ignore = none;
  watch = record { enabled = false; debounce = pos 0 };
  optimization = record { assets = true; css = false };
  profile = "";
}

field-is_zero : is_zero field ≡ false
unfolding program
field-is_zero = refl

validate_iff_example : (validate default_config ≡ none) ↔ IsValid default_config
validate_iff_example = validate_iff default_config

-- The number of workers that is left out counts as 0.
finish-rejects : finish 8 (from_package_json field) ≡ failed (bad_workers (pos 0))
unfolding program
finish-rejects = refl

-- `{ "effective-next": { "watch": { "enabled": false } } }` sets nothing but zeros.
finish-unset :
    finish 8
      (from_package_json (record field { optimization = record { assets = false; css = false } }))
    ≡ applied default_config
unfolding program
finish-unset = refl

finish-from_package_json_example :
    IsAccepted (finish 8 (from_package_json (record field { profile = "desktop" }))) ↔ (
      IsUnset (record field { profile = "desktop" })
      ⊎ IsUsable (record field { profile = "desktop" }))
finish-from_package_json_example =
    finish-from_package_json 8 (record field { profile = "desktop" }) (omega arith)
