-- ===== src/Plugins.antt =====
-- pkg/plugins/plugins.go: the plugins by name, the lists by hook that `Register` and `Unregister`
-- keep, and the run of a hook. A plugin is its four methods, where `Execute` takes the context that
-- it is handed to the context that it leaves and the error that it returns.
pub mod Lists
pub mod Valid
pub mod Hooks
pub mod Calls
mod Tests
use effective_next.Prelude.{
  ℕ, Bool, true, false, Option, none, some, List, [], ◌∷◌, ◌++◌, String, length, if◌then◌else◌,
  str_dec, ite,
}
use effective_next.Prelude.Maps.{keys, get, get_or, put, delete, has}

-- `type HookType string`
abbrev pub HookType : Type 0
HookType = String

abbrev pub Error : Type 0
Error = String

pub record Plugin (C : Type 0) : Type 0 where
  pub name : String
  pub version : String
  pub hooks : List HookType
  pub execute : C → C × Option Error

pub record Manager (C : Type 0) : Type 0 where
  pub plugins : List (String × Plugin C)
  pub hooks : List (HookType × List (Plugin C))

-- `fmt.Errorf("plugin %q already registered", name)`
pub data Registration (C : Type 0) : Type 0 where
  registered : Manager C → Registration C
  already_registered : String → Registration C

-- `fmt.Errorf("plugin %q failed on hook %q: %w", p.Name(), hook, err)`
pub record Failure : Type 0 where
  pub name : String
  pub hook : HookType
  pub error : Error

module _ {C : Type 0} where
  unfoldable pub new : Manager C
  new = record { plugins = []; hooks = [] }

  -- `m.hooks[hook] = append(m.hooks[hook], p)`
  unfoldable pub add_hook :
      Plugin C → HookType → List (HookType × List (Plugin C)) → List (HookType × List (Plugin C))
  add_hook p hook m = put str_dec hook (get_or str_dec m hook [] ++ p ∷ []) m

  -- `for _, hook := range p.Hooks()`
  unfoldable pub add_hooks :
      Plugin C
      → List HookType
      → List (HookType × List (Plugin C))
      → List (HookType × List (Plugin C))
  unfolding add_hook
  add_hooks p [] m = m
  add_hooks p (hook ∷ hooks) m = add_hooks p hooks (add_hook p hook m)

  unfoldable pub register : Plugin C → Manager C → Registration C
  register p m =
      if has str_dec m.plugins p.name
      then already_registered p.name
      else registered
          (record { plugins = put str_dec p.name p m.plugins; hooks = add_hooks p p.hooks m.hooks })

  -- `for i, pp := range plugins { if pp.Name() == name { …; break } }`: whether one is found,
  -- and the list without it.
  unfoldable pub is_listed : String → List (Plugin C) → Bool
  is_listed name [] = false
  is_listed name (p ∷ ps) = ite (str_dec p.name name) true (is_listed name ps)

  unfoldable pub drop_first : String → List (Plugin C) → List (Plugin C)
  drop_first name [] = []
  drop_first name (p ∷ ps) = ite (str_dec p.name name) ps (p ∷ drop_first name ps)

  unfoldable pub remove_hook :
      String → HookType → List (HookType × List (Plugin C)) → List (HookType × List (Plugin C))
  remove_hook name hook m =
      let ps = get_or str_dec m hook [] in
      if is_listed name ps then put str_dec hook (drop_first name ps) m else m

  unfoldable pub remove_hooks :
      String → List HookType → List (HookType × List (Plugin C)) → List (HookType × List (Plugin C))
  unfolding remove_hook
  remove_hooks name [] m = m
  remove_hooks name (hook ∷ hooks) m = remove_hooks name hooks (remove_hook name hook m)

  unfoldable pub unregister : String → Manager C → Manager C
  unregister name m = elim (get str_dec m.plugins name) [
    | none ↦ m
    | some p ↦ record {
      plugins = delete str_dec name m.plugins;
      hooks = remove_hooks name p.hooks m.hooks;
    }
  ]

  unfoldable pub execute_all : HookType → List (Plugin C) → C → C × Option Failure
  execute_all hook [] ctx = (ctx, none)
  execute_all hook (p ∷ ps) ctx =
      let (ctx', result) = p.execute ctx in
      elim result [
        | some err ↦ (ctx', some (record { name = p.name; hook = hook; error = err }))
        | none ↦ execute_all hook ps ctx'
      ]

  unfoldable pub execute : Manager C → HookType → C → C × Option Failure
  execute m hook ctx = execute_all hook (get_or str_dec m.hooks hook []) ctx

  unfoldable pub get_plugin : Manager C → String → Option (Plugin C)
  get_plugin m name = get str_dec m.plugins name

  unfoldable pub list_plugins : Manager C → List String
  list_plugins m = keys m.plugins

  unfoldable pub plugin_count : Manager C → ℕ
  plugin_count m = length m.plugins

  unfoldable pub clear : Manager C → Manager C
  clear m = record { plugins = []; hooks = [] }

  -- `NewNoopPlugin`, with the methods of `BasePlugin`.
  unfoldable pub noop_plugin : String → Plugin C
  noop_plugin name = record {
    name = name;
    version = "0.0.1";
    hooks = "afterBuild" ∷ [];
    execute = λ ctx. (ctx, none);
  }
