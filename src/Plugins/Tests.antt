-- ===== src/Plugins/Tests.antt =====
-- Two plugins over a context that lists what has run, and the theorems at them.
use effective_next.Prelude.{
  ◌≡◌, refl, Option, none, some, List, [], ◌∷◌, ◌++◌, String, str_dec, contains,
}
use effective_next.Prelude.Maps.{get, get_or, put, delete}
use effective_next.Plugins.{
  Error, HookType, Plugin, Manager, new, add_hook, add_hooks, registered, already_registered,
  register, is_listed, drop_first, remove_hook, remove_hooks, unregister, execute_all, execute,
  noop_plugin,
}
use effective_next.Plugins.Valid.{IsValid, new-IsValid, register-IsValid}
use effective_next.Plugins.Calls.{register_call, unregister_call, calls, calls-IsValid}
use effective_next.Plugins.Hooks.{Outcome, execute_lem}

-- A plugin that adds its name to the context and ends with `result`.
abbrev logging : String → List HookType → Option Error → Plugin (List String)
logging name hooks result = record {
  name = name;
  version = "1.0.0";
  hooks = hooks;
  execute = λ log. (log ++ name ∷ [], result);
}

abbrev lint : Plugin (List String)
lint = logging "lint" ("beforeParse" ∷ "afterBuild" ∷ []) (some "unused import")

abbrev report : Plugin (List String)
report = logging "report" ("afterBuild" ∷ []) none

abbrev after_report : Manager (List String)
after_report = record {
  plugins = ("report", report) ∷ [];
  hooks = ("afterBuild", report ∷ []) ∷ [];
}

abbrev both : Manager (List String)
both = record {
  plugins = ("report", report) ∷ ("lint", lint) ∷ [];
  hooks = ("afterBuild", report ∷ lint ∷ []) ∷ ("beforeParse", lint ∷ []) ∷ [];
}

program : Unit {0}
unfolding str_dec contains get get_or put delete new add_hook add_hooks register is_listed
    drop_first remove_hook remove_hooks unregister execute_all execute noop_plugin
program = tt

register-report : register report new ≡ registered after_report
unfolding program
register-report = refl

register-lint : register lint after_report ≡ registered both
unfolding program
register-lint = refl

register-again : register (noop_plugin "lint") both ≡ already_registered "lint"
unfolding program
register-again = refl

execute-both : execute both "afterBuild" [] ≡ (
  "report" ∷ "lint" ∷ [],
  some (record { name = "lint"; hook = "afterBuild"; error = "unused import" }),
)
unfolding program
execute-both = refl

after_report-IsValid : IsValid after_report
after_report-IsValid = register-IsValid report new after_report new-IsValid register-report

both-IsValid : IsValid both
both-IsValid = register-IsValid lint after_report both after_report-IsValid register-lint

execute_lem_example :
    Outcome "afterBuild"
      (get_or str_dec both.hooks "afterBuild" [])
      []
      (execute both "afterBuild" [])
execute_lem_example = execute_lem both "afterBuild" []

calls-IsValid_example : IsValid (calls (register_call lint ∷ unregister_call "report" ∷ []) new)
calls-IsValid_example = calls-IsValid (register_call lint ∷ unregister_call "report" ∷ [])
