-- ===== src/Plugins/Hooks.antt =====
-- `Unregister` after `Register`, and what `Execute` does on a hook.
use effective_next.Prelude.{
  ◌≡◌, refl, ap, sym, subst, ◌∙◌, inl, inr, Option, none, some, List, [], ◌∷◌, ◌++◌, String, count,
  str_dec, arith, Option-cases,
}
use effective_next.Prelude.Maps.{get, get_or, put, get-put, get-delete}
use effective_next.Plugins.{
  Error, HookType, Plugin, Manager, add_hooks, registered, register, unregister, Failure,
  execute_all, execute,
}
use effective_next.Plugins.Lists.{
  drop_times, get_or-add_hooks, get_or-remove_hooks, drop_times-repeat,
}
use effective_next.Plugins.Valid.{IsValid, added, register_cases, registered_inj}

module _ {C : Type 0} where
  -- The registered plugins and the list of every hook are the same.
  pub record SameAs (m m' : Manager C) : Type 0 where
    pub plugins : (n : String) → get str_dec m.plugins n ≡ get str_dec m'.plugins n
    pub hooks : (h : HookType) → get_or str_dec m.hooks h [] ≡ get_or str_dec m'.hooks h []

  unregister-added :
      (p : Plugin C) (m : Manager C)
      → IsValid m
      → get str_dec m.plugins p.name ≡ none
      → SameAs (unregister p.name (added p m)) m
  unfolding unregister
  unregister-added p m v free =
      let here : get str_dec (put str_dec p.name p m.plugins) p.name ≡ some p =
        ground (arith, get-put str_dec p.name p.name p m.plugins) in
      rw (here, unregister)
        (record {
          plugins = λ n. ground (
            arith,
            get-delete str_dec p.name n (put str_dec p.name p m.plugins),
            get-put str_dec p.name n p m.plugins,
            λ (e : p.name ≡ n). ap (get str_dec m.plugins) e,
          );
          hooks = λ h.
              let k = count str_dec h p.hooks in
              get_or-remove_hooks p.name p.hooks (add_hooks p p.hooks m.hooks) h
              ∙ (ap (drop_times p.name k) (get_or-add_hooks p p.hooks m.hooks h)
                  ∙ drop_times-repeat p.name p k (get_or str_dec m.hooks h []) refl
                      (ground (arith, v.indexed h p.name)));
        })

  -- Unregistering a plugin that was just registered gives back the registered plugins and the list
  -- of every hook, if the manager was well formed.
  pub unregister-register :
      (p : Plugin C) (m m' : Manager C)
      → IsValid m
      → register p m ≡ registered m'
      → SameAs (unregister p.name m') m
  unregister-register p m m' v e = elim (register_cases p m) [
    | inl (taken, _) ↦ absurd cc
    | inr (done, free) ↦
        subst (λ x. SameAs (unregister p.name x) m) (registered_inj (sym done ∙ e))
          (unregister-added p m v free)
  ]

  -- Running plugins one after the other, none of which fails.
  pub data Runs : List (Plugin C) → C → C → Type 0 where
    idle : {c : C} → Runs [] c c
    next :
        {p : Plugin C} {ps : List (Plugin C)} {c c' c'' : C}
        → p.execute c ≡ (c', none)
        → Runs ps c' c''
        → Runs (p ∷ ps) c c''

  -- What the result of a hook says of the plugins on its list.
  pub data Outcome (hook : HookType) (ps : List (Plugin C)) (c : C)
      : C × Option Failure → Type 0 where
    all_ran : {c' : C} → Runs ps c c' → Outcome hook ps c (c', none)
    stopped :
        (before after : List (Plugin C)) (p : Plugin C) {c' c'' : C} {err : Error}
        → ps ≡ before ++ p ∷ after
        → Runs before c c'
        → p.execute c' ≡ (c'', some err)
        → Outcome hook ps c (c'', some (record { name = p.name; hook = hook; error = err }))

  Outcome-cons :
      (hook : HookType) (p : Plugin C) (ps : List (Plugin C)) (c c' : C) (r : C × Option Failure)
      → p.execute c ≡ (c', none)
      → Outcome hook ps c' r
      → Outcome hook (p ∷ ps) c r
  Outcome-cons hook p ps c c' r e (all_ran run) = all_ran (next e run)
  Outcome-cons hook p ps c c' r e (stopped before after q split run bad) =
      stopped (p ∷ before) after q (ap (◌∷◌ p) split) (next e run) bad

  execute_all_lem :
      (hook : HookType) (ps : List (Plugin C)) (c : C) → Outcome hook ps c (execute_all hook ps c)
  unfolding execute_all
  execute_all_lem hook [] c = all_ran idle
  execute_all_lem hook (p ∷ ps) c = elim (Option-cases (p.execute c).1) [
    | inl e ↦
        rw (e, execute_all)
          (Outcome-cons hook p ps c (p.execute c).0 _ (ap (λ r. ((p.execute c).0, r)) e)
            (execute_all_lem hook ps (p.execute c).0))
    | inr (err, e) ↦
        rw (e, execute_all) (stopped [] ps p refl idle (ap (λ r. ((p.execute c).0, r)) e))
  ]

  -- `Execute` runs the plugins of the hook in the order of the list: all of them, each on the context
  -- that the one before leaves, and returns no error; or up to the first that fails, whose name and
  -- error it returns.
  pub execute_lem :
      (m : Manager C) (hook : HookType) (c : C)
      → Outcome hook (get_or str_dec m.hooks hook []) c (execute m hook c)
  unfolding execute
  execute_lem m hook c = execute_all_lem hook (get_or str_dec m.hooks hook []) c
