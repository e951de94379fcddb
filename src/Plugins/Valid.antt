-- ===== src/Plugins/Valid.antt =====
-- What `Register` and `Unregister` keep: each hook lists the plugins that are registered for it.
use effective_next.Prelude.{
  ℕ, zero, suc, ◌≡◌, refl, ap, sym, subst, ◌⊎◌, ◌∙◌, true, none, some, List, [], ◌∷◌, ◌++◌, String,
  count, str_dec, arith, Bool-cases, Option-cases, inl, inr,
}
use effective_next.Prelude.Maps.{
  get, get_or, put, delete, has, get-put, get-delete, get-eq-none_iff,
}
use effective_next.Plugins.{
  HookType, Plugin, Manager, new, add_hooks, registered, already_registered, register, drop_first,
  remove_hooks, unregister, clear,
}
use effective_next.Plugins.Lists.{
  named, repeat, drop_times, get_or-add_hooks, get_or-remove_hooks, named-drop_times, named-append,
  named-repeat,
}

module _ {C : Type 0} where
  abbrev pub hooks_of : List (String × Plugin C) → String → List HookType
  hooks_of m n = elim (get str_dec m n) [ none ↦ [] | some p ↦ p.hooks ]

  -- Each plugin of the list is the one registered under its name.
  abbrev pub AllIn : List (String × Plugin C) → List (Plugin C) → Type 0
  AllIn m [] = Unit
  AllIn m (p ∷ ps) = (get str_dec m p.name ≡ some p) × AllIn m ps

  pub record IsValid (m : Manager C) : Type 0 where
    pub names : (n : String) (p : Plugin C) → get str_dec m.plugins n ≡ some p → p.name ≡ n
    pub indexed :
        (h : HookType) (n : String)
        → named n (get_or str_dec m.hooks h []) ≡ count str_dec h (hooks_of m.plugins n)
    pub members : (h : HookType) → AllIn m.plugins (get_or str_dec m.hooks h [])

  pub new-IsValid : IsValid new
  unfolding new get get_or
  new-IsValid = record { names = λ n p e. ground arith; indexed = λ h n. refl; members = λ h. tt }

  pub clear-IsValid : (m : Manager C) → IsValid (clear m)
  unfolding clear get get_or
  clear-IsValid m = record {
    names = λ n p e. ground arith;
    indexed = λ h n. refl;
    members = λ h. tt;
  }

  AllIn-append :
      (m : List (String × Plugin C)) (ps qs : List (Plugin C))
      → AllIn m ps
      → AllIn m qs
      → AllIn m (ps ++ qs)
  AllIn-append m [] qs a b = b
  AllIn-append m (p ∷ ps) qs a b = (a.0, AllIn-append m ps qs a.1 b)

  AllIn-repeat :
      (m : List (String × Plugin C)) (k : ℕ) (p : Plugin C)
      → get str_dec m p.name ≡ some p
      → AllIn m (repeat k p)
  AllIn-repeat m zero p e = tt
  AllIn-repeat m (suc k) p e = (e, AllIn-repeat m k p e)

  AllIn-put :
      (p : Plugin C) (m : List (String × Plugin C)) (ps : List (Plugin C))
      → get str_dec m p.name ≡ none
      → AllIn m ps
      → AllIn (put str_dec p.name p m) ps
  AllIn-put p m [] e a = tt
  AllIn-put p m (q ∷ ps) e a = (
    ground (
      arith,
      get-put str_dec p.name q.name p m,
      a.0,
      λ (s : p.name ≡ q.name). ap (get str_dec m) s,
    ),
    AllIn-put p m ps e a.1,
  )

  AllIn-delete :
      (n : String) (m : List (String × Plugin C)) (ps : List (Plugin C))
      → named n ps ≡ 0
      → AllIn m ps
      → AllIn (delete str_dec n m) ps
  AllIn-delete n m [] z a = tt
  AllIn-delete n m (q ∷ ps) z a = elim (str_dec q.name n) [
    | yes e ↦ absurd (ground arith)
    | no e ↦ (
      ground (arith, get-delete str_dec n q.name m, a.0, λ (s : n ≡ q.name). e (sym s)),
      AllIn-delete n m ps (ground arith) a.1,
    )
  ]

  AllIn-drop_first :
      (n : String) (m : List (String × Plugin C)) (ps : List (Plugin C))
      → AllIn m ps
      → AllIn m (drop_first n ps)
  unfolding drop_first
  AllIn-drop_first n m [] a = tt
  AllIn-drop_first n m (q ∷ ps) a = elim (str_dec q.name n) [
    | yes e ↦ ground (arith, a.1)
    | no e ↦ ground (arith, a.0, AllIn-drop_first n m ps a.1)
  ]

  AllIn-drop_times :
      (n : String) (k : ℕ) (m : List (String × Plugin C)) (ps : List (Plugin C))
      → AllIn m ps
      → AllIn m (drop_times n k ps)
  AllIn-drop_times n zero m ps a = a
  AllIn-drop_times n (suc k) m ps a =
      AllIn-drop_times n k m (drop_first n ps) (AllIn-drop_first n m ps a)

  -- The manager after a successful registration.
  abbrev pub added : Plugin C → Manager C → Manager C
  added p m = record {
    plugins = put str_dec p.name p m.plugins;
    hooks = add_hooks p p.hooks m.hooks;
  }

  added-IsValid :
      (p : Plugin C) (m : Manager C)
      → IsValid m
      → get str_dec m.plugins p.name ≡ none
      → IsValid (added p m)
  added-IsValid p m v free = record {
    names = λ n q g. ground (arith, get-put str_dec p.name n p m.plugins, v.names n q);
    indexed = λ h n.
        let k = count str_dec h p.hooks in
        let old = get_or str_dec m.hooks h [] in
        ap (named n) (get_or-add_hooks p p.hooks m.hooks h)
        ∙ (named-append n old (repeat k p)
            ∙ ground (
              arith,
              named-repeat n k p,
              v.indexed h n,
              get-put str_dec p.name n p m.plugins,
              λ (e : p.name ≡ n). ap (get str_dec m.plugins) e,
            ));
    members = λ h.
        subst (AllIn (put str_dec p.name p m.plugins)) (sym (get_or-add_hooks p p.hooks m.hooks h))
          (AllIn-append (put str_dec p.name p m.plugins) (get_or str_dec m.hooks h [])
            (repeat (count str_dec h p.hooks) p)
            (AllIn-put p m.plugins (get_or str_dec m.hooks h []) free (v.members h))
            (AllIn-repeat (put str_dec p.name p m.plugins) (count str_dec h p.hooks) p
              (ground (arith, get-put str_dec p.name p.name p m.plugins))));
  }

  -- What `Register` returns: an error if the name is taken, else the manager with the plugin added.
  pub register_cases :
      (p : Plugin C) (m : Manager C)
      → ((register p m ≡ already_registered p.name) × (has str_dec m.plugins p.name ≡ true))
        ⊎ ((register p m ≡ registered (added p m)) × (get str_dec m.plugins p.name ≡ none))
  unfolding register
  register_cases p m = elim (Bool-cases (has str_dec m.plugins p.name)) [
    | inl taken ↦ inl (ground arith, taken)
    | inr free ↦ inr (ground arith, (get-eq-none_iff str_dec m.plugins p.name).1 free)
  ]

  pub registered_inj : {a b : Manager C} → registered a ≡ registered b → a ≡ b
  registered_inj e = cc

  -- A successful `Register` keeps a manager well formed.
  pub register-IsValid :
      (p : Plugin C) (m m' : Manager C) → IsValid m → register p m ≡ registered m' → IsValid m'
  register-IsValid p m m' v e = elim (register_cases p m) [
    | inl (taken, _) ↦ absurd (cc)
    | inr (done, free) ↦ subst IsValid (registered_inj (sym done ∙ e)) (added-IsValid p m v free)
  ]

  -- `Unregister` keeps a manager well formed.
  pub unregister-IsValid : (n : String) (m : Manager C) → IsValid m → IsValid (unregister n m)
  unfolding unregister
  unregister-IsValid n m v = elim (Option-cases (get str_dec m.plugins n)) [
    | inl e ↦ rw (e, unregister) v
    | inr (p, e) ↦ rw (e, unregister) (removed-IsValid n p e)
  ]
    where
      gone :
          (h : HookType) (n : String) (p : Plugin C)
          → get str_dec m.plugins n ≡ some p
          → named n (drop_times n (count str_dec h p.hooks) (get_or str_dec m.hooks h [])) ≡ 0
      gone h n p e = ground (
        arith,
        named-drop_times n n (count str_dec h p.hooks) (get_or str_dec m.hooks h []),
        v.indexed h n,
      )

      removed-IsValid :
          (n : String) (p : Plugin C)
          → get str_dec m.plugins n ≡ some p
          → IsValid (record {
            plugins = delete str_dec n m.plugins;
            hooks = remove_hooks n p.hooks m.hooks;
          })
      removed-IsValid n p e = record {
        names = λ a q g. ground (arith, get-delete str_dec n a m.plugins, v.names a q);
        indexed = λ h a. ground (
          arith,
          ap (named a) (get_or-remove_hooks n p.hooks m.hooks h),
          named-drop_times n a (count str_dec h p.hooks) (get_or str_dec m.hooks h []),
          v.indexed h a,
          v.indexed h n,
          get-delete str_dec n a m.plugins,
          λ (s : n ≡ a). ap (get str_dec m.plugins) s,
        );
        members = λ h.
            subst (AllIn (delete str_dec n m.plugins))
              (sym (get_or-remove_hooks n p.hooks m.hooks h))
              (AllIn-delete n m.plugins
                (drop_times n (count str_dec h p.hooks) (get_or str_dec m.hooks h []))
                (gone h n p e)
                (AllIn-drop_times n (count str_dec h p.hooks) m.plugins
                  (get_or str_dec m.hooks h []) (v.members h)));
      }
