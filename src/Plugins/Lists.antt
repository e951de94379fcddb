-- ===== src/Plugins/Lists.antt =====
-- What the loops over `p.Hooks()` do to the list of one hook.
use effective_next.Prelude.{
  ℕ, zero, suc, ◌+◌, ◌-◌, ◌≡◌, refl, ap, sym, ◌∙◌, false, List, [], ◌∷◌, ◌++◌, append_assoc,
  append-nil, String, count, str_dec, ite, arith, Bool-cases, inl, inr,
}
use effective_next.Prelude.Maps.{get_or, get_or-put}
use effective_next.Plugins.{
  HookType, Plugin, add_hook, add_hooks, is_listed, drop_first, remove_hook, remove_hooks,
}

module _ {C : Type 0} where
  -- How often a name is listed.
  abbrev pub named : String → List (Plugin C) → ℕ
  named n [] = 0
  named n (p ∷ ps) = ite (str_dec p.name n) 1 0 + named n ps

  abbrev pub repeat : ℕ → Plugin C → List (Plugin C)
  repeat zero p = []
  repeat (suc k) p = p ∷ repeat k p

  abbrev pub drop_times : String → ℕ → List (Plugin C) → List (Plugin C)
  drop_times n zero ps = ps
  drop_times n (suc k) ps = drop_times n k (drop_first n ps)

  get_or-add_hook :
      (p : Plugin C) (h : HookType) (m : List (HookType × List (Plugin C))) (j : HookType)
      → get_or str_dec (add_hook p h m) j []
        ≡ ite (str_dec h j) (get_or str_dec m h [] ++ p ∷ []) (get_or str_dec m j [])
  unfolding add_hook
  get_or-add_hook p h m j = get_or-put str_dec h j (get_or str_dec m h [] ++ p ∷ []) [] m

  pub get_or-add_hooks :
      (p : Plugin C) (hs : List HookType) (m : List (HookType × List (Plugin C))) (j : HookType)
      → get_or str_dec (add_hooks p hs m) j []
        ≡ get_or str_dec m j [] ++ repeat (count str_dec j hs) p
  unfolding add_hooks
  get_or-add_hooks p [] m j = sym (append-nil (get_or str_dec m j []))
  get_or-add_hooks p (h ∷ hs) m j = elim (str_dec h j) [
    | no e ↦ ground (arith, get_or-add_hooks p hs (add_hook p h m) j, get_or-add_hook p h m j)
    | yes e ↦
        let again = append_assoc (get_or str_dec m j []) (p ∷ []) (repeat (count str_dec j hs) p) in
        ground (
          arith,
          get_or-add_hooks p hs (add_hook p h m) j,
          get_or-add_hook p h m j,
          again,
          ap (λ k. get_or str_dec m k []) e,
        )
  ]

  drop_first_absent :
      (n : String) (ps : List (Plugin C)) → is_listed n ps ≡ false → drop_first n ps ≡ ps
  unfolding is_listed drop_first
  drop_first_absent n [] h = refl
  drop_first_absent n (p ∷ ps) h = ground (arith, drop_first_absent n ps)

  get_or-remove_hook :
      (n : String) (h : HookType) (m : List (HookType × List (Plugin C))) (j : HookType)
      → get_or str_dec (remove_hook n h m) j []
        ≡ ite (str_dec h j) (drop_first n (get_or str_dec m j [])) (get_or str_dec m j [])
  unfolding remove_hook
  get_or-remove_hook n h m j = elim (Bool-cases (is_listed n (get_or str_dec m h []))) [
    | inl l ↦ ground (
      arith,
      get_or-put str_dec h j (drop_first n (get_or str_dec m h [])) [] m,
      λ (e : h ≡ j). ap (λ k. drop_first n (get_or str_dec m k [])) e,
    )
    | inr l ↦ ground (
      arith,
      drop_first_absent n (get_or str_dec m h []) l,
      λ (e : h ≡ j). ap (λ k. drop_first n (get_or str_dec m k [])) e,
      λ (e : h ≡ j). ap (λ k. get_or str_dec m k []) e,
    )
  ]

  pub get_or-remove_hooks :
      (n : String) (hs : List HookType) (m : List (HookType × List (Plugin C))) (j : HookType)
      → get_or str_dec (remove_hooks n hs m) j []
        ≡ drop_times n (count str_dec j hs) (get_or str_dec m j [])
  unfolding remove_hooks
  get_or-remove_hooks n [] m j = refl
  get_or-remove_hooks n (h ∷ hs) m j =
      ground (arith, get_or-remove_hooks n hs (remove_hook n h m) j, get_or-remove_hook n h m j)

  drop_first-append :
      (n : String) (p : Plugin C) (ps qs : List (Plugin C))
      → p.name ≡ n
      → named n ps ≡ 0
      → drop_first n (ps ++ p ∷ qs) ≡ ps ++ qs
  unfolding drop_first
  drop_first-append n p [] qs e z = ground arith
  drop_first-append n p (q ∷ ps) qs e z = ground (arith, drop_first-append n p ps qs e)

  -- Dropping what was appended leaves the list as it was.
  pub drop_times-repeat :
      (n : String) (p : Plugin C) (k : ℕ) (ps : List (Plugin C))
      → p.name ≡ n
      → named n ps ≡ 0
      → drop_times n k (ps ++ repeat k p) ≡ ps
  drop_times-repeat n p zero ps e z = append-nil ps
  drop_times-repeat n p (suc k) ps e z =
      ap (drop_times n k) (drop_first-append n p ps (repeat k p) e z)
      ∙ drop_times-repeat n p k ps e z

  named-drop_first :
      (n a : String) (ps : List (Plugin C))
      → named a (drop_first n ps) ≡ ite (str_dec n a) (named a ps - 1) (named a ps)
  unfolding drop_first
  named-drop_first n a [] = ground arith
  named-drop_first n a (q ∷ ps) = elim (str_dec q.name n) [
    | no e ↦ ground (arith, named-drop_first n a ps)
    | yes e ↦ ground arith
  ]

  pub named-drop_times :
      (n a : String) (k : ℕ) (ps : List (Plugin C))
      → named a (drop_times n k ps) ≡ ite (str_dec n a) (named a ps - k) (named a ps)
  named-drop_times n a zero ps = ground arith
  named-drop_times n a (suc k) ps =
      ground (arith, named-drop_times n a k (drop_first n ps), named-drop_first n a ps)

  pub named-append :
      (a : String) (ps qs : List (Plugin C)) → named a (ps ++ qs) ≡ named a ps + named a qs
  named-append a [] qs = omega arith
  named-append a (p ∷ ps) qs = omega (arith, named-append a ps qs)

  pub named-repeat :
      (a : String) (k : ℕ) (p : Plugin C) → named a (repeat k p) ≡ ite (str_dec p.name a) k 0
  named-repeat a zero p = ground arith
  named-repeat a (suc k) p = ground (arith, named-repeat a k p)
