-- ===== src/Assets/Groups.antt =====
-- The groups of files with one size, or one hash.
use effective_next.Prelude.{
  ℕ, ◌≡◌, refl, ap, sym, ◌∙◌, Bool, true, false, List, [], ◌∷◌, ◌++◌, append_assoc, append-nil,
  length, contains, Distinct, if◌then◌else◌, ltb, ite, arith,
}
use native.Mathlib.Decide.{ℕ_discrete}
use effective_next.Prelude.Maps.{keys, get_or, put, get_or-put, Distinct-put}
use effective_next.Assets.{File, group_by, repeated, duplicates_by}

module _ (key : File → ℕ) where
  -- The files of one key, in their order.
  abbrev pub having : ℕ → List File → List File
  having k [] = []
  having k (f ∷ fs) = ite (ℕ_discrete (key f) k) (f ∷ having k fs) (having k fs)

  -- A group whose first file has the key.
  abbrev pub leads : ℕ → List File → Bool
  leads k [] = false
  leads k (f ∷ fs) = ite (ℕ_discrete (key f) k) true false

  abbrev pub groups_at : ℕ → List (List File) → List (List File)
  groups_at k [] = []
  groups_at k (g ∷ gs) = if leads k g then g ∷ groups_at k gs else groups_at k gs

  Keyed : List (ℕ × List File) → Type 0
  Keyed [] = Unit
  Keyed ((k, g) ∷ m) = (leads k g ≡ true) × Keyed m

  Keyed-put :
      (k : ℕ) (g : List File) (m : List (ℕ × List File))
      → leads k g ≡ true
      → Keyed m
      → Keyed (put ℕ_discrete k g m)
  unfolding put Keyed
  Keyed-put k g [] l d = (l, tt)
  Keyed-put k g ((j, h) ∷ m) l d = ground (arith, l, Keyed-put k g m l d.1, d.0)

  leads-append :
      (k : ℕ) (g : List File) (f : File) → leads k g ≡ true → leads k (g ++ f ∷ []) ≡ true
  leads-append k [] f l = absurd cc
  leads-append k (h ∷ g) f l = l

  leads-group :
      (f : File) (m : List (ℕ × List File))
      → Keyed m
      → leads (key f) (get_or ℕ_discrete m (key f) [] ++ f ∷ []) ≡ true
  unfolding get_or Keyed
  leads-group f [] d = ground arith
  leads-group f ((j, h) ∷ m) d = ground (
    arith,
    leads-group f m d.1,
    leads-append j h f d.0,
    λ (e : j ≡ key f). ap (λ k. leads k (h ++ f ∷ [])) e,
  )

  Keyed-group_by : (fs : List File) (m : List (ℕ × List File)) → Keyed m → Keyed (group_by key fs m)
  unfolding group_by
  Keyed-group_by [] m d = d
  Keyed-group_by (f ∷ fs) m d =
      Keyed-group_by fs (put ℕ_discrete (key f) (get_or ℕ_discrete m (key f) [] ++ f ∷ []) m)
        (Keyed-put (key f) (get_or ℕ_discrete m (key f) [] ++ f ∷ []) m (leads-group f m d) d)

  Distinct-group_by :
      (fs : List File) (m : List (ℕ × List File))
      → Distinct ℕ_discrete (keys m)
      → Distinct ℕ_discrete (keys (group_by key fs m))
  unfolding group_by
  Distinct-group_by [] m d = d
  Distinct-group_by (f ∷ fs) m d =
      Distinct-group_by fs (put ℕ_discrete (key f) (get_or ℕ_discrete m (key f) [] ++ f ∷ []) m)
        (Distinct-put ℕ_discrete (key f) (get_or ℕ_discrete m (key f) [] ++ f ∷ []) m d)

  get_or-group_by :
      (fs : List File) (m : List (ℕ × List File)) (k : ℕ)
      → get_or ℕ_discrete (group_by key fs m) k [] ≡ get_or ℕ_discrete m k [] ++ having k fs
  unfolding group_by
  get_or-group_by [] m k = sym (append-nil (get_or ℕ_discrete m k []))
  get_or-group_by (f ∷ fs) m k =
      let old = get_or ℕ_discrete m (key f) [] in
      ground (
        arith,
        get_or-group_by fs (put ℕ_discrete (key f) (old ++ f ∷ []) m) k,
        get_or-put ℕ_discrete (key f) k (old ++ f ∷ []) [] m,
        append_assoc old (f ∷ []) (having k fs),
        λ (e : key f ≡ k). ap (λ j. get_or ℕ_discrete m j [] ++ f ∷ having k fs) e,
      )

  groups_at_absent :
      (m : List (ℕ × List File)) (k : ℕ)
      → Keyed m
      → contains ℕ_discrete (keys m) k ≡ false
      → groups_at k (repeated m) ≡ []
  unfolding repeated contains Keyed
  groups_at_absent [] k d h = refl
  groups_at_absent ((j, []) ∷ m) k d h = absurd (ground (arith, d.0))
  groups_at_absent ((j, f ∷ g) ∷ m) k d h = ground (arith, groups_at_absent m k d.1, d.0)

  groups_at-repeated :
      (m : List (ℕ × List File)) (k : ℕ)
      → Keyed m
      → Distinct ℕ_discrete (keys m)
      → groups_at k (repeated m)
        ≡ (if ltb 1 (length (get_or ℕ_discrete m k [])) then get_or ℕ_discrete m k [] ∷ [] else [])
  unfolding repeated get_or Keyed
  groups_at-repeated [] k d u = ground arith
  groups_at-repeated ((j, []) ∷ m) k d u = absurd (ground (arith, d.0))
  groups_at-repeated ((j, f ∷ g) ∷ m) k d u = elim (ℕ_discrete j k) [
    | no e ↦ ground (arith, groups_at-repeated m k d.1 u.1, d.0)
    | yes e ↦
        let absent = groups_at_absent m k d.1 (ap (contains ℕ_discrete (keys m)) (sym e) ∙ u.0) in
        ground (arith, absent, d.0)
  ]

  -- The duplicates hold for each key one group, all files of that key in their order, if there are at
  -- least two of them; and no group of that key otherwise.
  pub groups_at-duplicates_by :
      (fs : List File) (k : ℕ)
      → groups_at k (duplicates_by key fs)
        ≡ (if ltb 1 (length (having k fs)) then having k fs ∷ [] else [])
  unfolding duplicates_by get_or
  groups_at-duplicates_by fs k = ground (
    arith,
    groups_at-repeated (group_by key fs []) k (Keyed-group_by fs [] (unfold Keyed in tt))
        (Distinct-group_by fs [] tt),
    get_or-group_by fs [] k,
  )
