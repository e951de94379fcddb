-- ===== src/Css/Affected.antt =====
-- `AffectedFiles`: the style files that import a file, by any number of imports.
use effective_next.Prelude.{
  suc, ◌≡◌, refl, ap, sym, ◌∙◌, ◌↔◌, true, false, none, some, List, [], ◌∷◌, String, length,
  contains, Distinct, str_dec, arith,
}
use effective_next.Prelude.Maps.{keys, get, put, Distinct-put, length-keys}
use effective_next.Prelude.Worklist.{Reach, here, step, closure_lem}
use effective_next.Css.{
  File, Tracker, new, track, get_dependencies, importers, get_dependents, affected_files,
}

-- Each file stands under its own path.
abbrev pub Paths : List (String × File) → Type 0
Paths [] = Unit
Paths ((k, f) ∷ m) = (f.path ≡ k) × Paths m

pub record IsValid (t : Tracker) : Type 0 where
  pub paths : Paths t.files
  pub distinct : Distinct str_dec (keys t.files)

pub new-IsValid : IsValid new
unfolding new
new-IsValid = record { paths = tt; distinct = tt }

Paths-put : (f : File) (m : List (String × File)) → Paths m → Paths (put str_dec f.path f m)
unfolding put
Paths-put f [] v = (refl, tt)
Paths-put f ((k, g) ∷ m) v = ground (arith, Paths-put f m v.1)

pub track-IsValid : (f : File) (t : Tracker) → IsValid t → IsValid (track f t)
unfolding track
track-IsValid f t v = record {
  paths = Paths-put f t.files v.paths;
  distinct = Distinct-put str_dec f.path f t.files v.distinct;
}

importers_absent :
    (m : List (String × File)) (p x : String)
    → Paths m
    → contains str_dec (keys m) x ≡ false
    → contains str_dec (importers m p) x ≡ false
unfolding importers contains
importers_absent [] p x v h = refl
importers_absent ((k, f) ∷ m) p x v h = ground (arith, importers_absent m p x v.1)

-- A file is a dependent of what it depends on.
contains-importers :
    (m : List (String × File)) (p x : String)
    → Paths m
    → Distinct str_dec (keys m)
    → contains str_dec (importers m p) x
      ≡ contains str_dec (elim (get str_dec m x) [ none ↦ [] | some f ↦ f.imports ]) p
unfolding importers contains get
contains-importers [] p x v d = refl
contains-importers ((k, f) ∷ m) p x v d = elim (str_dec k x) [
  | no e ↦ ground (arith, contains-importers m p x v.1 d.1)
  | yes e ↦
      let absent = importers_absent m p x v.1 (ap (contains str_dec (keys m)) (sym e) ∙ d.0) in
      ground (arith, absent, v.0)
]

importers-keys :
    (m : List (String × File)) (p x : String)
    → Paths m
    → contains str_dec (importers m p) x ≡ true
    → contains str_dec (keys m) x ≡ true
unfolding importers contains
importers-keys [] p x v h = h
importers-keys ((k, f) ∷ m) p x v h = ground (arith, importers-keys m p x v.1)

-- The files that import `path`, by any number of imports.
pub data IsAffected (t : Tracker) (path : String) : String → Type 0 where
  self : IsAffected t path path
  imports :
      {u v : String}
      → IsAffected t path u
      → contains str_dec (get_dependencies t v) u ≡ true
      → IsAffected t path v

module _ (t : Tracker) (v : IsValid t) (path : String) where
  mirrored :
      (s u : String)
      → contains str_dec (get_dependents t u) s ≡ contains str_dec (get_dependencies t s) u
  unfolding get_dependents get_dependencies
  mirrored s u = contains-importers t.files u s v.paths v.distinct

  of_Reach : {x : String} → Reach str_dec (get_dependents t) path x → IsAffected t path x
  of_Reach here = self
  of_Reach (step {u} {v = w} r e) = imports (of_Reach r) (sym (mirrored w u) ∙ e)

  to_Reach : {x : String} → IsAffected t path x → Reach str_dec (get_dependents t) path x
  to_Reach self = here
  to_Reach (imports {u} {v = w} r e) = step (to_Reach r) (mirrored w u ∙ e)

-- On a well-formed tracker `AffectedFiles` returns, and its result holds exactly the file itself and
-- the tracked files that depend on it through imports, each once.
pub affected_files-IsAffected :
    (t : Tracker) (path : String)
    → IsValid t
    → (r : List String) × (affected_files t path ≡ some r)
      × Distinct str_dec r
      × ((x : String) → (contains str_dec r x ≡ true) ↔ IsAffected t path x)
unfolding affected_files
affected_files-IsAffected t path v =
    let (r, runs, ok) =
      closure_lem str_dec (get_dependents t) (keys t.files)
        (λ u w h. importers-keys t.files u w v.paths (unfold get_dependents in h))
        (suc (length t.files)) path (omega (arith, length-keys t.files)) in
    (
      r,
      runs,
      ok.distinct,
      λ x. (λ h. of_Reach t v path ((ok.exact x).0 h), λ a. (ok.exact x).1 (to_Reach t v path a)),
    )
