-- ===== src/Engine/Affected.antt =====
-- What `AffectedFiles` returns: the changed paths and the files that depend on them in the graph.
use effective_next.Prelude.{
  ◌≡◌, refl, ap, subst, ◌∙◌, ◌↔◌, ◌⊎◌, inl, inr, true, ◌||◌, some, List, [], ◌∷◌, String, contains,
  Distinct, Bool-cases, str_dec, ite, arith,
}
use effective_next.Prelude.Maps.{keys, put, has, has-put, Distinct-put}
use effective_next.Graph.{Graph}
use effective_next.Graph.Index.{IsValid}
use effective_next.Graph.Affected.{DependsOn, self, affected_nodes_lem}
use effective_next.Engine.{Change, Engine, mark, affect, affected_files}

has-mark :
    (ds : List String) (m : List (String × Unit {0})) (x : String)
    → has str_dec (mark ds m) x ≡ (contains str_dec ds x || has str_dec m x)
unfolding mark contains
has-mark [] m x = refl
has-mark (d ∷ ds) m x = ground (arith, has-mark ds (put str_dec d tt m) x, has-put str_dec d x tt m)

Distinct-mark :
    (ds : List String) (m : List (String × Unit {0}))
    → Distinct str_dec (keys m)
    → Distinct str_dec (keys (mark ds m))
unfolding mark
Distinct-mark [] m d = d
Distinct-mark (x ∷ ds) m d = Distinct-mark ds (put str_dec x tt m) (Distinct-put str_dec x tt m d)

has-mark-put :
    (p : String) (ds : List String) (m : List (String × Unit {0})) (x : String)
    → has str_dec (mark ds (put str_dec p tt m)) x
      ≡ (contains str_dec ds x || ite (str_dec p x) true (has str_dec m x))
has-mark-put p ds m x =
    has-mark ds (put str_dec p tt m) x
    ∙ ap (◌||◌ (contains str_dec ds x)) (has-put str_dec p x tt m)

-- A file that depends on the path of one of the changes.
pub data IsTouched (g : Graph) (x : String) : List Change → Type 0 where
  by_first : {c : Change} {cs : List Change} → DependsOn g c.path x → IsTouched g x (c ∷ cs)
  by_later : {c : Change} {cs : List Change} → IsTouched g x cs → IsTouched g x (c ∷ cs)

affect_lem :
    (g : Graph) (cs : List Change) (m : List (String × Unit {0}))
    → IsValid g
    → Distinct str_dec (keys m)
    → (r : List (String × Unit {0})) × (affect g cs m ≡ some r)
      × Distinct str_dec (keys r)
      × ((x : String) → (has str_dec r x ≡ true) ↔ ((IsTouched g x cs) ⊎ (has str_dec m x ≡ true)))
unfolding affect
affect_lem g [] m v d =
    (m, refl, d, λ x. (λ h. inr h, λ h. elim h [ inl k ↦ elim k [ ] | inr k ↦ k ]))
affect_lem g (c ∷ cs) m v d =
    let (ds, e, exact, _, _) = affected_nodes_lem g c.path v in
    let m' = mark ds (put str_dec c.path tt m) in
    let (r, e', d', touched) =
      affect_lem g cs m' v
        (Distinct-mark ds (put str_dec c.path tt m) (Distinct-put str_dec c.path tt m d)) in
    let marked = has-mark-put c.path ds m in
    (
      r,
      rw (e, affect) e',
      d',
      λ x. (
        λ h. elim ((touched x).0 h) [
          | inl later ↦ inl (by_later later)
          | inr k ↦ elim (Bool-cases (contains str_dec ds x)) [
            | inl near ↦ inl (by_first ((exact x).0 near))
            | inr far ↦ elim (str_dec c.path x) [
              | yes q ↦ inl (by_first (subst (λ y. DependsOn g c.path y) q self))
              | no q ↦ inr (ground (arith, marked x))
            ]
          ]
        ],
        λ h. (touched x).1 (elim h [
          | inr k ↦ inr (ground (arith, marked x))
          | inl (by_later later) ↦ inl later
          | inl (by_first near) ↦ inr (ground (arith, marked x, (exact x).1 near))
        ]),
      ),
    )

-- With a well-formed graph `AffectedFiles` returns, and its result holds exactly the files that
-- depend on the path of one of the changes, each once.
pub affected_files_lem :
    (e : Engine) (changes : List Change)
    → IsValid e.graph
    → (r : List String) × (affected_files e changes ≡ some r)
      × Distinct str_dec r
      × ((x : String) → (contains str_dec r x ≡ true) ↔ IsTouched e.graph x changes)
unfolding affected_files
affected_files_lem e changes v =
    let (m, eq, d, touched) = affect_lem e.graph changes [] v tt in
    (
      keys m,
      rw (eq, affected_files),
      d,
      λ x. (
        λ h. elim ((touched x).0 h) [ inl t ↦ t | inr k ↦ absurd (unfold contains in cc) ],
        λ t. (touched x).1 (inl t),
      ),
    )
