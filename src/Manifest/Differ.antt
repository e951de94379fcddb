-- ===== src/Manifest/Differ.antt =====
-- What `Diff` reports of a path.
use effective_next.Prelude.{
  ◌≡◌, refl, ap, sym, ◌∙◌, false, Option, none, some, List, [], ◌∷◌, String, contains, Distinct,
  Bool-cases, str_dec, ite, arith,
}
use effective_next.Prelude.Maps.{keys, get, put, has, get-put, Distinct-put, get-eq-none_iff}
use effective_next.Manifest.{
  RouteEntry, AssetEntry, Manifest, by_path, only_in, changed, DiffResult, diff,
}

module _ {E : Type 0} (path : E → String) where
  -- The entries of a path.
  abbrev pub at_path : String → List E → List E
  at_path p [] = []
  at_path p (e ∷ es) = ite (str_dec (path e) p) (e ∷ at_path p es) (at_path p es)

  -- The last entry of a path.
  abbrev pub last_at : List E → String → Option E
  last_at [] p = none
  last_at (e ∷ es) p = elim (last_at es p) [
    | some later ↦ some later
    | none ↦ ite (str_dec (path e) p) (some e) none
  ]

  abbrev pub Paths : List (String × E) → Type 0
  Paths [] = Unit
  Paths ((k, e) ∷ m) = (path e ≡ k) × Paths m

  Paths-put : (e : E) (m : List (String × E)) → Paths m → Paths (put str_dec (path e) e m)
  unfolding put
  Paths-put e [] v = (refl, tt)
  Paths-put e ((k, g) ∷ m) v = ground (arith, Paths-put e m v.1)

  pub Paths-by_path : (es : List E) (m : List (String × E)) → Paths m → Paths (by_path path es m)
  unfolding by_path
  Paths-by_path [] m v = v
  Paths-by_path (e ∷ es) m v = Paths-by_path es (put str_dec (path e) e m) (Paths-put e m v)

  pub Distinct-by_path :
      (es : List E) (m : List (String × E))
      → Distinct str_dec (keys m)
      → Distinct str_dec (keys (by_path path es m))
  unfolding by_path
  Distinct-by_path [] m d = d
  Distinct-by_path (e ∷ es) m d =
      Distinct-by_path es (put str_dec (path e) e m) (Distinct-put str_dec (path e) e m d)

  get-by_path :
      (es : List E) (m : List (String × E)) (p : String)
      → get str_dec (by_path path es m) p
        ≡ elim (last_at es p) [ some e ↦ some e | none ↦ get str_dec m p ]
  unfolding by_path
  get-by_path [] m p = refl
  get-by_path (e ∷ es) m p =
      ground (arith, get-by_path es (put str_dec (path e) e m) p, get-put str_dec (path e) p e m)

  pub get-by_path-nil :
      (es : List E) (p : String) → get str_dec (by_path path es []) p ≡ last_at es p
  unfolding get
  get-by_path-nil es p = ground (arith, get-by_path es [] p)

  absent-only_in :
      (m other : List (String × E)) (p : String)
      → Paths m
      → contains str_dec (keys m) p ≡ false
      → at_path p (only_in m other) ≡ []
  unfolding only_in contains
  absent-only_in [] other p v h = refl
  absent-only_in ((k, e) ∷ m) other p v h = ground (arith, absent-only_in m other p v.1, v.0)

  pub at_path-only_in :
      (m other : List (String × E)) (p : String)
      → Paths m
      → Distinct str_dec (keys m)
      → at_path p (only_in m other) ≡ elim (get str_dec m p) [
        | none ↦ []
        | some e ↦ elim (get str_dec other p) [ none ↦ e ∷ [] | some _ ↦ [] ]
      ]
  unfolding only_in get
  at_path-only_in [] other p v d = refl
  at_path-only_in ((k, e) ∷ m) other p v d = elim (str_dec k p) [
    | no q ↦ ground (arith, at_path-only_in m other p v.1 d.1, v.0)
    | yes q ↦
        let absent = absent-only_in m other p v.1 (ap (contains str_dec (keys m)) (sym q) ∙ d.0) in
        ground (
          arith,
          absent,
          v.0,
          get-eq-none_iff str_dec other k,
          Bool-cases (has str_dec other k),
          ap (get str_dec other) q,
        )
  ]

abbrev route_path : RouteEntry → String
route_path r = r.path

abbrev asset_path : AssetEntry → String
asset_path a = a.path

-- The entries of a path that one side has and the other has not.
abbrev pub absent_from : {E : Type 0} → Option E → Option E → List E
absent_from (some e) none = e ∷ []
absent_from (some e) (some _) = []
absent_from none _ = []

-- The asset of a path whose hash is another one.
abbrev pub changed_from : Option AssetEntry → Option AssetEntry → List AssetEntry
changed_from (some a) (some old) = ite (str_dec old.hash a.hash) [] (a ∷ [])
changed_from (some a) none = []
changed_from none _ = []

absent-changed :
    (m other : List (String × AssetEntry)) (p : String)
    → Paths asset_path m
    → contains str_dec (keys m) p ≡ false
    → at_path asset_path p (changed m other) ≡ []
unfolding changed contains
absent-changed [] other p v h = refl
absent-changed ((k, a) ∷ m) other p v h = ground (arith, absent-changed m other p v.1, v.0)

at_path-changed :
    (m other : List (String × AssetEntry)) (p : String)
    → Paths asset_path m
    → Distinct str_dec (keys m)
    → at_path asset_path p (changed m other) ≡ changed_from (get str_dec m p) (get str_dec other p)
unfolding changed get
at_path-changed [] other p v d = refl
at_path-changed ((k, a) ∷ m) other p v d = elim (str_dec k p) [
  | no q ↦ ground (arith, at_path-changed m other p v.1 d.1, v.0)
  | yes q ↦
      let absent = absent-changed m other p v.1 (ap (contains str_dec (keys m)) (sym q) ∙ d.0) in
      ground (arith, absent, v.0, ap (get str_dec other) q)
]

side :
    {E : Type 0} (path : E → String) (es others : List E) (p : String)
    → at_path path p (only_in (by_path path es []) (by_path path others []))
      ≡ absent_from (last_at path es p) (last_at path others p)
side path es others p = ground (
  arith,
  at_path-only_in path (by_path path es []) (by_path path others []) p (Paths-by_path path es [] tt)
      (Distinct-by_path path es [] tt),
  get-by_path-nil path es p,
  get-by_path-nil path others p,
)

-- What the difference of two manifests holds of one path, where of several entries of a path the
-- last one counts.
pub record IsDiff (a b : Manifest) (r : DiffResult) (p : String) : Type 0 where
  pub added_routes :
      at_path route_path p r.added_routes
      ≡ absent_from (last_at route_path b.routes p) (last_at route_path a.routes p)
  pub removed_routes :
      at_path route_path p r.removed_routes
      ≡ absent_from (last_at route_path a.routes p) (last_at route_path b.routes p)
  pub added_assets :
      at_path asset_path p r.added_assets
      ≡ absent_from (last_at asset_path b.assets p) (last_at asset_path a.assets p)
  pub removed_assets :
      at_path asset_path p r.removed_assets
      ≡ absent_from (last_at asset_path a.assets p) (last_at asset_path b.assets p)
  pub changed_assets :
      at_path asset_path p r.changed_assets
      ≡ changed_from (last_at asset_path b.assets p) (last_at asset_path a.assets p)

-- `Diff` lists for each path the added, the removed and the changed entry that the last entries of
-- that path in the two manifests call for, and no other.
pub diff-IsDiff : (a b : Manifest) (p : String) → IsDiff a b (diff a b) p
unfolding diff
diff-IsDiff a b p = record {
  added_routes = side route_path b.routes a.routes p;
  removed_routes = side route_path a.routes b.routes p;
  added_assets = side asset_path b.assets a.assets p;
  removed_assets = side asset_path a.assets b.assets p;
  changed_assets = ground (
    arith,
    at_path-changed (by_path asset_path b.assets []) (by_path asset_path a.assets []) p
        (Paths-by_path asset_path b.assets [] tt) (Distinct-by_path asset_path b.assets [] tt),
    get-by_path-nil asset_path b.assets p,
    get-by_path-nil asset_path a.assets p,
  );
}
