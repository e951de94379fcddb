-- ===== src/Graph/Store/Edges.antt =====
-- The edges in the rows of the store and in the maps that are loaded from them.
use effective_next.Prelude.{
  ◌≡◌, refl, sym, ap, ◌∙◌, Bool, true, false, not, Option, none, some, List, [], ◌∷◌, ◌++◌, String,
  if◌then◌else◌, ◌==◌, str_dec, ite, if_pos, if_neg, arith, Bool-cases, inl, inr,
}
use effective_next.Prelude.Maps.{get_or, get_or-put}
use effective_next.Graph.{Edge, Graph, append_edge}
use effective_next.Graph.Store.{EdgeRow, bool_to_int, is_edge, has_edge, insert_edges, load_edges}

-- The flag of the first edge with these ends and this type.
abbrev pub flag_of : List Edge → String → String → String → Option Bool
flag_of [] s t type = none
flag_of (e ∷ es) s t type =
    ite (str_dec e.source s)
      (ite (str_dec e.target t) (ite (str_dec e.type type) (some e.dynamic) (flag_of es s t type))
        (flag_of es s t type))
      (flag_of es s t type)

abbrev pub or_else : Option Bool → Option Bool → Option Bool
or_else none o = o
or_else (some b) o = some b

abbrev pub row_flag : List EdgeRow → String → String → String → Option Bool
row_flag [] s t type = none
row_flag (row ∷ rows) s t type =
    if is_edge s t type row then some (not (row.dynamic == 0)) else row_flag rows s t type

row_flag-snoc :
    (rows : List EdgeRow) (row : EdgeRow) (s t type : String)
    → row_flag (rows ++ row ∷ []) s t type
      ≡ or_else
          (row_flag rows s t type)
          (if is_edge s t type row then some (not (row.dynamic == 0)) else none)
row_flag-snoc [] row s t type = refl
row_flag-snoc (r ∷ rows) row s t type = ground (arith, row_flag-snoc rows row s t type)

has_edge-row_flag :
    (rows : List EdgeRow) (s t type : String)
    → has_edge s t type rows ≡ elim (row_flag rows s t type) [ none ↦ false | some _ ↦ true ]
unfolding has_edge
has_edge-row_flag [] s t type = refl
has_edge-row_flag (r ∷ rows) s t type = ground (arith, has_edge-row_flag rows s t type)

flag-bool_to_int : (b : Bool) → not (bool_to_int b == 0) ≡ b
unfolding bool_to_int
flag-bool_to_int true = refl
flag-bool_to_int false = refl

abbrev row_of : Edge → EdgeRow
row_of e = record {
  source = e.source;
  target = e.target;
  edge_type = e.type;
  dynamic = bool_to_int e.dynamic;
}

-- One edge more: only the first with its key counts.
row_flag-insert :
    (e : Edge) (rows : List EdgeRow) (s t type : String)
    → row_flag
        (if has_edge e.source e.target e.type rows then rows else rows ++ row_of e ∷ [])
        s
        t
        type
      ≡ or_else (row_flag rows s t type) (flag_of (e ∷ []) s t type)
row_flag-insert e rows s t type = elim (Bool-cases (has_edge e.source e.target e.type rows)) [
  | inl old ↦ rw old (ground (arith, has_edge-row_flag rows s t type, known_key s t type rows, old))
  | inr new ↦
      rw new (ground (arith, row_flag-snoc rows (row_of e) s t type, flag-bool_to_int e.dynamic))
]
  where
    known_key :
        (s t type : String) (rows : List EdgeRow)
        → e.source ≡ s
        → e.target ≡ t
        → e.type ≡ type
        → has_edge e.source e.target e.type rows ≡ has_edge s t type rows
    known_key s t type rows p q r =
        ap (λ x. has_edge x e.target e.type rows) p
        ∙ ap (λ x. has_edge s x e.type rows) q
        ∙ ap (λ x. has_edge s t x rows) r

or_else_assoc : (a b c : Option Bool) → or_else (or_else a b) c ≡ or_else a (or_else b c)
or_else_assoc none b c = refl
or_else_assoc (some a) b c = refl

flag_of-cons :
    (e : Edge) (es : List Edge) (s t type : String)
    → flag_of (e ∷ es) s t type ≡ or_else (flag_of (e ∷ []) s t type) (flag_of es s t type)
flag_of-cons e es s t type = ground arith

pub row_flag-insert_edges :
    (es : List Edge) (rows : List EdgeRow) (s t type : String)
    → row_flag (insert_edges es rows) s t type
      ≡ or_else (row_flag rows s t type) (flag_of es s t type)
unfolding insert_edges
row_flag-insert_edges [] rows s t type = ground arith
row_flag-insert_edges (e ∷ es) rows s t type = cc (
  row_flag-insert_edges es
      (if has_edge e.source e.target e.type rows then rows else rows ++ row_of e ∷ []) s t type,
  row_flag-insert e rows s t type,
  flag_of-cons e es s t type,
  or_else_assoc (row_flag rows s t type) (flag_of (e ∷ []) s t type) (flag_of es s t type),
)

flag_of-snoc :
    (es : List Edge) (e : Edge) (s t type : String)
    → flag_of (es ++ e ∷ []) s t type ≡ or_else (flag_of es s t type) (flag_of (e ∷ []) s t type)
flag_of-snoc [] e s t type = refl
flag_of-snoc (d ∷ es) e s t type = ground (arith, flag_of-snoc es e s t type)

or_else-none : (a : Option Bool) → or_else a none ≡ a
or_else-none none = refl
or_else-none (some a) = refl

-- An edge is appended under a key `k`; under another key nothing changes, where it is not sought.
flag-append_edge :
    (k j : String) (e : Edge) (m : List (String × List Edge)) (s t type : String)
    → (¬ (k ≡ j) → flag_of (e ∷ []) s t type ≡ none)
    → flag_of (get_or str_dec (append_edge k e m) j []) s t type
      ≡ or_else (flag_of (get_or str_dec m j []) s t type) (flag_of (e ∷ []) s t type)
unfolding append_edge
flag-append_edge k j e m s t type apart =
    let at = get_or-put str_dec k j (get_or str_dec m k [] ++ e ∷ []) [] m in
    elim (str_dec k j) [
      | yes p ↦
          ap (λ l. flag_of l s t type) (at ∙ if_pos (str_dec k j) p _ _)
          ∙ flag_of-snoc (get_or str_dec m k []) e s t type
          ∙ ap (λ x. or_else (flag_of (get_or str_dec m x []) s t type) (flag_of (e ∷ []) s t type))
              p
      | no n ↦
          ap (λ l. flag_of l s t type) (at ∙ if_neg (str_dec k j) n _ _)
          ∙ sym (or_else-none _)
          ∙ ap (or_else (flag_of (get_or str_dec m j []) s t type)) (sym (apart n))
    ]

abbrev edge_of : EdgeRow → Edge
edge_of row = record {
  source = row.source;
  target = row.target;
  type = row.edge_type;
  dynamic = not (row.dynamic == 0);
}

row_flag-cons :
    (row : EdgeRow) (rows : List EdgeRow) (s t type : String)
    → row_flag (row ∷ rows) s t type
      ≡ or_else (flag_of (edge_of row ∷ []) s t type) (row_flag rows s t type)
row_flag-cons row rows s t type = ground arith

-- The edges that are loaded come after those that are there, in both indices.
pub flag-load_edges :
    (rows : List EdgeRow) (g : Graph) (s t type : String)
    → (flag_of (get_or str_dec (load_edges rows g).edges s []) s t type
        ≡ or_else (flag_of (get_or str_dec g.edges s []) s t type) (row_flag rows s t type))
      × (flag_of (get_or str_dec (load_edges rows g).reverse t []) s t type
          ≡ or_else (flag_of (get_or str_dec g.reverse t []) s t type) (row_flag rows s t type))
unfolding load_edges
flag-load_edges [] g s t type = (sym (or_else-none _), sym (or_else-none _))
flag-load_edges (row ∷ rows) g s t type =
    let e = edge_of row in
    let (there, back) = flag-load_edges rows _ s t type in
    let cons = row_flag-cons row rows s t type in
    (
      there
          ∙ ap (λ o. or_else o (row_flag rows s t type))
              (flag-append_edge e.source s e g.edges s t type (λ n. ground arith))
          ∙ or_else_assoc _ (flag_of (e ∷ []) s t type) (row_flag rows s t type)
          ∙ ap (or_else (flag_of (get_or str_dec g.edges s []) s t type)) (sym cons),
      back
          ∙ ap (λ o. or_else o (row_flag rows s t type))
              (flag-append_edge e.target t e g.reverse s t type (λ n. ground arith))
          ∙ or_else_assoc _ (flag_of (e ∷ []) s t type) (row_flag rows s t type)
          ∙ ap (or_else (flag_of (get_or str_dec g.reverse t []) s t type)) (sym cons),
    )
