-- ===== src/Database/Tables.antt =====
-- The table `files` as a map from paths to records.
use effective_next.Prelude.{
  ◌+◌, ◌*◌, ◌/◌, ◌^◌, ◌≡◌, refl, sym, ap, subst, Bool, true, false, not, ◌==◌, none, some, List, [],
  ◌∷◌, ◌++◌, String, length, length-append, contains, contains-append, Distinct, str_dec, ite,
  arith, if◌then◌else◌,
}
use effective_next.Database.{
  FileRecord, FileRow, Db, select, delete_where, replace, first, same, format_time, parse_time,
  bool_to_int, is_set, to_row, of_row,
}
use effective_next.Database.Operations.{upsert_file, get_file, file_count, delete_file}

abbrev with_path : String → FileRow → Bool
with_path path row = same row.path path

abbrev pub paths : List FileRow → List String
paths [] = []
paths (row ∷ rows) = row.path ∷ paths rows

first-delete_where :
    (p q : String) (rows : List FileRow) (row : FileRow)
    → first (select (with_path q) (delete_where (with_path p) rows ++ row ∷ []))
      ≡ ite
          (str_dec p q)
          (if with_path q row then some row else none)
          (elim (first (select (with_path q) rows)) [
            | none ↦ if with_path q row then some row else none
            | some found ↦ some found
          ])
unfolding select delete_where first
first-delete_where p q [] row = ground arith
first-delete_where p q (r ∷ rows) row = ground (arith, first-delete_where p q rows row)

first-deleted :
    (p q : String) (rows : List FileRow)
    → first (select (with_path q) (delete_where (with_path p) rows))
      ≡ ite (str_dec p q) none (first (select (with_path q) rows))
unfolding select delete_where first
first-deleted p q [] = ground arith
first-deleted p q (r ∷ rows) = ground (arith, first-deleted p q rows)

contains-deleted :
    (p q : String) (rows : List FileRow)
    → contains str_dec (paths (delete_where (with_path p) rows)) q
      ≡ ite (str_dec p q) false (contains str_dec (paths rows) q)
unfolding delete_where contains
contains-deleted p q [] = ground arith
contains-deleted p q (r ∷ rows) = ground (arith, contains-deleted p q rows)

Distinct-deleted :
    (p : String) (rows : List FileRow)
    → Distinct str_dec (paths rows)
    → Distinct str_dec (paths (delete_where (with_path p) rows))
unfolding delete_where contains
Distinct-deleted p [] d = tt
Distinct-deleted p (r ∷ rows) d =
    ground (arith, Distinct-deleted p rows d.1, contains-deleted p r.path rows)

length-deleted :
    (p : String) (rows : List FileRow)
    → Distinct str_dec (paths rows)
    → length (delete_where (with_path p) rows) + (if contains str_dec (paths rows) p then 1 else 0)
      ≡ length rows
unfolding delete_where contains
length-deleted p [] d = omega arith
length-deleted p (r ∷ rows) d =
    ground
      (arith, length-deleted p rows d.1, λ (e : r.path ≡ p). ap (contains str_dec (paths rows)) e)

first-eq-none :
    (p : String) (rows : List FileRow)
    → contains str_dec (paths rows) p
      ≡ elim (first (select (with_path p) rows)) [ none ↦ false | some _ ↦ true ]
unfolding select first contains
first-eq-none p [] = refl
first-eq-none p (r ∷ rows) = ground (arith, first-eq-none p rows)

paths-append :
    (xs : List FileRow) (row : FileRow) → paths (xs ++ row ∷ []) ≡ paths xs ++ row.path ∷ []
paths-append [] row = refl
paths-append (x ∷ xs) row = ap (◌∷◌ x.path) (paths-append xs row)

Distinct-snoc :
    (ks : List String) (k : String)
    → Distinct str_dec ks
    → contains str_dec ks k ≡ false
    → Distinct str_dec (ks ++ k ∷ [])
unfolding contains
Distinct-snoc [] k d h = (refl, tt)
Distinct-snoc (j ∷ ks) k d h =
    ground (arith, Distinct-snoc ks k d.1, contains-append str_dec ks (k ∷ []) j)

-- The record as it is read back: times are kept to the second.
abbrev pub to_seconds : FileRecord → FileRecord
to_seconds rec = record rec {
  mod_time = rec.mod_time / 10 ^ 9 * 10 ^ 9;
  scan_time = rec.scan_time / 10 ^ 9 * 10 ^ 9;
}

of_row-to_row : (rec : FileRecord) → of_row (to_row rec) ≡ to_seconds rec
unfolding of_row to_row format_time parse_time bool_to_int is_set
of_row-to_row rec = ap (λ b. record (to_seconds rec) { is_dir = b }) (flag rec.is_dir)
  where
    flag : (b : Bool) → not ((if b then 1 else 0) == 0) ≡ b
    flag true = refl
    flag false = refl

module _ {V : Type 0} where
  pub record IsFileTable (db : Db V) : Type 0 where
    pub upserts :
        (rec : FileRecord) (q : String)
        → get_file q (upsert_file rec db)
          ≡ ite (str_dec rec.path q) (some (to_seconds rec)) (get_file q db)
    pub deletes :
        (p q : String) → get_file q (delete_file p db) ≡ ite (str_dec p q) none (get_file q db)
    pub distinct_after : (rec : FileRecord) → Distinct str_dec (paths (upsert_file rec db).files)
    pub counts :
        (rec : FileRecord)
        → file_count (upsert_file rec db)
          ≡ elim (get_file rec.path db) [ none ↦ file_count db + 1 | some _ ↦ file_count db ]

  -- On a table whose paths are distinct the files are a map: `UpsertFile` sets the record of its
  -- path, with the times cut to seconds, `DeleteFile` removes that of its path, and neither touches
  -- another; the paths stay distinct, and only a new path adds to `FileCount`.
  pub file_table_lem : (db : Db V) → Distinct str_dec (paths db.files) → IsFileTable db
  unfolding get_file upsert_file delete_file file_count replace to_row
  file_table_lem db d = record {
    upserts = λ rec q.
        ground (arith, first-delete_where rec.path q db.files (to_row rec), of_row-to_row rec);
    deletes = λ p q. ground (arith, first-deleted p q db.files);
    distinct_after = λ rec.
        subst (Distinct str_dec)
          (sym (paths-append (delete_where (with_path rec.path) db.files) (to_row rec)))
          (Distinct-snoc _ rec.path (Distinct-deleted rec.path db.files d)
            (ground (arith, contains-deleted rec.path rec.path db.files)));
    counts = λ rec. ground (
      arith,
      length-append (delete_where (with_path rec.path) db.files) (to_row rec ∷ []),
      length-deleted rec.path db.files d,
      first-eq-none rec.path db.files,
    );
  }
