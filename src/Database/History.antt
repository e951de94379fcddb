-- ===== src/Database/History.antt =====
-- The builds of the table `history`: how they start and finish, and what `GetBuildHistory` reports.
use effective_next.Prelude.{
  ℕ, zero, suc, ◌≡◌, ◌≢◌, ◌↔◌, refl, Bool, true, false, Option, none, some, List, [], ◌∷◌, ◌++◌,
  map, String, if◌then◌else◌, str_dec, arith,
}
use effective_next.Prelude.Int.{ℤ, pos, negsuc}
use effective_next.Prelude.Maps.{get_or}
use effective_next.Database.{Db, HistoryRow, BuildHistory, same, format_time, parse_time}

module _ {V : Type 0} where
  -- `build_id` is made of the clock, which is `now`.
  unfoldable pub start_build : (build_id : String) → ℕ → Db V → Db V
  start_build build_id now db = record db {
    history =
        db.history
        ++ record {
          build_id = build_id;
          started = format_time now;
          finished = none;
          status = "running";
          cold_time_ms = none;
          incremental_time_ms = none;
          files_scanned = none;
          files_rebuilt = none;
          cache_hit_ratio = none;
        }
          ∷ [];
  }

  -- `ORDER BY id DESC`
  unfoldable pub newest_first : List (HistoryRow V) → List (HistoryRow V) → List (HistoryRow V)
  newest_first [] acc = acc
  newest_first (row ∷ rows) acc = newest_first rows (row ∷ acc)

  unfoldable pub take_rows : ℕ → List (HistoryRow V) → List (HistoryRow V)
  take_rows zero rows = []
  take_rows (suc n) [] = []
  take_rows (suc n) (row ∷ rows) = row ∷ take_rows n rows

  -- `LIMIT ?`; SQLite takes a negative limit for none.
  unfoldable pub limited : ℤ → List (HistoryRow V) → List (HistoryRow V)
  unfolding take_rows
  limited (pos n) rows = take_rows n rows
  limited (negsuc _) rows = rows

  -- `float64(0)`, and the conversion of a number to `int64`.
  module _ (zero_value : V) (to_int : V → ℤ) where
    unfoldable pub finish_row :
        (build_id status : String) → List (String × V) → ℕ → HistoryRow V → HistoryRow V
    finish_row build_id status metrics now row =
        let metric = λ (key : String). get_or str_dec metrics key zero_value in
        if same row.build_id build_id
        then record row {
          finished = some (format_time now);
          status = status;
          cold_time_ms = some (metric "cold_time_ms");
          incremental_time_ms = some (metric "incremental_time_ms");
          files_scanned = some (to_int (metric "files_scanned"));
          files_rebuilt = some (to_int (metric "files_rebuilt"));
          cache_hit_ratio = some (metric "cache_hit_ratio");
        }
        else row

    unfoldable pub finish_build : (build_id status : String) → List (String × V) → ℕ → Db V → Db V
    finish_build build_id status metrics now db = record db {
      history = map (finish_row build_id status metrics now) db.history;
    }

    abbrev pub or_zero : Option V → V
    or_zero none = zero_value
    or_zero (some v) = v

    abbrev pub or_no_files : Option ℤ → ℤ
    or_no_files none = pos 0
    or_no_files (some n) = n

    -- `rows.Scan` into variables: `none` is its error for a NULL that is read into a string.
    unfoldable pub scan_row : HistoryRow V → Option (BuildHistory V)
    scan_row row = elim row.finished [
      | none ↦ none
      | some finished ↦ some (record {
        build_id = row.build_id;
        started_at = parse_time row.started;
        finished_at = parse_time finished;
        status = row.status;
        cold_time_ms = or_zero row.cold_time_ms;
        incremental_time_ms = or_zero row.incremental_time_ms;
        files_scanned = or_no_files row.files_scanned;
        files_rebuilt = or_no_files row.files_rebuilt;
        cache_hit_ratio = or_zero row.cache_hit_ratio;
      })
    ]

    unfoldable pub scan_rows : List (HistoryRow V) → Option (List (BuildHistory V))
    unfolding scan_row
    scan_rows [] = some []
    scan_rows (row ∷ rows) = elim (scan_row row) [
      | none ↦ none
      | some h ↦ elim (scan_rows rows) [ none ↦ none | some hs ↦ some (h ∷ hs) ]
    ]

    unfoldable pub get_build_history : ℤ → Db V → Option (List (BuildHistory V))
    unfolding scan_rows
    get_build_history limit db = scan_rows (limited limit (newest_first db.history []))

    -- Some build of the rows has not finished.
    abbrev pub any_running : List (HistoryRow V) → Bool
    any_running [] = false
    any_running (row ∷ rows) = elim row.finished [ none ↦ true | some _ ↦ any_running rows ]

    scan_rows-none :
        (rows : List (HistoryRow V)) → (scan_rows rows ≡ none) ↔ (any_running rows ≡ true)
    unfolding scan_rows scan_row
    scan_rows-none [] = (λ e. cc, λ e. cc)
    scan_rows-none (row ∷ rows) = ground (arith, scan_rows-none rows)

    -- `GetBuildHistory` fails exactly if one of the rows that it is to report, the newest ones up to
    -- the limit, is of a build that has started and not finished.
    pub get_build_history-none_iff :
        (limit : ℤ) (db : Db V)
        → (get_build_history limit db ≡ none)
          ↔ (any_running (limited limit (newest_first db.history [])) ≡ true)
    unfolding get_build_history
    get_build_history-none_iff limit db =
        scan_rows-none (limited limit (newest_first db.history []))

    newest_first-snoc :
        (rows acc : List (HistoryRow V)) (row : HistoryRow V)
        → newest_first (rows ++ row ∷ []) acc ≡ row ∷ newest_first rows acc
    unfolding newest_first
    newest_first-snoc [] acc row = refl
    newest_first-snoc (r ∷ rows) acc row = newest_first-snoc rows (r ∷ acc) row

    any_running-limited :
        (limit : ℤ) (row : HistoryRow V) (rows : List (HistoryRow V))
        → row.finished ≡ none
        → limit ≢ pos 0
        → any_running (limited limit (row ∷ rows)) ≡ true
    unfolding limited take_rows
    any_running-limited (pos zero) row rows e nonzero = absurd (nonzero refl)
    any_running-limited (pos (suc n)) row rows e nonzero = rw e refl
    any_running-limited (negsuc n) row rows e nonzero = rw e refl

    -- While the build that was started last is running, `GetBuildHistory` fails for every limit but
    -- zero.
    pub get_build_history-start_build :
        (limit : ℤ) (build_id : String) (now : ℕ) (db : Db V)
        → limit ≢ pos 0
        → get_build_history limit (start_build build_id now db) ≡ none
    unfolding start_build
    get_build_history-start_build limit build_id now db nonzero =
        (get_build_history-none_iff limit (start_build build_id now db)).1
          (rw (newest_first-snoc db.history []) (any_running-limited limit _ _ refl nonzero))
