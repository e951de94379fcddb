-- ===== src/Css/Tests.antt =====
-- A small set of style files, and the theorems of the tracker at it.
use effective_next.Prelude.{
  ◌≡◌, ◌↔◌, refl, Bool, true, false, some, List, [], ◌∷◌, String, contains, Distinct, str_dec,
}
use effective_next.Prelude.Maps.{get, get_or, put}
use effective_next.Prelude.Worklist.{scan, closure}
use effective_next.Css.{
  FileType, File, Tracker, new, track, importers, get_dependents, affected_files, any_file,
  has_tailwind, has_modules, list_files, is_scss, add_file, add_files, get_stats,
}
use effective_next.Css.Affected.{
  IsValid, IsAffected, new-IsValid, track-IsValid, affected_files-IsAffected,
}

abbrev style : String → FileType → List String → Bool → File
style path type imports tailwind = record {
  path = path;
  type = type;
  imports = imports;
  tailwind = tailwind;
  is_module = false;
  hash = 0;
  size = 100;
}

-- app.css imports theme.scss, which imports colors.css.
abbrev styles : Tracker
styles = track (style "colors.css" "css" [] false) (
    track (style "theme.scss" "scss" ("colors.css" ∷ []) false)
      (track (style "app.css" "css" ("theme.scss" ∷ []) true) new))

program : Unit {0}
unfolding str_dec contains get get_or put scan closure new track importers get_dependents
    affected_files any_file has_tailwind has_modules list_files is_scss add_file add_files get_stats
program = tt

affected-colors :
    affected_files styles "colors.css" ≡ some ("app.css" ∷ "theme.scss" ∷ "colors.css" ∷ [])
unfolding program
affected-colors = refl

stats-imports : (get_stats styles).total_imports ≡ 2
unfolding program
stats-imports = refl

styles-IsValid : IsValid styles
styles-IsValid = track-IsValid (style "colors.css" "css" [] false) _ (
    track-IsValid (style "theme.scss" "scss" ("colors.css" ∷ []) false) _
      (track-IsValid (style "app.css" "css" ("theme.scss" ∷ []) true) new new-IsValid))

affected_files-IsAffected_example :
    (r : List String) × (affected_files styles "theme.scss" ≡ some r)
    × Distinct str_dec r
    × ((x : String) → (contains str_dec r x ≡ true) ↔ IsAffected styles "theme.scss" x)
affected_files-IsAffected_example = affected_files-IsAffected styles "theme.scss" styles-IsValid
