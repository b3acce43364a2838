-- ===== src/Api/Changes.antt =====
-- src/scanpod_enterprise/main.py: `get_exposure_diff`.
use transport_lookout.Prelude.{String, Bool, true, false, Option, none, some, List}
use transport_lookout.Model.{Db, ScanRun}
use transport_lookout.Diff.{ExposureChange, ExposureDiff, exposure_diff}

pub record ExposureDiffRead : Type 0 where
  pub current_run_id : Option String
  pub previous_run_id : Option String
  pub coverage_complete : Bool
  pub coverage_note : Option String
  pub changes : List ExposureChange

abbrev id_of : Option ScanRun → Option String
id_of none = none
id_of (some run) = some run.id

abbrev note : Bool → Option String
note true = none
note false =
    some "Masscan discovery coverage was incomplete; changes are withheld to avoid false closures."

abbrev pub read_diff : ExposureDiff → ExposureDiffRead
read_diff d = record {
  current_run_id = id_of d.current;
  previous_run_id = id_of d.previous;
  coverage_complete = d.coverage_complete;
  coverage_note = note d.coverage_complete;
  changes = d.changes;
}

unfoldable pub get_exposure_diff : String → String → Db → ExposureDiffRead
unfolding exposure_diff
get_exposure_diff scope_id profile_id db = read_diff (exposure_diff scope_id profile_id db)
