-- ===== src/Tests/Schedules.antt =====
-- A schedule that has been due for a while.
use transport_lookout.Prelude.{true, false, [], ◌∷◌, arith, String, Bool}
use transport_lookout.Model.{Db, ScanSchedule}
use transport_lookout.Scheduler.{dispatch_due_schedules}
use transport_lookout.Scheduler.Progress.{AllSettled, dispatch_due_schedules-AllSettled}
use transport_lookout.Tests.Data.{env, accepting, db}

abbrev nightly : ScanSchedule
nightly = record {
  id = "nightly";
  name = "nightly";
  inventory_scope_id = "scope";
  profile_id = "profile";
  interval_minutes = 60;
  timezone = "UTC";
  next_run_at = 1000;
  enabled = true;
  created_by = "op";
}

abbrev scheduled_db : Db
scheduled_db = record db {
  schedules = nightly ∷ record nightly { id = "lost"; profile_id = "none" } ∷ [];
}

abbrev no_ipv6 : String → Bool
no_ipv6 text = false

dispatch_due_schedules-AllSettled_example :
    AllSettled 10000 (dispatch_due_schedules env no_ipv6 10000 accepting scheduled_db)
dispatch_due_schedules-AllSettled_example =
    dispatch_due_schedules-AllSettled 10000 env no_ipv6 accepting scheduled_db
      (omega arith, (omega arith, tt))
