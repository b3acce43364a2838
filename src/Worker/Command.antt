-- ===== src/Worker/Command.antt =====
-- src/scanpod_enterprise/worker.py: `run_command` of `execute_shard`. What goes on outside enters as
-- data: the rounds in which the process still runs, with what the other processes of the system do to
-- the database during the sleep of each, and how the process ends.
use transport_lookout.Prelude.{
  ℕ, String, Bool, not, Option, none, some, List, [], ◌∷◌, leb, ◌==◌, string_eq, if◌then◌else◌,
  find,
}
use transport_lookout.Model.{Db, ScanRun, RunStatus, run_status_eq}
use transport_lookout.Session.{Session, Failure, commit}
use transport_lookout.Worker.Lease.{current_lease, heartbeat}

pub record Poll : Type 0 where
  pub others : Db → Db
  pub now : ℕ
  pub monotonic : ℕ

-- `launch_failure` is the exception that `Popen` raises, where it does: no scanner is installed. `after` is what the others do until `communicate` has returned; the messages are those of the
-- exceptions `CalledProcessError` and `TimeoutExpired`.
pub record Process : Type 0 where
  pub launch_failure : Option Failure
  pub polls : List Poll
  pub after : Db → Db
  pub returncode_zero : Bool
  pub stderr : String
  pub failed_message : String
  pub timeout_message : String

pub data Exit : Type 0 where
  ended : Exit
  stopped : Exit
  superseded : Exit
  failed : Failure → Exit

-- The session's run object and the session, with how the command has ended.
pub record Ran : Type 0 where
  pub exit : Exit
  pub run : ScanRun
  pub session : Session

abbrev pub others_act : (Db → Db) → Session → Session
others_act f s = record s { db = f s.db }

abbrev ran : Exit → ScanRun → Session → Ran
ran exit run s = record { exit = exit; run = run; session = s }

abbrev refresh_failure : Failure
refresh_failure = record {
  type_name = "InvalidRequestError";
  stderr = none;
  message = "Could not refresh instance";
}

abbrev timeout : Process → Failure
timeout p = record { type_name = "TimeoutExpired"; stderr = none; message = p.timeout_message }

abbrev exit_of : Process → Exit
exit_of p =
    if p.returncode_zero
    then Exit.ended
    else Exit.failed (record {
      type_name = "CalledProcessError";
      stderr = some p.stderr;
      message = p.failed_message;
    })

-- One round after the sleep, with the row that `session.refresh(run)` found; `rest` is the loop from
-- then on.
unfoldable pub poll_round :
    String
    → String
    → ℕ
    → Process
    → Poll
    → (ScanRun → Session → Ran)
    → ScanRun
    → Option ScanRun
    → Session
    → Ran
unfolding commit heartbeat current_lease
poll_round shard_id token deadline p poll rest old none s = ran (Exit.failed refresh_failure) old s
poll_round shard_id token deadline p poll rest old (some run) s =
    let beaten = commit (record s { db = heartbeat poll.now shard_id token s.db }) in
    if not (current_lease shard_id token s.db)
    then ran Exit.superseded run s
    else if run.status == RunStatus.cancelled
    then ran Exit.stopped run (others_act p.after beaten)
    else if leb deadline poll.monotonic
    then ran (Exit.failed (timeout p)) run beaten
    else rest run beaten

unfoldable pub poll_loop : String → String → ℕ → Process → List Poll → ScanRun → Session → Ran
unfolding poll_round
poll_loop shard_id token deadline p [] run s = ran (exit_of p) run (others_act p.after s)
poll_loop shard_id token deadline p (poll ∷ polls) run s =
    poll_round shard_id token deadline p poll (poll_loop shard_id token deadline p polls) run
      (find (λ r. r.id == run.id) (poll.others s.db).runs) (others_act poll.others s)

unfoldable pub launched : String → String → ℕ → Process → Option Failure → ScanRun → Session → Ran
unfolding poll_loop
launched shard_id token deadline p none run s = poll_loop shard_id token deadline p p.polls run s
launched shard_id token deadline p (some failure) run s = ran (Exit.failed failure) run s

unfoldable pub run_command : String → String → ℕ → Process → ScanRun → Session → Ran
unfolding launched
run_command shard_id token deadline p run s =
    launched shard_id token deadline p p.launch_failure run s
