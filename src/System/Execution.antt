-- ===== src/System/Execution.antt =====
-- `execute_shard` of src/scanpod_enterprise/worker.py against the steps of the system.
use transport_lookout.Prelude.{
  ◌+◌, String, Bool, true, false, not, Option, none, some, inl, inr, ◌==◌, string_eq, find,
  if◌then◌else◌, Bool-cases,
}
use transport_lookout.Config.{Env}
use transport_lookout.Model.{
  Db, ScanRun, ScanShard, ScanProfile, RunStatus, ShardStatus, run_status_eq,
}
use transport_lookout.Text.{is_empty}
use transport_lookout.Session.{Session, commit, rollback, open_session}
use transport_lookout.Session.Frames.{commit-Frames}
use transport_lookout.Dispatch.{dispatch_run}
use transport_lookout.Finalize.{finalize_terminal_run}
use transport_lookout.Worker.Lease.{current_lease, claim_lease, failed_with, artifacts}
use transport_lookout.Worker.Execute.{start_shard, started}
use transport_lookout.Worker.Command.{others_act}
use transport_lookout.Worker.Scan.{
  World, Outcome, scan, scan_mode, conclude_shard, when_finished, finish_scan, finish_scanning,
  scan_shard, run_claimed, with_run, with_profile, after_claim, execute_shard, run_after,
  error_text,
}
use transport_lookout.System.{Step, Reach}
use transport_lookout.System.Commands.{IsWorld, Reached, Frames-Reached, others_act-Reached}
use transport_lookout.System.Scanning.{scan_mode-Reached}

module _ (env : Env) (w : World) (shard : ScanShard) (token : String) where
  module _ (origin : Db) (h : IsWorld env w) where
    conclude_shard-Reach :
        (run : ScanRun) (db : Db)
        → Reach env origin db
        → Reach env origin (conclude_shard env w shard token run db)
    unfolding conclude_shard
    conclude_shard-Reach run db r =
        let done = (finalize_terminal_run env w.ended_at run "worker" db).0 in
        Reach.then (Reach.then r (Step.finalizes w.ended_at run "worker")) (
          Step.dispatches w.ended_at w.broker run.id
            (some (run_after env w shard token done run db)))

    when_finished-Reach :
        (run : ScanRun) (s : Session) (result : Bool × Db)
        → Reached env origin s
        → Reach env origin result.1
        → Reach env origin (when_finished env w shard token run s result)
    unfolding rollback
    when_finished-Reach run s (false, db) r q = r
    when_finished-Reach run s (true, db) r q =
        let written = record s { db = db } in
        conclude_shard-Reach run (commit written).db
          (Frames-Reached env origin {s = written} q (commit-Frames written))

    if-Reach :
        (b : Bool) (x y : Db)
        → Reach env origin x
        → Reach env origin y
        → Reach env origin (if b then x else y)
    if-Reach true x y p q = p
    if-Reach false x y p q = q

    finish_scan-Reach :
        (outcome : Outcome) (run : ScanRun) (s : Session)
        → Reached env origin s
        → Reach env origin (finish_scan env w shard token outcome run s)
    unfolding rollback
    finish_scan-Reach (Outcome.scanned key discovery_key) run s r =
        let stored = others_act-Reached env origin w.storing s h.storing_IsSystem r in
        if-Reach (not (current_lease shard.id token (w.storing s.db))) _ _ stored (
          when_finished-Reach run (others_act w.storing s) _ stored (
            Reach.then stored (
              Step.finishes shard.id token ShardStatus.completed (artifacts key discovery_key) tt)))
    finish_scan-Reach Outcome.cancelled run s r = when_finished-Reach run s _ r (
        Reach.then r (
          Step.finishes shard.id token ShardStatus.cancelled (failed_with "cancelled by operator")
            tt))
    finish_scan-Reach Outcome.superseded run s r = r
    finish_scan-Reach (Outcome.failed failure) run s r =
        when_finished-Reach run s _ r
          (Reach.then r (Step.fails w.ended_at shard token (error_text env w shard token failure)))

    scan_shard-Reach :
        (profile : ScanProfile) (run : ScanRun) (db : Db)
        → Reach env origin db
        → Reach env origin (scan_shard env w shard token profile run db)
    unfolding scan_shard finish_scanning scan
    scan_shard-Reach profile run db r =
        let opened = open_session (dispatch_run env w.claimed_at w.broker run.id (some run) db).1 in
        let both = profile.scanner_mode == "masscan_then_nmap" in
        let deadline = w.monotonic + profile.timeout_seconds in
        let done = scan_mode env w shard token both deadline run opened in
        finish_scan-Reach done.outcome done.run done.session (
          scan_mode-Reached env w shard token origin h both deadline run opened
            (Reach.then r (Step.dispatches w.claimed_at w.broker run.id (some run))))

    with_profile-Reach :
        (run : ScanRun) (profile : Option ScanProfile) (db : Db)
        → Reach env origin db
        → Reach env origin (with_profile env w shard token run profile db)
    with_profile-Reach run none db r = r
    with_profile-Reach run (some profile) db r =
        scan_shard-Reach profile (started w.claimed_at run) db r

    with_run-Reach :
        (run : Option ScanRun) (claimed db : Db)
        → Reach env origin db
        → Reach env origin (with_run env w shard token run claimed db)
    with_run-Reach none claimed db r = r
    with_run-Reach (some run) claimed db r =
        if-Reach (run.status == RunStatus.cancelled) _ _ r
          (with_profile-Reach run (find (λ p. p.id == run.profile_id) claimed.profiles) db r)

    run_claimed-Reach :
        (claimed : Db)
        → Reach env origin claimed
        → Reach env origin (run_claimed env w shard token claimed)
    unfolding run_claimed
    run_claimed-Reach claimed r =
        with_run-Reach (find (λ r. r.id == shard.run_id) claimed.runs) claimed
          (start_shard w.claimed_at shard token claimed)
          (Reach.then r (Step.starts w.claimed_at shard token))

module _ (env : Env) (w : World) (h : IsWorld env w) where
  after_claim-Reach :
      (origin : Db) (token : String) (claim : Option ScanShard × Db)
      → Reach env origin claim.1
      → Reach env origin (after_claim env w token claim)
  after_claim-Reach origin token (none, db) r = r
  after_claim-Reach origin token (some shard, db) r =
      run_claimed-Reach env w shard token origin h db r

  -- A worker's execution of a task refines the system: if the other processes do, during the waits,
  -- nothing but steps of the system, the database that the execution leaves is reached by steps of the
  -- system from the one it found, whatever the scanners do and however the execution ends.
  pub execute_shard_refines :
      (shard_id : String) (token : Option String) (db : Db)
      → Reach env db (execute_shard env w shard_id token db)
  unfolding execute_shard
  execute_shard_refines shard_id none db = Reach.start
  execute_shard_refines shard_id (some token) db = elim (Bool-cases (is_empty token)) [
    | inl e ↦ rw e Reach.start
    | inr e ↦ rw e (
        after_claim-Reach db token (claim_lease w.claimed_at shard_id token w.worker_id db)
          (Reach.then Reach.start (Step.claims w.claimed_at shard_id token w.worker_id)))
  ]
