-- ===== src/Finalize.antt =====
-- src/scanpod_enterprise/services.py: `finalize_terminal_run` and `reconcile_terminal_runs`.
pub mod Shards
pub mod Gate
pub mod Outcome
pub mod Coverage
pub mod StaleRun
use transport_lookout.Prelude.{
  ℕ, zero, suc, ◌+◌, String, Bool, true, false, ◌&&◌, ◌||◌, not, Option, none, some, List, [], ◌∷◌,
  ◌==◌, nat_eq, string_eq, if◌then◌else◌, count, select, modify,
}
use transport_lookout.Config.{Env}
use transport_lookout.Model.{
  Db, ScanShard, ScanRun, RunStatus, ShardStatus, run_status_eq, shard_status_eq, Field, text,
  number,
}
use transport_lookout.Audit.{audit}
use transport_lookout.Outbox.{count_if}
use transport_lookout.Exposure.{incomplete_discovery_shards, materialize_current_exposures}

-- TERMINAL_SHARD_STATUSES
abbrev pub is_terminal : ShardStatus → Bool
is_terminal s =
    s == ShardStatus.completed
    || s == ShardStatus.failed
    || s == ShardStatus.cancelled
    || s == ShardStatus.dead_letter

abbrev pub is_pending : String → ScanShard → Bool
is_pending run_id s = s.run_id == run_id && not (is_terminal s.status)

abbrev pub is_failure : String → ScanShard → Bool
is_failure run_id s =
    s.run_id == run_id && (s.status == ShardStatus.failed || s.status == ShardStatus.dead_letter)

-- `run.status not in {queued, running}` is the negation.
abbrev pub is_unfinished : RunStatus → Bool
is_unfinished s = s == RunStatus.queued || s == RunStatus.running

abbrev pub outcome : ℕ → RunStatus
outcome zero = RunStatus.completed
outcome (suc n) = RunStatus.failed

-- The session's run object after the two assignments, and its flush.
unfoldable pub finished : RunStatus → ℕ → ScanRun → ScanRun
finished status now r = record r { status = status; completed_at = some now }

abbrev pub save_run : RunStatus → ℕ → ScanRun → Db → Db
save_run status now run db = record db {
  runs = modify (λ r. r.id == run.id) (finished status now) db.runs;
}

-- The coverage gate: the inventory is replaced unless discovered candidates lack a confirmation.
unfoldable pub update_inventory : Env → ℕ → ScanRun → String → ℕ → Db → Db
unfolding materialize_current_exposures audit
update_inventory env now run actor zero db = (materialize_current_exposures env now run db).1
update_inventory env now run actor (suc n) db =
    audit env actor "run.inventory_update_skipped" "scan_run" run.id
      (record { key = "reason"; value = text "incomplete_masscan_coverage" }
        ∷ record { key = "shards"; value = number (suc n) }
        ∷ [])
      db

-- The run's new state and, where it completed, its inventory.
unfoldable pub settle : Env → ℕ → ScanRun → String → RunStatus → Db → Db
unfolding update_inventory finished incomplete_discovery_shards
settle env now run actor status db =
    if status == RunStatus.completed
    then update_inventory env now (finished status now run) actor
        (incomplete_discovery_shards db run.id) (save_run status now run db)
    else save_run status now run db

unfoldable pub conclude : Env → ℕ → ScanRun → String → RunStatus → Db → Db
unfolding settle audit
conclude env now run actor status db =
    audit env actor "run.finalized" "scan_run" run.id [] (settle env now run actor status db)

-- `run` is the session's object: its status may be older than the row's.
unfoldable pub finalize_terminal_run : Env → ℕ → ScanRun → String → Db → Bool × Db
unfolding conclude
finalize_terminal_run env now run actor db =
    if not (is_unfinished run.status)
    then (false, db)
    else if not (count (is_pending run.id) db.shards == 0)
    then (false, db)
    else (true, conclude env now run actor (outcome (count (is_failure run.id) db.shards)) db)

unfoldable pub reconcile_runs : Env → ℕ → List ScanRun → ℕ → Db → ℕ × Db
unfolding finalize_terminal_run
reconcile_runs env now [] reconciled db = (reconciled, db)
reconcile_runs env now (run ∷ rest) reconciled db =
    let (done, db') = finalize_terminal_run env now run "scheduler" db in
    reconcile_runs env now rest (count_if done reconciled) db'

unfoldable pub reconcile_terminal_runs : Env → ℕ → Db → ℕ × Db
unfolding reconcile_runs
reconcile_terminal_runs env now db =
    reconcile_runs env now (select (λ r. is_unfinished r.status) db.runs) 0 db
