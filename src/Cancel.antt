-- ===== src/Cancel.antt =====
-- src/scanpod_enterprise/services.py: `cancel_run`.
pub mod Shards
pub mod Stops
use transport_lookout.Prelude.{
  ℕ, String, Bool, ◌&&◌, ◌||◌, some, [], ◌==◌, string_eq, if◌then◌else◌, modify,
}
use transport_lookout.Config.{Env}
use transport_lookout.Http.{Result, ok, http}
use transport_lookout.Model.{
  Db, ScanShard, ScanRun, RunStatus, ShardStatus, run_status_eq, shard_status_eq,
}
use transport_lookout.Audit.{audit}

-- `ScanShard.status.in_([queued, leased])`
abbrev pub is_waiting : String → ScanShard → Bool
is_waiting run_id s =
    s.run_id == run_id && (s.status == ShardStatus.queued || s.status == ShardStatus.leased)

unfoldable pub cancelled_shard : ScanShard → ScanShard
cancelled_shard s = record s { status = ShardStatus.cancelled }

unfoldable pub cancelled_run : ℕ → ScanRun → ScanRun
cancelled_run now r = record r { status = RunStatus.cancelled; completed_at = some now }

unfoldable pub cancel_run : Env → ℕ → ScanRun → String → Db → Result (ScanRun × Db)
unfolding cancelled_shard cancelled_run audit
cancel_run env now run actor db =
    if run.status == RunStatus.completed
      || run.status == RunStatus.failed
      || run.status == RunStatus.cancelled
    then http 409 "run is already terminal"
    else ok (
      cancelled_run now run,
      audit env actor "run.cancelled" "scan_run" run.id [] (record db {
        runs = modify (λ r. r.id == run.id) (cancelled_run now) db.runs;
        shards = modify (is_waiting run.id) cancelled_shard db.shards;
      }),
    )
