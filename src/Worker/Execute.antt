-- ===== src/Worker/Execute.antt =====
-- src/scanpod_enterprise/worker.py: the transactions of `execute_shard` between its waits.
pub mod Shards
pub mod Retry
use transport_lookout.Prelude.{
  ℕ, ◌+◌, ◌*◌, ◌^◌, String, Bool, true, false, Option, none, some, List, [], ◌∷◌, leb, ◌==◌,
  string_eq, if◌then◌else◌, find, modify,
}
use transport_lookout.Config.{Env}
use transport_lookout.Model.{
  Db, ScanShard, ScanRun, ScanProfile, RunStatus, ShardStatus, run_status_eq,
}
use transport_lookout.Worker.Lease.{
  Values, finish_lease, failed_with, retry_at, clear_shard_observations,
}

abbrev pub or_instant : Option ℕ → ℕ → Option ℕ
or_instant none now = some now
or_instant (some t) now = some t

unfoldable pub started : ℕ → ScanRun → ScanRun
started now r = record r { status = RunStatus.running; started_at = or_instant r.started_at now }

-- The run is marked as running, and what an earlier attempt has stored is removed.
unfoldable pub begin_scan : ℕ → ScanRun → String → Db → Db
unfolding started clear_shard_observations
begin_scan now run shard_id db =
    clear_shard_observations shard_id
      (record db { runs = modify (λ r. r.id == run.id) (started now) db.runs })

-- With the profile that the session found.
unfoldable pub start_profile : ℕ → String → String → ScanRun → Option ScanProfile → Db → Db
unfolding begin_scan finish_lease
start_profile now shard_id token run none db =
    (finish_lease shard_id token ShardStatus.failed (failed_with "scan profile missing") db).1
start_profile now shard_id token run (some profile) db = begin_scan now run shard_id db

-- With the run that the session found.
unfoldable pub start_run : ℕ → String → String → Option ScanRun → Db → Db
unfolding start_profile finish_lease
start_run now shard_id token none db =
    (finish_lease shard_id token ShardStatus.cancelled (failed_with "cancelled by operator") db).1
start_run now shard_id token (some run) db =
    if run.status == RunStatus.cancelled
    then (finish_lease shard_id token ShardStatus.cancelled (failed_with "cancelled by operator")
        db).1
    else start_profile now shard_id token run (find (λ p. p.id == run.profile_id) db.profiles) db

-- From the claim to the first commit after it.
unfoldable pub start_shard : ℕ → ScanShard → String → Db → Db
unfolding start_run
start_shard now shard token db =
    start_run now shard.id token (find (λ r. r.id == shard.run_id) db.runs) db

-- The `except Exception` block: a retry after a delay that doubles, or the end of the attempts.
unfoldable pub fail_shard : Env → ℕ → ScanShard → String → String → Db → Bool × Db
unfolding finish_lease
fail_shard env now shard token error db =
    if leb env.max_shard_attempts shard.attempts
    then finish_lease shard.id token ShardStatus.dead_letter (failed_with error) db
    else finish_lease shard.id token ShardStatus.queued
        (retry_at error (now + 2 ^ shard.attempts * 30)) db
