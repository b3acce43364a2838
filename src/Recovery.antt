-- ===== src/Recovery.antt =====
-- src/scanpod_enterprise/services.py: `recover_expired_leases`.
pub mod Shards
use transport_lookout.Prelude.{
  ℕ, ◌-◌, String, Bool, ◌&&◌, ◌||◌, none, List, [], ◌∷◌, ◌==◌, string_eq, if◌then◌else◌, sql_lt,
  length, select, modify, map, contains,
}
use transport_lookout.Config.{Env}
use transport_lookout.Model.{Db, ScanShard, ShardStatus, shard_status_eq}
use transport_lookout.Outbox.{Broker}
use transport_lookout.Dispatch.{dispatch_available_shards}

-- A lease that ran out before a claim, or a worker that stopped its heartbeats. `-` stops at 0 before
-- the epoch, where no heartbeat is older.
abbrev pub is_stale : Env → ℕ → ScanShard → Bool
is_stale env now s =
    s.status == ShardStatus.leased && sql_lt s.lease_expires_at now
    || s.status == ShardStatus.running && sql_lt s.heartbeat_at (now - env.shard_lease_seconds)

unfoldable pub requeued : ScanShard → ScanShard
requeued s = record s {
  status = ShardStatus.queued;
  lease_token = none;
  lease_expires_at = none;
  worker_id = none;
  heartbeat_at = none;
}

unfoldable pub requeue_stale : Env → ℕ → Db → Db
unfolding requeued
requeue_stale env now db = record db { shards = modify (is_stale env now) requeued db.shards }

-- `{shard.run_id for shard in stale}`
unfoldable pub distinct : List String → List String
distinct [] = []
distinct (x ∷ xs) = let rest = distinct xs in if contains xs x then rest else x ∷ rest

unfoldable pub stale_run_ids : Env → ℕ → Db → List String
unfolding distinct
stale_run_ids env now db =
    env.set_order (distinct (map (λ s. s.run_id) (select (is_stale env now) db.shards)))

unfoldable pub dispatch_runs : Env → ℕ → Broker → List String → Db → Db
dispatch_runs env now broker [] db = db
dispatch_runs env now broker (run_id ∷ rest) db =
    dispatch_runs env now broker rest (dispatch_available_shards env now broker run_id db).1

unfoldable pub recover_expired_leases : Env → ℕ → Broker → Db → ℕ × Db
unfolding requeue_stale stale_run_ids dispatch_runs
recover_expired_leases env now broker db = (
  length (select (is_stale env now) db.shards),
  dispatch_runs env now broker (stale_run_ids env now db) (requeue_stale env now db),
)
