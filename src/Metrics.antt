-- ===== src/Metrics.antt =====
-- src/scanpod_enterprise/metrics.py: the values that `collect_operational_metrics` gives the gauges.
pub mod Recovery
use transport_lookout.Prelude.{ℕ, ◌-◌, ◌&&◌, ◌==◌, is_none, sql_lt, ltb, length, count}
use transport_lookout.Config.{Env}
use transport_lookout.Model.{Db, RunStatus, ShardStatus, run_status_eq, shard_status_eq}

-- A gauge with labels has a value for each label.
pub record Metrics : Type 0 where
  pub runs : RunStatus → ℕ
  pub shards : ShardStatus → ℕ
  pub outbox_pending : ℕ
  pub stale_workers : ℕ
  pub current_exposures : ℕ
  pub overdue_schedules : ℕ
  pub stale_runs : ℕ

-- `-` stops at 0 before the epoch, where nothing is older.
unfoldable pub collect_operational_metrics : Env → ℕ → Db → Metrics
collect_operational_metrics env now db = record {
  runs = λ status. count (λ r. r.status == status) db.runs;
  shards = λ status. count (λ s. s.status == status) db.shards;
  outbox_pending = count (λ e. is_none e.delivered_at) db.outbox;
  stale_workers =
      count
        (λ s.
          s.status == ShardStatus.running && sql_lt s.heartbeat_at (now - env.shard_lease_seconds))
        db.shards;
  current_exposures = length db.exposures;
  overdue_schedules = count (λ s. s.enabled && ltb s.next_run_at now) db.schedules;
  stale_runs =
      count
        (λ r. r.status == RunStatus.running && sql_lt r.started_at (now - env.run_stale_seconds))
        db.runs;
}
