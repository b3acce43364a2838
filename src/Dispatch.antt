-- ===== src/Dispatch.antt =====
-- src/scanpod_enterprise/services.py: `dispatch_available_shards`.
pub mod Shards
pub mod Budget
pub mod Tables
pub mod Updates
use transport_lookout.Prelude.{
  ℕ, zero, suc, ◌+◌, ◌-◌, String, Bool, true, false, ◌&&◌, ◌||◌, Option, none, some, List, [], ◌∷◌,
  ◌++◌, ◌==◌, nat_eq, string_eq, if◌then◌else◌, is_none, sql_le, length, select, count, find,
  modify, take, order_by,
}
use transport_lookout.Config.{Env}
use transport_lookout.Model.{
  Db, OutboxEvent, ScanShard, ScanRun, ScanProfile, RunStatus, ShardStatus, run_status_eq,
  shard_status_eq,
}
use transport_lookout.Outbox.{Broker, publish_pending_outbox}

-- `run.status in (cancelled, completed, failed)`
abbrev pub is_closed : RunStatus → Bool
is_closed s = s == RunStatus.cancelled || s == RunStatus.completed || s == RunStatus.failed

-- `ScanShard.status.in_([leased, running])`
abbrev pub holds_slot : ScanShard → Bool
holds_slot s = s.status == ShardStatus.leased || s.status == ShardStatus.running

abbrev pub is_active : String → ScanShard → Bool
is_active run_id s = s.run_id == run_id && holds_slot s

abbrev pub is_due : ℕ → ScanShard → Bool
is_due now s = is_none s.retry_not_before || sql_le s.retry_not_before now

-- The shards that the run may lease at `now`.
abbrev pub is_ready : String → ℕ → ScanShard → Bool
is_ready run_id now s = s.run_id == run_id && s.status == ShardStatus.queued && is_due now s

unfoldable pub capacity : Db → String → ScanProfile → ℕ
capacity db run_id profile = profile.max_concurrent_shards - count (is_active run_id) db.shards

unfoldable pub ready_shards : Env → ℕ → String → ℕ → Db → List ScanShard
ready_shards env now run_id limit db =
    take limit
      (order_by (λ a b. env.collate a.cidr b.cidr) (select (is_ready run_id now) db.shards))

unfoldable pub leased_until : Env → ℕ → String → ScanShard → ScanShard
leased_until env now token s = record s {
  status = ShardStatus.leased;
  lease_token = some token;
  dispatched_at = some now;
  lease_expires_at = some (now + env.shard_lease_seconds);
  retry_not_before = none;
}

abbrev pub scan_event : String → ℕ → String → String → OutboxEvent
scan_event id now shard_id token = record {
  id = id;
  topic = "scan_shard";
  payload = record { shard_id = shard_id; lease_token = some token };
  created_at = now;
  delivered_at = none;
  attempts = 0;
  last_error = none;
}

-- One round of the loop: the lease and its outbox event.
unfoldable pub lease_shard : Env → ℕ → ScanShard → Db → Db
unfolding leased_until
lease_shard env now shard db = record db {
  shards = modify (λ s. s.id == shard.id) (leased_until env now (env.uuid4 db.drawn)) db.shards;
  outbox =
      db.outbox ++ scan_event (env.uuid4 (db.drawn + 1)) now shard.id (env.uuid4 db.drawn) ∷ [];
  drawn = db.drawn + 2;
}

unfoldable pub lease_all : Env → ℕ → List ScanShard → Db → Db
lease_all env now [] db = db
lease_all env now (shard ∷ rest) db = lease_all env now rest (lease_shard env now shard db)

-- From the budget to the end of the function.
unfoldable pub dispatch_within : Env → ℕ → Broker → String → ℕ → Db → ℕ × Db
unfolding ready_shards lease_all
dispatch_within env now broker run_id limit db = if limit == 0 then (0, db) else (
  length (ready_shards env now run_id limit db),
  (publish_pending_outbox env now broker 100
      (lease_all env now (ready_shards env now run_id limit db) db)).1,
)

-- From the read of the profile on.
unfoldable pub dispatch_with : Env → ℕ → Broker → String → Option ScanProfile → Db → ℕ × Db
unfolding capacity dispatch_within
dispatch_with env now broker run_id none db = (0, db)
dispatch_with env now broker run_id (some profile) db =
    dispatch_within env now broker run_id (capacity db run_id profile) db

-- From the read of the run on.
unfoldable pub dispatch_run : Env → ℕ → Broker → String → Option ScanRun → Db → ℕ × Db
unfolding dispatch_with
dispatch_run env now broker run_id none db = (0, db)
dispatch_run env now broker run_id (some run) db =
    if is_closed run.status
    then (0, db)
    else dispatch_with env now broker run_id (find (λ p. p.id == run.profile_id) db.profiles) db

unfoldable pub dispatch_available_shards : Env → ℕ → Broker → String → Db → ℕ × Db
unfolding dispatch_run
dispatch_available_shards env now broker run_id db =
    dispatch_run env now broker run_id (find (λ r. r.id == run_id) db.runs) db
