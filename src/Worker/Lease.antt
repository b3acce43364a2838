-- ===== src/Worker/Lease.antt =====
-- src/scanpod_enterprise/worker.py: `claim_lease`, `current_lease`, `clear_shard_observations`,
-- `finish_lease` and the heartbeat statement of `run_command`.
pub mod Shards
use transport_lookout.Prelude.{
  ℕ, ◌+◌, String, Bool, true, false, ◌&&◌, not, Option, none, some, List, ◌==◌, nat_eq, string_eq,
  if◌then◌else◌, is_none, sql_eq, count, find, select, modify, delete,
}
use transport_lookout.Model.{
  Db, ScanShard, HostObservation, ServiceObservation, ShardStatus, shard_status_eq,
}

-- `id == shard_id AND status == … AND lease_token == …`
abbrev pub holds : ShardStatus → String → String → ScanShard → Bool
holds status shard_id token s = s.id == shard_id && s.status == status && sql_eq s.lease_token token

unfoldable pub claimed_by : ℕ → String → ScanShard → ScanShard
claimed_by now worker_id s = record s {
  status = ShardStatus.running;
  lease_expires_at = none;
  worker_id = some worker_id;
  heartbeat_at = some now;
  attempts = s.attempts + 1;
}

-- The result is the shard that `session.get` loads after the commit, or `none` after the rollback.
unfoldable pub claim_lease : ℕ → String → String → String → Db → Option ScanShard × Db
unfolding claimed_by
claim_lease now shard_id token worker_id db =
    if count (holds ShardStatus.leased shard_id token) db.shards == 1
    then (find (λ s. s.id == shard_id) claimed.shards, claimed)
    else (none, db)
  where
    claimed : Db
    claimed = record db {
      shards =
          modify (holds ShardStatus.leased shard_id token) (claimed_by now worker_id) db.shards;
    }

unfoldable pub current_lease : String → String → Db → Bool
current_lease shard_id token db =
    not (is_none (find (holds ShardStatus.running shard_id token) db.shards))

abbrev pub on_host_of : String → List HostObservation → ServiceObservation → Bool
on_host_of shard_id hosts s =
    not (is_none (find (λ h. h.shard_id == shard_id && h.id == s.host_observation_id) hosts))

unfoldable pub clear_shard_observations : String → Db → Db
clear_shard_observations shard_id db = record db {
  services = delete (on_host_of shard_id db.hosts) db.services;
  hosts = delete (λ h. h.shard_id == shard_id) db.hosts;
  discoveries = delete (λ d. d.shard_id == shard_id) db.discoveries;
}

-- The `**values` of the three ways in which `finish_lease` is called.
pub data Values : Type 0 where
  failed_with : String → Values
  artifacts : Option String → Option String → Values
  retry_at : String → ℕ → Values

abbrev pub set_values : Values → ScanShard → ScanShard
set_values (failed_with error) s = record s { error = some error }
set_values (artifacts key discovery_key) s = record s {
  artifact_key = key;
  discovery_artifact_key = discovery_key;
}
set_values (retry_at error instant) s = record s {
  error = some error;
  retry_not_before = some instant;
}

unfoldable pub released : ShardStatus → Values → ScanShard → ScanShard
released status values s =
    set_values values (record s { status = status; worker_id = none; heartbeat_at = none })

unfoldable pub finish_lease : String → String → ShardStatus → Values → Db → Bool × Db
unfolding released
finish_lease shard_id token status values db = (
  count (holds ShardStatus.running shard_id token) db.shards == 1,
  record db {
    shards = modify (holds ShardStatus.running shard_id token) (released status values) db.shards;
  },
)

unfoldable pub beat : ℕ → ScanShard → ScanShard
beat now s = record s { heartbeat_at = some now }

unfoldable pub heartbeat : ℕ → String → String → Db → Db
unfolding beat
heartbeat now shard_id token db = record db {
  shards = modify (holds ShardStatus.running shard_id token) (beat now) db.shards;
}
