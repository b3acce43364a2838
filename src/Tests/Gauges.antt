-- ===== src/Tests/Gauges.antt =====
-- The gauge of stale workers for a worker that has not been heard of since.
use transport_lookout.Prelude.{some, [], ◌∷◌}
use transport_lookout.Model.{Db, ScanShard, ShardStatus}
use transport_lookout.Tests.Data.{token, leased_shard, queued_shard, db}

abbrev silent_shard : ScanShard
silent_shard = record queued_shard {
  status = ShardStatus.running;
  lease_token = some (token 6);
  heartbeat_at = some 100;
}

abbrev silent_db : Db
silent_db = record db { shards = leased_shard ∷ silent_shard ∷ [] }
