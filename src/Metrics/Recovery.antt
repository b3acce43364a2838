-- ===== src/Metrics/Recovery.antt =====
-- The gauge of stale workers against the recovery of expired leases.
use transport_lookout.Prelude.{ℕ, ◌-◌, Bool, false, ◌&&◌, ◌≡◌, List, ◌==◌, sql_lt, All}
use transport_lookout.Config.{Env}
use transport_lookout.Model.{ScanShard, ShardStatus, shard_status_eq}

-- The worker has not been heard of within the lease's length.
abbrev has_stale_worker : Env → ℕ → ScanShard → Bool
has_stale_worker env now s =
    s.status == ShardStatus.running && sql_lt s.heartbeat_at (now - env.shard_lease_seconds)

-- The task has not been claimed in time.
abbrev pub has_expired_lease : ℕ → ScanShard → Bool
has_expired_lease now s = s.status == ShardStatus.leased && sql_lt s.lease_expires_at now

module _ (env : Env) (now : ℕ) where
  abbrev NoneStale : List ScanShard → Type 0
  NoneStale xs = All (λ s. has_stale_worker env now s ≡ false) xs
