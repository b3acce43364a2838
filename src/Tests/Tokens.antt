-- ===== src/Tests/Tokens.antt =====
-- Execution tokens on the small database.
use transport_lookout.Prelude.{◌≡◌, refl, ap, none, some, count, find, modify, In, inl, inr, arith}
use transport_lookout.Model.{Db, ScanShard, ShardStatus}
use transport_lookout.Recovery.{recover_expired_leases}
use transport_lookout.Worker.Lease.{claim_lease}
use transport_lookout.System.{start, then, recovers}
use transport_lookout.System.Tokens.{Lacks}
use transport_lookout.System.Fencing.{
  IsFenced, claim_once, lost_token-IsFenced, recovered_lease-IsFenced,
}
use transport_lookout.System.Terminal.{terminal_forever}
use transport_lookout.Tests.Data.{
  token, env, env-NoRepeat, token-ne, accepting, leased_shard, done_shard, db, db-IsValid,
}

abbrev claimed_shard : ScanShard
claimed_shard = record leased_shard {
  status = ShardStatus.running;
  lease_expires_at = none;
  worker_id = some "w";
  heartbeat_at = some 50;
  attempts = 1;
}

abbrev claimed_db : Db
claimed_db = (claim_lease 50 (token 1) (token 5) "w" db).1

abbrev recovered_db : Db
recovered_db = (recover_expired_leases env 9999 accepting claimed_db).1

claims_first : claim_lease 50 (token 1) (token 5) "w" db ≡ (some claimed_shard, claimed_db)
unfolding claim_lease count find modify
claims_first = refl

claim_once_example : claim_lease 60 (token 1) (token 5) "v" recovered_db ≡ (none, recovered_db)
claim_once_example =
    claim_once env env-NoRepeat 50 60 (token 1) (token 5) "w" "v" claimed_shard db claimed_db
      recovered_db db-IsValid (5, omega arith, refl) claims_first
      (then start (recovers 9999 accepting))

abbrev expired_db : Db
expired_db = (recover_expired_leases env 101 accepting db).1

recovered_lease-IsFenced_example : IsFenced (token 1) (token 5) expired_db
recovered_lease-IsFenced_example =
    recovered_lease-IsFenced env env-NoRepeat 101 accepting leased_shard (token 5) db expired_db
      db-IsValid (inl refl) refl (5, omega arith, refl) start

Lacks-seven : (s : ScanShard) → In s db.shards → Lacks (token 1) (token 7) s
Lacks-seven s (inl e) k q =
    token-ne 5 7 (omega arith) (cc (ap (λ (x : ScanShard). x.lease_token) e))
Lacks-seven s (inr (inl e)) k q = cc (ap (λ (x : ScanShard). x.lease_token) e)
Lacks-seven s (inr (inr (inl e))) k q = cc (ap (λ (x : ScanShard). x.lease_token) e)
Lacks-seven s (inr (inr (inr n))) k q = n

lost_token-IsFenced_example : IsFenced (token 1) (token 7) expired_db
lost_token-IsFenced_example =
    lost_token-IsFenced env env-NoRepeat (token 1) (token 7) db expired_db db-IsValid
      (7, omega arith, refl) Lacks-seven (then start (recovers 101 accepting))

terminal_forever_example : In done_shard expired_db.shards
terminal_forever_example =
    terminal_forever env-NoRepeat db-IsValid (then start (recovers 101 accepting)) done_shard
      (inr (inr (inl refl))) refl
