-- ===== src/System.antt =====
-- The processes together: API, scheduler, publisher and any number of workers act on one database, in
-- any order, one operation at a time.
pub mod Tokens
pub mod Fencing
pub mod Terminal
pub mod Commands
pub mod Scanning
pub mod Execution
use transport_lookout.Prelude.{Option, ℕ, ◌≤◌, String, Bool, ◌≡◌}
use transport_lookout.Config.{Env, NoRepeat}
use transport_lookout.Http.{ok}
use transport_lookout.Model.{Db, InventoryScope, ScanProfile, ScanRun, ScanShard, ShardStatus}
use transport_lookout.Outbox.{Broker, publish_pending_outbox}
use transport_lookout.Outbox.Shards.{publish_pending_outbox-Change}
use transport_lookout.Dispatch.{dispatch_run}
use transport_lookout.Dispatch.Shards.{dispatch_run-Change}
use transport_lookout.Recovery.{recover_expired_leases}
use transport_lookout.Recovery.Shards.{recover_expired_leases-Change}
use transport_lookout.Finalize.{finalize_terminal_run, reconcile_terminal_runs}
use transport_lookout.Finalize.Shards.{finalize_terminal_run-Change, reconcile_terminal_runs-Change}
use transport_lookout.Cancel.{cancel_run}
use transport_lookout.Cancel.Shards.{cancel_run-Change}
use transport_lookout.Runs.{create_run}
use transport_lookout.Runs.Shards.{create_run-Change}
use transport_lookout.Worker.Lease.{claim_lease, heartbeat, finish_lease, Values}
use transport_lookout.Worker.Lease.Shards.{
  claim_lease-Change, heartbeat-Change, finish_lease-Change,
}
use transport_lookout.Worker.Execute.{start_shard, fail_shard}
use transport_lookout.Worker.Execute.Shards.{start_shard-Change, fail_shard-Change}
use transport_lookout.Shard.{IsRelease}
use transport_lookout.Shard.Change.{IsValid, Change, Change-refl, Change-trans, Change-frame}

-- One operation, with the arguments that the environment chooses. The run object of a finalisation
-- or a dispatch and the shard object of a failure may be older than their rows.
pub data Step (env : Env) (db : Db) : Db → Type 0 where
  creates :
      (is_ipv6 : String → Bool) (now : ℕ) (broker : Broker) (scope : InventoryScope)
      (profile : ScanProfile) (actor : String) (run : ScanRun) (db' : Db)
      → create_run env is_ipv6 now broker scope profile actor db ≡ ok (run, db')
      → Step env db db'
  cancels :
      (now : ℕ) (run run' : ScanRun) (actor : String) (db' : Db)
      → cancel_run env now run actor db ≡ ok (run', db')
      → Step env db db'
  dispatches :
      (now : ℕ) (broker : Broker) (run_id : String) (run : Option ScanRun)
      → Step env db (dispatch_run env now broker run_id run db).1
  publishes :
      (now : ℕ) (broker : Broker) (limit : ℕ)
      → Step env db (publish_pending_outbox env now broker limit db).1
  recovers : (now : ℕ) (broker : Broker) → Step env db (recover_expired_leases env now broker db).1
  reconciles : (now : ℕ) → Step env db (reconcile_terminal_runs env now db).1
  claims :
      (now : ℕ) (shard_id token worker : String)
      → Step env db (claim_lease now shard_id token worker db).1
  starts :
      (now : ℕ) (shard : ScanShard) (token : String) → Step env db (start_shard now shard token db)
  beats : (now : ℕ) (shard_id token : String) → Step env db (heartbeat now shard_id token db)
  finishes :
      (shard_id token : String) (status : ShardStatus) (values : Values)
      → IsRelease status
      → Step env db (finish_lease shard_id token status values db).1
  fails :
      (now : ℕ) (shard : ScanShard) (token error : String)
      → Step env db (fail_shard env now shard token error db).1
  finalizes :
      (now : ℕ) (run : ScanRun) (actor : String)
      → Step env db (finalize_terminal_run env now run actor db).1
  -- Users, scopes, profiles, schedules, observations, audit: all that leaves the shards alone.
  others : (db' : Db) → db'.shards ≡ db.shards → db.drawn ≤ db'.drawn → Step env db db'

pub data Reach (env : Env) (db : Db) : Db → Type 0 where
  start : Reach env db db
  then : {db' db'' : Db} → Reach env db db' → Step env db' db'' → Reach env db db''

module _ {env : Env} (fresh : NoRepeat env) where
  pub Step-Change : {db db' : Db} → IsValid env db → Step env db db' → Change env db db'
  Step-Change {db} v (creates is_ipv6 now broker scope profile actor run db' e) =
      create_run-Change env now scope profile actor fresh is_ipv6 broker run db db' v e
  Step-Change {db} v (cancels now run run' actor db' e) =
      cancel_run-Change env now run run' actor db db' v e
  Step-Change {db} v (dispatches now broker run_id run) =
      dispatch_run-Change env now broker run_id run db v
  Step-Change {db} v (publishes now broker limit) =
      publish_pending_outbox-Change env now broker limit db v
  Step-Change {db} v (recovers now broker) = recover_expired_leases-Change env now broker db v
  Step-Change {db} v (reconciles now) = reconcile_terminal_runs-Change env now db v
  Step-Change {db} v (claims now shard_id token worker) =
      claim_lease-Change env now shard_id token worker db v
  Step-Change {db} v (starts now shard token) = start_shard-Change env now shard token db v
  Step-Change {db} v (beats now shard_id token) = heartbeat-Change env now shard_id token db v
  Step-Change {db} v (finishes shard_id token status values r) =
      finish_lease-Change env shard_id token status values db r v
  Step-Change {db} v (fails now shard token error) =
      fail_shard-Change env now shard token error db v
  Step-Change {db} v (finalizes now run actor) = finalize_terminal_run-Change env now run actor db v
  Step-Change {db} v (others db' e h) = Change-frame db' v e h

  pub Reach-Change : {db db' : Db} → IsValid env db → Reach env db db' → Change env db db'
  Reach-Change v start = Change-refl v
  Reach-Change v (then r s) = let c = Reach-Change v r in Change-trans c (Step-Change c.valid s)
