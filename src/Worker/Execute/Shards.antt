-- ===== src/Worker/Execute/Shards.antt =====
-- What the transactions of `execute_shard` do to the shards.
use transport_lookout.Prelude.{
  ℕ, ◌+◌, ◌*◌, ◌^◌, String, Bool, inl, inr, Option, none, some, leb, ◌==◌, string_eq, find, refl,
  arith, Bool-cases,
}
use transport_lookout.Config.{Env}
use transport_lookout.Model.{
  Db, ScanShard, ScanRun, ScanProfile, RunStatus, ShardStatus, run_status_eq,
}
use transport_lookout.Worker.Lease.{failed_with, retry_at}
use transport_lookout.Worker.Lease.Shards.{finish_lease-Change}
use transport_lookout.Worker.Execute.{begin_scan, start_profile, start_run, start_shard, fail_shard}
use transport_lookout.Shard.Change.{IsValid, Change, Change-frame, Change-if}

module _ (env : Env) where
  start_profile-Change :
      (now : ℕ) (shard_id token : String) (run : ScanRun) (profile : Option ScanProfile) (db : Db)
      → IsValid env db
      → Change env db (start_profile now shard_id token run profile db)
  unfolding start_profile
  start_profile-Change now shard_id token run none db v =
      finish_lease-Change env shard_id token ShardStatus.failed (failed_with "scan profile missing")
        db tt v
  start_profile-Change now shard_id token run (some profile) db v =
      Change-frame _ v (unfold begin_scan in refl) (unfold begin_scan in omega arith)

  start_run-Change :
      (now : ℕ) (shard_id token : String) (run : Option ScanRun) (db : Db)
      → IsValid env db
      → Change env db (start_run now shard_id token run db)
  unfolding start_run
  start_run-Change now shard_id token none db v =
      finish_lease-Change env shard_id token ShardStatus.cancelled
        (failed_with "cancelled by operator") db tt v
  start_run-Change now shard_id token (some run) db v =
      elim (Bool-cases (run.status == RunStatus.cancelled)) [
        | inl e ↦
            rw (e, start_run)
              (finish_lease-Change env shard_id token ShardStatus.cancelled
                (failed_with "cancelled by operator") db tt v)
        | inr e ↦
            rw (e, start_run)
              (start_profile-Change now shard_id token run (find of_run db.profiles) db v)
      ]
    where
      of_run : ScanProfile → Bool
      of_run p = p.id == run.profile_id

  pub start_shard-Change :
      (now : ℕ) (shard : ScanShard) (token : String) (db : Db)
      → IsValid env db
      → Change env db (start_shard now shard token db)
  unfolding start_shard
  start_shard-Change now shard token db v =
      start_run-Change now shard.id token (find (λ r. r.id == shard.run_id) db.runs) db v

  pub fail_shard-Change :
      (now : ℕ) (shard : ScanShard) (token error : String) (db : Db)
      → IsValid env db
      → Change env db (fail_shard env now shard token error db).1
  unfolding fail_shard
  fail_shard-Change now shard token error db v =
      Change-if (leb env.max_shard_attempts shard.attempts) _ _
        (finish_lease-Change env shard.id token ShardStatus.dead_letter (failed_with error) db tt v)
        (finish_lease-Change env shard.id token ShardStatus.queued
          (retry_at error (now + 2 ^ shard.attempts * 30)) db tt v)
