-- ===== src/Tests/Cancellations.antt =====
-- A run is cancelled while a worker runs its last shard, which the worker then completes.
use transport_lookout.Prelude.{refl, inl, inr, none, some, [], ◌∷◌, find, modify, count}
use transport_lookout.Model.{Db, ScanShard, RunStatus, ShardStatus}
use transport_lookout.Audit.{audit}
use transport_lookout.Cancel.{cancelled_shard, cancel_run, cancelled_run}
use transport_lookout.Cancel.Shards.{cancelled_db}
use transport_lookout.Worker.Lease.{Values, released, finish_lease, artifacts}
use transport_lookout.Finalize.{finalize_terminal_run}
use transport_lookout.Finalize.StaleRun.{HasStatus, cancel_overridden}
use transport_lookout.Tests.Data.{token, env, run, leased_shard, queued_shard, done_shard, db}

abbrev running_shard : ScanShard
running_shard = record leased_shard { status = ShardStatus.running }

abbrev running_db : Db
running_db = record db { shards = running_shard ∷ queued_shard ∷ done_shard ∷ [] }

abbrev stored : Values
stored = artifacts (some "result.xml") none

abbrev completed_db : Db
completed_db =
    (finish_lease (token 1) (token 5) ShardStatus.completed stored
      (cancelled_db env 40 run "op" running_db)).1

cancel_overridden_example :
    HasStatus "run" RunStatus.cancelled completed_db.runs
    × HasStatus "run" RunStatus.completed
        (finalize_terminal_run env 60 run "worker" completed_db).1.runs
unfolding cancel_run find count modify cancelled_shard audit finish_lease released
cancel_overridden_example =
    cancel_overridden env 40 60 run (cancelled_run 40 run) run "op" (token 1) (token 5) stored
      running_db (cancelled_db env 40 run "op" running_db) completed_db refl refl
      (inr (inl (refl, refl, refl)), (inr (inr (inl refl)), (inl (inr (inl refl)), tt))) refl refl
