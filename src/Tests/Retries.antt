-- ===== src/Tests/Retries.antt =====
-- A worker's second attempt at a shard fails.
use transport_lookout.Prelude.{
  ℕ, ◌<◌, ◌≡◌, refl, ap, string_eq, true, none, some, [], ◌∷◌, arith, In, inl, inr, modify,
}
use transport_lookout.Model.{Db, empty, ScanShard, ShardStatus, new_shard}
use transport_lookout.Shard.Change.{IsValid, shard_id}
use transport_lookout.Worker.Execute.{fail_shard}
use transport_lookout.Worker.Execute.Retry.{IsRetried, fail_shard-IsRetried}
use transport_lookout.Tests.Data.{env, token}

abbrev running_shard : ScanShard
running_shard = record (new_shard (token 1) "run" "10.0.0.0/24" "default") {
  status = ShardStatus.running;
  lease_token = some (token 5);
  worker_id = some "worker";
  attempts = 2;
}

abbrev running_db : Db
running_db = record empty { shards = running_shard ∷ []; drawn = 10 }

running_db-IsValid : IsValid env running_db
running_db-IsValid = record { keys = (tt, tt); ids = λ s. drawn_id s }
  where
    drawn_id : (s : ScanShard) → In s running_db.shards → (k : ℕ) × (k < 10) × (s.id ≡ token k)
    drawn_id s (inl e) = (1, omega arith, ap shard_id e)
    drawn_id s (inr n) = absurd n

fail_shard_run :
    (fail_shard env 1000 running_shard (token 5) "no route" running_db).1.shards
    ≡ record running_shard {
      status = ShardStatus.queued;
      worker_id = none;
      error = some "no route";
      retry_not_before = some 1120;
    }
      ∷ []
unfolding fail_shard modify
fail_shard_run = refl

fail_shard-IsRetried_example :
    ((fail_shard env 1000 running_shard (token 5) "no route" running_db).0 ≡ true)
    × ((r : ScanShard) × In r
          (fail_shard env 1000 running_shard (token 5) "no route" running_db).1.shards
        × (r.id ≡ token 1)
        × (r.error ≡ some "no route")
        × (r.worker_id ≡ none)
        × IsRetried env 1000 running_shard r)
fail_shard-IsRetried_example =
    fail_shard-IsRetried env running_db 1000 running_shard (token 5) "no route" running_db-IsValid
      (inl refl) refl refl
