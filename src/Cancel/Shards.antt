-- ===== src/Cancel/Shards.antt =====
-- What `cancel_run` does to the shards: those that no worker has claimed are cancelled.
use transport_lookout.Prelude.{ℕ, String, ◌≡◌, refl, ◌⊎◌, true, [], arith, ◌==◌, string_eq, modify}
use transport_lookout.Config.{Env}
use transport_lookout.Http.{ok}
use transport_lookout.Model.{Db, ScanShard, ScanRun, ShardStatus, shard_beq_iff, shard_status_eq}
use transport_lookout.Audit.{audit}
use transport_lookout.Cancel.{is_waiting, cancelled_shard, cancelled_run, cancel_run}
use transport_lookout.Shard.{cancels}
use transport_lookout.Shard.Change.{IsValid, Change, Change-modify}

waiting_cases :
    (run_id : String) (s : ScanShard)
    → is_waiting run_id s ≡ true
    → (s.status ≡ ShardStatus.queued) ⊎ (s.status ≡ ShardStatus.leased)
waiting_cases run_id s h =
    ground
      (arith, shard_beq_iff s.status ShardStatus.queued, shard_beq_iff s.status ShardStatus.leased)

-- The table after the two loops and the audit event.
abbrev pub cancelled_db : Env → ℕ → ScanRun → String → Db → Db
cancelled_db env now run actor db =
    audit env actor "run.cancelled" "scan_run" run.id [] (record db {
      runs = modify (λ r. r.id == run.id) (cancelled_run now) db.runs;
      shards = modify (is_waiting run.id) cancelled_shard db.shards;
    })

pub cancel_run-eq-cancelled_db :
    (env : Env) (now : ℕ) (run run' : ScanRun) (actor : String) (db db' : Db)
    → cancel_run env now run actor db ≡ ok (run', db')
    → db' ≡ cancelled_db env now run actor db
unfolding cancel_run
cancel_run-eq-cancelled_db env now run run' actor db db' h = ground arith

pub cancel_run-Change :
    (env : Env) (now : ℕ) (run run' : ScanRun) (actor : String) (db db' : Db)
    → IsValid env db
    → cancel_run env now run actor db ≡ ok (run', db')
    → Change env db db'
unfolding audit
cancel_run-Change env now run run' actor db db' v h =
    rw (cancel_run-eq-cancelled_db env now run run' actor db db' h) (
      Change-modify _ (is_waiting run.id) cancelled_shard v refl (omega arith)
        (λ s. unfold cancelled_shard in refl) (λ s i w. cancels s (waiting_cases run.id s w)))
