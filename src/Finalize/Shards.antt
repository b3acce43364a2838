-- ===== src/Finalize/Shards.antt =====
-- Finalisation reads the shards and changes none.
use transport_lookout.Prelude.{
  ℕ, zero, suc, refl, false, not, List, [], ◌∷◌, arith, count, select, ◌==◌, nat_eq, inl, inr,
  Bool-cases, String,
}
use transport_lookout.Config.{Env}
use transport_lookout.Model.{Db, ScanRun, RunStatus, Field, run_status_eq}
use transport_lookout.Audit.{audit}
use transport_lookout.Exposure.{incomplete_discovery_shards}
use transport_lookout.Exposure.Shards.{materialize_current_exposures-Change}
use transport_lookout.Finalize.{
  is_unfinished, save_run, finished, update_inventory, settle, conclude, is_pending, is_failure,
  outcome, finalize_terminal_run, reconcile_runs, reconcile_terminal_runs,
}
use transport_lookout.Shard.Change.{
  IsValid, Change, Change-refl, Change-trans, Change-frame, Change-if,
}

module _ (env : Env) (now : ℕ) where
  update_inventory-Change :
      (run : ScanRun) (actor : String) (n : ℕ) (db : Db)
      → IsValid env db
      → Change env db (update_inventory env now run actor n db)
  unfolding update_inventory
  update_inventory-Change run actor zero db v =
      materialize_current_exposures-Change env now run db v
  update_inventory-Change run actor (suc n) db v = Change-frame _ v refl (omega arith)

  audit-Change :
      (actor action kind id : String) (detail : List Field) (db : Db)
      → IsValid env db
      → Change env db (audit env actor action kind id detail db)
  unfolding audit
  audit-Change actor action kind id detail db v = Change-frame _ v refl (omega arith)

  save_run-Change :
      (status : RunStatus) (run : ScanRun) (db : Db)
      → IsValid env db
      → Change env db (save_run status now run db)
  save_run-Change status run db v = Change-frame _ v refl (omega arith)

  settle-Change :
      (run : ScanRun) (actor : String) (status : RunStatus) (db : Db)
      → IsValid env db
      → Change env db (settle env now run actor status db)
  unfolding settle
  settle-Change run actor status db v =
      let saved = save_run-Change status run db v in
      elim (Bool-cases (status == RunStatus.completed)) [
        | inl e ↦
            rw (e, settle)
              (Change-trans saved (
                update_inventory-Change (finished status now run) actor
                  (incomplete_discovery_shards db run.id) _ saved.valid))
        | inr e ↦ rw (e, settle) saved
      ]

  conclude-Change :
      (run : ScanRun) (actor : String) (status : RunStatus) (db : Db)
      → IsValid env db
      → Change env db (conclude env now run actor status db)
  unfolding conclude
  conclude-Change run actor status db v =
      let settled = settle-Change run actor status db v in
      Change-trans settled (audit-Change actor "run.finalized" "scan_run" run.id [] _ settled.valid)

  pub finalize_terminal_run-Change :
      (run : ScanRun) (actor : String) (db : Db)
      → IsValid env db
      → Change env db (finalize_terminal_run env now run actor db).1
  unfolding finalize_terminal_run
  finalize_terminal_run-Change run actor db v =
      Change-if (not (is_unfinished run.status)) (false, db) _ (Change-refl v)
        (Change-if (not (count (is_pending run.id) db.shards == 0)) (false, db) _ (Change-refl v)
          (conclude-Change run actor (outcome (count (is_failure run.id) db.shards)) db v))

  reconcile_runs-Change :
      (runs : List ScanRun) (n : ℕ) (db : Db)
      → IsValid env db
      → Change env db (reconcile_runs env now runs n db).1
  unfolding reconcile_runs
  reconcile_runs-Change [] n db v = Change-refl v
  reconcile_runs-Change (run ∷ rest) n db v =
      let first = finalize_terminal_run-Change run "scheduler" db v in
      Change-trans first (reconcile_runs-Change rest _ _ first.valid)

  pub reconcile_terminal_runs-Change :
      (db : Db) → IsValid env db → Change env db (reconcile_terminal_runs env now db).1
  unfolding reconcile_terminal_runs
  reconcile_terminal_runs-Change db v =
      reconcile_runs-Change (select (λ r. is_unfinished r.status) db.runs) 0 db v
