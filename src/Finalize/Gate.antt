-- ===== src/Finalize/Gate.antt =====
-- When a run is finalised, with which outcome, and when the inventory follows.
use transport_lookout.Prelude.{
  ℕ, zero, suc, String, ◌≡◌, refl, inl, inr, ◌↔◌, true, ◌&&◌, arith, ◌==◌, nat_eq, string_eq,
  eq_iff, if◌then◌else◌, count, modify, In, count-zero, count-zero_intro, Bool-cases,
}
use transport_lookout.Config.{Env}
use transport_lookout.Model.{Db, ScanRun, ScanShard, RunStatus, run_status_eq, shard_status_eq}
use transport_lookout.Audit.{audit}
use transport_lookout.Exposure.{incomplete_discovery_shards, materialize_current_exposures}
use transport_lookout.Finalize.{
  is_terminal, is_unfinished, is_pending, is_failure, outcome, finished, save_run, update_inventory,
  settle, conclude, finalize_terminal_run,
}

-- Every shard of the run has reached a terminal state.
abbrev pub AllTerminal : String → Db → Type 0
AllTerminal run_id db =
    (s : ScanShard) → In s db.shards → s.run_id ≡ run_id → is_terminal s.status ≡ true

none_pending-AllTerminal :
    (run_id : String) (db : Db) → count (is_pending run_id) db.shards ≡ 0 → AllTerminal run_id db
none_pending-AllTerminal run_id db h s m e =
    let p = count-zero (is_pending run_id) s db.shards h m in
    let own = (eq_iff s.run_id run_id).1 e in
    elim (Bool-cases (is_terminal s.status)) [ inl t ↦ t | inr f ↦ absurd (cc (rw (own, f) at p)) ]

AllTerminal-none_pending :
    (run_id : String) (db : Db) → AllTerminal run_id db → count (is_pending run_id) db.shards ≡ 0
AllTerminal-none_pending run_id db h = count-zero_intro (is_pending run_id) db.shards λ s m.
    elim (Bool-cases (s.run_id == run_id)) [
      | inl e ↦ rw (e, h s m ((eq_iff s.run_id run_id).0 e)) refl
      | inr e ↦ rw e refl
    ]

module _ (env : Env) (now : ℕ) (run : ScanRun) (actor : String) (db : Db) where
  -- A run is finalised exactly when it is not finished and each of its shards is.
  pub finalize_iff :
      ((finalize_terminal_run env now run actor db).0 ≡ true)
      ↔ ((is_unfinished run.status ≡ true) × AllTerminal run.id db)
  finalize_iff = (
    λ h. let p = parts h in (p.0, none_pending-AllTerminal run.id db p.1),
    λ (a, b). both a (AllTerminal-none_pending run.id db b),
  )
    where
      parts :
          (finalize_terminal_run env now run actor db).0 ≡ true
          → (is_unfinished run.status ≡ true) × (count (is_pending run.id) db.shards ≡ 0)
      parts h = unfold finalize_terminal_run in ground arith

      both :
          is_unfinished run.status ≡ true
          → count (is_pending run.id) db.shards ≡ 0
          → (finalize_terminal_run env now run actor db).0 ≡ true
      both a b = unfold finalize_terminal_run in rw (a, b) refl

runs-materialize :
    (env : Env) (now : ℕ) (run : ScanRun) (db : Db)
    → (materialize_current_exposures env now run db).1.runs ≡ db.runs
runs-materialize env now run db = unfold materialize_current_exposures in ground arith

runs-update_inventory :
    (env : Env) (now : ℕ) (run : ScanRun) (actor : String) (n : ℕ) (db : Db)
    → (update_inventory env now run actor n db).runs ≡ db.runs
unfolding update_inventory
runs-update_inventory env now run actor zero db = runs-materialize env now run db
runs-update_inventory env now run actor (suc n) db = unfold audit in refl

exposures-update_inventory :
    (env : Env) (now : ℕ) (run : ScanRun) (actor : String) (n : ℕ) (db : Db)
    → (update_inventory env now run actor n db).exposures ≡ (
        if n == 0 then (materialize_current_exposures env now run db).1.exposures else db.exposures)
unfolding update_inventory
exposures-update_inventory env now run actor zero db = refl
exposures-update_inventory env now run actor (suc n) db = unfold audit in ground arith

module _ (env : Env) (now : ℕ) (run : ScanRun) (actor : String) (db : Db) where
  pub done-finalize :
      (finalize_terminal_run env now run actor db).0 ≡ true
      → (finalize_terminal_run env now run actor db).1
        ≡ conclude env now run actor (outcome (count (is_failure run.id) db.shards)) db
  done-finalize h = unfold finalize_terminal_run in ground arith

  pub runs-settle :
      (status : RunStatus)
      → (settle env now run actor status db).runs
        ≡ modify (λ r. r.id == run.id) (finished status now) db.runs
  runs-settle status =
      unfold settle in
      ground (
        arith,
        runs-update_inventory env now (finished status now run) actor
            (incomplete_discovery_shards db run.id) (save_run status now run db),
      )

  exposures-settle :
      (n : ℕ)
      → (settle env now run actor (outcome n) db).exposures ≡ (
          if n == 0 && incomplete_discovery_shards db run.id == 0
          then (materialize_current_exposures env now
              (finished RunStatus.completed now run)
              (save_run RunStatus.completed now run db)).1.exposures
          else db.exposures)
  unfolding settle
  exposures-settle zero =
      exposures-update_inventory env now (finished RunStatus.completed now run) actor
        (incomplete_discovery_shards db run.id) (save_run RunStatus.completed now run db)
  exposures-settle (suc n) = ground arith

  -- The coverage gate: the inventory is replaced by what the run observed exactly when the run is
  -- finalised, no shard failed, and no shard has candidates that Nmap has not confirmed. In all
  -- other cases the inventory is left as it was.
  pub exposures-finalize : (finalize_terminal_run env now run actor db).1.exposures ≡ (
      if (finalize_terminal_run env now run actor db).0
        && (count (is_failure run.id) db.shards == 0 && incomplete_discovery_shards db run.id == 0)
      then (materialize_current_exposures env now
          (finished RunStatus.completed now run)
          (save_run RunStatus.completed now run db)).1.exposures
      else db.exposures)
  exposures-finalize = elim (Bool-cases (finalize_terminal_run env now run actor db).0) [
    | inl h ↦
        rw (done-finalize h, h)
          (unfold conclude audit in exposures-settle (count (is_failure run.id) db.shards))
    | inr h ↦ rw h (unfold finalize_terminal_run in ground arith)
  ]
