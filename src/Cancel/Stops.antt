-- ===== src/Cancel/Stops.antt =====
-- What a cancellation stops.
use transport_lookout.Prelude.{
  ℕ, String, ◌≡◌, refl, ◌∙◌, ◌⊎◌, inl, inr, true, false, some, arith, ◌==◌, string_eq, find, In,
  In-modify, find-modify, find-In,
}
use transport_lookout.Config.{Env}
use transport_lookout.Http.{ok}
use transport_lookout.Model.{Db, ScanShard, ScanRun, shard_status_eq, run_status_eq}
use transport_lookout.Audit.{audit}
use transport_lookout.Outbox.{Broker}
use transport_lookout.Dispatch.{dispatch_run, dispatch_available_shards}
use transport_lookout.Cancel.{is_waiting, cancelled_shard, cancelled_run, cancel_run}
use transport_lookout.Cancel.Shards.{cancelled_db, cancel_run-eq-cancelled_db}

module _ (env : Env) (now : ℕ) (run : ScanRun) (actor : String) (db : Db) where
  none_waiting :
      (s : ScanShard)
      → In s (cancelled_db env now run actor db).shards
      → is_waiting run.id s ≡ false
  unfolding audit cancelled_shard
  none_waiting s i =
      let (x, k, c) = In-modify (is_waiting run.id) cancelled_shard s db.shards i in split x c
    where
      split :
          (x : ScanShard)
          → (is_waiting run.id x ≡ true) × (s ≡ cancelled_shard x)
            ⊎ (is_waiting run.id x ≡ false) × (s ≡ x)
          → is_waiting run.id s ≡ false
      split x (inl (a, b)) = rw b (ground arith)
      split x (inr (a, b)) = rw b a

  pub find-cancelled_db :
      (r : ScanRun)
      → find (λ q. q.id == run.id) db.runs ≡ some r
      → find (λ q. q.id == run.id) (cancelled_db env now run actor db).runs
        ≡ some (cancelled_run now r)
  unfolding audit
  find-cancelled_db r e =
      find-modify (λ q. q.id) run.id (λ q. q.id == run.id) (cancelled_run now) db.runs
        (λ q. unfold cancelled_run in refl)
      ∙ rw (e, (find-In (λ q. q.id == run.id) r db.runs e).1) refl

  dispatch-cancelled_db :
      (later : ℕ) (broker : Broker) (r : ScanRun)
      → find (λ q. q.id == run.id) db.runs ≡ some r
      → dispatch_available_shards env later broker run.id (cancelled_db env now run actor db)
        ≡ (0, cancelled_db env now run actor db)
  unfolding dispatch_available_shards
  dispatch-cancelled_db later broker r e =
      rw (find-cancelled_db r e, dispatch_run) (unfold cancelled_run in refl)

  -- After a cancellation of a run that has a row no shard of the run is queued or leased, so none can be claimed, and
  -- dispatching the run leases nothing and changes nothing.
  pub cancel_stops :
      (later : ℕ) (broker : Broker) (run' r : ScanRun) (db' : Db)
      → find (λ q. q.id == run.id) db.runs ≡ some r
      → cancel_run env now run actor db ≡ ok (run', db')
      → ((s : ScanShard) → In s db'.shards → is_waiting run.id s ≡ false)
        × (dispatch_available_shards env later broker run.id db' ≡ (0, db'))
  cancel_stops later broker run' r db' e h =
      rw (cancel_run-eq-cancelled_db env now run run' actor db db' h)
        (none_waiting, dispatch-cancelled_db later broker r e)
