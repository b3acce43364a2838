-- ===== src/Recovery/Shards.antt =====
-- What `recover_expired_leases` does to the shards: it puts stale ones back, then leases.
use transport_lookout.Prelude.{ℕ, String, ◌≡◌, refl, true, List, [], ◌∷◌, arith}
use transport_lookout.Config.{Env}
use transport_lookout.Model.{Db, ScanShard}
use transport_lookout.Outbox.{Broker}
use transport_lookout.Dispatch.{holds_slot}
use transport_lookout.Dispatch.Shards.{dispatch_available_shards-Change}
use transport_lookout.Recovery.{
  is_stale, requeued, requeue_stale, stale_run_ids, dispatch_runs, recover_expired_leases,
}
use transport_lookout.Shard.{requeues}
use transport_lookout.Shard.Change.{IsValid, Change, Change-refl, Change-trans, Change-modify}

stale-holds_slot :
    (env : Env) (now : ℕ) (s : ScanShard) → is_stale env now s ≡ true → holds_slot s ≡ true
stale-holds_slot env now s h = ground arith

module _ (env : Env) (now : ℕ) where
  pub requeue_stale-Change : (db : Db) → IsValid env db → Change env db (requeue_stale env now db)
  unfolding requeue_stale
  requeue_stale-Change db v =
      Change-modify _ (is_stale env now) requeued v refl (omega arith) (λ s. refl)
        (λ s i h. requeues s (stale-holds_slot env now s h))

  module _ (broker : Broker) where
    pub dispatch_runs-Change :
        (run_ids : List String) (db : Db)
        → IsValid env db
        → Change env db (dispatch_runs env now broker run_ids db)
    unfolding dispatch_runs
    dispatch_runs-Change [] db v = Change-refl v
    dispatch_runs-Change (run_id ∷ rest) db v =
        let first = dispatch_available_shards-Change env now broker run_id db v in
        Change-trans first (dispatch_runs-Change rest _ first.valid)

    pub recover_expired_leases-Change :
        (db : Db) → IsValid env db → Change env db (recover_expired_leases env now broker db).1
    unfolding recover_expired_leases
    recover_expired_leases-Change db v =
        let first = requeue_stale-Change db v in
        Change-trans first (dispatch_runs-Change (stale_run_ids env now db) _ first.valid)
