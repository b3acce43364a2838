-- ===== src/Dispatch/Updates.antt =====
-- What dispatch and publication do to the shards: a row takes a token, or is leased with one.
use transport_lookout.Prelude.{
  ℕ, String, ◌≡◌, sym, subst, inl, inr, Bool, true, false, ◌&&◌, Option, none, some, List, [], ◌∷◌,
  arith, ◌==◌, nat_eq, string_eq, find, modify, Bool-cases, if◌then◌else◌,
}
use transport_lookout.Config.{Env}
use transport_lookout.Model.{
  Db, OutboxEvent, ScanShard, ScanRun, ScanProfile, ShardStatus, shard_status_eq,
}
use transport_lookout.Outbox.{
  Broker, lacks_token, deliver, bind_token, bind_event, set_token, publish_unfenced, publish_event,
  publish_all, publish_pending_outbox, pending_events,
}
use transport_lookout.Dispatch.{
  leased_until, lease_shard, lease_all, ready_shards, capacity, is_closed, dispatch_within,
  dispatch_with, dispatch_run, dispatch_available_shards,
}

-- A relation on tables of shards that holds for both updates.
pub record IsKept (R : List ScanShard → List ScanShard → Type 0) : Type 0 where
  pub same : (xs : List ScanShard) → R xs xs
  pub chain : (xs ys zs : List ScanShard) → R xs ys → R ys zs → R xs zs
  pub binds :
      (id token : String) (xs : List ScanShard)
      → R xs (modify (λ s. s.id == id) (set_token token) xs)
  pub leases :
      (env : Env) (now : ℕ) (id token : String) (xs : List ScanShard)
      → R xs (modify (λ s. s.id == id) (leased_until env now token) xs)

module _ (R : List ScanShard → List ScanShard → Type 0) (k : IsKept R) (env : Env) (now : ℕ)
    (broker : Broker) where
  abbrev Kept : Db → Db → Type 0
  Kept db db' = R db.shards db'.shards

  Kept-if :
      (b : Bool) (db : Db) (x y : ℕ × Db)
      → Kept db x.1
      → Kept db y.1
      → Kept db (if b then x else y).1
  Kept-if true db x y p q = p
  Kept-if false db x y p q = q

  deliver-Kept : (event : OutboxEvent) (db : Db) → Kept db (deliver now broker event db).1
  deliver-Kept event db =
      let e : (deliver now broker event db).1.shards ≡ db.shards = unfold deliver in ground arith in
      subst (R db.shards) (sym e) (k.same db.shards)

  publish_unfenced-Kept :
      (event : OutboxEvent) (found : Option ScanShard) (db : Db)
      → Kept db (publish_unfenced env now broker event found db).1
  unfolding publish_unfenced
  publish_unfenced-Kept event none db = k.same db.shards
  publish_unfenced-Kept event (some shard) db =
      elim (Bool-cases (shard.status == ShardStatus.leased)) [
        | inl e ↦
            let bound = bind_event env event shard db in
            rw (e, publish_unfenced)
              (k.chain db.shards bound.shards _
                (unfold bind_event in k.binds shard.id (env.uuid4 db.drawn) db.shards)
                (deliver-Kept (bind_token (env.uuid4 db.drawn) event) bound))
        | inr e ↦ rw (e, publish_unfenced) (k.same db.shards)
      ]

  publish_event-Kept :
      (event : OutboxEvent) (db : Db) → Kept db (publish_event env now broker event db).1
  unfolding publish_event
  publish_event-Kept event db =
      elim (Bool-cases (event.topic == "scan_shard" && lacks_token event.payload)) [
        | inl e ↦
            rw (e, publish_event)
              (publish_unfenced-Kept event (find (λ s. s.id == event.payload.shard_id) db.shards)
                db)
        | inr e ↦ rw (e, publish_event) (deliver-Kept event db)
      ]

  publish_all-Kept :
      (events : List OutboxEvent) (delivered : ℕ) (db : Db)
      → Kept db (publish_all env now broker events delivered db).1
  unfolding publish_all
  publish_all-Kept [] delivered db = k.same db.shards
  publish_all-Kept (event ∷ rest) delivered db =
      let next = (publish_event env now broker event db).1 in
      k.chain db.shards next.shards _ (publish_event-Kept event db) (publish_all-Kept rest _ next)

  lease_all-Kept : (shards : List ScanShard) (db : Db) → Kept db (lease_all env now shards db)
  unfolding lease_all
  lease_all-Kept [] db = k.same db.shards
  lease_all-Kept (s ∷ ss) db =
      k.chain db.shards (lease_shard env now s db).shards _
        (unfold lease_shard in k.leases env now s.id (env.uuid4 db.drawn) db.shards)
        (lease_all-Kept ss (lease_shard env now s db))

  dispatch_within-Kept :
      (run_id : String) (limit : ℕ) (db : Db)
      → Kept db (dispatch_within env now broker run_id limit db).1
  unfolding dispatch_within publish_pending_outbox
  dispatch_within-Kept run_id limit db =
      let leased = lease_all env now (ready_shards env now run_id limit db) db in
      Kept-if (limit == 0) db (0, db) _ (k.same db.shards)
        (k.chain db.shards leased.shards _
          (lease_all-Kept (ready_shards env now run_id limit db) db)
          (publish_all-Kept (pending_events 100 leased) 0 leased))

  dispatch_with-Kept :
      (run_id : String) (profile : Option ScanProfile) (db : Db)
      → Kept db (dispatch_with env now broker run_id profile db).1
  unfolding dispatch_with
  dispatch_with-Kept run_id none db = k.same db.shards
  dispatch_with-Kept run_id (some profile) db =
      dispatch_within-Kept run_id (capacity db run_id profile) db

  dispatch_run-Kept :
      (run_id : String) (run : Option ScanRun) (db : Db)
      → Kept db (dispatch_run env now broker run_id run db).1
  unfolding dispatch_run
  dispatch_run-Kept run_id none db = k.same db.shards
  dispatch_run-Kept run_id (some run) db =
      Kept-if (is_closed run.status) db (0, db) _ (k.same db.shards)
        (dispatch_with-Kept run_id (find (λ p. p.id == run.profile_id) db.profiles) db)

  -- So it holds for a dispatch.
  pub dispatch_available_shards-Kept :
      (run_id : String) (db : Db)
      → R db.shards (dispatch_available_shards env now broker run_id db).1.shards
  unfolding dispatch_available_shards
  dispatch_available_shards-Kept run_id db =
      dispatch_run-Kept run_id (find (λ r. r.id == run_id) db.runs) db
