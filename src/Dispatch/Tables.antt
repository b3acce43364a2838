-- ===== src/Dispatch/Tables.antt =====
-- Dispatch and publication write to the shards and the outbox alone.
use transport_lookout.Prelude.{
  ℕ, String, ◌≡◌, refl, ◌∙◌, inl, inr, Bool, true, false, ◌&&◌, Option, none, some, List, [], ◌∷◌,
  arith, ◌==◌, nat_eq, string_eq, find, Bool-cases, if◌then◌else◌,
}
use transport_lookout.Config.{Env}
use transport_lookout.Model.{
  Db, OutboxEvent, ScanShard, ScanRun, ScanProfile, ShardStatus, shard_status_eq,
}
use transport_lookout.Outbox.{
  Broker, lacks_token, deliver, bind_token, bind_event, publish_unfenced, publish_event,
  publish_all, publish_pending_outbox, pending_events,
}
use transport_lookout.Dispatch.{
  lease_shard, lease_all, ready_shards, capacity, is_closed, dispatch_within, dispatch_with,
  dispatch_run, dispatch_available_shards,
}

-- The tables but for the shards and the outbox.
abbrev pub other_tables : Db → Db
other_tables db = record db { shards = []; outbox = []; drawn = 0; sent = [] }

abbrev pub SameTables : Db → Db → Type 0
SameTables db db' = other_tables db' ≡ other_tables db

SameTables-if :
    (b : Bool) (db : Db) (x y : ℕ × Db)
    → SameTables db x.1
    → SameTables db y.1
    → SameTables db (if b then x else y).1
SameTables-if true db x y p q = p
SameTables-if false db x y p q = q

module _ (env : Env) (now : ℕ) (broker : Broker) where
  deliver-SameTables :
      (event : OutboxEvent) (db : Db) → SameTables db (deliver now broker event db).1
  unfolding deliver
  deliver-SameTables event db = ground arith

  publish_unfenced-SameTables :
      (event : OutboxEvent) (found : Option ScanShard) (db : Db)
      → SameTables db (publish_unfenced env now broker event found db).1
  unfolding publish_unfenced
  publish_unfenced-SameTables event none db = refl
  publish_unfenced-SameTables event (some shard) db =
      elim (Bool-cases (shard.status == ShardStatus.leased)) [
        | inl e ↦
            rw (e, publish_unfenced)
              (deliver-SameTables (bind_token (env.uuid4 db.drawn) event)
                (bind_event env event shard db))
        | inr e ↦ rw (e, publish_unfenced) refl
      ]

  publish_event-SameTables :
      (event : OutboxEvent) (db : Db) → SameTables db (publish_event env now broker event db).1
  unfolding publish_event
  publish_event-SameTables event db =
      elim (Bool-cases (event.topic == "scan_shard" && lacks_token event.payload)) [
        | inl e ↦
            rw (e, publish_event)
              (publish_unfenced-SameTables event
                (find (λ s. s.id == event.payload.shard_id) db.shards) db)
        | inr e ↦ rw (e, publish_event) (deliver-SameTables event db)
      ]

  publish_all-SameTables :
      (events : List OutboxEvent) (delivered : ℕ) (db : Db)
      → SameTables db (publish_all env now broker events delivered db).1
  unfolding publish_all
  publish_all-SameTables [] delivered db = refl
  publish_all-SameTables (event ∷ rest) delivered db =
      publish_all-SameTables rest _ (publish_event env now broker event db).1
      ∙ publish_event-SameTables event db

  publish-SameTables :
      (limit : ℕ) (db : Db) → SameTables db (publish_pending_outbox env now broker limit db).1
  unfolding publish_pending_outbox
  publish-SameTables limit db = publish_all-SameTables (pending_events limit db) 0 db

  lease_all-SameTables :
      (shards : List ScanShard) (db : Db) → SameTables db (lease_all env now shards db)
  unfolding lease_all lease_shard
  lease_all-SameTables [] db = refl
  lease_all-SameTables (s ∷ ss) db = lease_all-SameTables ss (lease_shard env now s db)

  dispatch_within-SameTables :
      (run_id : String) (limit : ℕ) (db : Db)
      → SameTables db (dispatch_within env now broker run_id limit db).1
  unfolding dispatch_within
  dispatch_within-SameTables run_id limit db =
      SameTables-if (limit == 0) db (0, db) _ refl
        (publish-SameTables 100 (lease_all env now (ready_shards env now run_id limit db) db)
          ∙ lease_all-SameTables (ready_shards env now run_id limit db) db)

  dispatch_with-SameTables :
      (run_id : String) (profile : Option ScanProfile) (db : Db)
      → SameTables db (dispatch_with env now broker run_id profile db).1
  unfolding dispatch_with
  dispatch_with-SameTables run_id none db = refl
  dispatch_with-SameTables run_id (some profile) db =
      dispatch_within-SameTables run_id (capacity db run_id profile) db

  pub dispatch_run-SameTables :
      (run_id : String) (run : Option ScanRun) (db : Db)
      → SameTables db (dispatch_run env now broker run_id run db).1
  unfolding dispatch_run
  dispatch_run-SameTables run_id none db = refl
  dispatch_run-SameTables run_id (some run) db =
      SameTables-if (is_closed run.status) db (0, db) _ refl
        (dispatch_with-SameTables run_id (find (λ p. p.id == run.profile_id) db.profiles) db)

  pub dispatch_available_shards-SameTables :
      (run_id : String) (db : Db)
      → SameTables db (dispatch_available_shards env now broker run_id db).1
  unfolding dispatch_available_shards
  dispatch_available_shards-SameTables run_id db =
      dispatch_run-SameTables run_id (find (λ r. r.id == run_id) db.runs) db
