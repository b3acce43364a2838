-- ===== src/Outbox/Shards.antt =====
-- What `publish_pending_outbox` does to the shards: it binds tokens to leased ones, at most.
use transport_lookout.Prelude.{
  ℕ, ◌≡◌, refl, ap, ◌∙◌, inl, inr, Bool, ◌&&◌, Option, none, some, List, [], ◌∷◌, arith, ◌==◌,
  string_eq, eq_iff, find, In, find-In, Distinct-In, Bool-cases,
}
use transport_lookout.Config.{Env}
use transport_lookout.Model.{
  Db, OutboxEvent, ScanShard, ShardStatus, shard_beq_iff, shard_status_eq,
}
use transport_lookout.Outbox.{
  Broker, lacks_token, set_token, deliver, bind_token, bind_event, publish_unfenced, publish_event,
  publish_all, publish_pending_outbox, pending_events,
}
use transport_lookout.Shard.{binds}
use transport_lookout.Shard.Change.{
  IsValid, Change, Change-frame, Change-refl, Change-trans, Change-modify, shard_id,
}

module _ (env : Env) (now : ℕ) (broker : Broker) where
  deliver-Change :
      (event : OutboxEvent) (db : Db)
      → IsValid env db
      → Change env db (deliver now broker event db).1
  deliver-Change event db v =
      Change-frame _ v (unfold deliver in ground arith) (unfold deliver in ground arith)

  bind_event-Change :
      (event : OutboxEvent) (shard : ScanShard) (db : Db)
      → IsValid env db
      → In shard db.shards
      → shard.status ≡ ShardStatus.leased
      → Change env db (bind_event env event shard db)
  unfolding bind_event
  bind_event-Change event shard db v m e =
      Change-modify _ (λ s. s.id == shard.id) (set_token (env.uuid4 db.drawn)) v refl (omega arith)
        (λ s. refl)
        (λ s i h. binds s db.drawn (omega arith) (
          ap (λ (x : ScanShard). x.status)
            (Distinct-In shard_id s shard db.shards v.keys i m ((eq_iff s.id shard.id).0 h))
          ∙ e))

  publish_unfenced-Change :
      (event : OutboxEvent) (found : Option ScanShard) (db : Db)
      → IsValid env db
      → ((shard : ScanShard) → found ≡ some shard → In shard db.shards)
      → Change env db (publish_unfenced env now broker event found db).1
  unfolding publish_unfenced
  publish_unfenced-Change event none db v h = Change-frame _ v refl (omega arith)
  publish_unfenced-Change event (some shard) db v h =
      elim (Bool-cases (shard.status == ShardStatus.leased)) [
        | inl e ↦
            let bound =
              bind_event-Change event shard db v (h shard refl)
                ((shard_beq_iff shard.status ShardStatus.leased).0 e) in
            rw (e, publish_unfenced)
              (Change-trans bound
                (deliver-Change (bind_token (env.uuid4 db.drawn) event) _ bound.valid))
        | inr e ↦ rw (e, publish_unfenced) (Change-frame _ v refl (omega arith))
      ]

  publish_event-Change :
      (event : OutboxEvent) (db : Db)
      → IsValid env db
      → Change env db (publish_event env now broker event db).1
  unfolding publish_event
  publish_event-Change event db v =
      elim (Bool-cases (event.topic == "scan_shard" && lacks_token event.payload)) [
        | inl e ↦
            rw (e, publish_event)
              (publish_unfenced-Change event (find of_event db.shards) db v
                (λ shard f. (find-In of_event shard db.shards f).0))
        | inr e ↦ rw (e, publish_event) (deliver-Change event db v)
      ]
    where
      of_event : ScanShard → Bool
      of_event s = s.id == event.payload.shard_id

  publish_all-Change :
      (events : List OutboxEvent) (n : ℕ) (db : Db)
      → IsValid env db
      → Change env db (publish_all env now broker events n db).1
  unfolding publish_all
  publish_all-Change [] n db v = Change-refl v
  publish_all-Change (event ∷ rest) n db v =
      let first = publish_event-Change event db v in
      Change-trans first (publish_all-Change rest _ _ first.valid)

  pub publish_pending_outbox-Change :
      (limit : ℕ) (db : Db)
      → IsValid env db
      → Change env db (publish_pending_outbox env now broker limit db).1
  unfolding publish_pending_outbox
  publish_pending_outbox-Change limit db v = publish_all-Change (pending_events limit db) 0 db v
