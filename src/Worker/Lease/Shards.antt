-- ===== src/Worker/Lease/Shards.antt =====
-- What the worker's statements do to the shards.
use transport_lookout.Prelude.{
  ℕ, String, ◌≡◌, refl, inl, inr, true, ◌==◌, nat_eq, string_eq, arith, count, Bool-cases,
}
use transport_lookout.Config.{Env}
use transport_lookout.Model.{Db, ScanShard, ShardStatus, shard_beq_iff, shard_status_eq}
use transport_lookout.Worker.Lease.{
  holds, claimed_by, claim_lease, Values, released, finish_lease, beat, heartbeat,
  clear_shard_observations,
}
use transport_lookout.Shard.{IsRelease, claims, releases, beats}
use transport_lookout.Shard.Change.{IsValid, Change, Change-refl, Change-frame, Change-modify}

pub holds-status :
    (status : ShardStatus) (shard_id token : String) (s : ScanShard)
    → holds status shard_id token s ≡ true
    → s.status ≡ status
holds-status status shard_id token s h = (shard_beq_iff s.status status).0 (ground arith)

pub released-id :
    (status : ShardStatus) (values : Values) (s : ScanShard) → (released status values s).id ≡ s.id
unfolding released
released-id status (Values.failed_with e) s = refl
released-id status (Values.artifacts a b) s = refl
released-id status (Values.retry_at e t) s = refl

module _ (env : Env) where
  pub claim_lease-Change :
      (now : ℕ) (shard_id token worker : String) (db : Db)
      → IsValid env db
      → Change env db (claim_lease now shard_id token worker db).1
  unfolding claim_lease
  claim_lease-Change now shard_id token worker db v =
      elim (Bool-cases (count (holds ShardStatus.leased shard_id token) db.shards == 1)) [
        | inl e ↦
            rw (e, claim_lease)
              (Change-modify _ (holds ShardStatus.leased shard_id token) (claimed_by now worker) v
                refl (omega arith) (λ s. refl)
                (λ s i h. claims s now worker (holds-status ShardStatus.leased shard_id token s h)))
        | inr e ↦ rw (e, claim_lease) (Change-refl v)
      ]

  pub heartbeat-Change :
      (now : ℕ) (shard_id token : String) (db : Db)
      → IsValid env db
      → Change env db (heartbeat now shard_id token db)
  unfolding heartbeat
  heartbeat-Change now shard_id token db v =
      Change-modify _ (holds ShardStatus.running shard_id token) (beat now) v refl (omega arith)
        (λ s. refl) (λ s i h. beats s now (holds-status ShardStatus.running shard_id token s h))

  pub finish_lease-Change :
      (shard_id token : String) (status : ShardStatus) (values : Values) (db : Db)
      → IsRelease status
      → IsValid env db
      → Change env db (finish_lease shard_id token status values db).1
  unfolding finish_lease
  finish_lease-Change shard_id token status values db r v =
      Change-modify _ (holds ShardStatus.running shard_id token) (released status values) v refl
        (omega arith) (released-id status values)
        (λ s i h. releases s status values (holds-status ShardStatus.running shard_id token s h) r)

  pub clear_shard_observations-Change :
      (shard_id : String) (db : Db)
      → IsValid env db
      → Change env db (clear_shard_observations shard_id db)
  unfolding clear_shard_observations
  clear_shard_observations-Change shard_id db v = Change-frame _ v refl (omega arith)
