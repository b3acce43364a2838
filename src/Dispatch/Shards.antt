-- ===== src/Dispatch/Shards.antt =====
-- What `dispatch_available_shards` does to the shards: it leases queued ones, each with a new token.
use transport_lookout.Prelude.{
  ℕ, String, ◌≡◌, refl, sym, ap, ◌∙◌, ◌⊎◌, inl, inr, Bool, true, false, Option, none, some, List,
  [], ◌∷◌, arith, ◌==◌, nat_eq, string_eq, eq_iff, find, In, In-take, In-order_by, In-select,
  In-modify, Apart, Apart-In, Distinct, Distinct-In, Distinct-select, Distinct-order_by,
  Distinct-take, Bool-cases,
}
use transport_lookout.Config.{Env}
use transport_lookout.Model.{
  Db, ScanRun, ScanProfile, ScanShard, ShardStatus, shard_beq_iff, shard_status_eq,
}
use transport_lookout.Outbox.{Broker}
use transport_lookout.Outbox.Shards.{publish_pending_outbox-Change}
use transport_lookout.Dispatch.{
  is_closed, is_ready, capacity, ready_shards, leased_until, lease_shard, lease_all,
  dispatch_within, dispatch_with, dispatch_run, dispatch_available_shards,
}
use transport_lookout.Shard.{leases}
use transport_lookout.Shard.Change.{
  IsValid, Change, Change-refl, Change-trans, Change-modify, Change-if, shard_id,
}

module _ (env : Env) (now : ℕ) where
  -- Every row with the key of a listed shard is queued.
  abbrev AreQueued : List ScanShard → List ScanShard → Type 0
  AreQueued listed rows =
      (x s : ScanShard) → In x listed → In s rows → s.id ≡ x.id → s.status ≡ ShardStatus.queued

  lease_shard-Change :
      (shard : ScanShard) (db : Db)
      → IsValid env db
      → AreQueued (shard ∷ []) db.shards
      → Change env db (lease_shard env now shard db)
  unfolding lease_shard
  lease_shard-Change shard db v q =
      Change-modify _ (λ s. s.id == shard.id) (leased_until env now (env.uuid4 db.drawn)) v refl
        (omega arith) (λ s. refl)
        (λ s i h.
          leases s now db.drawn (omega arith) (q shard s (inl refl) i ((eq_iff s.id shard.id).0 h)))

  -- A lease leaves the other listed shards queued.
  lease_shard-AreQueued :
      (shard : ScanShard) (rest : List ScanShard) (db : Db)
      → Apart shard_id shard rest
      → AreQueued (shard ∷ rest) db.shards
      → AreQueued rest (lease_shard env now shard db).shards
  unfolding lease_shard
  lease_shard-AreQueued shard rest db a q x s i m e =
      untouched (In-modify picked (leased_until env now (env.uuid4 db.drawn)) s db.shards m)
    where
      picked : ScanShard → Bool
      picked t = t.id == shard.id

      untouched :
          (y : ScanShard) × In y db.shards
            × ((picked y ≡ true) × (s ≡ leased_until env now (env.uuid4 db.drawn) y)
                ⊎ (picked y ≡ false) × (s ≡ y))
          → s.status ≡ ShardStatus.queued
      untouched (y, j, inl (h, k)) = absurd (
          Apart-In shard_id shard x rest a i
            (sym ((eq_iff y.id shard.id).0 h) ∙ sym (ap shard_id k) ∙ e))
      untouched (y, j, inr (h, k)) =
          ap (λ (t : ScanShard). t.status) k ∙ q x y (inr i) j (sym (ap shard_id k) ∙ e)

  pub lease_all-Change :
      (listed : List ScanShard) (db : Db)
      → IsValid env db
      → Distinct shard_id listed
      → AreQueued listed db.shards
      → Change env db (lease_all env now listed db)
  unfolding lease_all
  lease_all-Change [] db v d q = Change-refl v
  lease_all-Change (shard ∷ rest) db v d q =
      let first = lease_shard-Change shard db v (λ x s i. q x s (only i)) in
      Change-trans first
        (lease_all-Change rest _ first.valid d.1 (lease_shard-AreQueued shard rest db d.0 q))
    where
      only : {x : ScanShard} → In x (shard ∷ []) → In x (shard ∷ rest)
      only (inl e) = inl e
      only (inr n) = absurd n

  pub In-ready_shards :
      (run_id : String) (limit : ℕ) (db : Db) (x : ScanShard)
      → In x (ready_shards env now run_id limit db)
      → In x db.shards × (is_ready run_id now x ≡ true)
  unfolding ready_shards
  In-ready_shards run_id limit db x i =
      In-select (is_ready run_id now) x db.shards (In-order_by _ x _ (In-take limit x _ i))

  pub ready_shards-Distinct :
      (run_id : String) (limit : ℕ) (db : Db)
      → IsValid env db
      → Distinct shard_id (ready_shards env now run_id limit db)
  unfolding ready_shards
  ready_shards-Distinct run_id limit db v = Distinct-take shard_id limit _ (
      Distinct-order_by shard_id _ _
        (Distinct-select shard_id (is_ready run_id now) db.shards v.keys))

  ready-queued :
      (run_id : String) (x : ScanShard)
      → is_ready run_id now x ≡ true
      → x.status ≡ ShardStatus.queued
  ready-queued run_id x h = (shard_beq_iff x.status ShardStatus.queued).0 (ground arith)

  pub ready_shards-AreQueued :
      (run_id : String) (limit : ℕ) (db : Db)
      → IsValid env db
      → AreQueued (ready_shards env now run_id limit db) db.shards
  ready_shards-AreQueued run_id limit db v x s i m e =
      let r = In-ready_shards run_id limit db x i in
      ap (λ (t : ScanShard). t.status) (Distinct-In shard_id s x db.shards v.keys m r.0 e)
      ∙ ready-queued run_id x r.1

module _ (env : Env) (now : ℕ) (broker : Broker) where
  pub lease_ready-Change :
      (run_id : String) (limit : ℕ) (db : Db)
      → IsValid env db
      → Change env db (lease_all env now (ready_shards env now run_id limit db) db)
  lease_ready-Change run_id limit db v =
      lease_all-Change env now _ db v (ready_shards-Distinct env now run_id limit db v)
        (ready_shards-AreQueued env now run_id limit db v)

  dispatch_within-Change :
      (run_id : String) (limit : ℕ) (db : Db)
      → IsValid env db
      → Change env db (dispatch_within env now broker run_id limit db).1
  unfolding dispatch_within
  dispatch_within-Change run_id limit db v = elim (Bool-cases (limit == 0)) [
    | inl e ↦ rw (e, dispatch_within) (Change-refl v)
    | inr e ↦
        let leased = lease_ready-Change run_id limit db v in
        rw (e, dispatch_within)
          (Change-trans leased (publish_pending_outbox-Change env now broker 100 _ leased.valid))
  ]

  dispatch_with-Change :
      (run_id : String) (profile : Option ScanProfile) (db : Db)
      → IsValid env db
      → Change env db (dispatch_with env now broker run_id profile db).1
  unfolding dispatch_with
  dispatch_with-Change run_id none db v = Change-refl v
  dispatch_with-Change run_id (some profile) db v =
      dispatch_within-Change run_id (capacity db run_id profile) db v

  pub dispatch_run-Change :
      (run_id : String) (run : Option ScanRun) (db : Db)
      → IsValid env db
      → Change env db (dispatch_run env now broker run_id run db).1
  unfolding dispatch_run
  dispatch_run-Change run_id none db v = Change-refl v
  dispatch_run-Change run_id (some run) db v =
      Change-if (is_closed run.status) (0, db)
        (dispatch_with env now broker run_id (find of_run db.profiles) db) (Change-refl v)
        (dispatch_with-Change run_id (find of_run db.profiles) db v)
    where
      of_run : ScanProfile → Bool
      of_run p = p.id == run.profile_id

  pub dispatch_available_shards-Change :
      (run_id : String) (db : Db)
      → IsValid env db
      → Change env db (dispatch_available_shards env now broker run_id db).1
  unfolding dispatch_available_shards
  dispatch_available_shards-Change run_id db v =
      dispatch_run-Change run_id (find (λ r. r.id == run_id) db.runs) db v
