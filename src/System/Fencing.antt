-- ===== src/System/Fencing.antt =====
-- What a worker whose token has been used or withdrawn can still do, whatever the processes do later.
use transport_lookout.Prelude.{
  ℕ, String, ◌≡◌, sym, ap, subst, ◌∙◌, ◌⊎◌, inl, inr, true, false, Option, none, some, arith, ◌==◌,
  nat_eq, count, modify, In, In-modify, Distinct-In, Bool-cases,
}
use transport_lookout.Config.{Env, NoRepeat}
use transport_lookout.Model.{Db, ScanShard, ShardStatus}
use transport_lookout.Outbox.{Broker}
use transport_lookout.Recovery.{
  is_stale, requeued, requeue_stale, recover_expired_leases, stale_run_ids,
}
use transport_lookout.Recovery.Shards.{requeue_stale-Change, dispatch_runs-Change}
use transport_lookout.Worker.Lease.{
  holds, claim_lease, claimed_by, current_lease, finish_lease, Values, heartbeat,
}
use transport_lookout.Worker.Lease.Shards.{claim_lease-Change}
use transport_lookout.Shard.Change.{Drawn, IsValid, Change, Change-trans, shard_id}
use transport_lookout.System.{Reach, Reach-Change}
use transport_lookout.System.Tokens.{
  Lacks, Unclaimable, Change-Lacks, Change-Unclaimable, holds_intro, finish_lease-Lacks,
  heartbeat-Lacks, current_lease-Lacks, claim_lease-Unclaimable,
}

-- Nothing that the worker of the shard `i` does with the token `t` has an effect on the database.
pub record IsFenced (i t : String) (db : Db) : Type 0 where
  pub not_current : current_lease i t db ≡ false
  pub no_claim : (now : ℕ) (worker : String) → claim_lease now i t worker db ≡ (none, db)
  pub no_beat : (now : ℕ) → heartbeat now i t db ≡ db
  pub no_finish :
      (status : ShardStatus) (values : Values) → finish_lease i t status values db ≡ (false, db)

Lacks-IsFenced :
    (i t : String) (db : Db) → ((s : ScanShard) → In s db.shards → Lacks i t s) → IsFenced i t db
Lacks-IsFenced i t db h = record {
  not_current = current_lease-Lacks i t db h;
  no_claim = λ now worker. claim_lease-Unclaimable i t db now worker (λ s m a b. h s m a);
  no_beat = heartbeat-Lacks i t db h;
  no_finish = finish_lease-Lacks i t db h;
}

module _ (env : Env) (fresh : NoRepeat env) where
  -- With identifiers that do not repeat, from a valid database: where no row of the shard `i` has the
  -- issued token `t`, the token is fenced off in every later state, whatever the processes do.
  pub lost_token-IsFenced :
      (i t : String) (db db' : Db)
      → IsValid env db
      → Drawn env db.drawn t
      → ((s : ScanShard) → In s db.shards → Lacks i t s)
      → Reach env db db'
      → IsFenced i t db'
  lost_token-IsFenced i t db db' v d h r =
      Lacks-IsFenced i t db' (Change-Lacks env fresh i t (Reach-Change fresh v r) d h)

  requeue_stale-Lacks :
      (now : ℕ) (s : ScanShard) (t : String) (db : Db)
      → IsValid env db
      → In s db.shards
      → is_stale env now s ≡ true
      → (y : ScanShard) → In y (requeue_stale env now db).shards
      → Lacks s.id t y
  unfolding requeue_stale requeued
  requeue_stale-Lacks now s t db v m stale y j e q =
      let (x, k, c) = In-modify (is_stale env now) requeued y db.shards j in split x k c
    where
      split :
          (x : ScanShard)
          → In x db.shards
          → (is_stale env now x ≡ true) × (y ≡ requeued x) ⊎ (is_stale env now x ≡ false) × (y ≡ x)
          → ⊥
      split x k (inl (a, b)) = cc (ap (λ (z : ScanShard). z.lease_token) b)
      split x k (inr (a, b)) =
          let same = Distinct-In shard_id x s db.shards v.keys k m (sym (ap shard_id b) ∙ e) in
          cc (ap (λ (z : ScanShard). is_stale env now z) same)

  -- With identifiers that do not repeat, from a valid database: after the scheduler has recovered a
  -- stale shard, no token that was issued before is good for it, at once and in every later state,
  -- also when the shard has been leased again.
  pub recovered_lease-IsFenced :
      (now : ℕ) (broker : Broker) (s : ScanShard) (t : String) (db db' : Db)
      → IsValid env db
      → In s db.shards
      → is_stale env now s ≡ true
      → Drawn env db.drawn t
      → Reach env (recover_expired_leases env now broker db).1 db'
      → IsFenced s.id t db'
  unfolding recover_expired_leases
  recovered_lease-IsFenced now broker s t db db' v m stale d r =
      let back = requeue_stale-Change env now db v in
      let leased = dispatch_runs-Change env now broker (stale_run_ids env now db) _ back.valid in
      let later = Change-trans leased (Reach-Change fresh leased.valid r) in
      let (k, lt, q) = d in
      let le = back.drawn_le in
      Lacks-IsFenced s.id t db' (
        Change-Lacks env fresh s.id t later (k, omega arith, q)
          (requeue_stale-Lacks now s t db v m stale))

  shards-claim_lease :
      (now : ℕ) (i t worker : String) (shard : ScanShard) (db db' : Db)
      → claim_lease now i t worker db ≡ (some shard, db')
      → db'.shards ≡ modify (holds ShardStatus.leased i t) (claimed_by now worker) db.shards
  unfolding claim_lease
  shards-claim_lease now i t worker shard db db' h =
      elim (Bool-cases (count (holds ShardStatus.leased i t) db.shards == 1)) [
        | inl e ↦ sym (ap (λ (r : Option ScanShard × Db). r.1.shards) (rw (e, claim_lease) at h))
        | inr e ↦ absurd (cc (ap (λ (r : Option ScanShard × Db). r.0) (rw (e, claim_lease) at h)))
      ]

  claimed-Unclaimable :
      (now : ℕ) (i t worker : String) (shard : ScanShard) (db db' : Db)
      → claim_lease now i t worker db ≡ (some shard, db')
      → (y : ScanShard) → In y db'.shards
      → Unclaimable i t y
  unfolding claimed_by
  claimed-Unclaimable now i t worker shard db db' h y j a b q =
      let (x, k, c) =
        In-modify (holds ShardStatus.leased i t) (claimed_by now worker) y db.shards
          (rw (shards-claim_lease now i t worker shard db db' h) at j) in
      split x c
    where
      split :
          (x : ScanShard)
          → (holds ShardStatus.leased i t x ≡ true) × (y ≡ claimed_by now worker x)
            ⊎ (holds ShardStatus.leased i t x ≡ false) × (y ≡ x)
          → ⊥
      split x (inl (e, w)) = cc (ap (λ (z : ScanShard). z.status) w)
      split x (inr (e, w)) =
          cc (holds_intro i t ShardStatus.leased y a b q, ap (holds ShardStatus.leased i t) w)

  -- With identifiers that do not repeat, from a valid database: an issued token that has claimed its
  -- shard claims it in no later state, so a task that the broker delivers again is not executed again.
  pub claim_once :
      (now later : ℕ) (i t worker other : String) (shard : ScanShard) (db db' db'' : Db)
      → IsValid env db
      → Drawn env db.drawn t
      → claim_lease now i t worker db ≡ (some shard, db')
      → Reach env db' db''
      → claim_lease later i t other db'' ≡ (none, db'')
  claim_once now later i t worker other shard db db' db'' v d h r =
      let c : Change env db db' =
        subst (λ (q : Option ScanShard × Db). Change env db q.1) h
          (claim_lease-Change env now i t worker db v) in
      let le = c.drawn_le in
      let (k, lt, q) = d in
      claim_lease-Unclaimable i t db'' later other (
        Change-Unclaimable env fresh i t (Reach-Change fresh c.valid r) (k, omega arith, q)
          (claimed-Unclaimable now i t worker shard db db' h))
