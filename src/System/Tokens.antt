-- ===== src/System/Tokens.antt =====
-- Execution tokens: no update gives a shard a token that it has lost, and the statements that look for
-- such a token find nothing.
use transport_lookout.Prelude.{
  ℕ, ◌≤◌, String, ◌≡◌, ◌≢◌, refl, ap, ◌∙◌, inl, inr, true, false, Option, none, some, List, arith,
  nat_eq, string_eq, eq_iff, sql_eq, In, find-none_intro, modify_none, count-zero_intro, Bool-cases,
}
use transport_lookout.Config.{Env, NoRepeat}
use transport_lookout.Model.{Db, ScanShard, ShardStatus, new_shard, shard_status_eq, shard_beq_iff}
use transport_lookout.Dispatch.{leased_until}
use transport_lookout.Recovery.{requeued}
use transport_lookout.Worker.Lease.{
  holds, claim_lease, claimed_by, current_lease, finish_lease, released, Values, heartbeat, beat,
}
use transport_lookout.Cancel.{cancelled_shard}
use transport_lookout.Shard.{
  Update, leases, binds, requeues, claims, beats, releases, cancels, Updates, here, next, Origin,
  earlier, created, IsRelease,
}
use transport_lookout.Shard.Change.{Drawn, Change}

-- What every update keeps, and every new row has, holds of every later row.
module _ {env : Env} {floor : ℕ} (P : ScanShard → Type 0)
    (step : (s t : ScanShard) → Update env floor s t → P s → P t) where
  Updates-keep : {s t : ScanShard} → Updates env floor s t → P s → P t
  Updates-keep here h = h
  Updates-keep (next {t} {u} us v) h = step t u v (Updates-keep us h)

  Origin-keeps :
      ((n : ℕ) (run_id cidr zone : String) → P (new_shard (env.uuid4 n) run_id cidr zone))
      → {rows : List ScanShard} → ((s : ScanShard) → In s rows → P s)
      → (y : ScanShard) → Origin env floor rows y
      → P y
  Origin-keeps new old y (earlier x i us) = Updates-keep us (old x i)
  Origin-keeps new old y (created n run_id cidr zone l us) =
      Updates-keep us (new n run_id cidr zone)

-- The shard `i` does not have the token `t`.
abbrev pub Lacks : String → String → ScanShard → Type 0
Lacks i t s = s.id ≡ i → s.lease_token ≢ some t

-- The shard `i` cannot be claimed by the token `t`.
abbrev pub Unclaimable : String → String → ScanShard → Type 0
Unclaimable i t s = s.id ≡ i → s.status ≡ ShardStatus.leased → s.lease_token ≢ some t

release-ne-leased : (status : ShardStatus) → IsRelease status → status ≢ ShardStatus.leased
release-ne-leased ShardStatus.leased r e = r
release-ne-leased ShardStatus.queued r e = absurd (cc)
release-ne-leased _ r e = absurd (cc)

module _ (env : Env) (fresh : NoRepeat env) (i t : String) where
  -- A token that is drawn from now on is not `t`.
  new_token : {floor n : ℕ} → Drawn env floor t → floor ≤ n → some (env.uuid4 n) ≢ some t
  new_token {floor} {n} (k, lt, q) h e =
      let w : env.uuid4 n ≡ t = cc in absurd (omega (arith, fresh n k (w ∙ q)))

  Update-Lacks :
      {floor : ℕ} {s u : ScanShard}
      → Drawn env floor t
      → Update env floor s u
      → Lacks i t s
      → Lacks i t u
  unfolding leased_until requeued claimed_by beat released cancelled_shard
  Update-Lacks d (leases x now n h e) l = λ k. new_token d h
  Update-Lacks d (binds x n h e) l = λ k. new_token d h
  Update-Lacks d (requeues x e) l = λ k q. absurd (cc)
  Update-Lacks d (claims x now worker e) l = l
  Update-Lacks d (beats x now e) l = l
  Update-Lacks d (releases x status (Values.failed_with m) e r) l = l
  Update-Lacks d (releases x status (Values.artifacts a b) e r) l = l
  Update-Lacks d (releases x status (Values.retry_at a b) e r) l = l
  Update-Lacks d (cancels x e) l = l

  Update-Unclaimable :
      {floor : ℕ} {s u : ScanShard}
      → Drawn env floor t
      → Update env floor s u
      → Unclaimable i t s
      → Unclaimable i t u
  unfolding leased_until requeued claimed_by beat released cancelled_shard
  Update-Unclaimable d (leases x now n h e) l = λ k w. new_token d h
  Update-Unclaimable d (binds x n h e) l = λ k w. new_token d h
  Update-Unclaimable d (requeues x e) l = λ k w q. absurd (cc)
  Update-Unclaimable d (claims x now worker e) l = λ k w q. absurd (cc)
  Update-Unclaimable d (beats x now e) l = l
  Update-Unclaimable d (releases x status (Values.failed_with m) e r) l =
      λ k w q. release-ne-leased status r w
  Update-Unclaimable d (releases x status (Values.artifacts a b) e r) l =
      λ k w q. release-ne-leased status r w
  Update-Unclaimable d (releases x status (Values.retry_at a b) e r) l =
      λ k w q. release-ne-leased status r w
  Update-Unclaimable d (cancels x e) l = λ k w q. absurd (cc)

  pub Change-Lacks :
      {db db' : Db}
      → Change env db db'
      → Drawn env db.drawn t
      → ((s : ScanShard) → In s db.shards → Lacks i t s)
      → (y : ScanShard) → In y db'.shards
      → Lacks i t y
  Change-Lacks c d h y m =
      Origin-keeps (Lacks i t) (λ s u w. Update-Lacks d w) (λ n run_id cidr zone k q. absurd (cc)) h
        y (c.origin y m)

  pub Change-Unclaimable :
      {db db' : Db}
      → Change env db db'
      → Drawn env db.drawn t
      → ((s : ScanShard) → In s db.shards → Unclaimable i t s)
      → (y : ScanShard) → In y db'.shards
      → Unclaimable i t y
  Change-Unclaimable c d h y m =
      Origin-keeps (Unclaimable i t) (λ s u w. Update-Unclaimable d w)
        (λ n run_id cidr zone k w q. absurd (cc)) h y (c.origin y m)

-- Statements that look for a token which no row has.
module _ (i t : String) where
  pub holds_parts :
      (status : ShardStatus) (s : ScanShard)
      → holds status i t s ≡ true
      → (s.id ≡ i) × (s.status ≡ status) × (s.lease_token ≡ some t)
  holds_parts status s h = (
    (eq_iff s.id i).0 (ground arith),
    (shard_beq_iff s.status status).0 (ground arith),
    has_token s.lease_token (ground arith),
  )
    where
      has_token : (o : Option String) → sql_eq o t ≡ true → o ≡ some t
      has_token none e = absurd (cc)
      has_token (some a) e = ap some ((eq_iff a t).0 e)

  pub holds_intro :
      (status : ShardStatus) (s : ScanShard)
      → s.id ≡ i
      → s.status ≡ status
      → s.lease_token ≡ some t
      → holds status i t s ≡ true
  holds_intro status s a b c =
      ground (arith, (eq_iff s.id i).1 a, (shard_beq_iff s.status status).1 b, (eq_iff t t).1 refl)

  pub not-holds :
      (status : ShardStatus) (s : ScanShard)
      → ((s.id ≡ i) → (s.status ≡ status) → s.lease_token ≢ some t)
      → holds status i t s ≡ false
  not-holds status s h = elim (Bool-cases (holds status i t s)) [
    | inl e ↦ let (a, b, c) = holds_parts status s e in absurd (h a b c)
    | inr e ↦ e
  ]

module _ (i t : String) (db : Db) where
  module _ (lacks : (s : ScanShard) → In s db.shards → Lacks i t s) where
    no_holder : (status : ShardStatus) (s : ScanShard) → In s db.shards → holds status i t s ≡ false
    no_holder status s m = not-holds i t status s (λ a b. lacks s m a)

    pub finish_lease-Lacks :
        (status : ShardStatus) (values : Values) → finish_lease i t status values db ≡ (false, db)
    unfolding finish_lease
    finish_lease-Lacks status values =
        rw
          (
            count-zero_intro (holds ShardStatus.running i t) db.shards
                (no_holder ShardStatus.running),
            modify_none (holds ShardStatus.running i t) (released status values) db.shards
                (no_holder ShardStatus.running),
          )
          refl

    pub heartbeat-Lacks : (now : ℕ) → heartbeat now i t db ≡ db
    unfolding heartbeat
    heartbeat-Lacks now =
        rw
          (modify_none (holds ShardStatus.running i t) (beat now) db.shards
            (no_holder ShardStatus.running))
          refl

    pub current_lease-Lacks : current_lease i t db ≡ false
    unfolding current_lease
    current_lease-Lacks =
        rw
          (find-none_intro (holds ShardStatus.running i t) db.shards
            (no_holder ShardStatus.running))
          refl

  pub claim_lease-Unclaimable :
      (now : ℕ) (worker : String)
      → ((s : ScanShard) → In s db.shards → Unclaimable i t s)
      → claim_lease now i t worker db ≡ (none, db)
  unfolding claim_lease
  claim_lease-Unclaimable now worker h =
      rw
        (count-zero_intro (holds ShardStatus.leased i t) db.shards
          (λ s m. not-holds i t ShardStatus.leased s (λ a b. h s m a b)))
        refl
