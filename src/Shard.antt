-- ===== src/Shard.antt =====
-- The life of a row of `scan_shards` (src/scanpod_enterprise/models.py: `ScanShard`): the updates that
-- the program's statements make, each with the state in which it is made.
pub mod Change
use transport_lookout.Prelude.{ℕ, ◌≤◌, String, ◌≡◌, refl, ◌∙◌, ◌⊎◌, inl, inr, true, List, arith, In}
use transport_lookout.Config.{Env}
use transport_lookout.Model.{ScanShard, ShardStatus, new_shard}
use transport_lookout.Outbox.{set_token}
use transport_lookout.Dispatch.{leased_until, holds_slot}
use transport_lookout.Recovery.{requeued}
use transport_lookout.Worker.Lease.{claimed_by, released, beat, Values}
use transport_lookout.Cancel.{cancelled_shard}

-- The states in which a worker leaves a shard.
abbrev pub IsRelease : ShardStatus → Type 0
IsRelease ShardStatus.leased = ⊥
IsRelease ShardStatus.running = ⊥
IsRelease _ = Unit

-- `floor` bounds from below the identifiers that a new token may be.
pub data Update (env : Env) (floor : ℕ) : ScanShard → ScanShard → Type 0 where
  leases :
      (s : ScanShard) (now n : ℕ)
      → floor ≤ n
      → s.status ≡ ShardStatus.queued
      → Update env floor s (leased_until env now (env.uuid4 n) s)
  binds :
      (s : ScanShard) (n : ℕ)
      → floor ≤ n
      → s.status ≡ ShardStatus.leased
      → Update env floor s (set_token (env.uuid4 n) s)
  requeues : (s : ScanShard) → holds_slot s ≡ true → Update env floor s (requeued s)
  claims :
      (s : ScanShard) (now : ℕ) (worker : String)
      → s.status ≡ ShardStatus.leased
      → Update env floor s (claimed_by now worker s)
  beats :
      (s : ScanShard) (now : ℕ) → s.status ≡ ShardStatus.running → Update env floor s (beat now s)
  releases :
      (s : ScanShard) (status : ShardStatus) (values : Values)
      → s.status ≡ ShardStatus.running
      → IsRelease status
      → Update env floor s (released status values s)
  cancels :
      (s : ScanShard)
      → (s.status ≡ ShardStatus.queued) ⊎ (s.status ≡ ShardStatus.leased)
      → Update env floor s (cancelled_shard s)

-- Any number of updates.
pub data Updates (env : Env) (floor : ℕ) (s : ScanShard) : ScanShard → Type 0 where
  here : Updates env floor s s
  next : {t u : ScanShard} → Updates env floor s t → Update env floor t u → Updates env floor s u

-- Where a row of a later table comes from: an earlier row, or a shard created since.
pub data Origin (env : Env) (floor : ℕ) (rows : List ScanShard) (y : ScanShard) : Type 0 where
  earlier : (x : ScanShard) → In x rows → Updates env floor x y → Origin env floor rows y
  created :
      (n : ℕ) (run_id cidr zone : String)
      → floor ≤ n
      → Updates env floor (new_shard (env.uuid4 n) run_id cidr zone) y
      → Origin env floor rows y

module _ {env : Env} where
  pub Update-id : {floor : ℕ} {s t : ScanShard} → Update env floor s t → t.id ≡ s.id
  unfolding leased_until requeued claimed_by beat released cancelled_shard
  Update-id (leases s now n h e) = refl
  Update-id (binds s n h e) = refl
  Update-id (requeues s e) = refl
  Update-id (claims s now w e) = refl
  Update-id (beats s now e) = refl
  Update-id (releases s status (Values.failed_with x) e r) = refl
  Update-id (releases s status (Values.artifacts a b) e r) = refl
  Update-id (releases s status (Values.retry_at a b) e r) = refl
  Update-id (cancels s e) = refl

  pub Updates-id : {floor : ℕ} {s t : ScanShard} → Updates env floor s t → t.id ≡ s.id
  Updates-id here = refl
  Updates-id (next us u) = Update-id u ∙ Updates-id us

  pub Updates-trans :
      {floor : ℕ} {s t u : ScanShard}
      → Updates env floor s t
      → Updates env floor t u
      → Updates env floor s u
  Updates-trans us here = us
  Updates-trans us (next vs v) = next (Updates-trans us vs) v

  -- Later tokens only.
  Update-mono : {m n : ℕ} {s t : ScanShard} → m ≤ n → Update env n s t → Update env m s t
  Update-mono h (leases s now k l e) = leases s now k (omega arith) e
  Update-mono h (binds s k l e) = binds s k (omega arith) e
  Update-mono h (requeues s e) = requeues s e
  Update-mono h (claims s now w e) = claims s now w e
  Update-mono h (beats s now e) = beats s now e
  Update-mono h (releases s status v e r) = releases s status v e r
  Update-mono h (cancels s e) = cancels s e

  pub Updates-mono : {m n : ℕ} {s t : ScanShard} → m ≤ n → Updates env n s t → Updates env m s t
  Updates-mono h here = here
  Updates-mono h (next us u) = next (Updates-mono h us) (Update-mono h u)
