-- ===== src/Worker/Execute/Retry.antt =====
-- What a failed attempt of `execute_shard` leaves of its shard.
use transport_lookout.Prelude.{
  ℕ, ◌+◌, ◌*◌, ◌^◌, ◌≤◌, ◌<◌, String, Bool, true, ◌≡◌, refl, subst, inl, inr, ◌⊎◌, some, none,
  leb→le, List, [], ◌∷◌, arith, leb, ◌==◌, nat_eq, nat_beq_iff, string_eq, eq_iff, count, In,
  In-modify_intro, count-pos, count-key, Bool-cases, if◌then◌else◌,
}
use transport_lookout.Config.{Env}
use transport_lookout.Model.{Db, ScanShard, ShardStatus, shard_status_eq}
use transport_lookout.Dispatch.{is_ready}
use transport_lookout.Finalize.{is_terminal}
use transport_lookout.Worker.Lease.{Values, failed_with, retry_at, holds, released, finish_lease}
use transport_lookout.Worker.Execute.{fail_shard}
use transport_lookout.Shard.Change.{IsValid, shard_id}

count_le :
    (p q : ScanShard → Bool) (xs : List ScanShard)
    → ((x : ScanShard) → p x ≡ true → q x ≡ true)
    → count p xs ≤ count q xs
unfolding count
count_le p q [] h = omega arith
count_le p q (x ∷ xs) h = ground (arith, h x, count_le p q xs h)

-- The statement of a worker that holds the shard finds its row, and no other.
finish_held :
    (env : Env) (db : Db) (s : ScanShard) (token : String) (status : ShardStatus) (values : Values)
    → IsValid env db
    → In s db.shards
    → holds ShardStatus.running s.id token s ≡ true
    → ((finish_lease s.id token status values db).0 ≡ true)
      × In (released status values s) (finish_lease s.id token status values db).1.shards
unfolding finish_lease
finish_held env db s token status values v i h =
    let p = holds ShardStatus.running s.id token in
    let some_row = count-pos p s db.shards i h in
    let one_row = count-key shard_id s.id db.shards v.keys in
    let fewer = count_le p (λ x. x.id == s.id) db.shards (λ x e. ground (arith, e)) in
    let stored = In-modify_intro p (released status values) s db.shards i in
    (
      (nat_beq_iff (count p db.shards) 1).1 (omega (arith, some_row, one_row, fewer)),
      subst
          (λ b.
            In (if b then released status values s else s)
              (finish_lease s.id token status values db).1.shards)
          h stored,
    )

-- Where a failed attempt leaves the shard.
abbrev pub IsRetried : Env → ℕ → ScanShard → ScanShard → Type 0
IsRetried env now s r =
    (env.max_shard_attempts ≤ s.attempts) × (is_terminal r.status ≡ true)
    ⊎ (s.attempts < env.max_shard_attempts)
      × ((t : ℕ) → is_ready r.run_id t r ≡ leb (now + 2 ^ s.attempts * 30) t)

-- In a valid database: when a worker that holds a running shard reports a failure, the report is accepted, and the table has
-- the shard's row with the error, without a worker. With the attempts used up it is terminal; else it
-- can be dispatched at exactly the instants that are at least 30 * 2 ^ attempts seconds later.
pub fail_shard-IsRetried :
    (env : Env) (db : Db) (now : ℕ) (s : ScanShard) (token error : String)
    → IsValid env db
    → In s db.shards
    → s.status ≡ ShardStatus.running
    → s.lease_token ≡ some token
    → ((fail_shard env now s token error db).0 ≡ true)
      × ((r : ScanShard) × In r (fail_shard env now s token error db).1.shards
          × (r.id ≡ s.id)
          × (r.error ≡ some error)
          × (r.worker_id ≡ none)
          × IsRetried env now s r)
unfolding fail_shard released
fail_shard-IsRetried env db now s token error v i running held =
    let h : holds ShardStatus.running s.id token s ≡ true =
      rw (running, held) (ground (arith, eq_iff s.id s.id, eq_iff token token)) in
    elim (Bool-cases (leb env.max_shard_attempts s.attempts)) [
      | inl e ↦
          let (a, m) =
            finish_held env db s token ShardStatus.dead_letter (failed_with error) v i h in
          rw (e) (a, (_, m, refl, refl, refl, inl (leb→le _ _ e, refl)))
      | inr e ↦
          let (a, m) =
            finish_held env db s token ShardStatus.queued
              (retry_at error (now + 2 ^ s.attempts * 30)) v i h in
          rw (e) (
            a,
            (
              _,
              m,
              refl,
              refl,
              refl,
              inr (ground (arith, e), λ t. ground (arith, eq_iff s.run_id s.run_id)),
            ),
          )
    ]
