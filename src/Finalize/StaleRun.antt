-- ===== src/Finalize/StaleRun.antt =====
-- A worker finalises the run object that it has loaded, which may be older than the row.
use transport_lookout.Prelude.{
  ◌⊎◌, ◌≢◌, Bool, sym, ap, subst, List, eq_iff, Bool-cases, All, All-In, All-intro, All-modify, ℕ,
  String, ◌≡◌, refl, ◌∙◌, inl, inr, true, some, ◌==◌, nat_eq, string_eq, find, modify, find-modify,
  find-In,
}
use transport_lookout.Config.{Env}
use transport_lookout.Http.{ok}
use transport_lookout.Model.{
  Db, ScanRun, ScanShard, RunStatus, ShardStatus, run_status_eq, shard_status_eq,
}
use transport_lookout.Audit.{audit}
use transport_lookout.Cancel.{is_waiting, cancelled_shard, cancel_run, cancelled_run}
use transport_lookout.Cancel.Shards.{cancelled_db, cancel_run-eq-cancelled_db}
use transport_lookout.Cancel.Stops.{find-cancelled_db}
use transport_lookout.Worker.Lease.{
  Values, holds, released, finish_lease, failed_with, artifacts, retry_at,
}
use transport_lookout.Finalize.{finalize_terminal_run}
use transport_lookout.Finalize.Gate.{AllTerminal, finalize_iff}
use transport_lookout.Finalize.Outcome.{NoneFailed, IsOutcome, finalize-IsOutcome}

module _ (run_id shard_id token : String) where
  -- A shard of another run, or one that has completed or is cancelled.
  abbrev IsOver : ScanShard → Type 0
  IsOver s =
      (s.run_id ≢ run_id) ⊎ (s.status ≡ ShardStatus.completed) ⊎ (s.status ≡ ShardStatus.cancelled)

  -- The shard that the worker runs under its token.
  abbrev IsHeld : ScanShard → Type 0
  IsHeld s = (s.status ≡ ShardStatus.running) × (s.id ≡ shard_id) × (s.lease_token ≡ some token)

  abbrev IsWaiting : ScanShard → Type 0
  IsWaiting s = (s.status ≡ ShardStatus.queued) ⊎ (s.status ≡ ShardStatus.leased)

  -- No shard of the run has failed, and this worker alone is at work on it.
  abbrev pub IsLast : ScanShard → Type 0
  IsLast s = IsOver s ⊎ IsHeld s ⊎ IsWaiting s

  IsOver-or_IsHeld :
      (xs : List ScanShard)
      → All IsLast xs
      → All (λ s. IsOver s ⊎ IsHeld s) (modify (is_waiting run_id) cancelled_shard xs)
  unfolding cancelled_shard
  IsOver-or_IsHeld xs a =
      All-modify IsLast (λ s. IsOver s ⊎ IsHeld s) (is_waiting run_id) cancelled_shard xs
        (λ s e l. inl (inr (inr refl)))
        (λ s e l. elim l [
          | inl o ↦ inl o
          | inr k ↦ elim k [
            | inl h ↦ inr h
            | inr w ↦ elim (Bool-cases (s.run_id == run_id)) [
              | inl own ↦ absurd (elim w [
                | inl q ↦ (let z = rw (own, q) at e in cc)
                | inr q ↦ (let z = rw (own, q) at e in cc)
              ])
              | inr other ↦ inl (inl (λ k. let t = (eq_iff s.run_id run_id).1 k in cc))
            ]
          ]
        ])
        a

  released_status :
      (values : Values) (s : ScanShard)
      → (released ShardStatus.completed values s).status ≡ ShardStatus.completed
  unfolding released
  released_status (failed_with error) s = refl
  released_status (artifacts key discovery_key) s = refl
  released_status (retry_at error instant) s = refl

  over :
      (values : Values) (xs : List ScanShard)
      → All (λ s. IsOver s ⊎ IsHeld s) xs
      → All IsOver (
          modify
            (holds ShardStatus.running shard_id token)
            (released ShardStatus.completed values)
            xs)
  over values xs a =
      All-modify (λ s. IsOver s ⊎ IsHeld s) IsOver (holds ShardStatus.running shard_id token)
        (released ShardStatus.completed values) xs (λ s e k. inr (inl (released_status values s)))
        (λ s e k. elim k [
          | inl o ↦ o
          | inr (running, id, held) ↦ absurd (
              let q = (eq_iff token token).1 refl in
              let z = rw (running, (eq_iff s.id shard_id).1 id, held, q) at e in cc)
        ])
        a

over-AllTerminal :
    (run_id shard_id token : String) (db : Db)
    → All (IsOver run_id shard_id token) db.shards
    → AllTerminal run_id db
over-AllTerminal run_id shard_id token db a s m own =
    elim (All-In (IsOver run_id shard_id token) s db.shards a m) [
      | inl other ↦ absurd (other own)
      | inr k ↦ elim k [ inl c ↦ rw c refl | inr c ↦ rw c refl ]
    ]

over-NoneFailed :
    (run_id shard_id token : String) (db : Db)
    → All (IsOver run_id shard_id token) db.shards
    → NoneFailed run_id db.shards
over-NoneFailed run_id shard_id token db a = All-intro _ db.shards (λ s m (own, failed).
    elim (All-In (IsOver run_id shard_id token) s db.shards a m) [
      | inl other ↦ other own
      | inr k ↦ elim k [
        | inl c ↦ elim failed [
          | inl f ↦ (let z = sym c ∙ f in cc)
          | inr f ↦ (let z = sym c ∙ f in cc)
        ]
        | inr c ↦ elim failed [
          | inl f ↦ (let z = sym c ∙ f in cc)
          | inr f ↦ (let z = sym c ∙ f in cc)
        ]
      ]
    ])

outcome-completed :
    (run_id : String) (db : Db) (status : RunStatus)
    → NoneFailed run_id db.shards
    → IsOutcome run_id db status
    → status ≡ RunStatus.completed
outcome-completed run_id db status none_failed (inl (c, n)) = c
outcome-completed run_id db status none_failed (inr (f, (s, m, k))) =
    absurd (All-In _ s db.shards none_failed m k)

-- A row of the run with this status.
abbrev pub HasStatus : String → RunStatus → List ScanRun → Type 0
HasStatus run_id status runs =
    (row : ScanRun) × (find (λ q. q.id == run_id) runs ≡ some row) × (row.status ≡ status)

module _ (env : Env) (later : ℕ) (run : ScanRun) (db : Db) where
  -- The worker finalises its object of a run that is over, whatever the row says.
  finalize-HasStatus :
      (row : ScanRun)
      → find (λ q. q.id == run.id) db.runs ≡ some row
      → run.status ≡ RunStatus.running
      → AllTerminal run.id db
      → NoneFailed run.id db.shards
      → HasStatus run.id RunStatus.completed
          (finalize_terminal_run env later run "worker" db).1.runs
  finalize-HasStatus row e running t n =
      let done = (finalize_iff env later run "worker" db).1 (rw running refl, t) in
      elim (finalize-IsOutcome env later run "worker" db) [
        | inl (a, (status, o, rows)) ↦
            let ends = λ (r : ScanRun). record r { status = status; completed_at = some later } in
            (
              record row { status = status; completed_at = some later },
              rw rows (
                  find-modify (λ q. q.id) run.id (λ q. q.id == run.id) ends db.runs (λ q. refl)
                  ∙ rw (e, (find-In (λ q. q.id == run.id) row db.runs e).1) refl),
              outcome-completed run.id db status n o,
            )
        | inr (a, same) ↦ absurd (cc (done, a))
      ]

-- A worker has loaded a run while it was running, and runs its last shard: all others of the run are
-- queued, leased, completed or cancelled. An operator cancels the run, and then the worker completes its shard
-- under its token. The row is cancelled by then; the worker finalises its object of the run, and the
-- row is completed.
pub cancel_overridden :
    (env : Env) (now later : ℕ) (run cancelled r : ScanRun) (actor shard_id token : String)
    (values : Values) (db db' db'' : Db)
    → find (λ q. q.id == run.id) db.runs ≡ some r
    → run.status ≡ RunStatus.running
    → All (IsLast run.id shard_id token) db.shards
    → cancel_run env now r actor db ≡ ok (cancelled, db')
    → finish_lease shard_id token ShardStatus.completed values db' ≡ (true, db'')
    → HasStatus run.id RunStatus.cancelled db''.runs
      × HasStatus run.id RunStatus.completed
          (finalize_terminal_run env later run "worker" db'').1.runs
unfolding finish_lease audit
cancel_overridden env now later run cancelled r actor shard_id token values db db' db'' e running
      last c f =
    let id : r.id ≡ run.id = (eq_iff r.id run.id).0 (find-In (λ q. q.id == run.id) r db.runs e).1 in
    let stored = cancel_run-eq-cancelled_db env now r cancelled actor db db' c in
    let row : find (λ q. q.id == run.id) db'.runs ≡ some (cancelled_run now r) = rw stored (
      subst
        (λ i.
          find (λ q. q.id == i) (cancelled_db env now r actor db).runs ≡ some (cancelled_run now r))
        id
        (find-cancelled_db env now r actor db r
          (subst (λ i. find (λ q. q.id == i) db.runs ≡ some r) (sym id) e))) in
    let written = ap (λ (x : Bool × Db). x.1) f in
    let runs : db''.runs ≡ db'.runs = sym (ap (λ (x : Db). x.runs) written) in
    let shards : db'.shards ≡ modify (is_waiting run.id) cancelled_shard db.shards =
      ap (λ (x : Db). x.shards) stored
      ∙ ap (λ i. modify (is_waiting i) cancelled_shard db.shards) id in
    let kept : All (λ s. IsOver run.id shard_id token s ⊎ IsHeld run.id shard_id token s)
        db'.shards =
      rw shards (IsOver-or_IsHeld run.id shard_id token db.shards last) in
    let all_over : All (IsOver run.id shard_id token) db''.shards =
      subst (λ (x : Db). All (IsOver run.id shard_id token) x.shards) written
        (over run.id shard_id token values db'.shards kept) in
    let found : find (λ q. q.id == run.id) db''.runs ≡ some (cancelled_run now r) = rw runs row in
    (
      (cancelled_run now r, found, (unfold cancelled_run in refl)),
      finalize-HasStatus env later run db'' (cancelled_run now r) found running
          (over-AllTerminal run.id shard_id token db'' all_over)
          (over-NoneFailed run.id shard_id token db'' all_over),
    )
