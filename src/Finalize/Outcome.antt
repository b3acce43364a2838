-- ===== src/Finalize/Outcome.antt =====
-- Which status a finalised run gets.
use transport_lookout.Prelude.{
  ◌≤◌, List, [], ◌∷◌, some, All, All-In, All-intro, ℕ, zero, suc, String, ◌≡◌, refl, ◌∙◌, ◌⊎◌, inl,
  inr, ◌↔◌, true, false, arith, ◌==◌, nat_eq, string_eq, eq_iff, count, modify, In, count-zero,
  count-zero_intro, Bool-cases,
}
use transport_lookout.Config.{Env}
use transport_lookout.Model.{
  Db, ScanRun, ScanShard, RunStatus, run_status_eq, shard_status_eq, shard_beq_iff, ShardStatus,
}
use transport_lookout.Audit.{audit}
use transport_lookout.Finalize.{is_failure, outcome, finished, conclude, finalize_terminal_run}
use transport_lookout.Finalize.Gate.{done-finalize, runs-settle}

-- A shard of the run has failed or was given up.
abbrev pub IsFailed : String → ScanShard → Type 0
IsFailed run_id s =
    (s.run_id ≡ run_id) × ((s.status ≡ ShardStatus.failed) ⊎ (s.status ≡ ShardStatus.dead_letter))

abbrev pub AnyFailed : String → List ScanShard → Type 0
AnyFailed run_id shards = (s : ScanShard) × In s shards × IsFailed run_id s

abbrev pub NoneFailed : String → List ScanShard → Type 0
NoneFailed run_id shards = All (λ s. ¬ IsFailed run_id s) shards

-- The status that a finalised run is to have.
abbrev pub IsOutcome : String → Db → RunStatus → Type 0
IsOutcome run_id db status =
    (status ≡ RunStatus.completed) × NoneFailed run_id db.shards
    ⊎ (status ≡ RunStatus.failed) × AnyFailed run_id db.shards

pub is_failure_iff :
    (run_id : String) (s : ScanShard) → (is_failure run_id s ≡ true) ↔ IsFailed run_id s
is_failure_iff run_id s = (
  λ h. (
    (eq_iff s.run_id run_id).0 (ground (arith, h)),
    elim (Bool-cases (s.status == ShardStatus.failed)) [
      | inl t ↦ inl ((shard_beq_iff s.status ShardStatus.failed).0 t)
      | inr t ↦ inr ((shard_beq_iff s.status ShardStatus.dead_letter).0 (ground (arith, h, t)))
    ],
  ),
  λ (e, k). elim k [
    | inl t ↦ rw (t, (eq_iff s.run_id run_id).1 e) refl
    | inr t ↦ rw (t, (eq_iff s.run_id run_id).1 e) refl
  ],
)

none_failing-NoneFailed :
    (run_id : String) (db : Db)
    → count (is_failure run_id) db.shards ≡ 0
    → NoneFailed run_id db.shards
none_failing-NoneFailed run_id db h = All-intro _ db.shards (λ s m k.
    let z = count-zero (is_failure run_id) s db.shards h m in
    let t = (is_failure_iff run_id s).1 k in cc)

failing-AnyFailed :
    (run_id : String) (xs : List ScanShard) → 1 ≤ count (is_failure run_id) xs → AnyFailed run_id xs
unfolding count
failing-AnyFailed run_id [] h = absurd (omega (arith, h))
failing-AnyFailed run_id (x ∷ xs) h = elim (Bool-cases (is_failure run_id x)) [
  | inl t ↦ (x, inl refl, (is_failure_iff run_id x).0 t)
  | inr t ↦ let (s, m, k) = failing-AnyFailed run_id xs (rw t at h) in (s, inr m, k)
]

pub NoneFailed-none_failing :
    (run_id : String) (shards : List ScanShard)
    → NoneFailed run_id shards
    → count (is_failure run_id) shards ≡ 0
NoneFailed-none_failing run_id shards h = count-zero_intro (is_failure run_id) shards (λ s m.
    elim (Bool-cases (is_failure run_id s)) [
      | inl t ↦ absurd (All-In _ s shards h m ((is_failure_iff run_id s).0 t))
      | inr t ↦ t
    ])

module _ (env : Env) (now : ℕ) (run : ScanRun) (actor : String) (db : Db) where
  runs-finalize :
      (finalize_terminal_run env now run actor db).0 ≡ true
      → (finalize_terminal_run env now run actor db).1.runs
        ≡ modify
            (λ r. r.id == run.id)
            (finished (outcome (count (is_failure run.id) db.shards)) now)
            db.runs
  runs-finalize h = rw (done-finalize env now run actor db h) (
      unfold conclude audit in
      runs-settle env now run actor db (outcome (count (is_failure run.id) db.shards)))

  outcome-IsOutcome :
      (n : ℕ) → count (is_failure run.id) db.shards ≡ n → IsOutcome run.id db (outcome n)
  outcome-IsOutcome zero h = inl (refl, none_failing-NoneFailed run.id db h)
  outcome-IsOutcome (suc n) h = inr (refl, failing-AnyFailed run.id db.shards (omega (arith, h)))

  -- A run that is finalised gets a status and the instant of its completion, and no other run and
  -- nothing else of it changes. The status is failed if a shard of the run is failed or dead_letter,
  -- and completed if none is. A run that is not finalised changes nothing.
  pub finalize-IsOutcome :
      ((finalize_terminal_run env now run actor db).0 ≡ true)
        × ((status : RunStatus) × IsOutcome run.id db status
            × ((finalize_terminal_run env now run actor db).1.runs
                ≡ modify
                    (λ r. r.id == run.id)
                    (λ r. record r { status = status; completed_at = some now })
                    db.runs))
      ⊎ ((finalize_terminal_run env now run actor db).0 ≡ false)
        × ((finalize_terminal_run env now run actor db).1 ≡ db)
  finalize-IsOutcome = elim (Bool-cases (finalize_terminal_run env now run actor db).0) [
    | inl h ↦ inl (
      h,
      (
        outcome (count (is_failure run.id) db.shards),
        outcome-IsOutcome (count (is_failure run.id) db.shards) refl,
        runs-finalize h ∙ (unfold finished in refl),
      ),
    )
    | inr h ↦ inr (h, unfold finalize_terminal_run in ground arith)
  ]
