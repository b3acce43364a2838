-- ===== src/Scheduler.antt =====
-- src/scanpod_enterprise/scheduler.py: `dispatch_ready_runs`, `dispatch_due_schedules` and one round of
-- the loop of `main`.
pub mod Advance
pub mod Progress
use transport_lookout.Prelude.{
  ℕ, zero, suc, ◌+◌, ◌*◌, String, Bool, true, false, ◌&&◌, ◌||◌, not, Option, none, some, List, [],
  ◌∷◌, ◌==◌, nat_eq, string_eq, if◌then◌else◌, leb, select, find, modify, count,
}
use transport_lookout.Config.{Env}
use transport_lookout.Http.{Result, ok, raise, HttpException, ◌>>=◌}
use transport_lookout.Model.{
  Db, InventoryScope, ScanProfile, ScanRun, ScanSchedule, ScanShard, RunStatus, ShardStatus,
  run_status_eq, shard_status_eq, Field, text,
}
use transport_lookout.Audit.{audit}
use transport_lookout.Outbox.{Broker, count_if, publish_pending_outbox}
use transport_lookout.Recovery.{recover_expired_leases}
use transport_lookout.Dispatch.{dispatch_available_shards, is_ready}
use transport_lookout.Finalize.{is_unfinished, reconcile_terminal_runs}
use transport_lookout.Runs.{create_run}

-- The joined query with DISTINCT: the unfinished runs that have a ready shard.
abbrev pub has_ready : ℕ → List ScanShard → ScanRun → Bool
has_ready now shards run = is_unfinished run.status && not (count (is_ready run.id now) shards == 0)

unfoldable pub dispatch_each : Env → ℕ → Broker → List ScanRun → ℕ → Db → ℕ × Db
dispatch_each env now broker [] dispatched db = (dispatched, db)
dispatch_each env now broker (run ∷ rest) dispatched db =
    let (n, db') = dispatch_available_shards env now broker run.id db in
    dispatch_each env now broker rest (dispatched + n) db'

unfoldable pub dispatch_ready_runs : Env → ℕ → Broker → Db → ℕ × Db
unfolding dispatch_each
dispatch_ready_runs env now broker db =
    dispatch_each env now broker (select (has_ready now db.shards) db.runs) 0 db

-- `while next_run <= now: next_run += step`, on fuel.
unfoldable pub skip_missed : ℕ → ℕ → ℕ → ℕ → Option ℕ
skip_missed zero step now next_run = none
skip_missed (suc fuel) step now next_run =
    let later = skip_missed fuel step now (next_run + step) in
    if leb next_run now then later else some next_run

-- The next instant of a schedule, with one round of fuel more than there are seconds to catch up.
unfoldable pub next_instant : ScanSchedule → ℕ → Option ℕ
unfolding skip_missed
next_instant schedule now =
    skip_missed (now + 1) (schedule.interval_minutes * 60) now
      (schedule.next_run_at + schedule.interval_minutes * 60)

abbrev pub is_scheduled : ℕ → ScanSchedule → Bool
is_scheduled now s = s.enabled && leb s.next_run_at now

abbrev pub set_schedule : String → (ScanSchedule → ScanSchedule) → Db → Db
set_schedule id f db = record db { schedules = modify (λ s. s.id == id) f db.schedules }

unfoldable pub disabled : ScanSchedule → ScanSchedule
disabled s = record s { enabled = false }

unfoldable pub advanced : ℕ → ScanSchedule → ScanSchedule
advanced next_run s = record s { next_run_at = next_run }

unfoldable pub disable_broken : Env → ScanSchedule → Db → Db
unfolding disabled audit
disable_broken env schedule db =
    audit env "scheduler" "schedule.disabled" "scan_schedule" schedule.id
      (record { key = "reason"; value = text "scope/profile unavailable or incompatible" } ∷ [])
      (set_schedule schedule.id disabled db)

-- What one due schedule comes to: the loop goes on with a count and a state, an exception ends it and
-- keeps what was committed, and with an interval of 0 the inner loop has no end.
pub data Outcome : Type 0 where
  goes_on : Bool → Db → Outcome
  raised : HttpException → Db → Outcome
  hangs : Outcome

unfoldable pub finish_schedule : Env → ScanSchedule → Option ℕ → Db → Outcome
unfolding advanced audit
finish_schedule env schedule none db = hangs
finish_schedule env schedule (some next_run) db = goes_on true (
    audit env "scheduler" "schedule.dispatched" "scan_schedule" schedule.id []
      (set_schedule schedule.id (advanced next_run) db))

unfoldable pub after_run : Env → ℕ → ScanSchedule → Db → Result (ScanRun × Db) → Outcome
unfolding finish_schedule next_instant
after_run env now schedule db (raise e) = raised e db
after_run env now schedule db (ok (run, db')) =
    finish_schedule env schedule (next_instant schedule now) db'

-- One round of the loop, with the scope and the profile that the session found.
unfoldable pub run_schedule :
    Env
    → (String → Bool)
    → ℕ
    → Broker
    → ScanSchedule
    → Option InventoryScope
    → Option ScanProfile
    → Db
    → Outcome
unfolding disable_broken after_run
run_schedule env is_ipv6 now broker schedule none profile db =
    goes_on false (disable_broken env schedule db)
run_schedule env is_ipv6 now broker schedule (some scope) none db =
    goes_on false (disable_broken env schedule db)
run_schedule env is_ipv6 now broker schedule (some scope) (some profile) db =
    if not scope.approved || not (scope.zone == profile.zone)
    then goes_on false (disable_broken env schedule db)
    else after_run env now schedule db
        (create_run env is_ipv6 now broker scope profile schedule.created_by db)

unfoldable pub dispatch_schedule : Env → (String → Bool) → ℕ → Broker → ScanSchedule → Db → Outcome
unfolding run_schedule
dispatch_schedule env is_ipv6 now broker schedule db =
    run_schedule env is_ipv6 now broker schedule
      (find (λ s. s.id == schedule.inventory_scope_id) db.scopes)
      (find (λ p. p.id == schedule.profile_id) db.profiles) db

abbrev pub due_schedules : ℕ → Db → List ScanSchedule
due_schedules now db = select (is_scheduled now) db.schedules

-- How the loop over the due schedules ends.
pub data DueResult : Type 0 where
  returns : ℕ → Db → DueResult
  aborts : HttpException → Db → DueResult
  diverges : DueResult

abbrev pub next_due : Outcome → (Bool → Db → DueResult) → DueResult
next_due (goes_on done db) rest = rest done db
next_due (raised e db) rest = aborts e db
next_due hangs rest = diverges

unfoldable pub dispatch_due :
    Env → (String → Bool) → ℕ → Broker → List ScanSchedule → ℕ → Db → DueResult
unfolding dispatch_schedule
dispatch_due env is_ipv6 now broker [] dispatched db = returns dispatched db
dispatch_due env is_ipv6 now broker (schedule ∷ rest) dispatched db =
    next_due (dispatch_schedule env is_ipv6 now broker schedule db)
      (λ done db'. dispatch_due env is_ipv6 now broker rest (count_if done dispatched) db')

unfoldable pub dispatch_due_schedules : Env → (String → Bool) → ℕ → Broker → Db → DueResult
unfolding dispatch_due
dispatch_due_schedules env is_ipv6 now broker db =
    dispatch_due env is_ipv6 now broker (due_schedules now db) 0 db

-- One round of the loop of `main`, up to the sleep.
unfoldable pub scheduler_round : Env → (String → Bool) → ℕ → Broker → Db → DueResult
unfolding dispatch_ready_runs dispatch_due_schedules
scheduler_round env is_ipv6 now broker db =
    let recovered = (recover_expired_leases env now broker db).1 in
    let published = (publish_pending_outbox env now broker 100 recovered).1 in
    let reconciled = (reconcile_terminal_runs env now published).1 in
    let ready = (dispatch_ready_runs env now broker reconciled).1 in
    dispatch_due_schedules env is_ipv6 now broker ready
