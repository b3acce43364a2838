-- ===== src/Scheduler/Progress.antt =====
-- After `dispatch_due_schedules` nothing is due.
use transport_lookout.Prelude.{
  All, All-In, ℕ, ◌≤◌, ◌<◌, String, Bool, true, false, ◌||◌, not, ◌≡◌, refl, sym, ap, ◌∙◌, inl, inr,
  Option, none, some, List, [], ◌∷◌, arith, ◌==◌, string_eq, find, modify, In, In-modify, In-select,
  In-select_intro, Bool-cases, eq_iff,
}
use transport_lookout.Config.{Env}
use transport_lookout.Http.{Result, ok, raise}
use transport_lookout.Model.{Db, InventoryScope, ScanProfile, ScanRun, ScanSchedule}
use transport_lookout.Audit.{audit}
use transport_lookout.Outbox.{Broker, count_if}
use transport_lookout.Dispatch.Tables.{dispatch_available_shards-SameTables}
use transport_lookout.Runs.{create_run, insert_run}
use transport_lookout.Runs.Shards.{create_run_inversion}
use transport_lookout.Scheduler.{
  Outcome, DueResult, goes_on, raised, hangs, returns, aborts, diverges, is_scheduled, disabled,
  advanced, disable_broken, finish_schedule, after_run, run_schedule, dispatch_schedule,
  due_schedules, next_due, dispatch_due, dispatch_due_schedules,
}
use transport_lookout.Scheduler.Advance.{next_instant_lem}

-- A due schedule as the loop takes it.
abbrev pub IsTimely : ℕ → ScanSchedule → Type 0
IsTimely now s = (1 ≤ s.interval_minutes) × (s.next_run_at ≤ now)

module _ (now : ℕ) where
  -- The row of the schedule has been written so that it is not due.
  abbrev Settles : ScanSchedule → Db → Db → Type 0
  Settles schedule db db' =
      (f : ScanSchedule → ScanSchedule) × (db'.schedules
        ≡ modify (λ s. s.id == schedule.id) f db.schedules)
      × ((s : ScanSchedule) → is_scheduled now (f s) ≡ false)

  abbrev Advances : ScanSchedule → Db → Outcome → Type 0
  Advances schedule db (goes_on done db') = Settles schedule db db'
  Advances schedule db (raised e db') = Unit
  Advances schedule db hangs = ⊥

  module _ (env : Env) (broker : Broker) (is_ipv6 : String → Bool) where
    disable_broken-Settles :
        (schedule : ScanSchedule) (db : Db) → Settles schedule db (disable_broken env schedule db)
    unfolding disable_broken disabled audit
    disable_broken-Settles schedule db = (disabled, refl, λ s. refl)

    finish_schedule-Advances :
        (schedule : ScanSchedule) (t : ℕ) (before db : Db)
        → db.schedules ≡ before.schedules
        → now < t
        → Advances schedule before (finish_schedule env schedule (some t) db)
    unfolding finish_schedule advanced audit
    finish_schedule-Advances schedule t before db e later = (
      advanced t,
      ap (modify (λ s. s.id == schedule.id) (advanced t)) e,
      λ s. ground (arith, later),
    )

    -- Creating a run leaves the schedules.
    create_run-schedules :
        (scope : InventoryScope) (profile : ScanProfile) (actor : String) (run : ScanRun)
        (db db' : Db)
        → create_run env is_ipv6 now broker scope profile actor db ≡ ok (run, db')
        → db'.schedules ≡ db.schedules
    unfolding insert_run audit
    create_run-schedules scope profile actor run db db' e =
        let (a, z, (cidrs, c, r, q)) =
          create_run_inversion env now scope profile actor is_ipv6 broker run db db' e in
        let dispatched =
          dispatch_available_shards-SameTables env now broker (env.uuid4 db.drawn)
            (insert_run env now scope profile actor cidrs db) in
        ap (λ (x : Db). x.schedules) q ∙ ap (λ (x : Db). x.schedules) dispatched

    after_run-Advances :
        (schedule : ScanSchedule) (db : Db) (result : Result (ScanRun × Db))
        → IsTimely now schedule
        → ((run : ScanRun) (db' : Db) → result ≡ ok (run, db') → db'.schedules ≡ db.schedules)
        → Advances schedule db (after_run env now schedule db result)
    unfolding after_run
    after_run-Advances schedule db (raise e) h same = tt
    after_run-Advances schedule db (ok (run, db')) (interval, due) same =
        let (k, t, ends, at, later, soon) = next_instant_lem schedule now interval due in
        rw ends (finish_schedule-Advances schedule t db db' (same run db' refl) later)

    run_schedule-Advances :
        (schedule : ScanSchedule) (scope : Option InventoryScope) (profile : Option ScanProfile)
        (db : Db)
        → IsTimely now schedule
        → Advances schedule db (run_schedule env is_ipv6 now broker schedule scope profile db)
    unfolding run_schedule
    run_schedule-Advances schedule none profile db h = disable_broken-Settles schedule db
    run_schedule-Advances schedule (some scope) none db h = disable_broken-Settles schedule db
    run_schedule-Advances schedule (some scope) (some profile) db h =
        elim (Bool-cases (not scope.approved || not (scope.zone == profile.zone))) [
          | inl e ↦ rw e (disable_broken-Settles schedule db)
          | inr e ↦ rw e (
              after_run-Advances schedule db _ h
                (λ run db' k. create_run-schedules scope profile schedule.created_by run db db' k))
        ]

  -- Every due schedule is still to come.
  abbrev Waits : List ScanSchedule → Db → Type 0
  Waits todo db =
      (s : ScanSchedule)
      → In s db.schedules
      → is_scheduled now s ≡ true
      → (t : ScanSchedule) × In t todo × (t.id ≡ s.id)

  Waits-Settles :
      (schedule : ScanSchedule) (todo : List ScanSchedule) (db db' : Db)
      → Settles schedule db db'
      → Waits (schedule ∷ todo) db
      → Waits todo db'
  Waits-Settles schedule todo db db' (f, e, settled) w s m due =
      let (x, n, k) = In-modify (λ y. y.id == schedule.id) f s db.schedules (rw e at m) in
      elim k [
        | inl (a, b) ↦ absurd (let q = settled x in cc)
        | inr (a, b) ↦
            let (t, i, same) = w x n (rw b at due) in (t, still x t todo a same i, rw b same)
      ]
    where
      still :
          (x t : ScanSchedule) (todo : List ScanSchedule)
          → (x.id == schedule.id) ≡ false
          → t.id ≡ x.id
          → In t (schedule ∷ todo)
          → In t todo
      still x t todo a same (inl e) =
          let q = (eq_iff x.id schedule.id).1 (sym same ∙ ap (λ (y : ScanSchedule). y.id) e) in
          absurd (cc)
      still x t todo a same (inr i) = i

  -- The loop ends, and with a result only where nothing is due.
  abbrev pub AllSettled : DueResult → Type 0
  AllSettled (returns n db) = (s : ScanSchedule) → In s db.schedules → is_scheduled now s ≡ false
  AllSettled (aborts e db) = Unit
  AllSettled diverges = ⊥

  next_due-AllSettled :
      (schedule : ScanSchedule) (db : Db) (o : Outcome) (rest : Bool → Db → DueResult)
      → Advances schedule db o
      → ((done : Bool) (db' : Db) → Settles schedule db db' → AllSettled (rest done db'))
      → AllSettled (next_due o rest)
  next_due-AllSettled schedule db (goes_on done db') rest a h = h done db' a
  next_due-AllSettled schedule db (raised e db') rest a h = tt
  next_due-AllSettled schedule db hangs rest a h = a

  module _ (env : Env) (is_ipv6 : String → Bool) (broker : Broker) where
    dispatch_due-AllSettled :
        (todo : List ScanSchedule) (dispatched : ℕ) (db : Db)
        → ((t : ScanSchedule) → In t todo → IsTimely now t)
        → Waits todo db
        → AllSettled (dispatch_due env is_ipv6 now broker todo dispatched db)
    unfolding dispatch_due dispatch_schedule
    dispatch_due-AllSettled [] dispatched db h w = λ s m. elim (Bool-cases (is_scheduled now s)) [
      | inl e ↦ let (t, i, k) = w s m e in absurd i
      | inr e ↦ e
    ]
    dispatch_due-AllSettled (schedule ∷ todo) dispatched db h w =
        next_due-AllSettled schedule db (dispatch_schedule env is_ipv6 now broker schedule db) _
          (run_schedule-Advances env broker is_ipv6 schedule
            (find (λ s. s.id == schedule.inventory_scope_id) db.scopes)
            (find (λ p. p.id == schedule.profile_id) db.profiles) db (h schedule (inl refl)))
          (λ done db' settles.
            dispatch_due-AllSettled todo (count_if done dispatched) db' (λ t i. h t (inr i))
              (Waits-Settles schedule todo db db' settles w))

    -- Where every interval is at least a minute, the loop over the due schedules does not run for
    -- ever, and when it returns, no enabled schedule is due any more. Nothing is said of the schedules
    -- where an exception ends the loop.
    pub dispatch_due_schedules-AllSettled :
        (db : Db)
        → All (λ s. 1 ≤ s.interval_minutes) db.schedules
        → AllSettled (dispatch_due_schedules env is_ipv6 now broker db)
    unfolding dispatch_due_schedules
    dispatch_due_schedules-AllSettled db h =
        dispatch_due-AllSettled (due_schedules now db) 0 db
          (λ t i.
            let (m, e) = In-select (is_scheduled now) t db.schedules i in
            (All-In (λ s. 1 ≤ s.interval_minutes) t db.schedules h m, ground (arith, e)))
          (λ s m e. (s, In-select_intro (is_scheduled now) s db.schedules m e, refl))
