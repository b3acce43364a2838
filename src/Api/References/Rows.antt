-- ===== src/Api/References/Rows.antt =====
-- Requests that add or change rows, one by one.
use transport_lookout.Prelude.{
  ℕ, String, Bool, true, false, ◌≡◌, refl, subst, ◌∙◌, ◌⊎◌, inl, inr, Option, none, some, ◌==◌,
  string_eq, modify, In, In-modify, In-modify_intro, In-append, In-append_left, if◌then◌else◌,
}
use transport_lookout.Config.{Env}
use transport_lookout.Http.{ok, guard-ok, ok-injective}
use transport_lookout.Model.{Db, User, InventoryScope, ScanProfile, ScanRun, ScanSchedule}
use transport_lookout.Audit.{audit}
use transport_lookout.Schemas.{ScopeCreate, ProfileCreate, ScheduleCreate}
use transport_lookout.Scheduler.{disabled}
use transport_lookout.Cancel.{cancelled_run, cancel_run}
use transport_lookout.Api.Scopes.{insert_scope, approved_scope, approve_found}
use transport_lookout.Api.Profiles.{insert_profile}
use transport_lookout.Api.Schedules.{insert_schedule, disable_found}
use transport_lookout.Api.References.{
  HasScope, HasProfile, Stays, Stays-same, Follows, Follows-same,
}

module _ (env : Env) (user : User) (db : Db) where
  pub insert_scope-Follows :
      (payload : ScopeCreate) (cidr : String) → Follows db (insert_scope env user payload cidr db).1
  unfolding insert_scope audit
  insert_scope-Follows payload cidr =
      Follows-same db _
        (record {
          scopes_stay = λ i (s, m, k). (s, In-append_left s db.scopes _ m, k);
          profiles_stay = λ i h. h;
        })
        refl refl

  pub insert_profile-Follows :
      (payload : ProfileCreate) (version : ℕ)
      → Follows db (insert_profile env user payload version db).1
  unfolding insert_profile audit
  insert_profile-Follows payload version =
      Follows-same db _
        (record {
          scopes_stay = λ i h. h;
          profiles_stay = λ i (p, m, k). (p, In-append_left p db.profiles _ m, k);
        })
        refl refl

  -- UPDATE … SET approved
  approve_row-Stays :
      (scope : InventoryScope) (db' : Db)
      → db'.scopes ≡ modify (λ s. s.id == scope.id) approved_scope db.scopes
      → db'.profiles ≡ db.profiles
      → Stays db db'
  approve_row-Stays scope db' e f = record {
    scopes_stay = λ i (s, m, k). (
      if s.id == scope.id then approved_scope s else s,
      rw e (In-modify_intro (λ s. s.id == scope.id) approved_scope s db.scopes m),
      same (s.id == scope.id) s ∙ k,
    );
    profiles_stay = λ i (p, m, k). (p, rw f m, k);
  }
    where
      same : (b : Bool) (s : InventoryScope) → (if b then approved_scope s else s).id ≡ s.id
      same true s = refl
      same false s = refl

  pub approve_found-Follows :
      (found : Option InventoryScope) (result : InventoryScope × Db)
      → approve_found env user found db ≡ ok result
      → Follows db result.1
  unfolding audit
  approve_found-Follows none result e = absurd (cc)
  approve_found-Follows (some scope) result e =
      subst (λ (x : InventoryScope × Db). Follows db x.1) (ok-injective _ result e)
        (Follows-same db _ (approve_row-Stays scope _ refl refl) refl refl)

  pub insert_schedule-Follows :
      (now : ℕ) (payload : ScheduleCreate) (scope : InventoryScope) (profile : ScanProfile)
      → HasScope db scope.id
      → HasProfile db profile.id
      → Follows db (insert_schedule env now user payload scope profile db).1
  unfolding insert_schedule audit
  insert_schedule-Follows now payload scope profile s p = record {
    stays = record { scopes_stay = λ i h. h; profiles_stay = λ i h. h };
    runs_follow = λ r m. inl (r, m, refl, refl);
    schedules_follow = λ c m. elim (In-append c db.schedules _ m) [
      | inl n ↦ inl (c, n, refl, refl)
      | inr n ↦ elim n [ inl e ↦ inr (rw e (s, p)) | inr n ↦ absurd n ]
    ];
  }

  -- UPDATE … SET enabled
  disable_row-Follows :
      (schedule : ScanSchedule) (db' : Db)
      → db'.schedules ≡ modify (λ s. s.id == schedule.id) disabled db.schedules
      → Stays db db'
      → db'.runs ≡ db.runs
      → Follows db db'
  unfolding disabled
  disable_row-Follows schedule db' e s f = record {
    stays = s;
    runs_follow = λ r m. inl (r, rw f at m, refl, refl);
    schedules_follow = λ c m.
        let (x, n, k) = In-modify (λ s. s.id == schedule.id) disabled c db.schedules (rw e at m) in
        inl (moved c x n k);
  }
    where
      moved :
          (c x : ScanSchedule)
          → In x db.schedules
          → ((x.id == schedule.id) ≡ true) × (c ≡ disabled x)
            ⊎ ((x.id == schedule.id) ≡ false) × (c ≡ x)
          → (y : ScanSchedule) × In y db.schedules
            × (y.inventory_scope_id ≡ c.inventory_scope_id)
            × (y.profile_id ≡ c.profile_id)
      moved c x n (inl (a, b)) = rw b (x, n, refl, refl)
      moved c x n (inr (a, b)) = rw b (x, n, refl, refl)

  pub disable_found-Follows :
      (found : Option ScanSchedule) (result : ScanSchedule × Db)
      → disable_found env user found db ≡ ok result
      → Follows db result.1
  unfolding audit
  disable_found-Follows none result e = absurd (cc)
  disable_found-Follows (some schedule) result e =
      subst (λ (x : ScanSchedule × Db). Follows db x.1) (ok-injective _ result e)
        (disable_row-Follows schedule _ refl (Stays-same db _ refl refl) refl)

  -- UPDATE … SET status
  cancel_row-Follows :
      (now : ℕ) (run : ScanRun) (db' : Db)
      → db'.runs ≡ modify (λ r. r.id == run.id) (cancelled_run now) db.runs
      → Stays db db'
      → db'.schedules ≡ db.schedules
      → Follows db db'
  unfolding cancelled_run
  cancel_row-Follows now run db' e s f = record {
    stays = s;
    runs_follow = λ r m.
        let (x, n, k) = In-modify (λ r. r.id == run.id) (cancelled_run now) r db.runs (rw e at m) in
        inl (moved r x n k);
    schedules_follow = λ c m. inl (c, rw f at m, refl, refl);
  }
    where
      moved :
          (r x : ScanRun)
          → In x db.runs
          → ((x.id == run.id) ≡ true) × (r ≡ cancelled_run now x)
            ⊎ ((x.id == run.id) ≡ false) × (r ≡ x)
          → (y : ScanRun) × In y db.runs
            × (y.inventory_scope_id ≡ r.inventory_scope_id)
            × (y.profile_id ≡ r.profile_id)
      moved r x n (inl (a, b)) = rw b (x, n, refl, refl)
      moved r x n (inr (a, b)) = rw b (x, n, refl, refl)

  pub cancel_run-Follows :
      (now : ℕ) (run : ScanRun) (actor : String) (result : ScanRun × Db)
      → cancel_run env now run actor db ≡ ok result
      → Follows db result.1
  unfolding cancel_run audit
  cancel_run-Follows now run actor result e =
      let (open_run, stored) = guard-ok _ 409 "run is already terminal" _ result e in
      subst (λ (x : ScanRun × Db). Follows db x.1) (ok-injective _ result stored)
        (cancel_row-Follows now run _ refl (Stays-same db _ refl refl) refl)
