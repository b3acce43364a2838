-- ===== src/Api/References/Operations.antt =====
-- Requests about schedules and runs, and the references they leave.
use transport_lookout.Prelude.{
  ℕ, String, Bool, ◌≡◌, refl, subst, Option, none, some, [], ◌∷◌, ◌==◌, string_eq, find,
}
use transport_lookout.Config.{Env}
use transport_lookout.Http.{ok, guard-ok, bind-ok, ok-injective}
use transport_lookout.Model.{Db, User, Role, InventoryScope, ScanProfile, ScanRun, ScanSchedule}
use transport_lookout.Auth.{require_roles}
use transport_lookout.Outbox.{Broker}
use transport_lookout.Cancel.{cancel_run}
use transport_lookout.Runs.{create_run}
use transport_lookout.Schemas.{ScheduleCreate, RunCreate}
use transport_lookout.Api.Schedules.{
  ZoneLookup, add_schedule, add_in_zone, add_for, disable_schedule,
}
use transport_lookout.Api.Runs.{RunRead, add_run, add_run_for, cancel, cancel_found, read_result}
use transport_lookout.Api.References.{
  HasScope, HasProfile, Follows, found-HasScope, found-HasProfile,
}
use transport_lookout.Api.References.Rows.{
  insert_schedule-Follows, disable_found-Follows, cancel_run-Follows,
}
use transport_lookout.Api.References.Creations.{create_run-Follows}

module _ (env : Env) (db : Db) where
  add_for-Follows :
      (now : ℕ) (user : User) (payload : ScheduleCreate) (scope : Option InventoryScope)
      (profile : Option ScanProfile) (result : ScanSchedule × Db)
      → ((s : InventoryScope) → scope ≡ some s → HasScope db s.id)
      → ((p : ScanProfile) → profile ≡ some p → HasProfile db p.id)
      → add_for env now user payload scope profile db ≡ ok result
      → Follows db result.1
  add_for-Follows now user payload none none result s p e = absurd (cc)
  add_for-Follows now user payload none (some profile) result s p e = absurd (cc)
  add_for-Follows now user payload (some scope) none result s p e = absurd (cc)
  add_for-Follows now user payload (some scope) (some profile) result s p e =
      let (fits, b) = guard-ok _ 422 _ _ result e in
      let (new, c) = guard-ok _ 409 "schedule name already exists" _ result b in
      subst (λ (x : ScanSchedule × Db). Follows db x.1) (ok-injective _ result c)
        (insert_schedule-Follows env user db now payload scope profile (s scope refl)
          (p profile refl))

  add_in_zone-Follows :
      (now : ℕ) (user : User) (payload : ScheduleCreate) (zone : ZoneLookup)
      (result : ScanSchedule × Db)
      → add_in_zone env now user payload zone db ≡ ok result
      → Follows db result.1
  add_in_zone-Follows now user payload ZoneLookup.unknown result e = absurd (cc)
  add_in_zone-Follows now user payload ZoneLookup.refused result e = absurd (cc)
  add_in_zone-Follows now user payload ZoneLookup.known result e =
      add_for-Follows now user payload (find (λ s. s.id == payload.inventory_scope_id) db.scopes)
        (find (λ p. p.id == payload.profile_id) db.profiles) result
        (found-HasScope payload.inventory_scope_id db) (found-HasProfile payload.profile_id db) e

  pub add_schedule-Follows :
      (zone_info : String → ZoneLookup) (now : ℕ) (user : User) (payload : ScheduleCreate)
      (result : ScanSchedule × Db)
      → add_schedule env zone_info now user payload db ≡ ok result
      → Follows db result.1
  unfolding add_schedule
  add_schedule-Follows zone_info now user payload result e =
      let (operator, a, b) =
        bind-ok (require_roles (Role.platform_admin ∷ Role.scan_operator ∷ []) user) _ result e in
      add_in_zone-Follows now operator payload (zone_info payload.timezone) result b

  pub disable_schedule-Follows :
      (user : User) (schedule_id : String) (result : ScanSchedule × Db)
      → disable_schedule env user schedule_id db ≡ ok result
      → Follows db result.1
  unfolding disable_schedule
  disable_schedule-Follows user schedule_id result e =
      let (operator, a, b) =
        bind-ok (require_roles (Role.platform_admin ∷ Role.scan_operator ∷ []) user) _ result e in
      disable_found-Follows env operator db (find (λ s. s.id == schedule_id) db.schedules) result b

  read_result-Follows :
      (created : ScanRun × Db) (result : RunRead × Db)
      → ok (read_result created) ≡ ok result
      → Follows db created.1
      → Follows db result.1
  read_result-Follows created result e f =
      subst (λ (x : RunRead × Db). Follows db x.1) (ok-injective (read_result created) result e) f

  add_run_for-Follows :
      (is_ipv6 : String → Bool) (now : ℕ) (broker : Broker) (user : User)
      (scope : Option InventoryScope) (profile : Option ScanProfile) (result : RunRead × Db)
      → ((s : InventoryScope) → scope ≡ some s → HasScope db s.id)
      → ((p : ScanProfile) → profile ≡ some p → HasProfile db p.id)
      → add_run_for env is_ipv6 now broker user scope profile db ≡ ok result
      → Follows db result.1
  add_run_for-Follows is_ipv6 now broker user none none result s p e = absurd (cc)
  add_run_for-Follows is_ipv6 now broker user none (some profile) result s p e = absurd (cc)
  add_run_for-Follows is_ipv6 now broker user (some scope) none result s p e = absurd (cc)
  add_run_for-Follows is_ipv6 now broker user (some scope) (some profile) result s p e =
      let (created, a, b) =
        bind-ok (create_run env is_ipv6 now broker scope profile user.subject db) _ result e in
      read_result-Follows created result b (
        create_run-Follows env user db is_ipv6 now broker scope profile user.subject created a
          (s scope refl) (p profile refl))

  pub add_run-Follows :
      (is_ipv6 : String → Bool) (now : ℕ) (broker : Broker) (user : User) (payload : RunCreate)
      (result : RunRead × Db)
      → add_run env is_ipv6 now broker user payload db ≡ ok result
      → Follows db result.1
  unfolding add_run
  add_run-Follows is_ipv6 now broker user payload result e =
      let (operator, a, b) =
        bind-ok (require_roles (Role.platform_admin ∷ Role.scan_operator ∷ []) user) _ result e in
      add_run_for-Follows is_ipv6 now broker operator
        (find (λ s. s.id == payload.inventory_scope_id) db.scopes)
        (find (λ p. p.id == payload.profile_id) db.profiles) result
        (found-HasScope payload.inventory_scope_id db) (found-HasProfile payload.profile_id db) b

  cancel_found-Follows :
      (now : ℕ) (user : User) (run : Option ScanRun) (result : RunRead × Db)
      → cancel_found env now user run db ≡ ok result
      → Follows db result.1
  cancel_found-Follows now user none result e = absurd (cc)
  cancel_found-Follows now user (some run) result e =
      let (cancelled, a, b) = bind-ok (cancel_run env now run user.subject db) _ result e in
      read_result-Follows cancelled result b
        (cancel_run-Follows env user db now run user.subject cancelled a)

  pub cancel-Follows :
      (now : ℕ) (user : User) (run_id : String) (result : RunRead × Db)
      → cancel env now user run_id db ≡ ok result
      → Follows db result.1
  unfolding cancel
  cancel-Follows now user run_id result e =
      let (operator, a, b) =
        bind-ok (require_roles (Role.platform_admin ∷ Role.scan_operator ∷ []) user) _ result e in
      cancel_found-Follows now operator (find (λ r. r.id == run_id) db.runs) result b
