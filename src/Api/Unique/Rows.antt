-- ===== src/Api/Unique/Rows.antt =====
-- What the writes of a handler do to the unique constraints.
use transport_lookout.Prelude.{
  not_found, In, ℕ, String, false, ◌||◌, not, ◌≡◌, refl, subst, Option, none, some, arith, ◌==◌,
  string_eq, eq_iff, find, find-none, is_none, Distinct-add, Distinct-modify, Distinct-delete,
}
use transport_lookout.Config.{Env}
use transport_lookout.Http.{ok, guard-ok, ok-injective}
use transport_lookout.Model.{Db, User, InventoryScope, ScanProfile, ScanSchedule}
use transport_lookout.Audit.{audit}
use transport_lookout.Auth.{has_subject}
use transport_lookout.Schemas.{ScopeCreate, ProfileCreate, ScheduleCreate, UserProvision}
use transport_lookout.Scheduler.{disabled}
use transport_lookout.Api.Scopes.{
  insert_scope, scope_named, approved_scope, approve_found, delete_found, has_runs, has_schedules,
}
use transport_lookout.Api.Users.{put_user, audit_user, with_role}
use transport_lookout.Api.Profiles.{
  insert_profile, latest_profile, next_version, delete_found_profile, profile_has_runs,
  profile_has_schedules,
}
use transport_lookout.Api.Schedules.{insert_schedule, disable_found}
use transport_lookout.Api.Unique.{
  IsUnique, scope_name, scope_network, subject_of, schedule_name, version_key,
}
use transport_lookout.Api.Unique.Versions.{next_version_lem}

module _ (env : Env) (user : User) (db : Db) (u : IsUnique db) where
  pub insert_scope-IsUnique :
      (payload : ScopeCreate) (cidr : String)
      → not (is_none (find (scope_named payload.name cidr) db.scopes)) ≡ false
      → IsUnique (insert_scope env user payload cidr db).1
  unfolding insert_scope audit
  insert_scope-IsUnique payload cidr new =
      let ((names, networks), users, schedules, profiles) = u in
      let other : (s : InventoryScope) → In s db.scopes → scope_named payload.name cidr s ≡ false =
        λ s m. not_found (scope_named payload.name cidr) s db.scopes new m in
      (
        (
          Distinct-add scope_name _ db.scopes names
              (λ s m k. ground (arith, other s m, (eq_iff s.name payload.name).1 k)),
          Distinct-add scope_network _ db.scopes networks
              (λ s m k. ground (arith, other s m, (eq_iff s.cidr cidr).1 k)),
        ),
        users,
        schedules,
        profiles,
      )

  pub approve_found-IsUnique :
      (found : Option InventoryScope) (result : InventoryScope × Db)
      → approve_found env user found db ≡ ok result
      → IsUnique result.1
  unfolding audit
  approve_found-IsUnique none result e = absurd (cc)
  approve_found-IsUnique (some scope) result e =
      let ((names, networks), users, schedules, profiles) = u in
      subst (λ (x : InventoryScope × Db). IsUnique x.1) (ok-injective _ result e)
        (
          (
            Distinct-modify scope_name _ approved_scope (λ s. refl) db.scopes names,
            Distinct-modify scope_network _ approved_scope (λ s. refl) db.scopes networks,
          ),
          users,
          schedules,
          profiles,
        )

  pub delete_found-IsUnique :
      (found : Option InventoryScope) (db' : Db)
      → delete_found env user found db ≡ ok db'
      → IsUnique db'
  unfolding audit
  delete_found-IsUnique none db' e = absurd (cc)
  delete_found-IsUnique (some scope) db' e =
      let ((names, networks), users, schedules, profiles) = u in
      let (free, stored) =
        guard-ok (has_runs db scope.id || has_schedules db scope.id) 409
          "scope cannot be deleted while runs or schedules reference it" _ db' e in
      subst IsUnique (ok-injective _ db' stored) (
        (
          Distinct-delete scope_name _ db.scopes names,
          Distinct-delete scope_network _ db.scopes networks,
        ),
        users,
        schedules,
        profiles,
      )

  pub put_user-IsUnique :
      (payload : UserProvision) (found : Option User)
      → find (has_subject payload.subject) db.users ≡ found
      → IsUnique (audit_user env user (put_user env payload found db)).1
  unfolding put_user audit
  put_user-IsUnique payload none new =
      let (scopes, users, schedules, profiles) = u in
      (
        scopes,
        Distinct-add subject_of _ db.users users (λ x m k.
            let other = find-none (has_subject payload.subject) x db.users new m in
            ground (arith, other, (eq_iff x.subject payload.subject).1 k)),
        schedules,
        profiles,
      )
  put_user-IsUnique payload (some target) e =
      let (scopes, users, schedules, profiles) = u in
      (
        scopes,
        Distinct-modify subject_of _ (with_role payload.role) (λ x. refl) db.users users,
        schedules,
        profiles,
      )

  pub insert_profile-IsUnique :
      (payload : ProfileCreate)
      → IsUnique
          (insert_profile env user payload (next_version (latest_profile payload.name db)) db).1
  unfolding insert_profile audit
  insert_profile-IsUnique payload =
      let (scopes, users, schedules, profiles) = u in
      (
        scopes,
        users,
        schedules,
        Distinct-add version_key _ db.profiles profiles (next_version_lem payload.name db),
      )

  pub delete_found_profile-IsUnique :
      (found : Option ScanProfile) (db' : Db)
      → delete_found_profile env user found db ≡ ok db'
      → IsUnique db'
  unfolding audit
  delete_found_profile-IsUnique none db' e = absurd (cc)
  delete_found_profile-IsUnique (some profile) db' e =
      let (scopes, users, schedules, profiles) = u in
      let (free, stored) =
        guard-ok (profile_has_runs db profile.id || profile_has_schedules db profile.id) 409
          "profile cannot be deleted while runs or schedules reference it" _ db' e in
      subst IsUnique (ok-injective _ db' stored)
        (scopes, users, schedules, Distinct-delete version_key _ db.profiles profiles)

  pub insert_schedule-IsUnique :
      (now : ℕ) (payload : ScheduleCreate) (scope : InventoryScope) (profile : ScanProfile)
      → not (is_none (find (λ s. s.name == payload.name) db.schedules)) ≡ false
      → IsUnique (insert_schedule env now user payload scope profile db).1
  unfolding insert_schedule audit
  insert_schedule-IsUnique now payload scope profile new =
      let (scopes, users, schedules, profiles) = u in
      (
        scopes,
        users,
        Distinct-add schedule_name _ db.schedules schedules (λ s m k.
            let other = not_found (λ s. s.name == payload.name) s db.schedules new m in
            ground (arith, other, (eq_iff s.name payload.name).1 k)),
        profiles,
      )

  pub disable_found-IsUnique :
      (found : Option ScanSchedule) (result : ScanSchedule × Db)
      → disable_found env user found db ≡ ok result
      → IsUnique result.1
  unfolding audit disabled
  disable_found-IsUnique none result e = absurd (cc)
  disable_found-IsUnique (some schedule) result e =
      let (scopes, users, schedules, profiles) = u in
      subst (λ (x : ScanSchedule × Db). IsUnique x.1) (ok-injective _ result e)
        (
          scopes,
          users,
          Distinct-modify schedule_name _ disabled (λ s. refl) db.schedules schedules,
          profiles,
        )
