-- ===== src/Api/Unique/Handlers.antt =====
-- The handlers that write to a table with a unique constraint.
use transport_lookout.Prelude.{
  not, arith, eq_iff, ℕ, String, Bool, ◌≡◌, [], ◌∷◌, ◌==◌, string_eq, find, refl, subst, Option,
  none, some,
}
use transport_lookout.Config.{Env}
use transport_lookout.Http.{ok, bind-ok, guard-ok, ok-injective}
use transport_lookout.Model.{Db, User, Role, InventoryScope, ScanProfile, ScanSchedule}
use transport_lookout.Auth.{require_roles, has_subject}
use transport_lookout.Schemas.{ScopeCreate, ProfileCreate, ScheduleCreate, UserProvision}
use transport_lookout.Api.Scopes.{add_scope, approve_scope, delete_scope}
use transport_lookout.Api.Users.{provision_user}
use transport_lookout.Api.Profiles.{add_profile, delete_profile}
use transport_lookout.Api.Schedules.{
  ZoneLookup, add_schedule, disable_schedule, add_in_zone, add_for,
}
use transport_lookout.Cidr.{parse_approved_cidr}
use transport_lookout.Cidr.Ipv4.{str_network}
use transport_lookout.Api.Unique.{IsUnique}
use transport_lookout.Api.Unique.Rows.{
  insert_scope-IsUnique, approve_found-IsUnique, delete_found-IsUnique, put_user-IsUnique,
  insert_profile-IsUnique, delete_found_profile-IsUnique, insert_schedule-IsUnique,
  disable_found-IsUnique,
}

module _ (env : Env) (db : Db) (u : IsUnique db) where
  pub add_scope-IsUnique :
      (is_ipv6 : String → Bool) (user : User) (payload : ScopeCreate) (result : InventoryScope × Db)
      → add_scope env is_ipv6 user payload db ≡ ok result
      → IsUnique result.1
  unfolding add_scope
  add_scope-IsUnique is_ipv6 user payload result e =
      let (manager, a, b) =
        bind-ok (require_roles (Role.platform_admin ∷ Role.inventory_manager ∷ []) user) _ result
          e in
      let (network, c, d) = bind-ok (parse_approved_cidr env is_ipv6 payload.cidr) _ result b in
      let (new, f) = guard-ok _ 409 "scope name or CIDR already exists" _ result d in
      subst (λ (x : InventoryScope × Db). IsUnique x.1) (ok-injective _ result f)
        (insert_scope-IsUnique env manager db u payload (str_network network) new)

  pub approve_scope-IsUnique :
      (user : User) (scope_id : String) (result : InventoryScope × Db)
      → approve_scope env user scope_id db ≡ ok result
      → IsUnique result.1
  unfolding approve_scope
  approve_scope-IsUnique user scope_id result e =
      let (admin, a, b) = bind-ok (require_roles (Role.platform_admin ∷ []) user) _ result e in
      approve_found-IsUnique env admin db u (find (λ s. s.id == scope_id) db.scopes) result b

  pub delete_scope-IsUnique :
      (user : User) (scope_id : String) (db' : Db)
      → delete_scope env user scope_id db ≡ ok db'
      → IsUnique db'
  unfolding delete_scope
  delete_scope-IsUnique user scope_id db' e =
      let (manager, a, b) =
        bind-ok (require_roles (Role.platform_admin ∷ Role.inventory_manager ∷ []) user) _ db' e in
      delete_found-IsUnique env manager db u (find (λ s. s.id == scope_id) db.scopes) db' b

  pub provision_user-IsUnique :
      (user : User) (subject : String) (payload : UserProvision) (result : User × Db)
      → provision_user env user subject payload db ≡ ok result
      → IsUnique result.1
  unfolding provision_user
  provision_user-IsUnique user subject payload result e =
      let (admin, a, b) = bind-ok (require_roles (Role.platform_admin ∷ []) user) _ result e in
      let (same, c) =
        guard-ok (not (subject == payload.subject)) 422 "subject path and body must match" _ result
          b in
      let named : subject ≡ payload.subject =
        (eq_iff subject payload.subject).0 (ground (arith, same)) in
      subst (λ (x : User × Db). IsUnique x.1) (ok-injective _ result c)
        (put_user-IsUnique env admin db u payload (find (has_subject subject) db.users)
          (rw named refl))

  pub add_profile-IsUnique :
      (user : User) (payload : ProfileCreate) (result : ScanProfile × Db)
      → add_profile env user payload db ≡ ok result
      → IsUnique result.1
  unfolding add_profile
  add_profile-IsUnique user payload result e =
      let (admin, a, b) = bind-ok (require_roles (Role.platform_admin ∷ []) user) _ result e in
      subst (λ (x : ScanProfile × Db). IsUnique x.1) (ok-injective _ result b)
        (insert_profile-IsUnique env admin db u payload)

  pub delete_profile-IsUnique :
      (user : User) (profile_id : String) (db' : Db)
      → delete_profile env user profile_id db ≡ ok db'
      → IsUnique db'
  unfolding delete_profile
  delete_profile-IsUnique user profile_id db' e =
      let (admin, a, b) = bind-ok (require_roles (Role.platform_admin ∷ []) user) _ db' e in
      delete_found_profile-IsUnique env admin db u (find (λ p. p.id == profile_id) db.profiles) db'
        b

  add_for-IsUnique :
      (now : ℕ) (user : User) (payload : ScheduleCreate) (scope : Option InventoryScope)
      (profile : Option ScanProfile) (result : ScanSchedule × Db)
      → add_for env now user payload scope profile db ≡ ok result
      → IsUnique result.1
  add_for-IsUnique now user payload none none result e = absurd (cc)
  add_for-IsUnique now user payload none (some profile) result e = absurd (cc)
  add_for-IsUnique now user payload (some scope) none result e = absurd (cc)
  add_for-IsUnique now user payload (some scope) (some profile) result e =
      let (fits, b) = guard-ok _ 422 _ _ result e in
      let (new, c) = guard-ok _ 409 "schedule name already exists" _ result b in
      subst (λ (x : ScanSchedule × Db). IsUnique x.1) (ok-injective _ result c)
        (insert_schedule-IsUnique env user db u now payload scope profile new)

  add_in_zone-IsUnique :
      (now : ℕ) (user : User) (payload : ScheduleCreate) (zone : ZoneLookup)
      (result : ScanSchedule × Db)
      → add_in_zone env now user payload zone db ≡ ok result
      → IsUnique result.1
  add_in_zone-IsUnique now user payload ZoneLookup.unknown result e = absurd (cc)
  add_in_zone-IsUnique now user payload ZoneLookup.refused result e = absurd (cc)
  add_in_zone-IsUnique now user payload ZoneLookup.known result e =
      add_for-IsUnique now user payload (find (λ s. s.id == payload.inventory_scope_id) db.scopes)
        (find (λ p. p.id == payload.profile_id) db.profiles) result e

  pub add_schedule-IsUnique :
      (zone_info : String → ZoneLookup) (now : ℕ) (user : User) (payload : ScheduleCreate)
      (result : ScanSchedule × Db)
      → add_schedule env zone_info now user payload db ≡ ok result
      → IsUnique result.1
  unfolding add_schedule
  add_schedule-IsUnique zone_info now user payload result e =
      let (operator, a, b) =
        bind-ok (require_roles (Role.platform_admin ∷ Role.scan_operator ∷ []) user) _ result e in
      add_in_zone-IsUnique now operator payload (zone_info payload.timezone) result b

  pub disable_schedule-IsUnique :
      (user : User) (schedule_id : String) (result : ScanSchedule × Db)
      → disable_schedule env user schedule_id db ≡ ok result
      → IsUnique result.1
  unfolding disable_schedule
  disable_schedule-IsUnique user schedule_id result e =
      let (operator, a, b) =
        bind-ok (require_roles (Role.platform_admin ∷ Role.scan_operator ∷ []) user) _ result e in
      disable_found-IsUnique env operator db u (find (λ s. s.id == schedule_id) db.schedules) result
        b
