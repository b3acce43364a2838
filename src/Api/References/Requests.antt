-- ===== src/Api/References/Requests.antt =====
-- All requests that write, as one relation, and the foreign keys through any sequence of them.
use transport_lookout.Prelude.{
  ℕ, String, Bool, ◌≡◌, refl, sym, subst, Option, inl, inr, List, [], ◌∷◌, ◌==◌, string_eq, find,
}
use transport_lookout.Config.{Env}
use transport_lookout.Http.{ok, bind-ok}
use transport_lookout.Model.{Db, User, Role, InventoryScope, ScanProfile, ScanSchedule}
use transport_lookout.Auth.{AuthSettings, require_roles, current_user, added_bootstrap}
use transport_lookout.Auth.Inversion.{current_user_inversion}
use transport_lookout.Outbox.{Broker}
use transport_lookout.Schemas.{
  ScopeCreate, ProfileCreate, ScheduleCreate, RunCreate, UserProvision, FieldError,
}
use transport_lookout.Api.Scopes.{add_scope, approve_scope, delete_scope}
use transport_lookout.Api.Import.{CsvBody, import_scopes_csv}
use transport_lookout.Api.Users.{provision_user}
use transport_lookout.Api.Profiles.{add_profile, delete_profile}
use transport_lookout.Api.Schedules.{ZoneLookup, add_schedule, disable_schedule}
use transport_lookout.Api.Runs.{RunRead, add_run, cancel}
use transport_lookout.Api.References.{
  HasReferences, Follows, Follows-HasReferences, Follows-same, Stays-same,
}
use transport_lookout.Api.References.Deletes.{
  delete_found-HasReferences, delete_found_profile-HasReferences,
}
use transport_lookout.Api.References.Inventory.{
  add_scope-Follows, import_scopes_csv-Follows, approve_scope-Follows, provision_user-Follows,
  add_profile-Follows,
}
use transport_lookout.Api.References.Operations.{
  add_schedule-Follows, disable_schedule-Follows, add_run-Follows, cancel-Follows,
}

-- One request that the API has served, and what it has made of the database. Each handler first
-- authenticates its user, which is a step of its own: it commits.
pub data Request (env : Env) (db : Db) : Db → Type 0 where
  authenticates :
      (auth : AuthSettings) (validate_oidc_token : String → Option (Option String))
      (authorization : String) (user : User) (db' : Db)
      → current_user env auth validate_oidc_token authorization db ≡ ok (user, db')
      → Request env db db'
  adds_scope :
      (is_ipv6 : String → Bool) (user : User) (payload : ScopeCreate) (scope : InventoryScope)
      (db' : Db)
      → add_scope env is_ipv6 user payload db ≡ ok (scope, db')
      → Request env db db'
  imports_scopes :
      (is_ipv6 : String → Bool) (message : FieldError → String) (user : User) (body : CsvBody)
      (scopes : List InventoryScope) (db' : Db)
      → import_scopes_csv env is_ipv6 message user body db ≡ ok (scopes, db')
      → Request env db db'
  approves_scope :
      (user : User) (scope_id : String) (scope : InventoryScope) (db' : Db)
      → approve_scope env user scope_id db ≡ ok (scope, db')
      → Request env db db'
  deletes_scope :
      (user : User) (scope_id : String) (db' : Db)
      → delete_scope env user scope_id db ≡ ok db'
      → Request env db db'
  provisions_user :
      (user : User) (subject : String) (payload : UserProvision) (target : User) (db' : Db)
      → provision_user env user subject payload db ≡ ok (target, db')
      → Request env db db'
  adds_profile :
      (user : User) (payload : ProfileCreate) (profile : ScanProfile) (db' : Db)
      → add_profile env user payload db ≡ ok (profile, db')
      → Request env db db'
  deletes_profile :
      (user : User) (profile_id : String) (db' : Db)
      → delete_profile env user profile_id db ≡ ok db'
      → Request env db db'
  adds_schedule :
      (zone_info : String → ZoneLookup) (now : ℕ) (user : User) (payload : ScheduleCreate)
      (schedule : ScanSchedule) (db' : Db)
      → add_schedule env zone_info now user payload db ≡ ok (schedule, db')
      → Request env db db'
  disables_schedule :
      (user : User) (schedule_id : String) (schedule : ScanSchedule) (db' : Db)
      → disable_schedule env user schedule_id db ≡ ok (schedule, db')
      → Request env db db'
  adds_run :
      (is_ipv6 : String → Bool) (now : ℕ) (broker : Broker) (user : User) (payload : RunCreate)
      (run : RunRead) (db' : Db)
      → add_run env is_ipv6 now broker user payload db ≡ ok (run, db')
      → Request env db db'
  cancels_run :
      (now : ℕ) (user : User) (run_id : String) (run : RunRead) (db' : Db)
      → cancel env now user run_id db ≡ ok (run, db')
      → Request env db db'

-- Requests served one after another.
pub data Requests (env : Env) (db : Db) : Db → Type 0 where
  none_yet : Requests env db db
  and_then : {db' db'' : Db} → Requests env db db' → Request env db' db'' → Requests env db db''

module _ (env : Env) (db : Db) (h : HasReferences db) where
  delete_scope-HasReferences :
      (user : User) (scope_id : String) (db' : Db)
      → delete_scope env user scope_id db ≡ ok db'
      → HasReferences db'
  unfolding delete_scope
  delete_scope-HasReferences user scope_id db' e =
      let (manager, a, b) =
        bind-ok (require_roles (Role.platform_admin ∷ Role.inventory_manager ∷ []) user) _ db' e in
      delete_found-HasReferences env manager db db' h (find (λ s. s.id == scope_id) db.scopes) b

  delete_profile-HasReferences :
      (user : User) (profile_id : String) (db' : Db)
      → delete_profile env user profile_id db ≡ ok db'
      → HasReferences db'
  unfolding delete_profile
  delete_profile-HasReferences user profile_id db' e =
      let (admin, a, b) = bind-ok (require_roles (Role.platform_admin ∷ []) user) _ db' e in
      delete_found_profile-HasReferences env admin db db' h
        (find (λ p. p.id == profile_id) db.profiles) b

  authenticates-Follows :
      (auth : AuthSettings) (validate_oidc_token : String → Option (Option String))
      (authorization : String) (user : User) (db' : Db)
      → current_user env auth validate_oidc_token authorization db ≡ ok (user, db')
      → Follows db db'
  authenticates-Follows auth validate_oidc_token authorization user db' e =
      let same : Follows db db = Follows-same db db (Stays-same db db refl refl) refl refl in
      let added : Follows db (added_bootstrap env db) =
        Follows-same db (added_bootstrap env db) (Stays-same db (added_bootstrap env db) refl refl)
          refl refl in
      elim (current_user_inversion env auth authorization user db db' validate_oidc_token e) [
        | inl q ↦ subst (Follows db) (sym q) same
        | inr a ↦ subst (Follows db) (sym a.is_added) added
      ]

  Request-HasReferences : {db' : Db} → Request env db db' → HasReferences db'
  Request-HasReferences (Request.authenticates auth validate authorization user db' e) =
      Follows-HasReferences (authenticates-Follows auth validate authorization user db' e) h
  Request-HasReferences (Request.adds_scope is_ipv6 user payload scope db' e) =
      Follows-HasReferences (add_scope-Follows env db is_ipv6 user payload (scope, db') e) h
  Request-HasReferences (Request.imports_scopes is_ipv6 message user body scopes db' e) =
      Follows-HasReferences
        (import_scopes_csv-Follows env db is_ipv6 message user body (scopes, db') e) h
  Request-HasReferences (Request.approves_scope user scope_id scope db' e) =
      Follows-HasReferences (approve_scope-Follows env db user scope_id (scope, db') e) h
  Request-HasReferences (Request.deletes_scope user scope_id db' e) =
      delete_scope-HasReferences user scope_id db' e
  Request-HasReferences (Request.provisions_user user subject payload target db' e) =
      Follows-HasReferences (provision_user-Follows env db user subject payload (target, db') e) h
  Request-HasReferences (Request.adds_profile user payload profile db' e) =
      Follows-HasReferences (add_profile-Follows env db user payload (profile, db') e) h
  Request-HasReferences (Request.deletes_profile user profile_id db' e) =
      delete_profile-HasReferences user profile_id db' e
  Request-HasReferences (Request.adds_schedule zone_info now user payload schedule db' e) =
      Follows-HasReferences
        (add_schedule-Follows env db zone_info now user payload (schedule, db') e) h
  Request-HasReferences (Request.disables_schedule user schedule_id schedule db' e) =
      Follows-HasReferences (disable_schedule-Follows env db user schedule_id (schedule, db') e) h
  Request-HasReferences (Request.adds_run is_ipv6 now broker user payload run db' e) =
      Follows-HasReferences (add_run-Follows env db is_ipv6 now broker user payload (run, db') e) h
  Request-HasReferences (Request.cancels_run now user run_id run db' e) =
      Follows-HasReferences (cancel-Follows env db now user run_id (run, db') e) h

module _ (env : Env) where
  -- Through any sequence of served requests that write, whoever sends them (authentication, adding, importing,
  -- approving and deleting scopes, provisioning users, adding and deleting profiles, adding and
  -- disabling schedules, creating and cancelling runs), every run and every schedule keeps
  -- referring to a scope and a profile that are there.
  pub Requests-HasReferences :
      (db db' : Db) → HasReferences db → Requests env db db' → HasReferences db'
  Requests-HasReferences db db' h Requests.none_yet = h
  Requests-HasReferences db db' h (Requests.and_then {db' = before} r s) =
      Request-HasReferences env before (Requests-HasReferences db before h r) s
