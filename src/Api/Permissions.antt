-- ===== src/Api/Permissions.antt =====
-- Who may send which request.
use transport_lookout.Prelude.{
  true, ◌≡◌, sym, ◌⊎◌, inl, inr, List, [], ◌∷◌, arith, ◌==◌, Bool-cases, In,
}
use transport_lookout.Config.{Env}
use transport_lookout.Http.{Result, ok, ◌>>=◌, bind-ok}
use transport_lookout.Model.{Db, User, Role, role_eq}
use transport_lookout.Auth.{has_role, require_roles}
use transport_lookout.Auth.Inversion.{AddsBootstrap, current_user_inversion}
use transport_lookout.Api.Scopes.{add_scope, approve_scope, delete_scope}
use transport_lookout.Api.Import.{import_scopes_csv}
use transport_lookout.Api.Users.{provision_user}
use transport_lookout.Api.Profiles.{add_profile, delete_profile}
use transport_lookout.Api.Schedules.{add_schedule, disable_schedule}
use transport_lookout.Api.Runs.{add_run, cancel}
use transport_lookout.Api.References.Requests.{Request}

abbrev of_administrators : List Role
of_administrators = Role.platform_admin ∷ []

abbrev of_inventory : List Role
of_inventory = Role.platform_admin ∷ Role.inventory_manager ∷ []

abbrev of_scans : List Role
of_scans = Role.platform_admin ∷ Role.scan_operator ∷ []

-- The user that sends a request has one of the roles that may. Authentication, before any role is
-- known, writes nothing, but for the administrator's row that the enabled bootstrap token adds.
abbrev pub IsPermitted : {env : Env} {db db' : Db} → Request env db db' → Type 0
IsPermitted {env = env} {db = db} {db' = db'}
      (Request.authenticates auth validate authorization user after e) =
    (db' ≡ db) ⊎ AddsBootstrap env auth authorization db db'
IsPermitted (Request.adds_scope is_ipv6 user payload scope db' e) = In user.role of_inventory
IsPermitted (Request.imports_scopes is_ipv6 message user body scopes db' e) =
    In user.role of_inventory
IsPermitted (Request.approves_scope user scope_id scope db' e) = In user.role of_administrators
IsPermitted (Request.deletes_scope user scope_id db' e) = In user.role of_inventory
IsPermitted (Request.provisions_user user subject payload target db' e) =
    In user.role of_administrators
IsPermitted (Request.adds_profile user payload profile db' e) = In user.role of_administrators
IsPermitted (Request.deletes_profile user profile_id db' e) = In user.role of_administrators
IsPermitted (Request.adds_schedule zone_info now user payload schedule db' e) =
    In user.role of_scans
IsPermitted (Request.disables_schedule user schedule_id schedule db' e) = In user.role of_scans
IsPermitted (Request.adds_run is_ipv6 now broker user payload run db' e) = In user.role of_scans
IsPermitted (Request.cancels_run now user run_id run db' e) = In user.role of_scans

has_role-In : (role : Role) (roles : List Role) → has_role roles role ≡ true → In role roles
unfolding has_role
has_role-In role [] h = absurd (cc)
has_role-In role (r ∷ rs) h = elim (Bool-cases (r == role)) [
  | inl t ↦ inl (sym ((role_eq.same_iff r role).0 t))
  | inr t ↦ inr (has_role-In role rs (ground (arith, h, t)))
]

-- A handler that begins with `require_roles` and succeeds.
require_roles-In :
    {A : Type 0} (roles : List Role) (user : User) (rest : User → Result A) (a : A)
    → (require_roles roles user >>= rest) ≡ ok a
    → In user.role roles
unfolding require_roles
require_roles-In roles user rest a h =
    let (manager, b, c) = bind-ok (require_roles roles user) rest a h in
    elim (Bool-cases (has_role roles user.role)) [
      | inl t ↦ has_role-In user.role roles t
      | inr t ↦ absurd (ground (arith, b, t))
    ]

-- A request that writes and is served was sent by a user who may: scopes are added, imported and
-- deleted by administrators and inventory managers; scopes are approved, users provisioned and
-- profiles added and deleted by administrators; schedules are added and disabled and runs created and
-- cancelled by administrators and scan operators. Authentication itself writes nothing, but for the
-- administrator's row, which it adds for the bootstrap token alone, where this is enabled.
pub Request-IsPermitted : {env : Env} {db db' : Db} (r : Request env db db') → IsPermitted r
unfolding add_scope import_scopes_csv approve_scope delete_scope provision_user add_profile
    delete_profile add_schedule disable_schedule add_run cancel
Request-IsPermitted {env = env} {db = db}
      (Request.authenticates auth validate authorization user db' e) =
    current_user_inversion env auth authorization user db db' validate e
Request-IsPermitted (Request.adds_scope is_ipv6 user payload scope db' e) =
    require_roles-In of_inventory user _ (scope, db') e
Request-IsPermitted (Request.imports_scopes is_ipv6 message user body scopes db' e) =
    require_roles-In of_inventory user _ (scopes, db') e
Request-IsPermitted (Request.approves_scope user scope_id scope db' e) =
    require_roles-In of_administrators user _ (scope, db') e
Request-IsPermitted (Request.deletes_scope user scope_id db' e) =
    require_roles-In of_inventory user _ db' e
Request-IsPermitted (Request.provisions_user user subject payload target db' e) =
    require_roles-In of_administrators user _ (target, db') e
Request-IsPermitted (Request.adds_profile user payload profile db' e) =
    require_roles-In of_administrators user _ (profile, db') e
Request-IsPermitted (Request.deletes_profile user profile_id db' e) =
    require_roles-In of_administrators user _ db' e
Request-IsPermitted (Request.adds_schedule zone_info now user payload schedule db' e) =
    require_roles-In of_scans user _ (schedule, db') e
Request-IsPermitted (Request.disables_schedule user schedule_id schedule db' e) =
    require_roles-In of_scans user _ (schedule, db') e
Request-IsPermitted (Request.adds_run is_ipv6 now broker user payload run db' e) =
    require_roles-In of_scans user _ (run, db') e
Request-IsPermitted (Request.cancels_run now user run_id run db' e) =
    require_roles-In of_scans user _ (run, db') e
