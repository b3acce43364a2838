-- ===== src/Api/References/Inventory.antt =====
-- Requests about scopes, users and profiles, and the references they leave.
use transport_lookout.Prelude.{
  String, Bool, ◌≡◌, refl, subst, Option, none, some, List, [], ◌∷◌, ◌==◌, string_eq, find,
}
use transport_lookout.Config.{Env}
use transport_lookout.Http.{ok, guard-ok, bind-ok, ok-injective}
use transport_lookout.Model.{Db, User, Role, InventoryScope, ScanProfile}
use transport_lookout.Audit.{audit}
use transport_lookout.Auth.{require_roles, has_subject}
use transport_lookout.Cidr.{parse_approved_cidr}
use transport_lookout.Cidr.Ipv4.{str_network}
use transport_lookout.Schemas.{ScopeCreate, ProfileCreate, UserProvision, FieldError}
use transport_lookout.Api.Scopes.{add_scope, approve_scope}
use transport_lookout.Api.Import.{Cell, CsvBody, import_scopes_csv, import_rows}
use transport_lookout.Api.Import.Inversion.{import_rows_inversion, import_scopes_csv_inversion}
use transport_lookout.Api.Users.{provision_user, put_user, audit_user}
use transport_lookout.Api.Profiles.{add_profile, latest_profile, next_version}
use transport_lookout.Api.References.{Stays-same, Follows, Follows-same}
use transport_lookout.Api.References.Rows.{
  insert_scope-Follows, insert_profile-Follows, approve_found-Follows,
}
use transport_lookout.Api.References.Creations.{insert_scopes-Follows}

module _ (env : Env) (db : Db) where
  pub add_scope-Follows :
      (is_ipv6 : String → Bool) (user : User) (payload : ScopeCreate) (result : InventoryScope × Db)
      → add_scope env is_ipv6 user payload db ≡ ok result
      → Follows db result.1
  unfolding add_scope
  add_scope-Follows is_ipv6 user payload result e =
      let (manager, a, b) =
        bind-ok (require_roles (Role.platform_admin ∷ Role.inventory_manager ∷ []) user) _ result
          e in
      let (network, c, d) = bind-ok (parse_approved_cidr env is_ipv6 payload.cidr) _ result b in
      let (new, f) = guard-ok _ 409 "scope name or CIDR already exists" _ result d in
      subst (λ (x : InventoryScope × Db). Follows db x.1) (ok-injective _ result f)
        (insert_scope-Follows env manager db payload (str_network network))

  module _ (is_ipv6 : String → Bool) (message : FieldError → String) (user : User) where
    import_rows-Follows :
        (rows : List (List Cell)) (result : List InventoryScope × Db)
        → import_rows env is_ipv6 message user rows db ≡ ok result
        → Follows db result.1
    import_rows-Follows rows result e =
        let (few, (items, read, new, done)) =
          import_rows_inversion env is_ipv6 message user rows db result e in
        subst (λ (x : List InventoryScope × Db). Follows db x.1) done
          (insert_scopes-Follows env user db is_ipv6 message items)

  pub import_scopes_csv-Follows :
      (is_ipv6 : String → Bool) (message : FieldError → String) (user : User) (body : CsvBody)
      (result : List InventoryScope × Db)
      → import_scopes_csv env is_ipv6 message user body db ≡ ok result
      → Follows db result.1
  import_scopes_csv-Follows is_ipv6 message user body result e =
      let (manager, rows, f) =
        import_scopes_csv_inversion env is_ipv6 message user body db result e in
      import_rows-Follows is_ipv6 message manager rows result f

  pub approve_scope-Follows :
      (user : User) (scope_id : String) (result : InventoryScope × Db)
      → approve_scope env user scope_id db ≡ ok result
      → Follows db result.1
  unfolding approve_scope
  approve_scope-Follows user scope_id result e =
      let (admin, a, b) = bind-ok (require_roles (Role.platform_admin ∷ []) user) _ result e in
      approve_found-Follows env admin db (find (λ s. s.id == scope_id) db.scopes) result b

  put_user-Follows :
      (admin : User) (payload : UserProvision) (found : Option User)
      → Follows db (audit_user env admin (put_user env payload found db)).1
  unfolding put_user audit
  put_user-Follows admin payload none = Follows-same db _ (Stays-same db _ refl refl) refl refl
  put_user-Follows admin payload (some target) =
      Follows-same db _ (Stays-same db _ refl refl) refl refl

  pub provision_user-Follows :
      (user : User) (subject : String) (payload : UserProvision) (result : User × Db)
      → provision_user env user subject payload db ≡ ok result
      → Follows db result.1
  unfolding provision_user
  provision_user-Follows user subject payload result e =
      let (admin, a, b) = bind-ok (require_roles (Role.platform_admin ∷ []) user) _ result e in
      let (same, c) = guard-ok _ 422 "subject path and body must match" _ result b in
      subst (λ (x : User × Db). Follows db x.1) (ok-injective _ result c)
        (put_user-Follows admin payload (find (has_subject subject) db.users))

  pub add_profile-Follows :
      (user : User) (payload : ProfileCreate) (result : ScanProfile × Db)
      → add_profile env user payload db ≡ ok result
      → Follows db result.1
  unfolding add_profile
  add_profile-Follows user payload result e =
      let (admin, a, b) = bind-ok (require_roles (Role.platform_admin ∷ []) user) _ result e in
      subst (λ (x : ScanProfile × Db). Follows db x.1) (ok-injective _ result b)
        (insert_profile-Follows env admin db payload
          (next_version (latest_profile payload.name db)))
