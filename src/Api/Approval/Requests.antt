-- ===== src/Api/Approval/Requests.antt =====
-- Requests and the approval of scopes.
use transport_lookout.Prelude.{
  String, Bool, true, false, ◌≡◌, refl, ap, subst, ◌⊎◌, inl, inr, List, [], ◌∷◌, ◌==◌, string_eq,
  eq_iff, find, find-In, In, In-append, All-In,
}
use transport_lookout.Config.{Env}
use transport_lookout.Http.{ok, bind-ok, guard-ok, ok-injective}
use transport_lookout.Model.{Db, User, Role, InventoryScope}
use transport_lookout.Auth.{require_roles}
use transport_lookout.Auth.Inversion.{current_user_inversion}
use transport_lookout.Schemas.{ScopeCreate, FieldError}
use transport_lookout.Cidr.{parse_approved_cidr}
use transport_lookout.Cidr.Ipv4.{str_network}
use transport_lookout.Api.Scopes.{add_scope, approve_scope, delete_scope}
use transport_lookout.Api.Import.{CsvBody, import_scopes_csv}
use transport_lookout.Api.Profiles.{delete_profile}
use transport_lookout.Api.Schedules.{add_schedule, disable_schedule}
use transport_lookout.Api.Permissions.{Request-IsPermitted}
use transport_lookout.Api.References.Requests.{Request}
use transport_lookout.Api.Unique.Scopes.{import_scopes_csv-added}
use transport_lookout.Api.Unique.Requests.{add_run_lem, cancel_lem}
use transport_lookout.Api.Approval.{
  ApprovedBefore, ApprovesNone, same_scopes-ApprovesNone, insert_scope-ApprovesNone,
  delete_found-ApprovesNone, approve_found-Approves, provision_user-scopes, add_profile-scopes,
  delete_found_profile-scopes, add_in_zone-scopes, disable_found-scopes,
}

-- The request is an administrator's approval of this scope.
abbrev pub IsApproval : {env : Env} {db db' : Db} → Request env db db' → InventoryScope → Type 0
IsApproval (Request.approves_scope user scope_id scope db' e) s =
    (user.role ≡ Role.platform_admin) × (s.id ≡ scope_id)
IsApproval _ s = ⊥

module _ (env : Env) (db : Db) where
  add_scope-ApprovesNone :
      (is_ipv6 : String → Bool) (user : User) (payload : ScopeCreate) (result : InventoryScope × Db)
      → add_scope env is_ipv6 user payload db ≡ ok result
      → ApprovesNone db result.1
  unfolding add_scope
  add_scope-ApprovesNone is_ipv6 user payload result e =
      let (manager, a, b) =
        bind-ok (require_roles (Role.platform_admin ∷ Role.inventory_manager ∷ []) user) _ result
          e in
      let (network, c, d) = bind-ok (parse_approved_cidr env is_ipv6 payload.cidr) _ result b in
      let (new, f) = guard-ok _ 409 "scope name or CIDR already exists" _ result d in
      subst (λ (x : InventoryScope × Db). ApprovesNone db x.1) (ok-injective _ result f)
        (insert_scope-ApprovesNone env manager db payload (str_network network))

  import_scopes_csv-ApprovesNone :
      (is_ipv6 : String → Bool) (message : FieldError → String) (user : User) (body : CsvBody)
      (scopes : List InventoryScope) (db' : Db)
      → import_scopes_csv env is_ipv6 message user body db ≡ ok (scopes, db')
      → ApprovesNone db db'
  import_scopes_csv-ApprovesNone is_ipv6 message user body scopes db' e s m t =
      let (table, few, pending) =
        import_scopes_csv-added env is_ipv6 message user body db db' scopes e in
      elim (In-append s db.scopes scopes (rw table at m)) [
        | inl i ↦ (s, i, refl, t)
        | inr i ↦ absurd (let z = All-In (λ x. x.approved ≡ false) s scopes pending i in cc)
      ]

  delete_scope-ApprovesNone :
      (user : User) (scope_id : String) (db' : Db)
      → delete_scope env user scope_id db ≡ ok db'
      → ApprovesNone db db'
  unfolding delete_scope
  delete_scope-ApprovesNone user scope_id db' e =
      let (manager, a, b) =
        bind-ok (require_roles (Role.platform_admin ∷ Role.inventory_manager ∷ []) user) _ db' e in
      delete_found-ApprovesNone env manager db (find (λ s. s.id == scope_id) db.scopes) db' b

  approve_scope-Approves :
      (user : User) (scope_id : String) (scope : InventoryScope) (db' : Db)
      → approve_scope env user scope_id db ≡ ok (scope, db')
      → (s : InventoryScope) → In s db'.scopes
      → s.approved ≡ true
      → ApprovedBefore db.scopes s ⊎ (s.id ≡ scope_id)
  unfolding approve_scope
  approve_scope-Approves user scope_id scope db' e =
      let (admin, a, b) =
        bind-ok (require_roles (Role.platform_admin ∷ []) user) _ (scope, db') e in
      approve_found-Approves env admin db (find (λ s. s.id == scope_id) db.scopes) scope_id
        (scope, db')
        (λ x k. (eq_iff x.id scope_id).0 (find-In (λ s. s.id == scope_id) x db.scopes k).1) b

  delete_profile-scopes :
      (user : User) (profile_id : String) (db' : Db)
      → delete_profile env user profile_id db ≡ ok db'
      → db'.scopes ≡ db.scopes
  unfolding delete_profile
  delete_profile-scopes user profile_id db' e =
      let (admin, a, b) = bind-ok (require_roles (Role.platform_admin ∷ []) user) _ db' e in
      delete_found_profile-scopes env admin db (find (λ p. p.id == profile_id) db.profiles) db' b

  -- A scope that is approved after a served request was so before it, or the request is the approval of
  -- that scope, and its sender an administrator.
  pub Request-IsApproval :
      {db' : Db} (r : Request env db db') (s : InventoryScope)
      → In s db'.scopes
      → s.approved ≡ true
      → ApprovedBefore db.scopes s ⊎ IsApproval r s
  unfolding add_schedule disable_schedule
  Request-IsApproval (Request.authenticates auth validate authorization user db' e) s m t =
      elim (current_user_inversion env auth authorization user db db' validate e) [
        | inl q ↦ inl (same_scopes-ApprovesNone db db' (ap (λ (x : Db). x.scopes) q) s m t)
        | inr a ↦ inl (same_scopes-ApprovesNone db db' (ap (λ (x : Db). x.scopes) a.is_added) s m t)
      ]
  Request-IsApproval (Request.adds_scope is_ipv6 user payload scope db' e) s m t =
      inl (add_scope-ApprovesNone is_ipv6 user payload (scope, db') e s m t)
  Request-IsApproval (Request.imports_scopes is_ipv6 message user body scopes db' e) s m t =
      inl (import_scopes_csv-ApprovesNone is_ipv6 message user body scopes db' e s m t)
  Request-IsApproval (Request.approves_scope user scope_id scope db' e) s m t =
      elim (approve_scope-Approves user scope_id scope db' e s m t) [
        | inl a ↦ inl a
        | inr a ↦ inr (
          elim (Request-IsPermitted (Request.approves_scope user scope_id scope db' e)) [
            | inl k ↦ k
            | inr n ↦ absurd n
          ],
          a,
        )
      ]
  Request-IsApproval (Request.deletes_scope user scope_id db' e) s m t =
      inl (delete_scope-ApprovesNone user scope_id db' e s m t)
  Request-IsApproval (Request.provisions_user user subject payload target db' e) s m t =
      let q = provision_user-scopes env user db subject payload (target, db') e in
      inl (same_scopes-ApprovesNone db db' q s m t)
  Request-IsApproval (Request.adds_profile user payload profile db' e) s m t =
      let q = add_profile-scopes env user db payload (profile, db') e in
      inl (same_scopes-ApprovesNone db db' q s m t)
  Request-IsApproval (Request.deletes_profile user profile_id db' e) s m t =
      inl (same_scopes-ApprovesNone db db' (delete_profile-scopes user profile_id db' e) s m t)
  Request-IsApproval (Request.adds_schedule zone_info now user payload schedule db' e) s m t =
      let (operator, a, b) =
        bind-ok (require_roles (Role.platform_admin ∷ Role.scan_operator ∷ []) user) _
          (schedule, db') e in
      let q =
        add_in_zone-scopes env operator db now payload (zone_info payload.timezone) (schedule, db')
          b in
      inl (same_scopes-ApprovesNone db db' q s m t)
  Request-IsApproval (Request.disables_schedule user schedule_id schedule db' e) s m t =
      let (operator, a, b) =
        bind-ok (require_roles (Role.platform_admin ∷ Role.scan_operator ∷ []) user) _
          (schedule, db') e in
      let q =
        disable_found-scopes env operator db (find (λ c. c.id == schedule_id) db.schedules)
          (schedule, db') b in
      inl (same_scopes-ApprovesNone db db' q s m t)
  Request-IsApproval (Request.adds_run is_ipv6 now broker user payload run db' e) s m t =
      let q = add_run_lem env db is_ipv6 now broker user payload (run, db') e in
      inl (same_scopes-ApprovesNone db db' (ap (λ (x : Db). x.scopes) q) s m t)
  Request-IsApproval (Request.cancels_run now user run_id run db' e) s m t =
      let q = cancel_lem env db now user run_id (run, db') e in
      inl (same_scopes-ApprovesNone db db' (ap (λ (x : Db). x.scopes) q) s m t)
