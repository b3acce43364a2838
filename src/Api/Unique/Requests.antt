-- ===== src/Api/Unique/Requests.antt =====
-- The unique constraints through any sequence of requests.
use transport_lookout.Prelude.{
  ℕ, String, Bool, ◌≡◌, refl, ap, sym, subst, ◌∙◌, inl, inr, arith, eq_iff, find-none, Distinct-add,
  Option, none, some, List, [], ◌∷◌, ◌==◌, string_eq, find,
}
use transport_lookout.Config.{Env}
use transport_lookout.Http.{ok, guard-ok, bind-ok, ok-injective}
use transport_lookout.Model.{Db, User, Role, InventoryScope, ScanProfile, ScanRun}
use transport_lookout.Audit.{audit}
use transport_lookout.Auth.{require_roles, has_subject, added_bootstrap}
use transport_lookout.Auth.Inversion.{current_user_inversion}
use transport_lookout.Outbox.{Broker}
use transport_lookout.Dispatch.Tables.{dispatch_available_shards-SameTables}
use transport_lookout.Cancel.{cancel_run}
use transport_lookout.Runs.{create_run, insert_run}
use transport_lookout.Runs.Shards.{create_run_inversion}
use transport_lookout.Schemas.{RunCreate, FieldError}
use transport_lookout.Api.Import.{CsvBody, import_scopes_csv}
use transport_lookout.Api.Runs.{RunRead, add_run, add_run_for, cancel, cancel_found, read_result}
use transport_lookout.Api.References.Requests.{Request, Requests}
use transport_lookout.Api.Unique.{IsUnique, subject_of, keyed_tables, same_keyed-IsUnique}
use transport_lookout.Api.Unique.Scopes.{import_scopes_csv-UniqueScopes, import_scopes_csv_lem}
use transport_lookout.Api.Unique.Handlers.{
  add_scope-IsUnique, approve_scope-IsUnique, delete_scope-IsUnique, provision_user-IsUnique,
  add_profile-IsUnique, delete_profile-IsUnique, add_schedule-IsUnique, disable_schedule-IsUnique,
}

module _ (env : Env) (db : Db) where
  insert_run_lem :
      (now : ℕ) (scope : InventoryScope) (profile : ScanProfile) (actor : String)
      (cidrs : List String)
      → keyed_tables (insert_run env now scope profile actor cidrs db) ≡ keyed_tables db
  unfolding insert_run audit
  insert_run_lem now scope profile actor cidrs = refl

  create_run_lem :
      (is_ipv6 : String → Bool) (now : ℕ) (broker : Broker) (scope : InventoryScope)
      (profile : ScanProfile) (actor : String) (result : ScanRun × Db)
      → create_run env is_ipv6 now broker scope profile actor db ≡ ok result
      → keyed_tables result.1 ≡ keyed_tables db
  create_run_lem is_ipv6 now broker scope profile actor (run, db') e =
      let (a, z, (cidrs, c, r, q)) =
        create_run_inversion env now scope profile actor is_ipv6 broker run db db' e in
      let dispatched =
        dispatch_available_shards-SameTables env now broker (env.uuid4 db.drawn)
          (insert_run env now scope profile actor cidrs db) in
      ap keyed_tables q
      ∙ (ap keyed_tables dispatched ∙ insert_run_lem now scope profile actor cidrs)

  add_run_for_lem :
      (is_ipv6 : String → Bool) (now : ℕ) (broker : Broker) (user : User)
      (scope : Option InventoryScope) (profile : Option ScanProfile) (result : RunRead × Db)
      → add_run_for env is_ipv6 now broker user scope profile db ≡ ok result
      → keyed_tables result.1 ≡ keyed_tables db
  add_run_for_lem is_ipv6 now broker user none none result e = absurd (cc)
  add_run_for_lem is_ipv6 now broker user none (some profile) result e = absurd (cc)
  add_run_for_lem is_ipv6 now broker user (some scope) none result e = absurd (cc)
  add_run_for_lem is_ipv6 now broker user (some scope) (some profile) result e =
      let (created, a, b) =
        bind-ok (create_run env is_ipv6 now broker scope profile user.subject db) _ result e in
      sym (ap (λ x. keyed_tables x.1) (ok-injective (read_result created) result b))
      ∙ create_run_lem is_ipv6 now broker scope profile user.subject created a

  pub add_run_lem :
      (is_ipv6 : String → Bool) (now : ℕ) (broker : Broker) (user : User) (payload : RunCreate)
      (result : RunRead × Db)
      → add_run env is_ipv6 now broker user payload db ≡ ok result
      → keyed_tables result.1 ≡ keyed_tables db
  unfolding add_run
  add_run_lem is_ipv6 now broker user payload result e =
      let (operator, a, b) =
        bind-ok (require_roles (Role.platform_admin ∷ Role.scan_operator ∷ []) user) _ result e in
      add_run_for_lem is_ipv6 now broker operator
        (find (λ s. s.id == payload.inventory_scope_id) db.scopes)
        (find (λ p. p.id == payload.profile_id) db.profiles) result b

  cancel_run_lem :
      (now : ℕ) (run : ScanRun) (actor : String) (result : ScanRun × Db)
      → cancel_run env now run actor db ≡ ok result
      → keyed_tables result.1 ≡ keyed_tables db
  unfolding cancel_run audit
  cancel_run_lem now run actor result e =
      let (open_run, stored) = guard-ok _ 409 "run is already terminal" _ result e in
      sym (ap (λ x. keyed_tables x.1) (ok-injective _ result stored))

  cancel_found_lem :
      (now : ℕ) (user : User) (run : Option ScanRun) (result : RunRead × Db)
      → cancel_found env now user run db ≡ ok result
      → keyed_tables result.1 ≡ keyed_tables db
  cancel_found_lem now user none result e = absurd (cc)
  cancel_found_lem now user (some run) result e =
      let (cancelled, a, b) = bind-ok (cancel_run env now run user.subject db) _ result e in
      sym (ap (λ x. keyed_tables x.1) (ok-injective (read_result cancelled) result b))
      ∙ cancel_run_lem now run user.subject cancelled a

  pub cancel_lem :
      (now : ℕ) (user : User) (run_id : String) (result : RunRead × Db)
      → cancel env now user run_id db ≡ ok result
      → keyed_tables result.1 ≡ keyed_tables db
  unfolding cancel
  cancel_lem now user run_id result e =
      let (operator, a, b) =
        bind-ok (require_roles (Role.platform_admin ∷ Role.scan_operator ∷ []) user) _ result e in
      cancel_found_lem now operator (find (λ r. r.id == run_id) db.runs) result b

  import_scopes_csv-IsUnique :
      (is_ipv6 : String → Bool) (message : FieldError → String) (user : User) (body : CsvBody)
      (scopes : List InventoryScope) (db' : Db)
      → IsUnique db
      → import_scopes_csv env is_ipv6 message user body db ≡ ok (scopes, db')
      → IsUnique db'
  import_scopes_csv-IsUnique is_ipv6 message user body scopes db' (s, u, c, p) e =
      let (table, t, few, pending) =
        import_scopes_csv-UniqueScopes env is_ipv6 message user body db db' scopes s e in
      let (users, schedules, profiles) =
        import_scopes_csv_lem env is_ipv6 message user body db db' scopes e in
      (t, rw users u, rw schedules c, rw profiles p)

  added_bootstrap-IsUnique :
      IsUnique db
      → find (has_subject "bootstrap-admin") db.users ≡ none
      → IsUnique (added_bootstrap env db)
  added_bootstrap-IsUnique (s, u, c, p) new = (
    s,
    Distinct-add subject_of _ db.users u (λ x m k.
        let other = find-none (has_subject "bootstrap-admin") x db.users new m in
        ground (arith, other, (eq_iff x.subject "bootstrap-admin").1 k)),
    c,
    p,
  )

  Request-IsUnique : {db' : Db} → IsUnique db → Request env db db' → IsUnique db'
  Request-IsUnique u (Request.authenticates auth validate authorization user db' e) =
      elim (current_user_inversion env auth authorization user db db' validate e) [
        | inl q ↦ subst IsUnique (sym q) u
        | inr a ↦ subst IsUnique (sym a.is_added) (added_bootstrap-IsUnique u a.is_new)
      ]
  Request-IsUnique u (Request.adds_scope is_ipv6 user payload scope db' e) =
      add_scope-IsUnique env db u is_ipv6 user payload (scope, db') e
  Request-IsUnique u (Request.imports_scopes is_ipv6 message user body scopes db' e) =
      import_scopes_csv-IsUnique is_ipv6 message user body scopes db' u e
  Request-IsUnique u (Request.approves_scope user scope_id scope db' e) =
      approve_scope-IsUnique env db u user scope_id (scope, db') e
  Request-IsUnique u (Request.deletes_scope user scope_id db' e) =
      delete_scope-IsUnique env db u user scope_id db' e
  Request-IsUnique u (Request.provisions_user user subject payload target db' e) =
      provision_user-IsUnique env db u user subject payload (target, db') e
  Request-IsUnique u (Request.adds_profile user payload profile db' e) =
      add_profile-IsUnique env db u user payload (profile, db') e
  Request-IsUnique u (Request.deletes_profile user profile_id db' e) =
      delete_profile-IsUnique env db u user profile_id db' e
  Request-IsUnique u (Request.adds_schedule zone_info now user payload schedule db' e) =
      add_schedule-IsUnique env db u zone_info now user payload (schedule, db') e
  Request-IsUnique u (Request.disables_schedule user schedule_id schedule db' e) =
      disable_schedule-IsUnique env db u user schedule_id (schedule, db') e
  Request-IsUnique u (Request.adds_run is_ipv6 now broker user payload run db' e) =
      same_keyed-IsUnique db db' (add_run_lem is_ipv6 now broker user payload (run, db') e) u
  Request-IsUnique u (Request.cancels_run now user run_id run db' e) =
      same_keyed-IsUnique db db' (cancel_lem now user run_id (run, db') e) u

module _ (env : Env) where
  -- Through any sequence of requests that are served one after another, authentication included, no two scopes have one name
  -- or one network, no two users one subject, no two schedules one name, and no two profiles one name
  -- and version.
  pub Requests-IsUnique : (db db' : Db) → IsUnique db → Requests env db db' → IsUnique db'
  Requests-IsUnique db db' u Requests.none_yet = u
  Requests-IsUnique db db' u (Requests.and_then {db' = before} r s) =
      Request-IsUnique env before (Requests-IsUnique db before u r) s
