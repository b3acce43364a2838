-- ===== src/Api/Approval.antt =====
-- How a scope becomes approved.
pub mod Requests
use transport_lookout.Prelude.{
  ℕ, String, Bool, true, false, not, ◌||◌, ◌≡◌, refl, sym, ap, subst, ◌∙◌, ◌⊎◌, inl, inr, Option,
  none, some, List, [], ◌∷◌, ◌++◌, arith, ◌==◌, string_eq, eq_iff, find, modify, delete, In,
  In-append, In-modify, In-delete, All, All-In, Bool-cases, is_none,
}
use transport_lookout.Config.{Env}
use transport_lookout.Http.{ok, guard-ok, bind-ok, ok-injective}
use transport_lookout.Model.{Db, User, Role, InventoryScope, ScanProfile, ScanSchedule}
use transport_lookout.Audit.{audit}
use transport_lookout.Schemas.{
  ScopeCreate, ProfileCreate, ScheduleCreate, UserProvision, FieldError,
}
use transport_lookout.Api.Scopes.{
  insert_scope, approved_scope, approve_found, delete_found, has_runs, has_schedules,
}
use transport_lookout.Auth.{require_roles, has_subject}
use transport_lookout.Api.Users.{provision_user, put_user, audit_user}
use transport_lookout.Api.Profiles.{
  add_profile, insert_profile, delete_found_profile, profile_has_runs, profile_has_schedules,
}
use transport_lookout.Api.Schedules.{
  ZoneLookup, add_in_zone, add_for, insert_schedule, disable_found,
}

-- An approved scope was approved before.
abbrev pub ApprovedBefore : List InventoryScope → InventoryScope → Type 0
ApprovedBefore scopes s = (x : InventoryScope) × In x scopes × (x.id ≡ s.id) × (x.approved ≡ true)

abbrev pub ApprovesNone : Db → Db → Type 0
ApprovesNone db db' =
    (s : InventoryScope) → In s db'.scopes → s.approved ≡ true → ApprovedBefore db.scopes s

pub same_scopes-ApprovesNone : (db db' : Db) → db'.scopes ≡ db.scopes → ApprovesNone db db'
same_scopes-ApprovesNone db db' e s m t = (s, rw e at m, refl, t)

module _ (env : Env) (user : User) (db : Db) where
  pub insert_scope-ApprovesNone :
      (payload : ScopeCreate) (cidr : String)
      → ApprovesNone db (insert_scope env user payload cidr db).1
  unfolding insert_scope audit
  insert_scope-ApprovesNone payload cidr s m t = elim (In-append s db.scopes _ m) [
    | inl i ↦ (s, i, refl, t)
    | inr i ↦ elim i [
      | inl k ↦ absurd (let z = ap (λ (x : InventoryScope). x.approved) k in cc)
      | inr n ↦ absurd n
    ]
  ]

  pub delete_found-ApprovesNone :
      (found : Option InventoryScope) (db' : Db)
      → delete_found env user found db ≡ ok db'
      → ApprovesNone db db'
  unfolding audit
  delete_found-ApprovesNone none db' e = absurd (cc)
  delete_found-ApprovesNone (some scope) db' e =
      let (free, stored) =
        guard-ok (has_runs db scope.id || has_schedules db scope.id) 409
          "scope cannot be deleted while runs or schedules reference it" _ db' e in
      subst (ApprovesNone db) (ok-injective _ db' stored)
        (λ s m t. (s, (In-delete (λ x. x.id == scope.id) s db.scopes m).0, refl, t))

  -- The only scope that an approval approves is the one that it names.
  pub approve_found-Approves :
      (found : Option InventoryScope) (scope_id : String) (result : InventoryScope × Db)
      → ((x : InventoryScope) → found ≡ some x → x.id ≡ scope_id)
      → approve_found env user found db ≡ ok result
      → (s : InventoryScope) → In s result.1.scopes
      → s.approved ≡ true
      → ApprovedBefore db.scopes s ⊎ (s.id ≡ scope_id)
  unfolding audit
  approve_found-Approves none scope_id result named e s m t = absurd (cc)
  approve_found-Approves (some scope) scope_id result named e s m t =
      let stored : modify (λ x. x.id == scope.id) approved_scope db.scopes ≡ result.1.scopes =
        ap (λ (x : InventoryScope × Db). x.1.scopes) (ok-injective _ result e) in
      let (x, n, k) =
        In-modify (λ x. x.id == scope.id) approved_scope s db.scopes (rw (← stored) at m) in
      elim k [
        | inl (a, b) ↦
            inr (
              ap (λ (y : InventoryScope). y.id) b ∙ ((eq_iff x.id scope.id).0 a ∙ named scope refl))
        | inr (a, b) ↦ inl (s, subst (λ y. In y db.scopes) (sym b) n, refl, t)
      ]

  put_user-scopes :
      (caller : User) (payload : UserProvision) (found : Option User)
      → (audit_user env caller (put_user env payload found db)).1.scopes ≡ db.scopes
  unfolding put_user audit
  put_user-scopes caller payload none = refl
  put_user-scopes caller payload (some target) = refl

  pub provision_user-scopes :
      (subject : String) (payload : UserProvision) (result : User × Db)
      → provision_user env user subject payload db ≡ ok result
      → result.1.scopes ≡ db.scopes
  unfolding provision_user
  provision_user-scopes subject payload result e =
      let (admin, a, b) = bind-ok (require_roles (Role.platform_admin ∷ []) user) _ result e in
      let (same, c) = guard-ok _ 422 "subject path and body must match" _ result b in
      sym (ap (λ (x : User × Db). x.1.scopes) (ok-injective _ result c))
      ∙ put_user-scopes admin payload (find (has_subject subject) db.users)

  pub add_profile-scopes :
      (payload : ProfileCreate) (result : ScanProfile × Db)
      → add_profile env user payload db ≡ ok result
      → result.1.scopes ≡ db.scopes
  unfolding add_profile insert_profile audit
  add_profile-scopes payload result e =
      let (admin, a, b) = bind-ok (require_roles (Role.platform_admin ∷ []) user) _ result e in
      sym (ap (λ (x : ScanProfile × Db). x.1.scopes) (ok-injective _ result b))

  pub delete_found_profile-scopes :
      (found : Option ScanProfile) (db' : Db)
      → delete_found_profile env user found db ≡ ok db'
      → db'.scopes ≡ db.scopes
  unfolding audit
  delete_found_profile-scopes none db' e = absurd (cc)
  delete_found_profile-scopes (some profile) db' e =
      let (free, stored) =
        guard-ok (profile_has_runs db profile.id || profile_has_schedules db profile.id) 409
          "profile cannot be deleted while runs or schedules reference it" _ db' e in
      sym (ap (λ (x : Db). x.scopes) (ok-injective _ db' stored))

  add_for-scopes :
      (now : ℕ) (payload : ScheduleCreate) (scope : Option InventoryScope)
      (profile : Option ScanProfile) (result : ScanSchedule × Db)
      → add_for env now user payload scope profile db ≡ ok result
      → result.1.scopes ≡ db.scopes
  unfolding insert_schedule audit
  add_for-scopes now payload none none result e = absurd (cc)
  add_for-scopes now payload none (some profile) result e = absurd (cc)
  add_for-scopes now payload (some scope) none result e = absurd (cc)
  add_for-scopes now payload (some scope) (some profile) result e =
      let (fits, b) = guard-ok _ 422 _ _ result e in
      let (new, c) = guard-ok _ 409 "schedule name already exists" _ result b in
      sym (ap (λ (x : ScanSchedule × Db). x.1.scopes) (ok-injective _ result c))

  pub add_in_zone-scopes :
      (now : ℕ) (payload : ScheduleCreate) (zone : ZoneLookup) (result : ScanSchedule × Db)
      → add_in_zone env now user payload zone db ≡ ok result
      → result.1.scopes ≡ db.scopes
  add_in_zone-scopes now payload ZoneLookup.unknown result e = absurd (cc)
  add_in_zone-scopes now payload ZoneLookup.refused result e = absurd (cc)
  add_in_zone-scopes now payload ZoneLookup.known result e =
      add_for-scopes now payload (find (λ s. s.id == payload.inventory_scope_id) db.scopes)
        (find (λ p. p.id == payload.profile_id) db.profiles) result e

  pub disable_found-scopes :
      (found : Option ScanSchedule) (result : ScanSchedule × Db)
      → disable_found env user found db ≡ ok result
      → result.1.scopes ≡ db.scopes
  unfolding audit
  disable_found-scopes none result e = absurd (cc)
  disable_found-scopes (some schedule) result e =
      sym (ap (λ (x : ScanSchedule × Db). x.1.scopes) (ok-injective _ result e))
