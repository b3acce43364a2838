-- ===== src/Tests/Requests.antt =====
-- A scope is deleted, and then a user is provisioned.
use transport_lookout.Prelude.{
  ◌⊎◌, ◌≡◌, arith, eq_iff, string_eq, refl, [], ◌∷◌, inl, inr, ap, none, find, delete, modify, sym,
}
use transport_lookout.Model.{Db, User, Role, ScanRun, text}
use transport_lookout.Audit.{audit}
use transport_lookout.Auth.{require_roles}
use transport_lookout.Schemas.{UserProvision}
use transport_lookout.Api.Scopes.{delete_scope}
use transport_lookout.Api.Users.{provision_user, put_user, audit_user}
use transport_lookout.Api.References.{HasReferences}
use transport_lookout.Api.References.Requests.{
  Request, Requests, deletes_scope, provisions_user, none_yet, and_then, Requests-HasReferences,
}
use transport_lookout.Api.Unique.{IsUnique}
use transport_lookout.Api.Unique.Requests.{Requests-IsUnique}
use transport_lookout.Http.{ok}
use transport_lookout.Api.Approval.{ApprovedBefore}
use transport_lookout.Api.Approval.Requests.{IsApproval, Request-IsApproval}
use transport_lookout.Api.Permissions.{IsPermitted, Request-IsPermitted}
use transport_lookout.Tests.Data.{env, db, scope, profile}

abbrev admin : User
admin = record { id = "1"; subject = "eve"; role = Role.platform_admin }

abbrev spare_scope : Db
spare_scope = record db {
  scopes = scope ∷ record scope { id = "spare"; name = "spare"; cidr = "10.1.0.0/24" } ∷ [];
}

spare_scope-HasReferences : HasReferences spare_scope
spare_scope-HasReferences = record {
  runs_refer = λ r m. elim m [
    | inl e ↦ (
      (scope, inl refl, ap (λ (x : ScanRun). x.inventory_scope_id) (sym e)),
      (profile, inl refl, ap (λ (x : ScanRun). x.profile_id) (sym e)),
    )
    | inr n ↦ absurd n
  ];
  schedules_refer = λ c m. absurd m;
}

abbrev deleted : Db
deleted =
    audit env "eve" "inventory_scope.deleted" "inventory_scope" "spare"
      (record { key = "name"; value = text "spare" }
        ∷ record { key = "cidr"; value = text "10.1.0.0/24" }
        ∷ [])
      (record spare_scope { scopes = scope ∷ [] })

abbrev bob : UserProvision
bob = record { subject = "bob"; role = Role.auditor }

abbrev provisioned : User × Db
provisioned = audit_user env admin (put_user env bob none deleted)

spare_deleted : delete_scope env admin "spare" spare_scope ≡ ok deleted
unfolding delete_scope find delete require_roles audit
spare_deleted = refl

served_both : Requests env spare_scope provisioned.1
unfolding delete_scope find delete modify require_roles provision_user put_user audit
served_both =
    and_then (and_then none_yet (deletes_scope admin "spare" deleted refl))
      (provisions_user admin "bob" bob provisioned.0 provisioned.1 refl)

Requests-HasReferences_example : HasReferences provisioned.1
Requests-HasReferences_example =
    Requests-HasReferences env spare_scope provisioned.1 spare_scope-HasReferences served_both

spare_scope-IsUnique : IsUnique spare_scope
spare_scope-IsUnique = (
  (
    ((λ e. absurd (ground (arith, (eq_iff "lab" "spare").1 e)), tt), (tt, tt)),
    ((λ e. absurd (ground (arith, (eq_iff "10.0.0.0/23" "10.1.0.0/24").1 e)), tt), (tt, tt)),
  ),
  tt,
  tt,
  (tt, tt),
)

Requests-IsUnique_example : IsUnique provisioned.1
Requests-IsUnique_example =
    Requests-IsUnique env spare_scope provisioned.1 spare_scope-IsUnique served_both

abbrev deletion : Request env spare_scope deleted
deletion = deletes_scope admin "spare" deleted spare_deleted

Request-IsPermitted_example : IsPermitted deletion
Request-IsPermitted_example = Request-IsPermitted deletion

Request-IsApproval_example : ApprovedBefore spare_scope.scopes scope ⊎ IsApproval deletion scope
unfolding audit
Request-IsApproval_example = Request-IsApproval env spare_scope deletion scope (inl refl) refl
