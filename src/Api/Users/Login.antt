-- ===== src/Api/Users/Login.antt =====
-- A user that has been provisioned logs in.
use transport_lookout.Prelude.{
  String, true, false, not, ◌≡◌, refl, subst, ◌∙◌, Option, none, some, List, [], ◌∷◌, ◌++◌, arith,
  ◌==◌, string_eq, eq_iff, find, find-modify,
}
use transport_lookout.Config.{Env}
use transport_lookout.Http.{ok, guard-ok, bind-ok, ok-injective}
use transport_lookout.Model.{Db, User, Role}
use transport_lookout.Audit.{audit}
use transport_lookout.Text.{is_empty, remove_prefix}
use transport_lookout.Schemas.{UserProvision}
use transport_lookout.Auth.{
  AuthSettings, has_subject, is_bootstrap, is_oidc, current_user, require_roles,
}
use transport_lookout.Api.Users.{provision_user, put_user, audit_user, new_user, with_role}

find-added :
    (subject : String) (u : User) (users : List User)
    → find (has_subject subject) users ≡ none
    → has_subject subject u ≡ true
    → find (has_subject subject) (users ++ u ∷ []) ≡ some u
unfolding find
find-added subject u [] e t = rw t refl
find-added subject u (x ∷ xs) e t = ground (arith, e, t, find-added subject u xs)

module _ (env : Env) (payload : UserProvision) (db : Db) where
  -- The row of the subject after the write.
  put_user-find :
      (caller : User) (found : Option User)
      → find (has_subject payload.subject) db.users ≡ found
      → let stored = audit_user env caller (put_user env payload found db) in
        (find (has_subject payload.subject) stored.1.users ≡ some stored.0)
        × (stored.0.role ≡ payload.role)
  unfolding put_user audit
  put_user-find caller none e = (
    find-added payload.subject (new_user env payload db) db.users e
        ((eq_iff payload.subject payload.subject).1 refl),
    refl,
  )
  put_user-find caller (some target) e = (
    find-modify (λ (u : User). u.subject) payload.subject (λ u. u.id == target.id)
          (with_role payload.role) db.users (λ u. refl)
        ∙ rw (e, (eq_iff target.id target.id).1 refl) refl,
    refl,
  )

  module _ (auth : AuthSettings) (validate_oidc_token : String → Option (Option String)) where
    logs_in :
        (subject authorization : String) (target : User) (d : Db)
        → find (has_subject subject) d.users ≡ some target
        → is_bootstrap auth authorization ≡ false
        → is_oidc auth authorization ≡ true
        → is_empty subject ≡ false
        → validate_oidc_token (remove_prefix "Bearer " authorization) ≡ some (some subject)
        → current_user env auth validate_oidc_token authorization d ≡ ok (target, d)
    unfolding current_user remove_prefix
    logs_in subject authorization target d found local oidc named valid =
        rw (local, oidc, valid, named, found) refl

    -- A user is provisioned, and then sends a token that is valid for that subject, which is not
    -- empty, where tokens are accepted and this one is not the bootstrap token: the user is logged in
    -- as the row that the request returned, which has the role that was asked for.
    pub current_user-provision_user :
        (admin : User) (subject authorization : String) (target : User) (db' : Db)
        → provision_user env admin subject payload db ≡ ok (target, db')
        → is_bootstrap auth authorization ≡ false
        → is_oidc auth authorization ≡ true
        → is_empty subject ≡ false
        → validate_oidc_token (remove_prefix "Bearer " authorization) ≡ some (some subject)
        → (current_user env auth validate_oidc_token authorization db' ≡ ok (target, db'))
          × (target.role ≡ payload.role)
    unfolding provision_user
    current_user-provision_user admin subject authorization target db' e local oidc named valid =
        let (caller, a, b) =
          bind-ok (require_roles (Role.platform_admin ∷ []) admin) _ (target, db') e in
        let (same, c) =
          guard-ok (not (subject == payload.subject)) 422 "subject path and body must match" _
            (target, db') b in
        let s : subject ≡ payload.subject =
          (eq_iff subject payload.subject).0 (ground (arith, same)) in
        let stored = ok-injective _ (target, db') c in
        let (found, role) =
          subst
            (λ (x : User × Db).
              (find (has_subject payload.subject) x.1.users ≡ some x.0) × (x.0.role ≡ payload.role))
            (rw s at stored)
            (put_user-find caller (find (has_subject payload.subject) db.users) refl) in
        (logs_in subject authorization target db' (rw s found) local oidc named valid, role)
